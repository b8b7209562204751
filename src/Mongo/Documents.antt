-- ===== src/Mongo/Documents.antt =====
-- How internal/storage/mongo prepares the documents that it writes.
use yaralpho.Base.{Bool, true, false, none, some, List, map, if◌then◌else◌}
use yaralpho.Base.Int.{ℤ, pos, negsuc}
use yaralpho.Storage.Models.{
  Repository, Agent, AgentStatus, Batch, BatchItem, BatchStatus, ItemStatus, TaskRun, TaskRunStatus,
  Time, is_zero,
}

unfoldable pub item_status_or_pending : ItemStatus → ItemStatus
item_status_or_pending ItemStatus.unset = ItemStatus.pending
item_status_or_pending ItemStatus.pending = ItemStatus.pending
item_status_or_pending ItemStatus.in_progress = ItemStatus.in_progress
item_status_or_pending ItemStatus.done = ItemStatus.done
item_status_or_pending ItemStatus.failed = ItemStatus.failed
item_status_or_pending (ItemStatus.other s) = ItemStatus.other s

unfoldable pub not_negative : ℤ → ℤ
not_negative (pos n) = pos n
not_negative (negsuc n) = pos 0

-- One turn of the loop over the items of a batch.
unfoldable pub normalize_item : BatchItem → BatchItem
unfolding item_status_or_pending not_negative
normalize_item i = record i {
  status = item_status_or_pending i.status;
  attempts = not_negative i.attempts;
}

-- The loop over the items of a batch.
unfoldable pub normalize_items : List BatchItem → List BatchItem
unfolding normalize_item
normalize_items items = map normalize_item items

unfoldable pub batch_status_or_pending : BatchStatus → BatchStatus
batch_status_or_pending BatchStatus.unset = BatchStatus.pending
batch_status_or_pending BatchStatus.pending = BatchStatus.pending
batch_status_or_pending BatchStatus.in_progress = BatchStatus.in_progress
batch_status_or_pending BatchStatus.paused = BatchStatus.paused
batch_status_or_pending BatchStatus.done = BatchStatus.done
batch_status_or_pending BatchStatus.failed = BatchStatus.failed
batch_status_or_pending (BatchStatus.other s) = BatchStatus.other s

unfoldable pub agent_status_or_idle : AgentStatus → AgentStatus
agent_status_or_idle AgentStatus.unset = AgentStatus.idle
agent_status_or_idle AgentStatus.idle = AgentStatus.idle
agent_status_or_idle AgentStatus.busy = AgentStatus.busy
agent_status_or_idle (AgentStatus.other s) = AgentStatus.other s

-- The creation time, which is now where it is not set.
unfoldable pub created : Time → Time → Time
created now t = if is_zero t then now else t

-- What `CreateBatch` inserts.
unfoldable pub new_batch : Time → Batch → Batch
unfolding normalize_items batch_status_or_pending created
new_batch now b = record b {
  created_at = created now b.created_at;
  updated_at = now;
  status = batch_status_or_pending b.status;
  items = normalize_items b.items;
}

-- What `UpdateBatch` sets.
unfoldable pub changed_batch : Time → Batch → Batch
unfolding normalize_items
changed_batch now b = record b { items = normalize_items b.items; updated_at = now }

-- What `CreateAgent` and `CreateRepository` insert.
unfoldable pub new_agent : Time → Agent → Agent
unfolding agent_status_or_idle created
new_agent now a = record a {
  created_at = created now a.created_at;
  updated_at = now;
  status = agent_status_or_idle a.status;
}

unfoldable pub new_repository : Time → Repository → Repository
unfolding created
new_repository now r = record r { created_at = created now r.created_at; updated_at = now }

-- The statuses for which `UpdateTaskRun` sets the time of the end.
unfoldable pub is_over : TaskRunStatus → Bool
is_over TaskRunStatus.succeeded = true
is_over TaskRunStatus.failed = true
is_over TaskRunStatus.stopped = true
is_over _ = false

unfoldable pub finished_run : Time → TaskRun → TaskRun
unfolding is_over
finished_run now r = elim r.finished_at [
  | some t ↦ r
  | none ↦ if is_over r.status then record r { finished_at = some now } else r
]
