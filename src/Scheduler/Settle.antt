-- ===== src/Scheduler/Settle.antt =====
-- internal/scheduler/scheduler.go: what a tick writes into the batch that it has chosen.
use yaralpho.Base.{ℕ, Bool, false, none, some, List, modify, get_elem?, if◌then◌else◌}
use yaralpho.Base.Int.{ℤ, succ, leb_ℤ}
use yaralpho.Storage.Models.{BatchStatus, ItemStatus, BatchItem, Batch}
use yaralpho.Scheduler.Select.{all_items_done}

abbrev pub with_status : ItemStatus → BatchItem → BatchItem
with_status s x = record x { status = s }

-- The batch and item `i` of it, both `in_progress`.
unfoldable pub claim : ℕ → Batch → Batch
claim i b = record b {
  status = BatchStatus.in_progress;
  items = modify b.items i (with_status ItemStatus.in_progress);
}

-- The best-effort rollback after a refused agent.
unfoldable pub rollback : ℕ → Batch → Batch
rollback i b = record b {
  status = BatchStatus.pending;
  items = modify b.items i (with_status ItemStatus.pending);
}

-- The item after an attempt: done, to be tried again, or given up.
unfoldable pub settle_item : ℤ → Bool → BatchItem → BatchItem
settle_item max_retries failed x =
    let attempts = succ x.attempts in
    record x {
      attempts = attempts;
      status =
          if failed
          then (if leb_ℤ max_retries attempts then ItemStatus.failed else ItemStatus.pending)
          else ItemStatus.done;
    }

-- `pendingItem.Attempts >= s.maxRetries`, after the increment.
unfoldable pub exhausted : ℤ → ℕ → List BatchItem → Bool
exhausted max_retries i items = elim (get_elem? items i) [
  | none ↦ false
  | some x ↦ leb_ℤ max_retries x.attempts
]

-- The batch after an attempt on item `i`.
unfoldable pub settle : ℤ → Bool → ℕ → Batch → Batch
unfolding exhausted settle_item
settle max_retries failed i b =
    let items = modify b.items i (settle_item max_retries failed) in
    record b {
      items = items;
      status =
          if failed
          then (if exhausted max_retries i items then BatchStatus.failed else BatchStatus.pending)
          else (if all_items_done items then BatchStatus.done else BatchStatus.pending);
    }
