-- ===== src/Scheduler/Select.antt =====
-- internal/scheduler/scheduler.go: the choice of an agent, a batch and an item.
use yaralpho.Base.{ℕ, suc, Bool, true, false, Option, none, some, List, [], ◌∷◌, if◌then◌else◌}
use yaralpho.Storage.Models.{BatchStatus, ItemStatus, BatchItem, Batch, Agent, is_done, is_idle}

unfoldable pub first_idle_agent : List Agent → Option Agent
first_idle_agent [] = none
first_idle_agent (a ∷ rest) = if is_idle a.status then some a else first_idle_agent rest

-- The `switch` of one round of `nextPendingIndex`; `none` is the index -1.
unfoldable pub visit_item : ℕ → ItemStatus → Option ℕ × Bool → Option ℕ × Bool
visit_item i ItemStatus.in_progress (idx, busy) = (idx, true)
visit_item i ItemStatus.pending (none, busy) = (some i, busy)
visit_item i ItemStatus.pending (some j, busy) = (some j, busy)
visit_item i _ found = found

unfoldable pub next_pending_from : ℕ → Option ℕ × Bool → List BatchItem → Option ℕ × Bool
unfolding visit_item
next_pending_from i found [] = found
next_pending_from i found (x ∷ xs) = next_pending_from (suc i) (visit_item i x.status found) xs

unfoldable pub next_pending_index : List BatchItem → Option ℕ × Bool
unfolding next_pending_from
next_pending_index items = next_pending_from 0 (none, false) items

unfoldable pub all_items_done : List BatchItem → Bool
all_items_done [] = true
all_items_done (x ∷ xs) = if is_done x.status then all_items_done xs else false

-- The statuses at which the loop of `Tick` goes on to the next batch.
abbrev pub is_closed : BatchStatus → Bool
is_closed BatchStatus.paused = true
is_closed BatchStatus.failed = true
is_closed BatchStatus.done = true
is_closed _ = false

-- The item that the loop's guards let through, if they let one through.
unfoldable pub eligible_item : Batch → Option ℕ
eligible_item b =
    if is_closed b.status
    then none
    else let (idx, busy) = next_pending_index b.items in if busy then none else idx

-- The loop of `Tick` up to the claim: what comes after it always returns.
unfoldable pub select : List Batch → Option (Batch × ℕ)
select [] = none
select (b ∷ rest) = elim (eligible_item b) [ none ↦ select rest | some i ↦ some (b, i) ]
