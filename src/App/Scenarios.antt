-- ===== src/App/Scenarios.antt =====
-- A storage of batches in memory, and the handlers of internal/app at work on it.
use yaralpho.Base.{
  ◌↔◌, ℕ, ◌≡◌, refl, ◌⊎◌, inl, inr, arith, ◌≤◌, true, false, Option, none, some, List, [], ◌∷◌,
  deadline_exceeded, All,
}
use yaralpho.Base.Int.{pos, ◌<ℤ◌}
use yaralpho.Storage.Models.{Batch, BatchItem, BatchStatus, ItemStatus}
use yaralpho.Settings.Load.{no_values}
use yaralpho.Scheduler.State.{Scheduler, State}
use yaralpho.Scheduler.Select.{eligible_item}
use yaralpho.Scheduler.Selection.{NotBusy}
use yaralpho.Scheduler.Invariant.{IsSound, IsItemSound, busy_count, any_failed}
use yaralpho.Scheduler.Tick.{tick}
use yaralpho.App.Http.{Handler, write_json, empty}
use yaralpho.App.Batches.{pause_batch, restarted, first_failed, AddBatchRequest}
use yaralpho.App.Batches.Transitions.{Outcome, Pauses}
use yaralpho.App.Batches.Moves.{pause_batch-Outcome}
use yaralpho.App.Batches.Restart.{restarted-eligible}
use yaralpho.App.Batches.Created.{Created}
use yaralpho.App.Agents.{AgentRequest}
use yaralpho.App.Drain.{Server, Beside, restart_handler, wait_of, scheduler_options_from_config}
use yaralpho.App.Draining.{
  Drains, restart_handler-shutdown, restart_handler-drains, scheduler_options_from_config-positive,
}
use yaralpho.App.Memory.{Memory, put_in, memory, view, memory-IsBatchStorage}

abbrev item : ItemStatus → ℕ → BatchItem
item status attempts = record { input = "issue-1"; status = status; attempts = pos attempts }

abbrev stored_batch : BatchStatus → List BatchItem → Batch
stored_batch status items = record {
  id = "b-1";
  repository_id = "repo-1";
  created_at = 1;
  updated_at = 1;
  items = items;
  status = status;
  summary = "";
  session_name = "s";
}

abbrev failed_batch : Batch
failed_batch =
    stored_batch BatchStatus.failed
      (item ItemStatus.done 0 ∷ item ItemStatus.failed 3 ∷ item ItemStatus.pending 0 ∷ [])

abbrev holding : Batch → Memory
holding b = put_in b (λ id. none)

pause_batch-Outcome_example :
    let w = holding (stored_batch BatchStatus.pending []) in
    Outcome Pauses view "repo-1" "b-1" w (pause_batch memory 7 "repo-1" "b-1" w)
pause_batch-Outcome_example =
    pause_batch-Outcome memory view memory-IsBatchStorage "repo-1" "b-1" 7
      (holding (stored_batch BatchStatus.pending []))

item_sound :
    (st : ItemStatus) (n : ℕ)
    → n ≤ 3
    → (st ≡ ItemStatus.done)
      ⊎ (st ≡ ItemStatus.failed) × (n ≡ 3)
      ⊎ (st ≡ ItemStatus.pending) × (n ≡ 0)
    → IsItemSound (pos 3) (item st n)
item_sound st n h k = record {
  nonneg = omega arith;
  capped = omega arith;
  pending_below = λ e. ground arith;
  running_below = λ e. ground arith;
  failed_at = λ e. ground arith;
}

failed_batch-IsSound : IsSound (pos 3) failed_batch
unfolding busy_count any_failed
failed_batch-IsSound = record {
  one_busy = omega arith;
  items_sound = (
    item_sound ItemStatus.done 0 (omega arith) (inl refl),
    (
      item_sound ItemStatus.failed 3 (omega arith) (inr (inl (refl, refl))),
      (item_sound ItemStatus.pending 0 (omega arith) (inr (inr (refl, refl))), tt),
    ),
  );
  done_all = λ e. absurd (cc);
  failed_some = λ e. refl;
}

failed_batch-NotBusy : All NotBusy failed_batch.items
failed_batch-NotBusy = ((λ e. cc), ((λ e. cc), ((λ e. cc), tt)))

restarted-eligible_example :
    (i : ℕ) × (first_failed failed_batch.items ≡ some i)
    × ((j : ℕ) × (j ≤ i) × (eligible_item (restarted 7 i failed_batch) ≡ some j))
restarted-eligible_example =
    restarted-eligible (pos 3) 7 failed_batch failed_batch-IsSound refl failed_batch-NotBusy

abbrev new_request : AddBatchRequest
new_request = record { items = " issue-1 " ∷ " " ∷ []; session_name = "s" }

abbrev nothing : Memory
nothing id = none

abbrev body : Option AgentRequest
body = some (record { name = " n "; runtime = "CODEX" })

abbrev answer : AgentRequest → Handler Memory
answer req w = (write_json 204 empty, w)

abbrev idle_scheduler : Scheduler Memory
idle_scheduler = record { store = none; worker = none; interval = pos 10; max_retries = pos 3 }

abbrev at_work : State Memory
at_work = record { draining = false; active_runs = pos 1; world = nothing }

abbrev server : Server Memory
server = record { state = at_work; shutdown = false }

-- Beside a request the run in flight ends; a tick that had passed its check starts another one before
-- the count is read.
abbrev ending : Beside Memory
ending = record {
  moments =
      record { waiting = 1; ctx_err = none; pick_ctx = false }
      ∷ record { waiting = 0; ctx_err = none; pick_ctx = false }
      ∷ [];
  cause = deadline_exceeded;
  during = λ s. record s { active_runs = pos 0 };
  before_count = λ s. record s { active_runs = pos 1 };
}

restart_handler-shutdown_example :
    let r = restart_handler (some idle_scheduler) "true" ending server in
    ((r.1.shutdown ≡ true) ↔ ((wait_of "true" ≡ some true) × Drains ending.moments))
    × (r.1.shutdown ≡ true → r.0.status ≡ 200)
restart_handler-shutdown_example = restart_handler-shutdown idle_scheduler "true" ending server refl

-- The server is asked to shut down although a run is in flight again.
restart_handler_test :
    let r = restart_handler (some idle_scheduler) "true" ending server in
    (r.1.shutdown ≡ true) × (r.1.state.active_runs ≡ pos 1)
unfolding restart_handler
restart_handler_test = (refl, refl)

restart_handler-drains_example :
    ((restart_handler (some idle_scheduler) "" ending server).0.status ≡ 202)
    × ((restart_handler (some idle_scheduler) "" ending server).1.shutdown ≡ false)
    × (tick
          (λ w. none)
          (some idle_scheduler)
          (restart_handler (some idle_scheduler) "" ending server).1.state
        ≡ (none, (restart_handler (some idle_scheduler) "" ending server).1.state))
unfolding wait_of
restart_handler-drains_example =
    restart_handler-drains idle_scheduler "" ending server (λ w. none) refl

options_example :
    (pos 0 <ℤ (scheduler_options_from_config (λ s. some (pos 0)) (some no_values)).interval)
    × (pos 0 <ℤ (scheduler_options_from_config (λ s. some (pos 0)) (some no_values)).max_retries)
    × ((scheduler_options_from_config (λ s. some (pos 0)) (some no_values)).draining ≡ false)
options_example = scheduler_options_from_config-positive (λ s. some (pos 0)) (some no_values)
