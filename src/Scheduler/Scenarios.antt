-- ===== src/Scheduler/Scenarios.antt =====
-- A store of batches and agents in memory, and the scheduler of internal/scheduler/scheduler.go at
-- work on it.
use yaralpho.Base.{
  ℕ, ◌≡◌, refl, ◌↔◌, ◌⊎◌, inl, inr, arith, true, false, Option, none, some, List, [], ◌∷◌, String,
  ok, All, str_eq, str_eq_refl, if◌then◌else◌, ◌≢◌,
}
use yaralpho.Base.Int.{pos}
use yaralpho.Storage.Models.{Batch, BatchItem, BatchStatus, ItemStatus, Agent, AgentStatus}
use yaralpho.Scheduler.State.{Store, State, Worker, Scheduler}
use yaralpho.Scheduler.Select.{next_pending_index, select, eligible_item, first_idle_agent}
use yaralpho.Scheduler.Settle.{claim, settle, rollback}
use yaralpho.Scheduler.Tick.{CtxErr, tick}
use yaralpho.Scheduler.Selection.{IsEligible, IsFirstEligible, select_iff, eligible_item_iff}
use yaralpho.Scheduler.Claiming.{claim-locks, rollback-claim}
use yaralpho.Scheduler.Invariant.{IsSound, IsItemSound, IsRunningAt, busy_count, settle-IsSound}
use yaralpho.Scheduler.Liveness.{attempts-IsFinished}
use yaralpho.Scheduler.Attempts.{IsReady, IsFinished, work, attempts}
use yaralpho.Scheduler.Effects.{active-tick}
use yaralpho.Scheduler.Pause.{IsBatchStore, StoredUnpaused, tick_overwrites_pause}
use yaralpho.Scheduler.Protocol.{tick-Protocol, Follows, lctx}
use yaralpho.Scheduler.Calls.{logged, with_calls}
use yaralpho.Scheduler.Writes.{LeavesContent, ReadsSound, WritesSound, TakesAgent, Frees, EndsBy}
use yaralpho.Scheduler.Runs.{tick_calls, tick-WritesSound, tick_ends_idle}

abbrev item : ItemStatus → ℕ → BatchItem
item status attempts = record { input = "issue-1"; status = status; attempts = pos attempts }

abbrev batch_of : String → BatchStatus → List BatchItem → Batch
batch_of id status items = record {
  id = id;
  repository_id = "repo-1";
  created_at = 1;
  updated_at = 1;
  items = items;
  status = status;
  summary = "";
  session_name = "s";
}

abbrev agent_of : String → AgentStatus → Agent
agent_of id status = record {
  id = id;
  name = id;
  runtime = "codex";
  status = status;
  created_at = 1;
  updated_at = 1;
}

abbrev two_items : List BatchItem
two_items = item ItemStatus.done 0 ∷ item ItemStatus.pending 1 ∷ []

abbrev paused_batch : Batch
paused_batch = batch_of "b-1" BatchStatus.paused two_items

abbrev open_batch : Batch
open_batch = batch_of "b-2" BatchStatus.pending two_items

abbrev two_batches : List Batch
two_batches = paused_batch ∷ open_batch ∷ []

abbrev busy_one : Agent
busy_one = agent_of "a-1" AgentStatus.busy

abbrev idle_one : Agent
idle_one = agent_of "a-2" AgentStatus.idle

abbrev two_agents : List Agent
two_agents = busy_one ∷ idle_one ∷ []

-- The stored batches by their identity, and the lists that the store answers.
record Memory : Type 0 where
  stored : String → Option Batch
  listed : List Batch
  crew : List Agent

abbrev memory : Store Memory
memory = record {
  list_batches = λ k n w. (ok w.listed, w);
  update_batch = λ k b w.
      (none, b, record w { stored = λ id. if str_eq b.id id then some b else w.stored id });
  list_agents = λ k w. (ok w.crew, w);
  update_agent = λ k a w. (none, a, w);
}

abbrev content : Memory
content = record { stored = λ id. none; listed = two_batches; crew = two_agents }

-- A worker that pauses the batch while it runs, and succeeds.
abbrev pausing : Worker Memory
pausing = record {
  process = λ it s. (
    none,
    record s { world = record s.world { stored = λ id. some (batch_of id BatchStatus.paused []) } },
  );
}

abbrev scheduler : Scheduler Memory
scheduler = record {
  store = some memory;
  worker = some pausing;
  interval = pos 10;
  max_retries = pos 3;
}

abbrev at_work : State Memory
at_work = record { draining = false; active_runs = pos 0; world = content }

abbrev no_error : CtxErr Memory
no_error w = none

memory-IsBatchStore : IsBatchStore memory (λ w. w.stored)
memory-IsBatchStore = record {
  saves = λ k b w h. rw (str_eq_refl b.id) refl;
  leaves = λ k b w. (refl, refl);
  apart = λ k a w id. refl;
}

select_iff_example :
    (select two_batches ≡ some (open_batch, 1)) ↔ IsFirstEligible open_batch 1 two_batches
select_iff_example = select_iff two_batches open_batch 1

open_batch-IsEligible : IsEligible open_batch 1
unfolding eligible_item next_pending_index
open_batch-IsEligible = (eligible_item_iff open_batch 1).0 refl

done-IsItemSound : IsItemSound (pos 3) (item ItemStatus.done 0)
done-IsItemSound = record {
  nonneg = omega arith;
  capped = omega arith;
  pending_below = λ h. absurd (cc);
  running_below = λ h. absurd (cc);
  failed_at = λ h. absurd (cc);
}

second-IsItemSound : (st : ItemStatus) → st ≢ ItemStatus.failed → IsItemSound (pos 3) (item st 1)
second-IsItemSound st n = record {
  nonneg = omega arith;
  capped = omega arith;
  pending_below = λ h. omega arith;
  running_below = λ h. omega arith;
  failed_at = λ h. absurd (n h);
}

batch-IsSound :
    (id : String) (bst : BatchStatus) (st : ItemStatus)
    → st ≢ ItemStatus.failed
    → bst ≢ BatchStatus.done
    → bst ≢ BatchStatus.failed
    → IsSound (pos 3) (batch_of id bst (item ItemStatus.done 0 ∷ item st 1 ∷ []))
unfolding busy_count
batch-IsSound id bst st n d f = record {
  one_busy = ground arith;
  items_sound = (done-IsItemSound, (second-IsItemSound st n, tt));
  done_all = λ h. absurd (d h);
  failed_some = λ h. absurd (f h);
}

open_batch-IsSound : IsSound (pos 3) open_batch
open_batch-IsSound = batch-IsSound _ _ _ (λ h. cc) (λ h. cc) (λ h. cc)

paused_batch-IsSound : IsSound (pos 3) paused_batch
paused_batch-IsSound = batch-IsSound _ _ _ (λ h. cc) (λ h. cc) (λ h. cc)

abbrev claimed_batch : Batch
claimed_batch =
    batch_of "b-2" BatchStatus.in_progress
      (item ItemStatus.done 0 ∷ item ItemStatus.in_progress 1 ∷ [])

claimed_batch-IsSound : IsSound (pos 3) claimed_batch
claimed_batch-IsSound = batch-IsSound _ _ _ (λ h. cc) (λ h. cc) (λ h. cc)

claimed_batch-IsRunningAt : IsRunningAt 1 claimed_batch
claimed_batch-IsRunningAt = (item ItemStatus.in_progress 1, refl, refl)

claim-locks_example :
    IsSound (pos 3) (claim 1 open_batch)
    × IsRunningAt 1 (claim 1 open_batch)
    × ((j : ℕ) → ¬ IsEligible (claim 1 open_batch) j)
claim-locks_example = claim-locks (pos 3) open_batch 1 open_batch-IsEligible open_batch-IsSound

settle-IsSound_example : IsSound (pos 3) (settle (pos 3) true 1 claimed_batch)
settle-IsSound_example =
    settle-IsSound (pos 3) true claimed_batch 1 claimed_batch-IsRunningAt claimed_batch-IsSound

rollback-claim_example :
    (rollback 1 (claim 1 open_batch) ≡ record open_batch { status = BatchStatus.pending })
    × IsEligible (rollback 1 (claim 1 open_batch)) 1
rollback-claim_example = rollback-claim open_batch 1 open_batch-IsEligible

open_batch-IsReady : IsReady (pos 3) open_batch
open_batch-IsReady = record {
  is_open = (λ e. cc, λ e. cc, λ e. cc);
  items_open = (inr refl, (inl (refl, omega arith, omega arith), tt));
  has_work = (1, ((λ e. cc), refl));
}

attempts-IsFinished_example : IsFinished (attempts (pos 3) (true ∷ false ∷ []) open_batch)
unfolding work
attempts-IsFinished_example =
    attempts-IsFinished (pos 3) (true ∷ false ∷ []) open_batch open_batch-IsReady (omega arith)

tick-Protocol_example :
    Follows
      (pos 3)
      (tick
        (lctx no_error memory pausing scheduler)
        (some (logged memory pausing scheduler))
        (with_calls [] at_work))
      (tick no_error (some scheduler) at_work)
tick-Protocol_example = tick-Protocol no_error memory pausing scheduler at_work refl refl refl

active-tick_example : (tick no_error (some scheduler) at_work).1.active_runs ≡ pos 0
active-tick_example = active-tick no_error scheduler memory pausing (λ it s. refl) at_work refl refl

tick_ends_idle_example :
    EndsBy Frees (tick_calls no_error memory pausing scheduler at_work)
    ⊎ All (λ x. ¬ TakesAgent x) (tick_calls no_error memory pausing scheduler at_work)
tick_ends_idle_example = tick_ends_idle no_error memory pausing scheduler at_work refl refl refl

calls-LeavesContent : All LeavesContent (tick_calls no_error memory pausing scheduler at_work)
unfolding select first_idle_agent tick eligible_item next_pending_index logged
calls-LeavesContent = (tt, ((refl, refl), (tt, (tt, ((refl, refl), (tt, (tt, tt)))))))

calls-ReadsSound : All (ReadsSound (pos 3)) (tick_calls no_error memory pausing scheduler at_work)
unfolding select first_idle_agent tick eligible_item next_pending_index logged
calls-ReadsSound =
    (tt, (tt, (tt, (tt, (tt, (tt, ((paused_batch-IsSound, (open_batch-IsSound, tt)), tt)))))))

tick-WritesSound_example :
    All (WritesSound (pos 3)) (tick_calls no_error memory pausing scheduler at_work)
tick-WritesSound_example =
    tick-WritesSound no_error memory pausing scheduler at_work refl refl refl calls-LeavesContent
      calls-ReadsSound

tick_overwrites_pause_example :
    StoredUnpaused (λ w. w.stored) "b-2" (tick no_error (some scheduler) at_work).1.world
unfolding select first_idle_agent tick eligible_item next_pending_index
tick_overwrites_pause_example =
    tick_overwrites_pause no_error scheduler memory pausing (λ w. w.stored) memory-IsBatchStore
      at_work two_batches two_agents open_batch 1 idle_one refl refl refl refl refl refl refl refl
