-- ===== src/Scheduler/Calls.antt =====
-- The calls that a tick of internal/scheduler/scheduler.go makes of the store and of the worker, as a
-- log of them, and the runs that there are.
use Prim.Native.String.{◌++◌ as str_append}
use yaralpho.Base.{ℕ, ◌≡◌, Option, none, some, List, [], ◌∷◌, Error, wrap, Result, ok, err, is_some}
use yaralpho.Base.Int.{ℤ}
use yaralpho.Storage.Models.{AgentStatus, Batch, Agent}
use yaralpho.Storage.Interface.{Ctx, request}
use yaralpho.Scheduler.State.{WorkItem, Store, State, Worker, Scheduler}
use yaralpho.Scheduler.Select.{first_idle_agent, select}
use yaralpho.Scheduler.Settle.{claim, rollback, settle}
use yaralpho.Scheduler.Tick.{with_agent_status, completion_error, input_at}

-- One call, with its arguments and its answer.
pub data Call : Type 0 where
  listed_batches : Result (List Batch) → Call
  listed_agents : Result (List Agent) → Call
  updated_batch : Ctx → Batch → Option Error → Batch → Call
  updated_agent : Ctx → Agent → Option Error → Agent → Call
  processed : WorkItem → Option Error → Call

-- A world with the calls made so far, the latest first.
pub record Logged (W : Type 0) : Type 0 where
  pub calls : List Call
  pub inner : W

pub log : {W : Type 0} → Call → List Call → W → Logged W
log c calls w = record { calls = c ∷ calls; inner = w }

unfoldable pub logged_store : {W : Type 0} → Store W → Store (Logged W)
unfolding log
logged_store store = record {
  list_batches = λ k n w.
      let (r, w') = store.list_batches k n w.inner in (r, log (listed_batches r) w.calls w');
  update_batch = λ k b w.
      let (e, b', w') = store.update_batch k b w.inner in
      (e, b', log (updated_batch k b e b') w.calls w');
  list_agents =
      λ k w. let (r, w') = store.list_agents k w.inner in (r, log (listed_agents r) w.calls w');
  update_agent = λ k a w.
      let (e, a', w') = store.update_agent k a w.inner in
      (e, a', log (updated_agent k a e a') w.calls w');
}

abbrev pub erase : {W : Type 0} → State (Logged W) → State W
erase s = record { draining = s.draining; active_runs = s.active_runs; world = s.world.inner }

abbrev pub with_calls : {W : Type 0} → List Call → State W → State (Logged W)
with_calls calls s = record {
  draining = s.draining;
  active_runs = s.active_runs;
  world = record { calls = calls; inner = s.world };
}

-- What the worker does with the store is its own: the call of it is logged, after it returns.
unfoldable pub logged_worker : {W : Type 0} → Worker W → Worker (Logged W)
logged_worker worker = record {
  process = λ item s.
      let (e, s') = worker.process item (erase s) in
      (e, with_calls (processed item e ∷ s.world.calls) s');
}

unfoldable pub logged : {W : Type 0} → Store W → Worker W → Scheduler W → Scheduler (Logged W)
unfolding logged_store logged_worker
logged store worker c = record {
  store = some (logged_store store);
  worker = some (logged_worker worker);
  interval = c.interval;
  max_retries = c.max_retries;
}

abbrev work_item : Batch → ℕ → Agent → WorkItem
work_item b i a = record {
  batch_id = b.id;
  task_ref = unfold input_at in input_at b.items i;
  agent_id = a.id;
  runtime = a.runtime;
}

-- The runs of a tick that is not draining: the calls, the latest first, and the error returned.
pub data Protocol (m : ℤ) : List Call → Option Error → Type 0 where
  no_batches : (e : Error) → Protocol m (listed_batches (err e) ∷ []) (some (wrap "list batches" e))
  no_agents :
      (bs : List Batch) (e : Error)
      → Protocol m
          (listed_agents (err e) ∷ listed_batches (ok bs) ∷ [])
          (some (wrap "list agents" e))
  no_idle :
      (bs : List Batch) (ags : List Agent)
      → first_idle_agent ags ≡ none
      → Protocol m (listed_agents (ok ags) ∷ listed_batches (ok bs) ∷ []) none
  no_eligible :
      (bs : List Batch) (ags : List Agent)
      → select bs ≡ none
      → Protocol m (listed_agents (ok ags) ∷ listed_batches (ok bs) ∷ []) none
  claim_refused :
      (bs : List Batch) (ags : List Agent) (b b' : Batch) (i : ℕ) (a : Agent) (e : Error)
      → first_idle_agent ags ≡ some a
      → select bs ≡ some (b, i)
      → Protocol m
          (updated_batch request (claim i b) (some e) b'
            ∷ listed_agents (ok ags)
            ∷ listed_batches (ok bs)
            ∷ [])
          (some (wrap (str_append "update batch " b'.id) e))
  agent_refused :
      (bs : List Batch) (ags : List Agent) (b b' b'' : Batch) (i : ℕ) (a a' : Agent) (e : Error)
      (undone : Option Error)
      → first_idle_agent ags ≡ some a
      → select bs ≡ some (b, i)
      → Protocol m
          (updated_batch request (rollback i b') undone b''
            ∷ updated_agent request (with_agent_status AgentStatus.busy a) (some e) a'
            ∷ updated_batch request (claim i b) none b'
            ∷ listed_agents (ok ags)
            ∷ listed_batches (ok bs)
            ∷ [])
          (some (wrap (str_append "update agent " a.id) e))
  ran :
      (bs : List Batch) (ags : List Agent) (b b' b'' : Batch) (i : ℕ) (a a' a'' : Agent) (k : Ctx)
      (worked saved freed : Option Error)
      → first_idle_agent ags ≡ some a
      → select bs ≡ some (b, i)
      → Protocol m
          (updated_agent k (with_agent_status AgentStatus.idle a') freed a''
            ∷ updated_batch k (settle m (is_some worked) i b') saved b''
            ∷ processed (work_item b' i a') worked
            ∷ updated_agent request (with_agent_status AgentStatus.busy a) none a'
            ∷ updated_batch request (claim i b) none b'
            ∷ listed_agents (ok ags)
            ∷ listed_batches (ok bs)
            ∷ [])
          (completion_error saved freed worked b'' a'')
