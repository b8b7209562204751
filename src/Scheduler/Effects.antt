-- ===== src/Scheduler/Effects.antt =====
-- What a tick of internal/scheduler/scheduler.go leaves behind: its counter of active runs.
use yaralpho.Base.{
  ℕ, ◌≡◌, inl, inr, true, some, List, arith, Option-cases, Bool-cases, Result-cases,
}
use yaralpho.Base.Int.{ℤ, pos, negsuc, ◌+ℤ◌}
use yaralpho.Storage.Models.{Batch, Agent}
use yaralpho.Storage.Interface.{request}
use yaralpho.Scheduler.State.{WorkItem, Store, State, Worker, Scheduler}
use yaralpho.Scheduler.Select.{first_idle_agent, select}
use yaralpho.Scheduler.Settle.{claim}
use yaralpho.Scheduler.Tick.{
  CtxErr, run_claimed, claim_agent, claim_batch, dispatch, read_agents, read_batches, tick,
}
use yaralpho.Scheduler.Steps.{
  busy, claim_agent-refused, claim_agent-ok, claim_batch-refused, claim_batch-ok, dispatch-no_agent,
  dispatch-no_batch, dispatch-some, read_agents-err, read_agents-ok, read_batches-err,
  read_batches-ok, tick-eq,
}

-- A worker that leaves the scheduler's counter as it found it.
abbrev pub KeepsActive : {W : Type 0} → Worker W → Type 0
KeepsActive {W} worker =
    (item : WorkItem) (s : State W) → (worker.process item s).1.active_runs ≡ s.active_runs

add_back : (a : ℤ) → a +ℤ pos 1 +ℤ negsuc 0 ≡ a
add_back a = ground arith

module _ {W : Type 0} (ctx : CtxErr W) (c : Scheduler W) (store : Store W) (worker : Worker W)
    (keeps : KeepsActive worker) where
  active-run_claimed :
      (b : Batch) (i : ℕ) (a : Agent) (s : State W)
      → (run_claimed ctx c store worker b i a s).1.active_runs ≡ s.active_runs
  unfolding run_claimed
  active-run_claimed b i a s = rw keeps (add_back s.active_runs)

  active-claim_agent :
      (b : Batch) (i : ℕ) (a : Agent) (s : State W)
      → (claim_agent ctx c store worker b i a s).1.active_runs ≡ s.active_runs
  active-claim_agent b i a s = elim (Option-cases (store.update_agent request (busy a) s.world).0) [
    | inl p ↦ rw (claim_agent-ok ctx c store worker s b i a p) (active-run_claimed b i _ _)
    | inr (x, p) ↦ rw (claim_agent-refused ctx c store worker s b i a x p)
  ]

  active-claim_batch :
      (b : Batch) (i : ℕ) (a : Agent) (s : State W)
      → (claim_batch ctx c store worker b i a s).1.active_runs ≡ s.active_runs
  active-claim_batch b i a s =
      elim (Option-cases (store.update_batch request (claim i b) s.world).0) [
        | inl p ↦ rw (claim_batch-ok ctx c store worker s b i a p) (active-claim_agent _ i a _)
        | inr (x, p) ↦ rw (claim_batch-refused ctx c store worker s b i a x p)
      ]

  active-dispatch :
      (bs : List Batch) (ags : List Agent) (s : State W)
      → (dispatch ctx c store worker bs ags s).1.active_runs ≡ s.active_runs
  active-dispatch bs ags s = elim (Option-cases (first_idle_agent ags)) [
    | inl p ↦ rw (dispatch-no_agent ctx c store worker s bs ags p)
    | inr (a, p) ↦ elim (Option-cases (select bs)) [
      | inl q ↦ rw (dispatch-no_batch ctx c store worker s bs ags q)
      | inr ((b, i), q) ↦
          rw (dispatch-some ctx c store worker s bs ags a b i p q) (active-claim_batch b i a s)
    ]
  ]

  active-read_agents :
      (bs : List Batch) (s : State W)
      → (read_agents ctx c store worker bs s).1.active_runs ≡ s.active_runs
  active-read_agents bs s = elim (Result-cases (store.list_agents request s.world).0) [
    | inl (ags, p) ↦ rw (read_agents-ok ctx c store worker s bs ags p) (active-dispatch bs ags _)
    | inr (x, p) ↦ rw (read_agents-err ctx c store worker s bs x p)
  ]

  active-read_batches :
      (s : State W) → (read_batches ctx c store worker s).1.active_runs ≡ s.active_runs
  active-read_batches s = elim (Result-cases (store.list_batches request 0 s.world).0) [
    | inl (bs, p) ↦ rw (read_batches-ok ctx c store worker s bs p) (active-read_agents bs _)
    | inr (x, p) ↦ rw (read_batches-err ctx c store worker s x p)
  ]

  -- On every path through a tick, the errors included, the count of active runs is afterwards what
  -- it was before, if the worker keeps it.
  pub active-tick :
      (s : State W)
      → c.store ≡ some store
      → c.worker ≡ some worker
      → (tick ctx (some c) s).1.active_runs ≡ s.active_runs
  active-tick s e f = elim (Bool-cases s.draining) [
    | inl d ↦ drained s d
    | inr d ↦ rw (tick-eq ctx c store worker s d e f) (active-read_batches s)
  ]
    where
      drained :
          (t : State W) → t.draining ≡ true → (tick ctx (some c) t).1.active_runs ≡ t.active_runs
      drained t d = unfold tick in ground arith
