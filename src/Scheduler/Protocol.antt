-- ===== src/Scheduler/Protocol.antt =====
-- The calls that `Tick` of internal/scheduler/scheduler.go makes, in order, and what it returns.
use yaralpho.Base.{
  ℕ, ◌≡◌, refl, false, Option, none, some, List, [], ◌∷◌, Error, inl, inr, ok, Option-cases,
  Result-cases,
}
use yaralpho.Base.Int.{ℤ}
use yaralpho.Storage.Models.{Batch, Agent}
use yaralpho.Storage.Interface.{request}
use yaralpho.Scheduler.State.{Store, State, Worker, Scheduler}
use yaralpho.Scheduler.Select.{first_idle_agent, select}
use yaralpho.Scheduler.Settle.{claim}
use yaralpho.Scheduler.Steps.{
  busy, claim_agent-refused, claim_agent-ok, claim_batch-refused, claim_batch-ok, dispatch-no_agent,
  dispatch-no_batch, dispatch-some, read_agents-err, read_agents-ok, read_batches-err,
  read_batches-ok, tick-eq,
}
use yaralpho.Scheduler.Tick.{
  CtxErr, run_claimed, claim_agent, claim_batch, dispatch, read_agents, read_batches, tick,
}
use yaralpho.Scheduler.Calls.{
  Call, listed_batches, listed_agents, updated_batch, updated_agent, Logged, logged_store, erase,
  with_calls, logged_worker, logged, Protocol, no_batches, no_agents, no_idle, no_eligible,
  claim_refused, agent_refused, ran,
}

-- A run over the logged world: its calls follow the protocol, and but for the log it is `plain`.
abbrev pub Follows :
    {W : Type 0} → ℤ → Option Error × State (Logged W) → Option Error × State W → Type 0
Follows m (e, s) plain = Protocol m s.world.calls e × ((e, erase s) ≡ plain)

abbrev listed : List Batch → List Agent → List Call
listed bs ags = listed_agents (ok ags) ∷ listed_batches (ok bs) ∷ []

module _ {W : Type 0} (ctx : CtxErr W) (store : Store W) (worker : Worker W) (c : Scheduler W) where
  abbrev pub lctx : CtxErr (Logged W)
  lctx w = ctx w.inner

  abbrev lc : Scheduler (Logged W)
  lc = logged store worker c

  abbrev lw : Worker (Logged W)
  lw = logged_worker worker

  abbrev ls : Store (Logged W)
  ls = logged_store store

  module _ (bs : List Batch) (ags : List Agent) (b : Batch) (i : ℕ) (a : Agent)
      (idle : first_idle_agent ags ≡ some a) (chosen : select bs ≡ some (b, i)) where
    Follows-run :
        (b' : Batch) (a' : Agent) (s : State W)
        → let before =
            updated_agent request (busy a) none a'
            ∷ updated_batch request (claim i b) none b'
            ∷ listed bs ags in
          Follows c.max_retries
            (run_claimed lctx lc ls lw b' i a' (with_calls before s))
            (run_claimed ctx c store worker b' i a' s)
    unfolding run_claimed logged logged_store logged_worker
    Follows-run b' a' s = (ran bs ags b b' _ i a a' _ _ _ _ _ idle chosen, refl)

    Follows-claim_agent :
        (b' : Batch) (s : State W)
        → let before = updated_batch request (claim i b) none b' ∷ listed bs ags in
          Follows c.max_retries
            (claim_agent lctx lc ls lw b' i a (with_calls before s))
            (claim_agent ctx c store worker b' i a s)
    unfolding logged_store
    Follows-claim_agent b' s =
        let r = store.update_agent request (busy a) s.world in
        let t = with_calls (updated_batch request (claim i b) none b' ∷ listed bs ags) s in
        elim (Option-cases r.0) [
          | inl p ↦
              rw
                (
                  claim_agent-ok lctx lc ls lw t b' i a p,
                  claim_agent-ok ctx c store worker s b' i a p,
                  p,
                )
                (Follows-run b' r.1 (record s { world = r.2 }))
          | inr (x, p) ↦
              rw
                (
                  claim_agent-refused lctx lc ls lw t b' i a x p,
                  claim_agent-refused ctx c store worker s b' i a x p,
                  p,
                )
                (agent_refused bs ags b b' _ i a r.1 x _ idle chosen, refl)
        ]

    Follows-claim_batch :
        (s : State W)
        → Follows c.max_retries
            (claim_batch lctx lc ls lw b i a (with_calls (listed bs ags) s))
            (claim_batch ctx c store worker b i a s)
    unfolding logged_store
    Follows-claim_batch s =
        let r = store.update_batch request (claim i b) s.world in
        let t = with_calls (listed bs ags) s in
        elim (Option-cases r.0) [
          | inl p ↦
              rw
                (
                  claim_batch-ok lctx lc ls lw t b i a p,
                  claim_batch-ok ctx c store worker s b i a p,
                  p,
                )
                (Follows-claim_agent r.1 (record s { world = r.2 }))
          | inr (x, p) ↦
              rw
                (
                  claim_batch-refused lctx lc ls lw t b i a x p,
                  claim_batch-refused ctx c store worker s b i a x p,
                  p,
                )
                (claim_refused bs ags b r.1 i a x idle chosen, refl)
        ]

  Follows-dispatch :
      (bs : List Batch) (ags : List Agent) (s : State W)
      → Follows c.max_retries
          (dispatch lctx lc ls lw bs ags (with_calls (listed bs ags) s))
          (dispatch ctx c store worker bs ags s)
  Follows-dispatch bs ags s =
      let t = with_calls (listed bs ags) s in
      elim (Option-cases (first_idle_agent ags)) [
        | inl p ↦
            rw
              (
                dispatch-no_agent lctx lc ls lw t bs ags p,
                dispatch-no_agent ctx c store worker s bs ags p,
              )
              (no_idle bs ags p, refl)
        | inr (a, p) ↦ elim (Option-cases (select bs)) [
          | inl q ↦
              rw
                (
                  dispatch-no_batch lctx lc ls lw t bs ags q,
                  dispatch-no_batch ctx c store worker s bs ags q,
                )
                (no_eligible bs ags q, refl)
          | inr ((b, i), q) ↦
              rw
                (
                  dispatch-some lctx lc ls lw t bs ags a b i p q,
                  dispatch-some ctx c store worker s bs ags a b i p q,
                )
                (Follows-claim_batch bs ags b i a p q s)
        ]
      ]

  Follows-read_agents :
      (bs : List Batch) (s : State W)
      → Follows c.max_retries
          (read_agents lctx lc ls lw bs (with_calls (listed_batches (ok bs) ∷ []) s))
          (read_agents ctx c store worker bs s)
  unfolding logged_store
  Follows-read_agents bs s =
      let r = store.list_agents request s.world in
      let t = with_calls (listed_batches (ok bs) ∷ []) s in
      elim (Result-cases r.0) [
        | inl (ags, p) ↦
            rw
              (
                read_agents-ok lctx lc ls lw t bs ags p,
                read_agents-ok ctx c store worker s bs ags p,
                p,
              )
              (Follows-dispatch bs ags (record s { world = r.1 }))
        | inr (x, p) ↦
            rw
              (
                read_agents-err lctx lc ls lw t bs x p,
                read_agents-err ctx c store worker s bs x p,
                p,
              )
              (no_agents bs x, refl)
      ]

  Follows-read_batches :
      (s : State W)
      → Follows c.max_retries
          (read_batches lctx lc ls lw (with_calls [] s))
          (read_batches ctx c store worker s)
  unfolding logged_store
  Follows-read_batches s =
      let r = store.list_batches request 0 s.world in
      let t = with_calls [] s in
      elim (Result-cases r.0) [
        | inl (bs, p) ↦
            rw (read_batches-ok lctx lc ls lw t bs p, read_batches-ok ctx c store worker s bs p, p)
              (Follows-read_agents bs (record s { world = r.1 }))
        | inr (x, p) ↦
            rw (read_batches-err lctx lc ls lw t x p, read_batches-err ctx c store worker s x p, p)
              (no_batches x, refl)
      ]

  -- A tick that is not draining follows the protocol, whatever the store and the worker answer, and
  -- the log changes nothing of what it does.
  pub tick-Protocol :
      (s : State W)
      → s.draining ≡ false
      → c.store ≡ some store
      → c.worker ≡ some worker
      → Follows c.max_retries
          (tick lctx (some (logged store worker c)) (with_calls [] s))
          (tick ctx (some c) s)
  tick-Protocol s d e f =
      rw
        (
          tick-eq ctx c store worker s d e f,
          tick-eq lctx lc ls lw (with_calls [] s) d (unfold logged in refl) (unfold logged in refl),
        )
        (Follows-read_batches s)
