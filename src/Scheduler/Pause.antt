-- ===== src/Scheduler/Pause.antt =====
-- A pause that comes while an item runs, in a tick of internal/scheduler/scheduler.go.
use yaralpho.Base.{
  ℕ, ◌≡◌, refl, ◌≢◌, ap, ◌∙◌, sym, subst, inl, inr, Bool, false, Option, none, some, List, arith,
  String, Error, ok, Option-cases,
}
use yaralpho.Base.Int.{ℤ}
use yaralpho.Storage.Models.{BatchStatus, Batch, Agent}
use yaralpho.Storage.Interface.{Ctx, request}
use yaralpho.Scheduler.State.{Store, State, Worker, Scheduler}
use yaralpho.Scheduler.Select.{first_idle_agent, select}
use yaralpho.Scheduler.Settle.{claim, settle}
use yaralpho.Scheduler.Tick.{CtxErr, completion_error, run_claimed, claim_agent, claim_batch, tick}
use yaralpho.Scheduler.Steps.{
  busy, claim_agent-refused, claim_agent-ok, claim_batch-refused, claim_batch-ok, dispatch-some,
  read_agents-ok, read_batches-ok, tick-eq,
}

-- What a store promises of its batches: a write that succeeds leaves the identity and the status of
-- the document that it is given, and stores that document; a write of an agent touches no batch.
abbrev pub View : Type 0 → Type 0
View W = W → String → Option Batch

pub record IsBatchStore {W : Type 0} (store : Store W) (view : View W) : Type 0 where
  pub saves :
      (k : Ctx) (b : Batch) (w : W)
      → (store.update_batch k b w).0 ≡ none
      → view (store.update_batch k b w).2 b.id ≡ some (store.update_batch k b w).1
  pub leaves :
      (k : Ctx) (b : Batch) (w : W)
      → ((store.update_batch k b w).1.id ≡ b.id) × ((store.update_batch k b w).1.status ≡ b.status)
  pub apart :
      (k : Ctx) (a : Agent) (w : W) (id : String) → view (store.update_agent k a w).2 id ≡ view w id

saved_of_none :
    (saved freed worked : Option Error) (b : Batch) (a : Agent)
    → completion_error saved freed worked b a ≡ none
    → saved ≡ none
unfolding completion_error
saved_of_none none freed worked b a h = refl
saved_of_none (some e) freed worked b a h = cc

settle-not-paused :
    (m : ℤ) (failed : Bool) (i : ℕ) (b : Batch) → (settle m failed i b).status ≢ BatchStatus.paused
unfolding settle
settle-not-paused m failed i b = ground arith

id-settle : (m : ℤ) (failed : Bool) (i : ℕ) (b : Batch) → (settle m failed i b).id ≡ b.id
unfolding settle
id-settle m failed i b = refl

-- The stored document of the batch, whatever it is, is not paused.
abbrev pub StoredUnpaused : {W : Type 0} → View W → String → W → Type 0
StoredUnpaused view id w = (d : Batch) × (view w id ≡ some d) × (d.status ≢ BatchStatus.paused)

module _ {W : Type 0} (ctx : CtxErr W) (c : Scheduler W) (store : Store W) (worker : Worker W)
    (view : View W) (laws : IsBatchStore store view) where
  unpaused-saved :
      (k : Ctx) (d : Batch) (a : Agent) (w : W)
      → d.status ≢ BatchStatus.paused
      → (store.update_batch k d w).0 ≡ none
      → StoredUnpaused view d.id (store.update_agent k a (store.update_batch k d w).2).2
  unpaused-saved k d a w np h = (
    (store.update_batch k d w).1,
    laws.apart k a _ d.id ∙ laws.saves k d w h,
    λ q. np (sym (laws.leaves k d w).1 ∙ q),
  )

  unpaused-run_claimed :
      (b : Batch) (i : ℕ) (a : Agent) (s : State W)
      → (run_claimed ctx c store worker b i a s).0 ≡ none
      → StoredUnpaused view b.id (run_claimed ctx c store worker b i a s).1.world
  unfolding run_claimed
  unpaused-run_claimed b i a s h =
      unpaused-saved _ _ _ _ (settle-not-paused c.max_retries _ i b) (saved_of_none _ _ _ _ _ h)

  unpaused-claim_agent :
      (b : Batch) (i : ℕ) (a : Agent) (s : State W)
      → (claim_agent ctx c store worker b i a s).0 ≡ none
      → StoredUnpaused view b.id (claim_agent ctx c store worker b i a s).1.world
  unpaused-claim_agent b i a s h =
      elim (Option-cases (store.update_agent request (busy a) s.world).0) [
        | inl p ↦
            let e = claim_agent-ok ctx c store worker s b i a p in
            rw e (unpaused-run_claimed b i _ _ (rw e at h))
        | inr (x, p) ↦ cc (
            ap (λ (r : Option Error × State W). r.0)
              (claim_agent-refused ctx c store worker s b i a x p))
      ]

  unpaused-claim_batch :
      (b : Batch) (i : ℕ) (a : Agent) (s : State W)
      → (claim_batch ctx c store worker b i a s).0 ≡ none
      → StoredUnpaused view b.id (claim_batch ctx c store worker b i a s).1.world
  unfolding claim
  unpaused-claim_batch b i a s h =
      elim (Option-cases (store.update_batch request (claim i b) s.world).0) [
        | inl p ↦
            let e = claim_batch-ok ctx c store worker s b i a p in
            subst (λ id. StoredUnpaused view id (claim_batch ctx c store worker b i a s).1.world)
              (laws.leaves request (claim i b) s.world).0
              (rw e (unpaused-claim_agent _ i a _ (rw e at h)))
        | inr (x, p) ↦ cc (
            ap (λ (r : Option Error × State W). r.0)
              (claim_batch-refused ctx c store worker s b i a x p))
      ]

  -- Over a store that keeps what it is given, a tick that is not draining, chooses item `i` of batch `b`
  -- and an idle agent, and returns no error leaves the stored document of `b` unpaused, whatever the
  -- worker and all that goes on beside it did to the store meanwhile: a pause that comes while the
  -- item runs is lost.
  pub tick_overwrites_pause :
      (s : State W) (bs : List Batch) (ags : List Agent) (b : Batch) (i : ℕ) (a : Agent)
      → s.draining ≡ false
      → c.store ≡ some store
      → c.worker ≡ some worker
      → (store.list_batches request 0 s.world).0 ≡ ok bs
      → (store.list_agents request (store.list_batches request 0 s.world).1).0 ≡ ok ags
      → first_idle_agent ags ≡ some a
      → select bs ≡ some (b, i)
      → (tick ctx (some c) s).0 ≡ none
      → StoredUnpaused view b.id (tick ctx (some c) s).1.world
  tick_overwrites_pause s bs ags b i a d e f lb la idle chosen h =
      let s1 = record s { world = (store.list_batches request 0 s.world).1 } in
      let s2 = record s { world = (store.list_agents request s1.world).1 } in
      let p =
        tick-eq ctx c store worker s d e f
        ∙ read_batches-ok ctx c store worker s bs lb
        ∙ read_agents-ok ctx c store worker s1 bs ags la
        ∙ dispatch-some ctx c store worker s2 bs ags a b i idle chosen in
      rw p (unpaused-claim_batch b i a s2 (rw p at h))
