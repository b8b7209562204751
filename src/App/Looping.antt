-- ===== src/App/Looping.antt =====
-- What `runScheduler` of internal/app/app.go brings about: a drained application shuts down.
use yaralpho.Base.{
  ℕ, ◌≡◌, ◌≢◌, refl, ◌∙◌, inl, inr, Bool-cases, true, Option, none, some, List, [], ◌∷◌, ◌++◌, All,
  Error,
}
use yaralpho.Base.Int.{pos}
use yaralpho.Scheduler.State as Scheduling
use yaralpho.Scheduler.State.{WorkItem, Store, Worker, Scheduler, set_draining}
use yaralpho.Scheduler.Tick.{CtxErr}
use yaralpho.Scheduler.Effects.{KeepsActive, active-tick}
use yaralpho.App.Drain.{Server}
use yaralpho.App.Loop.{
  Wake, context_done, ticked, drain_requested, is_drained, request_shutdown, after_tick,
  await_wakes, run_scheduler, hand_back, hosted_worker,
}
use yaralpho.Worker.Env.{Env, Context, State}
use yaralpho.Worker.Process.{process}

module _ {W : Type 0} (ctx : CtxErr W) (c : Scheduler W) (store : Store W) (worker : Worker W)
    (e : c.store ≡ some store) (f : c.worker ≡ some worker) (keeps : KeepsActive worker) where
  tick_idle :
      (v : Server W) → v.state.active_runs ≡ pos 0 → (after_tick ctx c v).state.active_runs ≡ pos 0
  unfolding after_tick
  tick_idle v h = active-tick ctx c store worker keeps v.state e f ∙ h

  -- A restart request and a turn of the loop after it.
  drains :
      (v : Server W) (rest : List Wake)
      → v.state.active_runs ≡ pos 0
      → (await_wakes ctx c (drain_requested ∷ ticked ∷ rest) v).shutdown ≡ true
  unfolding await_wakes after_tick request_shutdown is_drained set_draining
  drains v rest h = rw h refl

  await_wakes_shuts :
      (xs rest : List Wake) (v : Server W)
      → All (λ x. x ≢ context_done) xs
      → v.state.active_runs ≡ pos 0
      → (await_wakes ctx c (xs ++ (drain_requested ∷ ticked ∷ rest)) v).shutdown ≡ true
  unfolding await_wakes request_shutdown set_draining
  await_wakes_shuts [] rest v a h = drains v rest h
  await_wakes_shuts (context_done ∷ xs) rest v (n, a) h = absurd (n refl)
  await_wakes_shuts (drain_requested ∷ xs) rest v (n, a) h =
      await_wakes_shuts xs rest (record v { state = set_draining true v.state }) a h
  await_wakes_shuts (ticked ∷ xs) rest v (n, a) h =
      elim (Bool-cases (is_drained (after_tick ctx c v).state)) [
        | inl d ↦ rw (await_wakes, d) refl
        | inr d ↦
            rw (await_wakes, d) (await_wakes_shuts xs rest (after_tick ctx c v) a (tick_idle v h))
      ]

  -- An application without a run in flight that is asked to restart shuts down at the next turn of its
  -- loop, whatever ticks came before and whatever they did, unless its context ended first.
  pub run_scheduler_shuts_down :
      (xs rest : List Wake) (v : Server W)
      → All (λ x. x ≢ context_done) xs
      → v.state.active_runs ≡ pos 0
      → (run_scheduler ctx c (xs ++ (drain_requested ∷ ticked ∷ rest)) v).shutdown ≡ true
  unfolding run_scheduler request_shutdown
  run_scheduler_shuts_down xs rest v a h = elim (Bool-cases (is_drained v.state)) [
    | inl d ↦ rw (run_scheduler, d) refl
    | inr d ↦ rw (run_scheduler, d) (await_wakes_shuts xs rest v a h)
  ]

hand_back-active :
    {W : Type 0} (s : Scheduling.State (State W)) (o : Option (Option Error × State W))
    → (hand_back s o).1.active_runs ≡ s.active_runs
unfolding hand_back
hand_back-active s none = refl
hand_back-active s (some (e, t)) = refl

-- The worker of internal/consumer leaves the count of active runs alone.
pub hosted_worker-KeepsActive :
    {W : Type 0} (env : Env W) (fuel : ℕ) (ctx : Context) → KeepsActive (hosted_worker env fuel ctx)
unfolding hosted_worker
hosted_worker-KeepsActive env fuel ctx item s =
    hand_back-active s (process env fuel ctx item s.world)
