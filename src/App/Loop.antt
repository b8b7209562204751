-- ===== src/App/Loop.antt =====
-- `runScheduler` and `requestShutdown` of internal/app/app.go, and the worker of internal/consumer as
-- the one that `BuildWithOptions` gives to the scheduler.
use yaralpho.Base.{
  ℕ, Bool, true, ◌&&◌, Option, none, some, List, [], ◌∷◌, Error, message, if◌then◌else◌,
}
use yaralpho.Storage.Progress.{is_zero_ℤ}
use yaralpho.Scheduler.State as Scheduling
use yaralpho.Scheduler.State.{Scheduler, set_draining}
use yaralpho.Scheduler.Tick.{CtxErr, tick}
use yaralpho.App.Drain.{Server}
use yaralpho.Worker.Env.{Env, Context, State}
use yaralpho.Worker.Process.{process}

-- What wakes the loop up, or happens while it waits: the end of its context, the ticker, and a
-- restart request of another goroutine, which sets the draining flag.
pub data Wake : Type 0 where
  context_done ticked drain_requested : Wake

-- The test at the top of the loop.
unfoldable pub is_drained : {W : Type 0} → Scheduling.State W → Bool
unfolding is_zero_ℤ
is_drained s = s.draining && is_zero_ℤ s.active_runs

-- `requestShutdown`: the scheduler is stopped, and the application's run canceled.
unfoldable pub request_shutdown : {W : Type 0} → Server W → Server W
unfolding set_draining
request_shutdown v = record { state = set_draining true v.state; shutdown = true }

unfoldable pub after_tick : {W : Type 0} → CtxErr W → Scheduler W → Server W → Server W
unfolding tick
after_tick ctx c v = record v { state = (tick ctx (some c) v.state).1 }

-- The loop from its select on; an error of a tick is only logged.
unfoldable pub await_wakes : {W : Type 0} → CtxErr W → Scheduler W → List Wake → Server W → Server W
unfolding after_tick is_drained request_shutdown set_draining
await_wakes ctx c [] v = v
await_wakes ctx c (context_done ∷ rest) v = v
await_wakes ctx c (drain_requested ∷ rest) v =
    await_wakes ctx c rest (record v { state = set_draining true v.state })
await_wakes ctx c (ticked ∷ rest) v =
    let v' = after_tick ctx c v in
    let later = await_wakes ctx c rest v' in
    if is_drained v'.state then request_shutdown v' else later

-- `runScheduler`
unfoldable pub run_scheduler :
    {W : Type 0} → CtxErr W → Scheduler W → List Wake → Server W → Server W
unfolding await_wakes is_drained request_shutdown
run_scheduler ctx c wakes v =
    if is_drained v.state then request_shutdown v else await_wakes ctx c wakes v

-- What the scheduler gets back from a run of `process`; out of fuel does not happen with enough of it.
unfoldable pub hand_back :
    {W : Type 0}
    → Scheduling.State (State W)
    → Option (Option Error × State W)
    → Option Error × Scheduling.State (State W)
hand_back s (some (e, t)) = (e, record s { world = t })
hand_back s none = (some (message "out of fuel"), s)

-- The worker of internal/consumer, for the scheduler; its state is the scheduler's world.
unfoldable pub hosted_worker : {W : Type 0} → Env W → ℕ → Context → Scheduling.Worker (State W)
unfolding process hand_back
hosted_worker env fuel ctx = record {
  process = λ item s. hand_back s (process env fuel ctx item s.world);
}
