-- ===== src/App/LoopScenarios.antt =====
-- An application with the worker of internal/consumer over a store in memory: its loop drains.
use yaralpho.Base.{◌≡◌, ◌≢◌, refl, true, false, none, some, [], ◌∷◌, ok}
use yaralpho.Base.Int.{pos}
use yaralpho.Scheduler.State.{Store, Scheduler}
use yaralpho.Scheduler.Tick.{CtxErr}
use yaralpho.App.Memory.{Memory}
use yaralpho.App.Drain.{Server}
use yaralpho.App.Loop.{context_done, ticked, drain_requested, run_scheduler, hosted_worker}
use yaralpho.App.Looping.{run_scheduler_shuts_down, hosted_worker-KeepsActive}
use yaralpho.Worker.Env.{State}
use yaralpho.Worker.Scenarios.{environment, succeeding, start, context}

abbrev store : Store (State Memory)
store = record {
  list_batches = λ k n w. (ok [], w);
  update_batch = λ k b w. (none, b, w);
  list_agents = λ k w. (ok [], w);
  update_agent = λ k a w. (none, a, w);
}

abbrev scheduler : Scheduler (State Memory)
scheduler = record {
  store = some store;
  worker = some (hosted_worker (environment succeeding) 2 context);
  interval = pos 1;
  max_retries = pos 5;
}

abbrev server : Server (State Memory)
server = record {
  state = record { draining = false; active_runs = pos 0; world = start };
  shutdown = false;
}

abbrev no_error : CtxErr (State Memory)
no_error = λ s. none

not_done : ticked ≢ context_done
not_done h = absurd (cc)

run_scheduler_shuts_down_example :
    (run_scheduler no_error scheduler (ticked ∷ drain_requested ∷ ticked ∷ []) server).shutdown
    ≡ true
run_scheduler_shuts_down_example =
    run_scheduler_shuts_down no_error scheduler store
      (hosted_worker (environment succeeding) 2 context) refl refl
      (hosted_worker-KeepsActive (environment succeeding) 2 context) (ticked ∷ []) [] server
      (not_done, tt) refl
