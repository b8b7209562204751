-- ===== src/Worker/Safety.antt =====
-- What a run of an agent writes (internal/consumer/task_helpers.go): any property of the world that
-- certain writes keep is kept by the whole run.
use yaralpho.Base.{
  refl, inl, inr, Bool-cases, Option-cases, Result-cases, Option, none, some, List, [], ◌∷◌, String,
  Error, ok, err,
}
use yaralpho.Storage.Models.{
  Batch, BatchStatus, BatchStatus_eq, TaskRun, TaskRunStatus, SessionEvent, Fields,
}
use yaralpho.Storage.Interface.{Ctx, request, detached, Read, Write}
use yaralpho.Worker.Env.{Env, Context, Client, AgentSession, Ending}
use yaralpho.Worker.Messages.{is_session_idle_event}
use yaralpho.Worker.Following.{Outcome, session_event, publish_event, store_event, event_loop}
use yaralpho.Worker.Session.{
  set_batch_status, fetch_title, conclude, finish, started_run, unstarted_run, fail_batch,
  not_started, follow_created, follow_session, stop_session, run_session, execute_task,
}
use yaralpho.Worker.Writes.{
  IsOver, IsGiven, Keeps, ending-IsOver, unstarted-IsBegun, started-IsBegun,
}

module _ {W : Type 0} (env : Env W) (client : Client W) (I : W → Type 0)
    (keeps : Keeps env client I) where
  set_batch_status-Keeps :
      (k : Ctx) (status : BatchStatus) (batch : Batch) (w : W)
      → IsGiven status
      → I w
      → I (set_batch_status env k status batch w).1
  unfolding set_batch_status
  set_batch_status-Keeps k status batch w g h =
      elim (Bool-cases (BatchStatus_eq batch.status status)) [
        | inl e ↦ rw (set_batch_status, e) h
        | inr e ↦
            rw (set_batch_status, e) (keeps.on_batch k (record batch { status = status }) w g h)
      ]

  fetch_title-Keeps : (path ref : String) (w : W) → I w → I (fetch_title env path ref w).1
  unfolding fetch_title
  fetch_title-Keeps path ref w h = elim (Result-cases (env.tracker.get_title path ref w).0) [
    | inl (n, e) ↦ rw (fetch_title, e) (keeps.on_title path ref w h)
    | inr (x, e) ↦ rw (fetch_title, e) (keeps.on_title path ref w h)
  ]

  publish_event-Keeps :
      (batch : Batch) (run : TaskRun) (id : String) (event : SessionEvent) (w : W)
      → I w
      → I (publish_event env batch run id event w)
  unfolding publish_event
  publish_event-Keeps batch run id event w h = elim (Option-cases env.bus) [
    | inl e ↦ rw (publish_event, e) h
    | inr (publish, e) ↦ elim (Option-cases (publish id event w).0) [
      | inl a ↦ rw (publish_event, e, a) (keeps.on_publish publish e id event w h)
      | inr (x, a) ↦
          rw (publish_event, e, a)
            (keeps.on_error request batch.id run.id run.task_ref _ _
              (keeps.on_publish publish e id event w h))
    ]
  ]

  store_event-Keeps :
      (batch : Batch) (run : TaskRun) (id : String) (evt : Fields) (w : W)
      → I w
      → I (store_event env batch run id evt w).1
  unfolding store_event
  store_event-Keeps batch run id evt w h =
      let event = session_event batch run id (env.now w).0 evt in
      let kept = keeps.on_event request event (env.now w).1 (keeps.on_now w h) in
      elim (Option-cases (env.storage.insert_session_event request event (env.now w).1).0) [
        | inl e ↦ rw (store_event, e) (publish_event-Keeps batch run id event _ kept)
        | inr (x, e) ↦ rw (store_event, e) kept
      ]

  module _ (batch : Batch) (run : TaskRun) (id : String) (ending : Ending) where
    -- The loop ends with a status of a run that is over.
    event_loop-Keeps :
        (events : List Fields) (w : W)
        → I w
        → IsOver (event_loop env batch run id events ending w).0
          × I (event_loop env batch run id events ending w).2
    unfolding event_loop
    event_loop-Keeps [] w h = (ending-IsOver ending, h)
    event_loop-Keeps (evt ∷ rest) w h =
        let kept = store_event-Keeps batch run id evt w h in
        elim (Option-cases (store_event env batch run id evt w).0) [
          | inl e ↦ elim (Bool-cases (is_session_idle_event evt)) [
            | inl i ↦ rw (event_loop, e, i) (tt, kept)
            | inr i ↦ rw (event_loop, e, i) (event_loop-Keeps rest _ kept)
          ]
          | inr (x, e) ↦ rw (event_loop, e) (tt, kept)
        ]

  conclude-Keeps :
      (batch : Batch) (run : TaskRun) (name : String) (status : TaskRunStatus) (e : Option Error)
      (w : W)
      → IsOver status
      → I w
      → I (conclude env batch run name status e w).3
  unfolding conclude
  conclude-Keeps batch run name TaskRunStatus.succeeded e w o h =
      keeps.on_finished detached _ _ _ _ _ _ w h
  conclude-Keeps batch run name TaskRunStatus.stopped e w o h =
      set_batch_status-Keeps detached BatchStatus.pending batch _ tt
        (keeps.on_idle detached batch.id w h)
  conclude-Keeps batch run name TaskRunStatus.failed e w o h =
      set_batch_status-Keeps detached BatchStatus.failed batch _ tt
        (keeps.on_error detached batch.id run.id run.task_ref _ w h)
  conclude-Keeps batch run name TaskRunStatus.timed_out e w o h =
      set_batch_status-Keeps detached BatchStatus.failed batch _ tt
        (keeps.on_error detached batch.id run.id run.task_ref _ w h)
  conclude-Keeps batch run name TaskRunStatus.unset e w o h = absurd o
  conclude-Keeps batch run name TaskRunStatus.running e w o h = absurd o
  conclude-Keeps batch run name (TaskRunStatus.other s) e w o h = absurd o

  finish-Keeps :
      (batch : Batch) (run : TaskRun) (name : String) (o : Outcome W)
      → IsOver o.0 × I o.2
      → I (finish env batch run name o).3
  unfolding finish
  finish-Keeps batch run name (status, e, w) (o, h) =
      let (finished, w1) = env.now w in
      let (_, run', w2) =
        env.storage.update_task_run detached
          (record run { status = status; finished_at = some finished }) w1 in
      conclude-Keeps batch run' name status e w2 o (
        keeps.on_update detached (record run { status = status; finished_at = some finished }) w1
          (o, refl) (keeps.on_now w h))

  fail_batch-Keeps :
      (what : String) (batch : Batch) (run_id run_ref : String) (e : Error) (w : W)
      → I w
      → I (fail_batch env what batch run_id run_ref e w).3
  unfolding fail_batch
  fail_batch-Keeps what batch run_id run_ref e w h =
      keeps.on_error request _ run_id run_ref e _
        (set_batch_status-Keeps request BatchStatus.failed batch w tt h)

  not_started-Keeps :
      (batch : Batch) (run_id run_ref : String) (e : Error) (w : W)
      → I w
      → I (not_started env batch run_id run_ref e w).3
  unfolding not_started
  not_started-Keeps batch run_id run_ref e w h =
      let (finished, w1) = env.now w in
      let (started, w2) = env.now w1 in
      fail_batch-Keeps "start copilot session" batch run_id run_ref e _ (
        keeps.on_create request (unstarted_run batch run_id run_ref finished started) w2
          (unstarted-IsBegun batch run_id run_ref finished started)
          (keeps.on_now w1 (keeps.on_now w h)))

  follow_created-Keeps :
      (batch : Batch) (run_id run_ref name : String) (session : AgentSession) (a : Write TaskRun W)
      → I a.2
      → I (follow_created env batch run_id run_ref name session a).3
  unfolding follow_created
  follow_created-Keeps batch run_id run_ref name session (some e, run, w) h =
      fail_batch-Keeps "create task run" batch run_id run_ref e w h
  follow_created-Keeps batch run_id run_ref name session (none, run, w) h =
      finish-Keeps batch run name
        (event_loop env batch run session.id session.events session.ending w)
        (event_loop-Keeps batch run session.id session.ending session.events w h)

  run_session-Keeps :
      (batch : Batch) (run_id run_ref name : String) (a : Read AgentSession W)
      → I a.1
      → I (run_session env client batch run_id run_ref name a).3
  unfolding run_session stop_session follow_session
  run_session-Keeps batch run_id run_ref name (err e, w) h =
      not_started-Keeps batch run_id run_ref e w h
  run_session-Keeps batch run_id run_ref name (ok session, w) h =
      let (started, w1) = env.now w in
      keeps.on_stop session _ (
        follow_created-Keeps batch run_id run_ref name session
          (env.storage.create_task_run request (started_run batch run_id run_ref session.id started)
            w1)
          (keeps.on_create request (started_run batch run_id run_ref session.id started) w1
            (started-IsBegun batch run_id run_ref session.id started) (keeps.on_now w h)))

  -- However a run of an agent goes, the only runs that it creates are running or have failed already,
  -- each run that it updates is over and has the time of its end, and the only statuses that it writes
  -- to its batch are pending and failed: what such writes keep, the whole run keeps.
  pub execute_task-Keeps :
      (ctx : Context) (repo_path run_id : String) (batch : Batch) (run_ref prompt : String) (w : W)
      → I w
      → I (execute_task env client ctx repo_path run_id batch run_ref prompt w).3
  unfolding execute_task
  execute_task-Keeps ctx repo_path run_id batch run_ref prompt w h =
      let (name, w1) = fetch_title env repo_path run_ref w in
      run_session-Keeps batch run_id run_ref name (client.start_session ctx prompt repo_path w1)
        (keeps.on_start ctx prompt repo_path w1 (fetch_title-Keeps repo_path run_ref w h))
