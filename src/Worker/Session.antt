-- ===== src/Worker/Session.antt =====
-- `executeTask` and `setBatchStatus` of internal/consumer/task_helpers.go: one run of an agent. The
-- batch is the document that the worker holds, returned as the calls leave it; the logger and the
-- metric of timeouts are left out.
use yaralpho.Base.{Option, none, some, String, Error, message, wrap, ok, err, if◌then◌else◌}
use yaralpho.Base.Text.{trim_space}
use yaralpho.Storage.Models.{Batch, BatchStatus, BatchStatus_eq, TaskRun, TaskRunStatus, Time}
use yaralpho.Storage.Interface.{Read, Write, Ctx, request, detached}
use yaralpho.Worker.Env.{Env, Context, Client, AgentSession}
use yaralpho.Worker.Following.{Outcome, event_loop}

-- string(status)
unfoldable pub status_text : TaskRunStatus → String
status_text TaskRunStatus.unset = ""
status_text TaskRunStatus.running = "running"
status_text TaskRunStatus.succeeded = "succeeded"
status_text TaskRunStatus.failed = "failed"
status_text TaskRunStatus.stopped = "stopped"
status_text TaskRunStatus.timed_out = "timed_out"
status_text (TaskRunStatus.other s) = s

or_error : Option Error → Error → Error
or_error none other = other
or_error (some e) other = e

-- A run whose session is not there.
unfoldable pub unstarted_run : Batch → String → String → Time → Time → TaskRun
unstarted_run batch run_id run_ref finished started = record {
  id = run_id;
  batch_id = batch.id;
  repository_id = batch.repository_id;
  task_ref = run_ref;
  session_id = "";
  started_at = started;
  finished_at = some finished;
  status = TaskRunStatus.failed;
  result = none;
}

unfoldable pub started_run : Batch → String → String → String → Time → TaskRun
started_run batch run_id run_ref session_id started = record {
  id = run_id;
  batch_id = batch.id;
  repository_id = batch.repository_id;
  task_ref = run_ref;
  session_id = session_id;
  started_at = started;
  finished_at = none;
  status = TaskRunStatus.running;
  result = none;
}

unfoldable pub stop_session :
    {W : Type 0}
    → Client W
    → AgentSession
    → TaskRunStatus × Option Error × Batch × W
    → TaskRunStatus × Option Error × Batch × W
stop_session client session (status, e, batch, w) = (status, e, batch, client.stop session w)

module _ {W : Type 0} (env : Env W) where
  -- `setBatchStatus`
  unfoldable pub set_batch_status : Ctx → BatchStatus → Batch → W → Batch × W
  set_batch_status ctx status batch w =
      if BatchStatus_eq batch.status status
      then (batch, w)
      else (let (_, batch', w') =
            env.storage.update_batch ctx (record batch { status = status }) w in
          (batch', w'))

  -- The title of the task, or nothing.
  unfoldable pub fetch_title : String → String → W → String × W
  fetch_title repo_path task_ref w =
      let (answer, w') = env.tracker.get_title repo_path task_ref w in
      elim answer [ ok name ↦ (trim_space name, w') | err e ↦ ("", w') ]

  -- The switch on the status of a run that is over.
  unfoldable pub conclude :
      Batch
      → TaskRun
      → String
      → TaskRunStatus
      → Option Error
      → W
      → TaskRunStatus × Option Error × Batch × W
  unfolding set_batch_status status_text or_error
  conclude batch run task_name TaskRunStatus.succeeded e w =
      let (_, w') =
        env.notifier.notify_task_finished detached batch.id run.id run.task_ref task_name
          (status_text run.status) "" w in
      (TaskRunStatus.succeeded, e, batch, w')
  conclude batch run task_name TaskRunStatus.stopped e w =
      let (_, w') = env.notifier.notify_batch_idle detached batch.id w in
      let (batch', w'') = set_batch_status detached BatchStatus.pending batch w' in
      (TaskRunStatus.stopped, e, batch', w'')
  conclude batch run task_name status e w =
      let cause = or_error e (message "task run failed") in
      let (_, w') = env.notifier.notify_error detached batch.id run.id run.task_ref cause w in
      let (batch', w'') = set_batch_status detached BatchStatus.failed batch w' in
      (status, some cause, batch', w'')

  -- What follows the event loop: the run is updated, whatever the context is, and then reported.
  unfoldable pub finish :
      Batch → TaskRun → String → Outcome W → TaskRunStatus × Option Error × Batch × W
  unfolding conclude
  finish batch run task_name (status, e, w) =
      let (finished, w1) = env.now w in
      let (_, run', w2) =
        env.storage.update_task_run detached
          (record run { status = status; finished_at = some finished }) w1 in
      conclude batch run' task_name status e w2

  -- A step that fails before the event loop: the batch is failed, and the error reported.
  unfoldable pub fail_batch :
      String → Batch → String → String → Error → W → TaskRunStatus × Option Error × Batch × W
  unfolding set_batch_status
  fail_batch what batch run_id run_ref e w =
      let (batch', w1) = set_batch_status request BatchStatus.failed batch w in
      let (_, w2) = env.notifier.notify_error request batch'.id run_id run_ref e w1 in
      (TaskRunStatus.failed, some (wrap what e), batch', w2)

  -- The session could not be started.
  unfoldable pub not_started :
      Batch → String → String → Error → W → TaskRunStatus × Option Error × Batch × W
  unfolding unstarted_run fail_batch
  not_started batch run_id run_ref e w =
      let (finished, w1) = env.now w in
      let (started, w2) = env.now w1 in
      let (_, _, w3) =
        env.storage.create_task_run request (unstarted_run batch run_id run_ref finished started)
          w2 in
      fail_batch "start copilot session" batch run_id run_ref e w3

  -- Once the run is created, the events of its session are followed.
  unfoldable pub follow_created :
      Batch
      → String
      → String
      → String
      → AgentSession
      → Write TaskRun W
      → TaskRunStatus × Option Error × Batch × W
  unfolding fail_batch event_loop finish
  follow_created batch run_id run_ref task_name session (some e, run, w) =
      fail_batch "create task run" batch run_id run_ref e w
  follow_created batch run_id run_ref task_name session (none, run, w) =
      finish batch run task_name
        (event_loop env batch run session.id session.events session.ending w)

  -- A session that is there.
  unfoldable pub follow_session :
      Batch → String → String → String → AgentSession → W → TaskRunStatus × Option Error × Batch × W
  unfolding started_run follow_created
  follow_session batch run_id run_ref task_name session w =
      let (started, w1) = env.now w in
      follow_created batch run_id run_ref task_name session (
        env.storage.create_task_run request (started_run batch run_id run_ref session.id started)
          w1)

  -- What is done with the answer of StartSession.
  unfoldable pub run_session :
      Client W
      → Batch
      → String
      → String
      → String
      → Read AgentSession W
      → TaskRunStatus × Option Error × Batch × W
  unfolding not_started follow_session stop_session
  run_session client batch run_id run_ref task_name (err e, w) =
      not_started batch run_id run_ref e w
  run_session client batch run_id run_ref task_name (ok session, w) =
      stop_session client session (follow_session batch run_id run_ref task_name session w)

  -- `executeTask`, with the run's id that `newRunID` returns.
  unfoldable pub execute_task :
      Client W
      → Context
      → String
      → String
      → Batch
      → String
      → String
      → W
      → TaskRunStatus × Option Error × Batch × W
  unfolding fetch_title run_session
  execute_task client ctx repo_path run_id batch run_ref prompt w =
      let (task_name, w1) = fetch_title repo_path run_ref w in
      run_session client batch run_id run_ref task_name
        (client.start_session ctx prompt repo_path w1)
