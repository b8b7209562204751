-- ===== src/Worker/Following.antt =====
-- The event loop of `executeTask` in internal/consumer/task_helpers.go: the events of a session are
-- stored and published until the session is idle, its channel is closed or the context is done.
use yaralpho.Base.{
  Bool, true, false, Option, none, some, List, [], ◌∷◌, String, Error, deadline_exceeded, wrap,
  if◌then◌else◌,
}
use yaralpho.Storage.Models.{
  Batch, BatchStatus, BatchStatus_eq, TaskRun, TaskRunStatus, SessionEvent, Fields, Time,
}
use yaralpho.Storage.Interface.{Ctx, request}
use yaralpho.Worker.Env.{Env, Ending, closed, done}
use yaralpho.Worker.Messages.{is_session_idle_event}

-- errors.Is(err, context.DeadlineExceeded): through every wrapping.
unfoldable pub is_deadline_exceeded : Error → Bool
is_deadline_exceeded deadline_exceeded = true
is_deadline_exceeded (wrap s e) = is_deadline_exceeded e
is_deadline_exceeded _ = false

-- The event of a run, as it is stored.
abbrev pub session_event : Batch → TaskRun → String → Time → Fields → SessionEvent
session_event batch run session_id t evt = record {
  batch_id = batch.id;
  run_id = run.id;
  session_id = session_id;
  event = evt;
  ingested_at = t;
}

-- What the end of the arrivals makes of the run.
unfoldable pub ending_status : Ending → TaskRunStatus
unfolding is_deadline_exceeded
ending_status closed = TaskRunStatus.succeeded
ending_status (done e) =
    if is_deadline_exceeded e then TaskRunStatus.timed_out else TaskRunStatus.stopped

unfoldable pub ending_error : Ending → Option Error
ending_error closed = none
ending_error (done e) = some e

-- A value with the error that comes with it, and the world after it.
abbrev pub Outcome : Type 0 → Type 0
Outcome W = TaskRunStatus × Option Error × W

module _ {W : Type 0} (env : Env W) where
  -- `setBatchStatus`
  unfoldable pub set_batch_status : Ctx → BatchStatus → Batch → W → Batch × W
  set_batch_status ctx status batch w =
      if BatchStatus_eq batch.status status
      then (batch, w)
      else (let (_, batch', w') =
            env.storage.update_batch ctx (record batch { status = status }) w in
          (batch', w'))

  -- The publication of a stored event; its failure is reported.
  unfoldable pub publish_event : Batch → TaskRun → String → SessionEvent → W → W
  publish_event batch run session_id event w = elim env.bus [
    | none ↦ w
    | some publish ↦
        let (answer, w1) = publish session_id event w in
        elim answer [
          | none ↦ w1
          | some e ↦
              (env.notifier.notify_error request batch.id run.id run.task_ref
                (wrap "publish session event" e) w1).1
        ]
  ]

  -- One arrival of the event loop: the event is stored, and the error of that is returned.
  unfoldable pub store_event : Batch → TaskRun → String → Fields → W → Option Error × W
  unfolding publish_event
  store_event batch run session_id evt w =
      let (t, w1) = env.now w in
      let event = session_event batch run session_id t evt in
      let (answer, w2) = env.storage.insert_session_event request event w1 in
      elim answer [
        | some e ↦ (some e, w2)
        | none ↦ (none, publish_event batch run session_id event w2)
      ]

  -- The event loop.
  unfoldable pub event_loop : Batch → TaskRun → String → List Fields → Ending → W → Outcome W
  unfolding store_event ending_status ending_error
  event_loop batch run session_id [] ending w = (ending_status ending, ending_error ending, w)
  event_loop batch run session_id (evt ∷ rest) ending w =
      let (answer, w') = store_event batch run session_id evt w in
      elim answer [
        | some e ↦ (TaskRunStatus.failed, some e, w')
        | none ↦ elim (is_session_idle_event evt) [
          | true ↦ (TaskRunStatus.succeeded, none, w')
          | false ↦ event_loop batch run session_id rest ending w'
        ]
      ]
