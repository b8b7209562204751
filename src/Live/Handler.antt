-- ===== src/Live/Handler.antt =====
-- `runEventsLiveHandler` and `parseCursor` of internal/app/run_events_live_handler.go. The upgrade of
-- the connection, the bus and sort.Slice are parameters; the deadlines and the logger are left out.
use yaralpho.Base.{
  Option, none, some, List, [], ◌∷◌, String, Error, message, Result, ok, err, str_eq, ltb,
  if◌then◌else◌,
}
use yaralpho.Storage.Models.{SessionEvent, TaskRun, Time}
use yaralpho.Storage.Interface.{Storage, Read, request}
use yaralpho.App.Http.{Response, write_error, write_storage_error}
use yaralpho.Live.Stream.{Frame, Connection, Arrival, error_frame, close_frame, stream}

-- The session event bus: Subscribe, whose events are among the arrivals, and Close.
pub record EventBus (W : Type 0) : Type 0 where
  pub subscribe : String → W → Option Error × W
  pub unsubscribe : String → W → W

pub record LiveEnv (W C : Type 0) : Type 0 where
  pub storage : Storage W
  pub event_bus : Option (EventBus W)
  pub connection : Connection C
  pub upgrade : Result C
  pub parse_time : String → Result Time
  pub sort : List SessionEvent → List SessionEvent

-- An answer before the upgrade, no answer since it failed, or the frames of the connection.
pub data LiveOutcome : Type 0 where
  answered : Response → LiveOutcome
  not_upgraded : LiveOutcome
  streamed : List Frame → LiveOutcome

-- `parseCursor`
unfoldable pub parse_cursor : (String → Result Time) → Time → String → Result Time
parse_cursor parse_time now raw = if str_eq raw "" then ok 0 else elim (parse_time raw) [
  | err e ↦ err (message "invalid last_ingested")
  | ok t ↦ if ltb now t then err (message "invalid last_ingested") else ok t
]

-- A step that failed after the upgrade.
unfoldable pub fail_stream : String → List Frame
unfolding error_frame close_frame
fail_stream reason = error_frame reason ∷ close_frame 1011 reason ∷ []

module _ {W C : Type 0} (env : LiveEnv W C) (arrivals : List Arrival) where
  -- From the stored events on.
  unfoldable pub stream_run : C → Time → Read (List SessionEvent) W → LiveOutcome × W
  unfolding stream fail_stream
  stream_run c cursor (err e, w) = (streamed (fail_stream "list session events failed"), w)
  stream_run c cursor (ok events, w) =
      (streamed (stream env.connection (env.sort events) arrivals cursor c), w)

  -- From the subscription on.
  unfoldable pub subscribe_run : EventBus W → C → Time → TaskRun → W → LiveOutcome × W
  unfolding stream_run fail_stream
  subscribe_run bus c cursor run w =
      let (answer, w1) = bus.subscribe run.session_id w in
      elim answer [
        | some e ↦ (streamed (fail_stream "subscribe failed"), w1)
        | none ↦
            let (outcome, w2) =
              stream_run c cursor (env.storage.list_session_events request run.session_id w1) in
            (outcome, bus.unsubscribe run.session_id w2)
      ]

  -- From the run on.
  unfoldable pub open_run : EventBus W → Time → String → Read TaskRun W → LiveOutcome × W
  unfolding write_storage_error parse_cursor subscribe_run
  open_run bus now raw_cursor (err e, w) = (answered (write_storage_error e), w)
  open_run bus now raw_cursor (ok run, w) =
      if str_eq run.session_id ""
      then (answered (write_error 404 "session not found for run"), w)
      else elim (parse_cursor env.parse_time now raw_cursor) [
        | err e ↦ (answered (write_error 400 "invalid last_ingested"), w)
        | ok cursor ↦ elim env.upgrade [
          | err e ↦ (not_upgraded, w)
          | ok c ↦ subscribe_run bus c cursor run w
        ]
      ]

  -- `runEventsLiveHandler`
  unfoldable pub run_events_live : Time → String → String → W → LiveOutcome × W
  unfolding open_run
  run_events_live now run_id raw_cursor w = elim env.event_bus [
    | none ↦ (answered (write_error 503 "event bus unavailable"), w)
    | some bus ↦
        if str_eq run_id ""
        then (answered (write_error 400 "run id is required"), w)
        else open_run bus now raw_cursor (env.storage.get_task_run request run_id w)
  ]
