-- ===== src/Live/Stream.antt =====
-- The frames, the backfill and the live loop of internal/app/run_events_live_handler.go. A function
-- returns the frames that it hands to the connection, in order. What a time is printed as, whether a
-- write succeeds and what is known of a read's error are parameters; the logger is left out.
use Prim.Native.String.{slice}
use yaralpho.Base.{
  ℕ, ◌≡◌, refl, Bool, true, false, not, Option, none, some, List, [], ◌∷◌, ◌++◌, String, Error,
  str_eq, ltb, if◌then◌else◌,
}
use yaralpho.Base.Text.{◌&◌}
use yaralpho.Storage.Models.{SessionEvent, Time, is_zero}

-- `eventEnvelope` of each type, the ping and the close message. The cursor of an event is its time.
pub data Frame : Type 0 where
  event : SessionEvent → Frame
  error : String → Frame
  heartbeat : Option Time → Frame
  ping : Frame
  close : ℕ → String → Frame

-- What the connection answers to a write, and what the errors of its reads are: `is_timeout` for a
-- net.Error that timed out, `close_error` for the code and the text of a websocket.CloseError.
pub record Connection (C : Type 0) : Type 0 where
  pub write : Frame → C → Option Error × C
  pub is_timeout : Error → Bool
  pub close_error : Error → Option (ℕ × String)
  pub format_time : Time → String

-- What a select of the live loop receives.
pub data Arrival : Type 0 where
  context_done : Arrival
  read_error : Error → Arrival
  tick : Arrival
  published : SessionEvent → Arrival
  subscription_closed : Arrival

-- The cursor and the keys of the events that were sent.
pub record Position : Type 0 where
  pub cursor : Time
  pub seen : List String

-- evt.IngestedAt.After(cursor)
abbrev pub is_after : Time → SessionEvent → Bool
is_after cursor evt = ltb cursor evt.ingested_at

has_key : String → List String → Bool
has_key key [] = false
has_key key (k ∷ rest) = if str_eq k key then true else has_key key rest

-- `writeErrorEnvelope`
unfoldable pub error_frame : String → Frame
error_frame msg = if str_eq msg "" then error "unknown error" else error msg

-- `writeHeartbeatEnvelope`
unfoldable pub heartbeat_frame : Time → Frame
heartbeat_frame cursor = if is_zero cursor then heartbeat none else heartbeat (some cursor)

-- `writeClose`: a reason of ASCII characters is cut to 123 of them, and a shorter one is kept.
unfoldable pub close_frame : ℕ → String → Frame
close_frame code reason = close code (slice reason 0 123)

module _ {C : Type 0} (conn : Connection C) where
  -- `eventKey`
  unfoldable pub event_key : SessionEvent → String
  event_key evt =
      evt.session_id
      & "|"
      & evt.run_id
      & "|"
      & evt.batch_id
      & "|"
      & conn.format_time evt.ingested_at

  -- `sendHeartbeat`: the frames that are handed over, and the error of the last.
  unfoldable pub send_heartbeat : Time → C → List Frame × Option Error × C
  unfolding heartbeat_frame
  send_heartbeat cursor c =
      let frame = heartbeat_frame cursor in
      let (answer, c1) = conn.write frame c in
      elim answer [
        | some e ↦ (frame ∷ [], some e, c1)
        | none ↦ let (pinged, c2) = conn.write ping c1 in (frame ∷ ping ∷ [], pinged, c2)
      ]

  -- `closeReason`
  unfoldable pub close_reason : Option Error → ℕ × String
  close_reason none = (1001, "client disconnected")
  close_reason (some e) =
      if conn.is_timeout e
      then (1001, "pong timeout")
      else elim (conn.close_error e) [ some r ↦ r | none ↦ (1001, "client read failed") ]

  -- An event was sent.
  unfoldable pub advance : SessionEvent → Position → Position
  unfolding event_key
  advance evt p = record { cursor = evt.ingested_at; seen = event_key evt ∷ p.seen }

  -- The loop over the stored events: the frames, whether a write failed, and the position.
  unfoldable pub backfill : List SessionEvent → Position → C → List Frame × Bool × Position × C
  unfolding advance
  backfill [] p c = ([], false, p, c)
  backfill (evt ∷ rest) p c = elim (is_after p.cursor evt) [
    | false ↦ backfill rest p c
    | true ↦
        let (answer, c') = conn.write (event evt) c in
        elim answer [
          | some e ↦ (event evt ∷ [], true, p, c')
          | none ↦
              let (frames, failed, p', c'') = backfill rest (advance evt p) c' in
              (event evt ∷ frames, failed, p', c'')
        ]
  ]

  -- Whether an event of the subscription is to be sent.
  unfoldable pub is_new : Position → SessionEvent → Bool
  unfolding event_key has_key
  is_new p evt = if is_after p.cursor evt then not (has_key (event_key evt) p.seen) else false

  -- The live loop, over what its selects receive; it waits where nothing more arrives.
  unfoldable pub live : List Arrival → Position → C → List Frame
  unfolding close_frame close_reason send_heartbeat advance is_new
  live [] p c = []
  live (context_done ∷ rest) p c = close_frame 1000 "context done" ∷ []
  live (read_error e ∷ rest) p c =
      let (code, reason) = close_reason (some e) in close_frame code reason ∷ []
  live (subscription_closed ∷ rest) p c = close_frame 1000 "subscription closed" ∷ []
  live (tick ∷ rest) p c =
      let (frames, answer, c') = send_heartbeat p.cursor c in
      elim answer [
        | some e ↦ frames ++ (close_frame 1001 "heartbeat send failed" ∷ [])
        | none ↦ frames ++ live rest p c'
      ]
  live (published evt ∷ rest) p c = elim (is_new p evt) [
    | false ↦ live rest p c
    | true ↦
        let (answer, c') = conn.write (event evt) c in
        elim answer [
          | some e ↦ event evt ∷ close_frame 1001 "write failed" ∷ []
          | none ↦ event evt ∷ live rest (advance evt p) c'
        ]
  ]

  -- The backfill, and then the live loop.
  unfoldable pub stream : List SessionEvent → List Arrival → Time → C → List Frame
  unfolding backfill live close_frame
  stream events arrivals cursor c =
      let (frames, failed, p, c') = backfill events (record { cursor = cursor; seen = [] }) c in
      if failed
      then frames ++ (close_frame 1001 "write failed during backfill" ∷ [])
      else frames ++ live arrivals p c'

close_frame_test : close_frame 1000 "context done" ≡ close 1000 "context done"
unfolding close_frame
close_frame_test = refl
