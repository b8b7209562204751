-- ===== src/Live/Scenarios.antt =====
-- A stream of events over a connection that takes every frame, and the theorems about
-- internal/app/run_events_live_handler.go applied to it.
use yaralpho.Base.{◌≡◌, refl, false, none, some, List, [], ◌∷◌, arith, map}
use yaralpho.Base.Text.{format_int}
use yaralpho.Storage.Models.{SessionEvent, end, Time}
use yaralpho.Live.Stream.{
  event, heartbeat, ping, close, Connection, Arrival, context_done, tick, published, backfill,
  stream,
}
use yaralpho.Live.Order.{IsIncreasing, stream-IsIncreasing, backfill_all}

abbrev at_time : Time → SessionEvent
at_time t = record {
  batch_id = "b-1";
  run_id = "run-1";
  session_id = "s-1";
  event = end;
  ingested_at = t;
}

-- A connection that takes every frame; it keeps nothing.
abbrev connection : Connection Unit
connection = record {
  write = λ f c. (none, c);
  is_timeout = λ e. false;
  close_error = λ e. none;
  format_time = λ t. format_int t;
}

abbrev stored : List SessionEvent
stored = at_time 3 ∷ at_time 5 ∷ []

abbrev arrivals : List Arrival
arrivals = published (at_time 5) ∷ tick ∷ published (at_time 8) ∷ context_done ∷ []

-- The event of time 5 is stored and published; it is sent once.
stream_test :
    stream connection stored arrivals 3 tt
    ≡ event (at_time 5)
      ∷ heartbeat (some 5)
      ∷ ping
      ∷ event (at_time 8)
      ∷ close 1000 "context done"
      ∷ []
unfolding stream format_int
stream_test = refl

stream-IsIncreasing_example : IsIncreasing 3 (stream connection stored arrivals 3 tt)
stream-IsIncreasing_example = stream-IsIncreasing connection stored arrivals 3 tt

backfill_all_example :
    ((backfill connection stored (record { cursor = 2; seen = [] }) tt).0 ≡ map event stored)
    × ((backfill connection stored (record { cursor = 2; seen = [] }) tt).1 ≡ false)
backfill_all_example =
    backfill_all connection (λ f c. refl) stored (record { cursor = 2; seen = [] }) tt
      (ground arith)
