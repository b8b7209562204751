-- ===== src/Bus/Scenarios.antt =====
-- A bus of internal/bus with two subscribers to one session, and an event published to it.
use yaralpho.Base.{◌≡◌, refl, ◌≢◌, inl, arith, true, false, none, [], ◌∷◌, All, get_elem?}
use yaralpho.Base.Int.{pos}
use yaralpho.Storage.Models.{SessionEvent, Fields}
use yaralpho.Bus.State.{
  Bus, Config, Subscriber, CapPolicy, drop_latest, drop_oldest, block, has_room, new_memory_bus,
}
use yaralpho.Bus.Subscribe.{subscribe, close, snapshot}
use yaralpho.Bus.Publish.{Env, sends, waits, sent, finished, publish, publish_to_subscriber, push}
use yaralpho.Bus.Delivery.{publish_to_subscriber-touches}
use yaralpho.Bus.Fits.{Fits, IsOpen}
use yaralpho.Bus.Admission.{IsAdmission, subscribe-IsAdmission}
use yaralpho.Bus.Fanout.{bus_after, Distinct, IsReady, IsServed, publish-delivers}
use yaralpho.Bus.Waiting.{IsFinished, publish-finishes}
use yaralpho.Bus.History.{starts, subscribes, closes, IsSafe, Reaches-IsSafe}

abbrev event : SessionEvent
event = record {
  batch_id = "b-1";
  run_id = "r-1";
  session_id = "s-1";
  event = Fields.end;
  ingested_at = 1;
}

abbrev small : Config
small = record {
  buffer_size = pos 1;
  slow_policy = drop_latest;
  cap_policy = CapPolicy.unset;
  max_sessions = pos 1;
  max_subscribers = pos 2;
  idle_timeout = pos 5;
}

abbrev fresh : Subscriber
fresh = record {
  capacity = pos 1;
  events = [];
  closed = false;
  done = false;
  idle_timeout = pos 5;
  reset = false;
}

abbrev full : Subscriber
full = record fresh { events = event ∷ [] }

abbrev two_members : Bus
two_members = record {
  cfg = small;
  subs = record { session = "s-1"; members = 0 ∷ 1 ∷ [] } ∷ [];
  heap = fresh ∷ fresh ∷ full ∷ [];
}

abbrev running : Env
running = record { before_drop = []; before_send = []; ctx_err = none; pick_done = false }

fresh-Fits : Fits fresh
unfolding Fits
fresh-Fits = (omega arith, omega arith)

full-Fits : Fits full
unfolding Fits
full-Fits = (omega arith, omega arith)

fresh-IsOpen : IsOpen fresh
unfolding IsOpen
fresh-IsOpen = (refl, refl)

full-IsOpen : IsOpen full
unfolding IsOpen
full-IsOpen = (refl, refl)

subscribe-IsAdmission_example : IsAdmission two_members "s-1" (subscribe two_members "s-1")
subscribe-IsAdmission_example = subscribe-IsAdmission two_members "s-1"

-- Another publisher fills the room that `drop_oldest` has made: the call waits.
oldest_waits_test :
    publish_to_subscriber drop_oldest (record running { before_send = sends event ∷ [] }) event full
    ≡ waits full
unfolding publish_to_subscriber has_room
oldest_waits_test = refl

Reaches-IsSafe_example : IsSafe small (close "s-1" 0 (subscribe (new_memory_bus small) "s-1").1)
Reaches-IsSafe_example = Reaches-IsSafe small _ (closes _ "s-1" 0 (subscribes _ "s-1" starts))

publish-finishes_example : IsFinished (publish running "s-1" event two_members)
publish-finishes_example =
    publish-finishes running "s-1" event two_members (inl refl)
      (fresh-Fits, (fresh-Fits, (full-Fits, tt)))

members-Distinct : Distinct (snapshot two_members "s-1")
unfolding Distinct snapshot
members-Distinct = (((λ e. cc), tt), (tt, tt))

members-IsReady : All (IsReady two_members.heap) (snapshot two_members "s-1")
unfolding IsReady snapshot has_room
members-IsReady = ((fresh, refl, fresh-IsOpen, refl), ((fresh, refl, fresh-IsOpen, refl), tt))

third-apart : All (λ y. 2 ≢ y) (snapshot two_members "s-1")
unfolding snapshot
third-apart = ((λ e. omega arith), ((λ e. omega arith), tt))

publish-delivers_example :
    (publish running "s-1" event two_members
      ≡ finished none (bus_after (publish running "s-1" event two_members)))
    × All
        (IsServed event two_members.heap (bus_after (publish running "s-1" event two_members)).heap)
        (snapshot two_members "s-1")
    × (get_elem? (bus_after (publish running "s-1" event two_members)).heap 2
        ≡ get_elem? two_members.heap 2)
publish-delivers_example =
    publish-delivers running "s-1" event two_members 2 refl members-Distinct members-IsReady
      third-apart

touches_example :
    (publish_to_subscriber block running event fresh
      ≡ sent none (record (push event fresh) { reset = true }))
    × (publish_to_subscriber drop_latest running event fresh
        ≡ sent none (record (push event fresh) { reset = true }))
    × (publish_to_subscriber drop_oldest running event fresh
        ≡ sent none (record (push event fresh) { reset = false }))
unfolding has_room
touches_example =
    publish_to_subscriber-touches running event fresh fresh-IsOpen refl refl (omega arith) refl
