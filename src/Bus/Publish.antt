-- ===== src/Bus/Publish.antt =====
-- `Publish` of internal/bus/memory_bus.go. A select that has to wait returns `waits`, and the call
-- goes on from there (`resume_publish`) when the bus or the context has changed; `pick_done` says which
-- case a select takes that finds both a free slot and a context that is done. `handleDropOldest` has
-- three selects; what other goroutines do to the subscriber between them is in the environment. What
-- they do between two subscribers of one call is left out.
use yaralpho.Base.{
  ℕ, Bool, true, false, ◌&&◌, not, Option, none, some, List, [], ◌∷◌, ◌++◌, String, Error, set,
  get_elem?, if◌then◌else◌,
}
use yaralpho.Base.Int.{pos, ltb_ℤ}
use yaralpho.Storage.Models.{SessionEvent}
use yaralpho.Bus.State.{
  Bus, Subscriber, SlowPolicy, drop_latest, drop_oldest, BusError, slow_consumer,
  subscription_closed, has_room,
}
use yaralpho.Bus.Subscribe.{snapshot}

-- What another goroutine does to a subscriber: a send that finds room, a receive, a close.
pub data Other : Type 0 where
  sends : SessionEvent → Other
  receives : Other
  closes : Other

-- The state of the context at a select, and what others do between the first and the second select of
-- `handleDropOldest`, and between the second and the last.
pub record Env : Type 0 where
  pub before_drop : List Other
  pub before_send : List Other
  pub ctx_err : Option Error
  pub pick_done : Bool

-- The outcome of a call on one subscriber, or that it waits with the subscriber in that state.
pub data Sent : Type 0 where
  sent : Option BusError → Subscriber → Sent
  waits : Subscriber → Sent

-- `touch`
unfoldable pub touch : Subscriber → Subscriber
touch s = if ltb_ℤ (pos 0) s.idle_timeout then record s { reset = true } else s

-- sub.events <- evt
unfoldable pub push : SessionEvent → Subscriber → Subscriber
push evt s = record s { events = s.events ++ (evt ∷ []) }

-- <-sub.events
unfoldable pub drop_head : List SessionEvent → List SessionEvent
drop_head [] = []
drop_head (x ∷ xs) = xs

unfoldable pub without_oldest : Subscriber → Subscriber
unfolding drop_head
without_oldest s = record s { events = drop_head s.events }

unfoldable pub act : Other → Subscriber → Subscriber
unfolding has_room push without_oldest
act (sends evt) s = if has_room s && not s.closed then push evt s else s
act receives s = without_oldest s
act closes s = record s { closed = true; done = true }

unfoldable pub meanwhile : List Other → Subscriber → Subscriber
unfolding act
meanwhile [] s = s
meanwhile (a ∷ rest) s = meanwhile rest (act a s)

-- A select of `sub.events <- evt` and `<-ctx.Done()`; a send on a closed channel panics, which
-- `publishToSubscriber` recovers from. `result` is what it returns after the send.
unfoldable pub send_or_done :
    Env → Option BusError → (Subscriber → Subscriber) → SessionEvent → Subscriber → Sent
unfolding has_room push
send_or_done env result after evt s =
    if s.closed then sent (some subscription_closed) s else elim env.ctx_err [
      | none ↦ if has_room s then sent result (after (push evt s)) else waits s
      | some e ↦
          if has_room s && not env.pick_done
          then sent result (after (push evt s))
          else sent (some (BusError.context e)) s
    ]

-- `handleBlocking`
unfoldable pub handle_blocking : Env → SessionEvent → Subscriber → Sent
unfolding send_or_done touch
handle_blocking env evt s = send_or_done env none touch evt s

-- `handleDropLatest`
unfoldable pub handle_drop_latest : SessionEvent → Subscriber → Sent
unfolding has_room push touch
handle_drop_latest evt s =
    if s.closed
    then sent (some subscription_closed) s
    else if has_room s
    then sent none (touch (push evt s))
    else sent (some slow_consumer) s

-- `handleDropOldest`
unfoldable pub handle_drop_oldest : Env → SessionEvent → Subscriber → Sent
unfolding has_room push without_oldest meanwhile send_or_done touch
handle_drop_oldest env evt s =
    if s.closed
    then sent (some subscription_closed) s
    else if has_room s
    then sent none (push evt s)
    else (let t = without_oldest (meanwhile env.before_drop s) in
        send_or_done env (some slow_consumer) touch evt (meanwhile env.before_send t))

unfoldable pub by_policy : SlowPolicy → Env → SessionEvent → Subscriber → Sent
unfolding handle_blocking handle_drop_latest handle_drop_oldest
by_policy drop_latest env evt s = handle_drop_latest evt s
by_policy drop_oldest env evt s = handle_drop_oldest env evt s
by_policy _ env evt s = handle_blocking env evt s

-- `publishToSubscriber`
unfoldable pub publish_to_subscriber : SlowPolicy → Env → SessionEvent → Subscriber → Sent
unfolding by_policy
publish_to_subscriber policy env evt s =
    if s.done then sent (some subscription_closed) s else by_policy policy env evt s

-- The outcome of a call on the bus: it ends with an error or none, or it waits at the first of the
-- subscribers that are left.
pub data Published : Type 0 where
  finished : Option BusError → Bus → Published
  waiting : Option BusError → List ℕ → Bus → Published

counts : BusError → Bool
counts subscription_closed = false
counts _ = true

-- The error to return, with the next subscriber's taken in.
unfoldable pub first_error : Option BusError → Option BusError → Option BusError
unfolding counts
first_error (some e) next = some e
first_error none none = none
first_error none (some e) = if counts e then some e else none

-- The loop of `Publish` over the subscribers that are left.
unfoldable pub publish_loop : Env → SessionEvent → List ℕ → Option BusError → Bus → Published
unfolding publish_to_subscriber first_error
publish_loop env evt [] first b = finished first b
publish_loop env evt (id ∷ rest) first b = elim (get_elem? b.heap id) [
  | none ↦ publish_loop env evt rest first b
  | some s ↦ elim (publish_to_subscriber b.cfg.slow_policy env evt s) [
    | waits s' ↦ waiting first (id ∷ rest) (record b { heap = set b.heap id s' })
    | sent e s' ↦
        publish_loop env evt rest (first_error first e) (record b { heap = set b.heap id s' })
  ]
]

-- The select that a call on a subscriber waits at.
unfoldable pub send_again : SlowPolicy → Env → SessionEvent → Subscriber → Sent
unfolding send_or_done touch handle_blocking
send_again drop_oldest env evt s = send_or_done env (some slow_consumer) touch evt s
send_again _ env evt s = handle_blocking env evt s

-- A publication that waits goes on: with the select at which it waits, and then with the loop.
unfoldable pub resume_publish : Env → SessionEvent → List ℕ → Option BusError → Bus → Published
unfolding send_again publish_loop first_error
resume_publish env evt [] first b = finished first b
resume_publish env evt (id ∷ rest) first b = elim (get_elem? b.heap id) [
  | none ↦ publish_loop env evt rest first b
  | some s ↦ elim (send_again b.cfg.slow_policy env evt s) [
    | waits s' ↦ waiting first (id ∷ rest) (record b { heap = set b.heap id s' })
    | sent e s' ↦
        publish_loop env evt rest (first_error first e) (record b { heap = set b.heap id s' })
  ]
]

-- `Publish`
unfoldable pub publish : Env → String → SessionEvent → Bus → Published
unfolding snapshot publish_loop
publish env session evt b = elim env.ctx_err [
  | some e ↦ finished (some (BusError.context e)) b
  | none ↦ publish_loop env evt (snapshot b session) none b
]
