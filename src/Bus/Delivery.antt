-- ===== src/Bus/Delivery.antt =====
-- What one call on one subscriber of internal/bus/memory_bus.go does.
use yaralpho.Base.{◌≡◌, refl, ap, ◌∙◌, arith, true, false, Option, none, some, [], ◌∷◌, ◌++◌}
use yaralpho.Base.Int.{pos, ◌<ℤ◌}
use yaralpho.Storage.Models.{SessionEvent}
use yaralpho.Bus.State.{
  Subscriber, SlowPolicy, drop_latest, drop_oldest, block, BusError, slow_consumer, has_room,
}
use yaralpho.Bus.Publish.{
  Env, Sent, sent, waits, publish_to_subscriber, by_policy, handle_drop_latest, handle_drop_oldest,
  handle_blocking, send_or_done, push, touch, drop_head, without_oldest, meanwhile,
}
use yaralpho.Bus.Fits.{Fits, IsOpen, by_policy-ind, room_after_drop}

-- The event is the last of the buffer, and nothing else of the subscriber but the token of the idle
-- timer changes.
unfoldable pub Delivered : SessionEvent → Subscriber → Subscriber → Type 0
Delivered evt s t =
    (t.events ≡ s.events ++ (evt ∷ []))
    × (t.capacity ≡ s.capacity)
    × (t.closed ≡ s.closed)
    × (t.done ≡ s.done)
    × (t.idle_timeout ≡ s.idle_timeout)

Delivers : SessionEvent → Subscriber → Sent → Type 0
Delivers evt s r = (t : Subscriber) × (r ≡ sent none t) × Delivered evt s t

touched : (evt : SessionEvent) (s : Subscriber) → Delivered evt s (touch (push evt s))
unfolding Delivered touch push
touched evt s = ground arith

send-room :
    (env : Env) (evt : SessionEvent) (s : Subscriber) (result : Option BusError)
    → s.closed ≡ false
    → has_room s ≡ true
    → env.ctx_err ≡ none
    → send_or_done env result touch evt s ≡ sent result (touch (push evt s))
unfolding send_or_done
send-room env evt s result h r c = simp (h, c, r)

latest-room :
    (evt : SessionEvent) (s : Subscriber)
    → s.closed ≡ false
    → has_room s ≡ true
    → handle_drop_latest evt s ≡ sent none (touch (push evt s))
unfolding handle_drop_latest
latest-room evt s h r = rw h (rw r refl)

oldest-room :
    (env : Env) (evt : SessionEvent) (s : Subscriber)
    → s.closed ≡ false
    → has_room s ≡ true
    → handle_drop_oldest env evt s ≡ sent none (push evt s)
unfolding handle_drop_oldest
oldest-room env evt s h r = rw h (rw r refl)

pub opened :
    (policy : SlowPolicy) (env : Env) (evt : SessionEvent) (s : Subscriber)
    → s.done ≡ false
    → publish_to_subscriber policy env evt s ≡ by_policy policy env evt s
unfolding publish_to_subscriber
opened policy env evt s h = rw h refl

-- Under every policy, a call on an open subscriber with room, and a context that is not done, appends
-- the event to the buffer and returns no error.
pub publish_to_subscriber-delivers :
    (policy : SlowPolicy) (env : Env) (evt : SessionEvent) (s : Subscriber)
    → IsOpen s
    → has_room s ≡ true
    → env.ctx_err ≡ none
    → (t : Subscriber) × (publish_to_subscriber policy env evt s ≡ sent none t) × Delivered evt s t
unfolding handle_blocking IsOpen Delivers Delivered push
publish_to_subscriber-delivers policy env evt s (h, d) r c = rw (opened policy env evt s d) (
    by_policy-ind (Delivers evt s) policy env evt s (_, latest-room evt s h r, touched evt s)
      (_, oldest-room env evt s h r, (refl, refl, refl, refl, refl))
      (_, send-room env evt s none h r c, touched evt s))

oldest-drops :
    (env : Env) (evt : SessionEvent) (s : Subscriber)
    → s.closed ≡ false
    → has_room s ≡ false
    → handle_drop_oldest env evt s
      ≡ send_or_done env
          (some slow_consumer)
          touch
          evt
          (meanwhile env.before_send (without_oldest (meanwhile env.before_drop s)))
unfolding handle_drop_oldest
oldest-drops env evt s h r = simp (h, r)

oldest-again :
    (env : Env) (evt : SessionEvent) (s : Subscriber)
    → (env.before_drop ≡ []) × (env.before_send ≡ [])
    → s.closed ≡ false
    → has_room s ≡ false
    → handle_drop_oldest env evt s
      ≡ send_or_done env (some slow_consumer) touch evt (without_oldest s)
unfolding meanwhile
oldest-again env evt s (p, q) h r =
    oldest-drops env evt s h r
    ∙ ap
        (λ l.
          send_or_done env (some slow_consumer) touch evt
            (meanwhile env.before_send (without_oldest (meanwhile l s))))
        p
    ∙ ap (λ l. send_or_done env (some slow_consumer) touch evt (meanwhile l (without_oldest s))) q

oldest-full :
    (env : Env) (evt : SessionEvent) (s : Subscriber)
    → (env.before_drop ≡ []) × (env.before_send ≡ [])
    → s.closed ≡ false
    → has_room s ≡ false
    → Fits s
    → env.ctx_err ≡ none
    → handle_drop_oldest env evt s ≡ sent (some slow_consumer) (touch (push evt (without_oldest s)))
unfolding without_oldest
oldest-full env evt s a h r f c =
    oldest-again env evt s a h r
    ∙ send-room env evt (without_oldest s) (some slow_consumer) h (room_after_drop s f) c

-- A call on an open subscriber without room that nobody else touches meanwhile, and a context that is
-- not done: `drop_latest` leaves the
-- subscriber as it is, `drop_oldest` puts the event behind all the others but the oldest, both with
-- the error that the consumer is slow, and `block` waits.
pub publish_to_subscriber-full :
    (env : Env) (evt : SessionEvent) (s : Subscriber)
    → (env.before_drop ≡ []) × (env.before_send ≡ [])
    → IsOpen s
    → has_room s ≡ false
    → Fits s
    → env.ctx_err ≡ none
    → (publish_to_subscriber drop_latest env evt s ≡ sent (some slow_consumer) s)
      × ((t : Subscriber) × (publish_to_subscriber drop_oldest env evt s
            ≡ sent (some slow_consumer) t)
          × (t.events ≡ drop_head s.events ++ (evt ∷ [])))
      × (publish_to_subscriber block env evt s ≡ waits s)
unfolding by_policy handle_drop_latest handle_blocking send_or_done IsOpen Delivered without_oldest
publish_to_subscriber-full env evt s a (h, d) r f c = (
  opened drop_latest env evt s d ∙ rw h (rw r refl),
  (
    _,
    opened drop_oldest env evt s d ∙ oldest-full env evt s a h r f c,
    (touched evt (without_oldest s)).0,
  ),
  opened block env evt s d ∙ simp (h, c, r),
)

touch-live :
    (s : Subscriber) (evt : SessionEvent)
    → pos 0 <ℤ s.idle_timeout
    → touch (push evt s) ≡ record (push evt s) { reset = true }
unfolding touch push
touch-live s evt p = ground arith

-- A call on an open subscriber with an idle timeout, room and no token for its idle timer, and a
-- context that is not done, sends the token under `block` and under `drop_latest`, but not under
-- `drop_oldest`; the event is appended under all three.
pub publish_to_subscriber-touches :
    (env : Env) (evt : SessionEvent) (s : Subscriber)
    → IsOpen s
    → has_room s ≡ true
    → env.ctx_err ≡ none
    → pos 0 <ℤ s.idle_timeout
    → s.reset ≡ false
    → (publish_to_subscriber block env evt s ≡ sent none (record (push evt s) { reset = true }))
      × (publish_to_subscriber drop_latest env evt s
          ≡ sent none (record (push evt s) { reset = true }))
      × (publish_to_subscriber drop_oldest env evt s
          ≡ sent none (record (push evt s) { reset = false }))
unfolding by_policy handle_blocking touch push IsOpen
publish_to_subscriber-touches env evt s (h, d) r c p q = (
  opened block env evt s d ∙ send-room env evt s none h r c ∙ ap (sent none) (touch-live s evt p),
  opened drop_latest env evt s d ∙ latest-room evt s h r ∙ ap (sent none) (touch-live s evt p),
  opened drop_oldest env evt s d ∙ oldest-room env evt s h r ∙ rw q refl,
)
