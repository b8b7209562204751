-- ===== src/Bus/Fits.antt =====
-- Buffers of internal/bus/memory_bus.go stay within their capacity.
use yaralpho.Base.{
  ◌≡◌, if◌then◌else◌, arith, true, false, Option, none, some, List, [], ◌∷◌, length, length-append,
}
use yaralpho.Base.Int.{ℤ, pos, ◌<ℤ◌, ◌≤ℤ◌}
use yaralpho.Storage.Models.{SessionEvent}
use yaralpho.Bus.State.{
  Subscriber, SlowPolicy, drop_latest, drop_oldest, BusError, slow_consumer, subscription_closed,
  has_room,
}
use yaralpho.Bus.Publish.{
  Env, Sent, sent, waits, publish_to_subscriber, by_policy, handle_drop_latest, handle_drop_oldest,
  handle_blocking, send_or_done, push, touch, drop_head, without_oldest, Other, sends, receives,
  closes, act, meanwhile, send_again,
}

-- A channel that can hold something, and holds no more than it can.
unfoldable pub Fits : Subscriber → Type 0
Fits s = (pos 0 <ℤ s.capacity) × (pos (length s.events) ≤ℤ s.capacity)

-- A subscriber that takes one more event.
unfoldable pub IsOpen : Subscriber → Type 0
IsOpen s = (s.closed ≡ false) × (s.done ≡ false)

pub drop_head-length :
    (l : List SessionEvent) (n : ℤ)
    → pos 0 <ℤ n
    → pos (length l) ≤ℤ n
    → pos (length (drop_head l)) <ℤ n
unfolding drop_head
drop_head-length [] n p h = ground arith
drop_head-length (x ∷ xs) n p h = ground arith

has_room-lt : (s : Subscriber) → has_room s ≡ true → pos (length s.events) <ℤ s.capacity
unfolding has_room
has_room-lt s h = ground arith

lt-has_room : (s : Subscriber) → pos (length s.events) <ℤ s.capacity → has_room s ≡ true
unfolding has_room
lt-has_room s h = ground arith

push-Fits :
    (s : Subscriber) (evt : SessionEvent) → has_room s ≡ true → Fits s → Fits (touch (push evt s))
unfolding Fits touch push
push-Fits s evt r (p, q) =
    let e = length-append s.events (evt ∷ []) in let l = has_room-lt s r in ground arith

-- What a call leaves: the subscriber still fits.
unfoldable pub Bounded : Sent → Type 0
Bounded (sent e s) = Fits s
Bounded (waits s) = Fits s

push-Fits_plain :
    (s : Subscriber) (evt : SessionEvent) → has_room s ≡ true → Fits s → Fits (push evt s)
unfolding Fits push
push-Fits_plain s evt r (p, q) =
    let e = length-append s.events (evt ∷ []) in let l = has_room-lt s r in ground arith

send-Bounded :
    (env : Env) (result : Option BusError) (evt : SessionEvent) (s : Subscriber)
    → Fits s
    → Bounded (send_or_done env result touch evt s)
unfolding send_or_done Bounded
send-Bounded env result evt s f =
    let fits = λ (r : has_room s ≡ true). push-Fits s evt r f in ground arith

latest-Bounded : (evt : SessionEvent) (s : Subscriber) → Fits s → Bounded (handle_drop_latest evt s)
unfolding handle_drop_latest Bounded
latest-Bounded evt s f = let fits = λ (r : has_room s ≡ true). push-Fits s evt r f in ground arith

pub dropped-Fits : (s : Subscriber) → Fits s → Fits (without_oldest s)
unfolding Fits without_oldest
dropped-Fits s (p, q) = let l = drop_head-length s.events s.capacity p q in ground arith

act-Fits : (a : Other) (s : Subscriber) → Fits s → Fits (act a s)
unfolding act Fits
act-Fits (sends evt) s f =
    let fits = λ (r : has_room s ≡ true). push-Fits_plain s evt r f in ground arith
act-Fits receives s f = dropped-Fits s f
act-Fits closes s f = f

pub meanwhile-Fits : (l : List Other) (s : Subscriber) → Fits s → Fits (meanwhile l s)
unfolding meanwhile
meanwhile-Fits [] s f = f
meanwhile-Fits (a ∷ rest) s f = meanwhile-Fits rest (act a s) (act-Fits a s f)

oldest-Bounded :
    (env : Env) (evt : SessionEvent) (s : Subscriber)
    → Fits s
    → Bounded (handle_drop_oldest env evt s)
unfolding handle_drop_oldest Bounded
oldest-Bounded env evt s f =
    let fits = λ (r : has_room s ≡ true). push-Fits_plain s evt r f in
    let rest =
      send-Bounded env (some slow_consumer) evt _
        (meanwhile-Fits env.before_send _ (dropped-Fits _ (meanwhile-Fits env.before_drop s f))) in
    ground arith

-- A property of the three handlers is one of every call that gets to them.
pub by_policy-ind {ℓ} :
    (P : Sent → Type ℓ) (policy : SlowPolicy) (env : Env) (evt : SessionEvent) (s : Subscriber)
    → P (handle_drop_latest evt s)
    → P (handle_drop_oldest env evt s)
    → P (handle_blocking env evt s)
    → P (by_policy policy env evt s)
unfolding by_policy
by_policy-ind P SlowPolicy.unset env evt s a b c = c
by_policy-ind P SlowPolicy.block env evt s a b c = c
by_policy-ind P drop_latest env evt s a b c = a
by_policy-ind P drop_oldest env evt s a b c = b
by_policy-ind P (SlowPolicy.other x) env evt s a b c = c

by_policy-Bounded :
    (policy : SlowPolicy) (env : Env) (evt : SessionEvent) (s : Subscriber)
    → Fits s
    → Bounded (by_policy policy env evt s)
unfolding handle_blocking
by_policy-Bounded policy env evt s f =
    by_policy-ind Bounded policy env evt s (latest-Bounded evt s f) (oldest-Bounded env evt s f)
      (send-Bounded env none evt s f)

-- Whatever the policy and the context, a buffer that holds no more than its capacity holds no more
-- than its capacity after a call, whether it waits or not.
pub publish_to_subscriber-Bounded :
    (policy : SlowPolicy) (env : Env) (evt : SessionEvent) (s : Subscriber)
    → Fits s
    → Bounded (publish_to_subscriber policy env evt s)
unfolding publish_to_subscriber Bounded
publish_to_subscriber-Bounded policy env evt s f =
    elim s.done
      as (λ d.
        Bounded (if d then sent (some subscription_closed) s else by_policy policy env evt s)) [
          | true ↦ f
          | false ↦ by_policy-Bounded policy env evt s f
        ]

-- The same of the select that a call waits at.
pub send_again-Bounded :
    (policy : SlowPolicy) (env : Env) (evt : SessionEvent) (s : Subscriber)
    → Fits s
    → Bounded (send_again policy env evt s)
unfolding send_again handle_blocking
send_again-Bounded SlowPolicy.unset env evt s f = send-Bounded env none evt s f
send_again-Bounded SlowPolicy.block env evt s f = send-Bounded env none evt s f
send_again-Bounded drop_latest env evt s f = send-Bounded env none evt s f
send_again-Bounded drop_oldest env evt s f = send-Bounded env (some slow_consumer) evt s f
send_again-Bounded (SlowPolicy.other x) env evt s f = send-Bounded env none evt s f

pub room_after_drop : (s : Subscriber) → Fits s → has_room (without_oldest s) ≡ true
unfolding Fits without_oldest
room_after_drop s (p, q) = lt-has_room _ (drop_head-length s.events s.capacity p q)
