-- ===== src/Bus/Waiting.antt =====
-- When `Publish` of internal/bus/memory_bus.go does not wait.
use yaralpho.Base.{
  ◌≡◌, refl, sym, ap, subst, ◌∙◌, Bool-cases, Option-cases, ◌≢◌, ◌⊎◌, inl, inr, arith, true, Option,
  none, some, List, [], ◌∷◌, All, All-set, All-get_elem?, length, ◌≤◌, String, ℕ, set, get_elem?,
}
use yaralpho.Storage.Models.{SessionEvent}
use yaralpho.Bus.State.{
  Bus, Subscriber, SlowPolicy, drop_latest, drop_oldest, BusError, slow_consumer, has_room,
}
use yaralpho.Bus.Subscribe.{snapshot}
use yaralpho.Bus.Publish.{
  Env, waits, publish_to_subscriber, by_policy, handle_drop_latest, handle_drop_oldest,
  send_or_done, touch, drop_head, without_oldest, Other, sends, receives, closes, act, meanwhile,
  Published, finished, publish, publish_loop, first_error,
}
use yaralpho.Bus.Fits.{Fits, room_after_drop, meanwhile-Fits}
use yaralpho.Bus.Delivery.{opened}
use yaralpho.Bus.Fanout.{Sent-cases, loop-gone, loop-sent, publish-runs, publish-done, sent-Fits}

drop_head-shorter : (l : List SessionEvent) → length (drop_head l) ≤ length l
unfolding drop_head
drop_head-shorter [] = omega arith
drop_head-shorter (x ∷ xs) = ground arith

room_without_oldest : (s : Subscriber) → has_room s ≡ true → has_room (without_oldest s) ≡ true
unfolding has_room without_oldest
room_without_oldest s r = let l = drop_head-shorter s.events in ground arith

room-closed :
    (s : Subscriber) → has_room s ≡ true → has_room (record s { closed = true; done = true }) ≡ true
unfolding has_room
room-closed s r = r

latest-returns : (evt : SessionEvent) (s t : Subscriber) → handle_drop_latest evt s ≢ waits t
unfolding handle_drop_latest
latest-returns evt s t h = ground arith

send-returns :
    (env : Env) (result : Option BusError) (evt : SessionEvent) (s t : Subscriber)
    → has_room s ≡ true
    → send_or_done env result touch evt s ≢ waits t
unfolding send_or_done
send-returns env result evt s t r h = ground arith

-- What others do that leaves the room in a buffer.
abbrev pub IsNoSend : Other → Type 0
IsNoSend (sends evt) = ⊥
IsNoSend receives = Unit
IsNoSend closes = Unit

meanwhile-room :
    (l : List Other) (s : Subscriber)
    → All IsNoSend l
    → has_room s ≡ true
    → has_room (meanwhile l s) ≡ true
unfolding meanwhile act
meanwhile-room [] s n r = r
meanwhile-room (sends evt ∷ rest) s (n, m) r = absurd n
meanwhile-room (receives ∷ rest) s (n, m) r =
    meanwhile-room rest (without_oldest s) m (room_without_oldest s r)
meanwhile-room (closes ∷ rest) s (n, m) r =
    meanwhile-room rest (record s { closed = true; done = true }) m (room-closed s r)

oldest-returns :
    (env : Env) (evt : SessionEvent) (s t : Subscriber)
    → All IsNoSend env.before_send
    → Fits s
    → handle_drop_oldest env evt s ≢ waits t
unfolding handle_drop_oldest
oldest-returns env evt s t n f h =
    let dropped = without_oldest (meanwhile env.before_drop s) in
    let room = room_after_drop _ (meanwhile-Fits env.before_drop s f) in
    let again =
      send-returns env (some slow_consumer) evt (meanwhile env.before_send dropped) t
        (meanwhile-room env.before_send dropped n room) in
    ground arith

-- A call on a subscriber whose buffer fits its capacity does not wait under `drop_latest`, nor under
-- `drop_oldest` if no other publisher sends to it between the drop and the last select.
pub publish_to_subscriber-returns :
    (policy : SlowPolicy) (env : Env) (evt : SessionEvent) (s t : Subscriber)
    → (policy ≡ drop_latest) ⊎ ((policy ≡ drop_oldest) × All IsNoSend env.before_send)
    → Fits s
    → publish_to_subscriber policy env evt s ≢ waits t
unfolding publish_to_subscriber by_policy
publish_to_subscriber-returns policy env evt s t (inl e) f h =
    let a = latest-returns evt s t in
    elim (Bool-cases s.done) [
      | inl d ↦ cc
      | inr d ↦ a (sym (ap (λ p. by_policy p env evt s) e) ∙ sym (opened policy env evt s d) ∙ h)
    ]
publish_to_subscriber-returns policy env evt s t (inr (e, n)) f h =
    let b = oldest-returns env evt s t n f in
    elim (Bool-cases s.done) [
      | inl d ↦ cc
      | inr d ↦ b (sym (ap (λ p. by_policy p env evt s) e) ∙ sym (opened policy env evt s d) ∙ h)
    ]

-- The call came to its end.
pub IsFinished : Published → Type 0
IsFinished p = (e : Option BusError) × (b : Bus) × (p ≡ finished e b)

loop-finishes :
    (env : Env) (evt : SessionEvent) (ids : List ℕ) (first : Option BusError) (b : Bus)
    → (b.cfg.slow_policy ≡ drop_latest)
      ⊎ ((b.cfg.slow_policy ≡ drop_oldest) × All IsNoSend env.before_send)
    → All Fits b.heap
    → IsFinished (publish_loop env evt ids first b)
unfolding publish_loop IsFinished
loop-finishes env evt [] first b d f = (first, b, refl)
loop-finishes env evt (id ∷ rest) first b d f = elim (Option-cases (get_elem? b.heap id)) [
  | inl h ↦
      subst IsFinished (sym (loop-gone env evt id rest first b h))
        (loop-finishes env evt rest first b d f)
  | inr (s, h) ↦ elim (Sent-cases (publish_to_subscriber b.cfg.slow_policy env evt s)) [
    | inl (t, r) ↦
        absurd
          (publish_to_subscriber-returns _ env evt s t d (All-get_elem? Fits b.heap id s f h) r)
    | inr (e, t, r) ↦ subst IsFinished (sym (loop-sent env evt id rest first b s t e h r)) (
        loop-finishes env evt rest (first_error first e) (record b { heap = set b.heap id t }) d
          (All-set Fits b.heap id t f
            (sent-Fits env evt _ s t e (All-get_elem? Fits b.heap id s f h) r)))
  ]
]

-- With no buffer over its capacity a publication never waits under `drop_latest`, nor under
-- `drop_oldest` if no other publisher sends to a subscriber between the drop and the last select of
-- the call on it.
pub publish-finishes :
    (env : Env) (session : String) (evt : SessionEvent) (b : Bus)
    → (b.cfg.slow_policy ≡ drop_latest)
      ⊎ ((b.cfg.slow_policy ≡ drop_oldest) × All IsNoSend env.before_send)
    → All Fits b.heap
    → IsFinished (publish env session evt b)
unfolding publish IsFinished
publish-finishes env session evt b d f = elim (Option-cases env.ctx_err) [
  | inl e ↦
      subst IsFinished (sym (publish-runs env session evt b e))
        (loop-finishes env evt (snapshot b session) none b d f)
  | inr (x, e) ↦ subst IsFinished (sym (publish-done env session evt b x e)) (_, b, refl)
]
