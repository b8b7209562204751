-- ===== src/Bus/History.antt =====
-- The states that a memory bus of internal/bus can get into: the calls of its methods, one after the
-- other, and what the subscribers receive in between.
use yaralpho.Base.{
  ℕ, ◌≡◌, refl, sym, subst, ap, ◌∙◌, inl, inr, arith, true, false, Option, none, some, List, [],
  ◌∷◌, ◌++◌, String, All, All-modify, get_elem?, get_elem?-modify, modify, Option-cases, Bool-cases,
}
use yaralpho.Base.Int.{pos, ◌<ℤ◌}
use yaralpho.Storage.Models.{SessionEvent}
use yaralpho.Bus.State.{Bus, Config, Subscriber, BusError, normalize, new_memory_bus}
use yaralpho.Bus.Subscribe.{subscribe, close, cleanup, mark_done, new_subscriber}
use yaralpho.Bus.Joining.{
  Subscribed, joins, begins, bucket_full, bus_full, joined_bus, subscribe-Subscribed,
}
use yaralpho.Bus.Publish.{Env, publish, resume_publish, without_oldest}
use yaralpho.Bus.Fits.{Fits, dropped-Fits}
use yaralpho.Bus.Fanout.{bus_after, Keeps, publish-Keeps}
use yaralpho.Bus.Resuming.{resume_publish-Keeps}
use yaralpho.Bus.Bounds.{IsWithin, new_memory_bus-IsWithin, IsWithin-subscribe, IsWithin-close}

-- `<-sub.Events` of a subscriber.
unfoldable pub receive : ℕ → Bus → Bus
unfolding without_oldest
receive id b = record b { heap = modify b.heap id without_oldest }

-- The states of a bus: `resumes` is a publication that waited and goes on with the subscribers that
-- are left.
pub data Reaches (cfg : Config) : Bus → Type 0 where
  starts : Reaches cfg (new_memory_bus cfg)
  subscribes : (b : Bus) (session : String) → Reaches cfg b → Reaches cfg (subscribe b session).1
  closes : (b : Bus) (session : String) (id : ℕ) → Reaches cfg b → Reaches cfg (close session id b)
  receives : (b : Bus) (id : ℕ) → Reaches cfg b → Reaches cfg (receive id b)
  publishes :
      (b : Bus) (env : Env) (session : String) (evt : SessionEvent)
      → Reaches cfg b
      → Reaches cfg (bus_after (publish env session evt b))
  resumes :
      (b : Bus) (env : Env) (evt : SessionEvent) (ids : List ℕ) (first : Option BusError)
      → Reaches cfg b
      → Reaches cfg (bus_after (resume_publish env evt ids first b))

-- The configuration is the normalized one, its limits hold, and every buffer holds at most its
-- capacity, which is at least 1.
pub IsSafe : Config → Bus → Type 0
IsSafe cfg b = (b.cfg ≡ normalize cfg) × IsWithin b.cfg b.subs × All Fits b.heap

normal-positive : (cfg : Config) → pos 0 <ℤ (normalize cfg).buffer_size
unfolding normalize
normal-positive cfg = ground arith

All-snoc :
    {A : Type 0} (P : A → Type 0) (xs : List A) (x : A) → All P xs → P x → All P (xs ++ (x ∷ []))
All-snoc P [] x h p = (p, tt)
All-snoc P (y ∷ ys) x h p = (h.0, All-snoc P ys x h.1 p)

joined-Fits :
    (cfg : Config) (b : Bus)
    → b.cfg ≡ normalize cfg
    → All Fits b.heap
    → All Fits (b.heap ++ (new_subscriber b.cfg.buffer_size b.cfg.idle_timeout ∷ []))
unfolding Fits new_subscriber
joined-Fits cfg b e f =
    let p = subst (λ c. pos 0 <ℤ c.buffer_size) (sym e) (normal-positive cfg) in
    All-snoc Fits b.heap _ f (p, ground arith)

Subscribed-safe :
    (cfg : Config) (b : Bus) (session : String) (r : (Option BusError × Option ℕ) × Bus)
    → Subscribed b session r
    → IsSafe cfg b
    → (r.1.cfg ≡ b.cfg) × All Fits r.1.heap
unfolding IsSafe joined_bus
Subscribed-safe cfg b session _ (joins ms h r) (e, w, f) = (refl, joined-Fits cfg b e f)
Subscribed-safe cfg b session _ (begins h r) (e, w, f) = (refl, joined-Fits cfg b e f)
Subscribed-safe cfg b session _ (bucket_full ms h r) (e, w, f) = (refl, f)
Subscribed-safe cfg b session _ (bus_full h r) (e, w, f) = (refl, f)

close-open :
    (b : Bus) (session : String) (id : ℕ) (s : Subscriber)
    → get_elem? b.heap id ≡ some s
    → s.done ≡ false
    → close session id b ≡ mark_done id (cleanup session id b)
unfolding close
close-open b session id s e d = rw (close, e, d) refl

close-done :
    (b : Bus) (session : String) (id : ℕ) (s : Subscriber)
    → get_elem? b.heap id ≡ some s
    → s.done ≡ true
    → close session id b ≡ b
unfolding close
close-done b session id s e d = rw (close, e, d) refl

close-gone :
    (b : Bus) (session : String) (id : ℕ) → get_elem? b.heap id ≡ none → close session id b ≡ b
unfolding close
close-gone b session id e = rw (close, e) refl

marked-Fits :
    (heap : List Subscriber) (id : ℕ)
    → All Fits heap
    → All Fits (
        modify
          (modify heap id (λ s. record s { closed = true }))
          id
          (λ s. record s { done = true }))
unfolding Fits
marked-Fits heap id f =
    All-modify Fits _ id _ (λ x g p. p) (All-modify Fits heap id _ (λ x g p. p) f)

close-Fits :
    (b : Bus) (session : String) (id : ℕ)
    → All Fits b.heap
    → ((close session id b).cfg ≡ b.cfg) × All Fits (close session id b).heap
unfolding mark_done cleanup
close-Fits b session id f = elim (Option-cases (get_elem? b.heap id)) [
  | inl e ↦ rw (close-gone b session id e) (refl, f)
  | inr (s, e) ↦ elim (Bool-cases s.done) [
    | inl d ↦ rw (close-done b session id s e d) (refl, f)
    | inr d ↦ rw (close-open b session id s e d) (refl, marked-Fits b.heap id f)
  ]
]

Keeps-IsSafe : (cfg : Config) (b c : Bus) → IsSafe cfg b → Keeps b c → IsSafe cfg c
unfolding IsSafe Keeps IsWithin
Keeps-IsSafe cfg b c (e, w, f) (p, q, r) =
    (p ∙ e, subst (λ d. IsWithin d c.subs) (sym p) (subst (IsWithin b.cfg) (sym q) w), r)

-- Every state of a bus is safe: the configuration is the normalized one; no more sessions and no more
-- subscribers to a session than the limits; no empty bucket; and no buffer over its capacity.
pub Reaches-IsSafe : (cfg : Config) (b : Bus) → Reaches cfg b → IsSafe cfg b
unfolding IsSafe new_memory_bus receive
Reaches-IsSafe cfg _ starts = (refl, new_memory_bus-IsWithin cfg, tt)
Reaches-IsSafe cfg _ (subscribes b session r) =
    let (e, w, f) = Reaches-IsSafe cfg b r in
    let out = subscribe-Subscribed b session in
    let (p, g) = Subscribed-safe cfg b session _ out (e, w, f) in
    (
      p ∙ e,
      subst (λ c. IsWithin c (subscribe b session).1.subs) (sym p)
          (IsWithin-subscribe b session _ out w),
      g,
    )
Reaches-IsSafe cfg _ (closes b session id r) =
    let (e, w, f) = Reaches-IsSafe cfg b r in
    let (p, g) = close-Fits b session id f in
    (
      p ∙ e,
      subst (λ c. IsWithin c (close session id b).subs) (sym p) (IsWithin-close b session id w),
      g,
    )
Reaches-IsSafe cfg _ (receives b id r) =
    let (e, w, f) = Reaches-IsSafe cfg b r in
    (e, w, All-modify Fits b.heap id _ (λ x g h. dropped-Fits x h) f)
Reaches-IsSafe cfg _ (publishes b env session evt r) =
    let safe = Reaches-IsSafe cfg b r in
    Keeps-IsSafe cfg b _ safe (publish-Keeps env session evt b safe.2)
Reaches-IsSafe cfg _ (resumes b env evt ids first r) =
    let safe = Reaches-IsSafe cfg b r in
    Keeps-IsSafe cfg b _ safe (resume_publish-Keeps env evt ids first b safe.2)

closed-at :
    (b : Bus) (session : String) (id : ℕ) (s : Subscriber)
    → get_elem? b.heap id ≡ some s
    → get_elem? (mark_done id (cleanup session id b)).heap id
      ≡ some (record s { closed = true; done = true })
unfolding mark_done cleanup
closed-at b session id s e = get_elem?-modify _ id _ _ (get_elem?-modify b.heap id _ s e)

closed-again :
    (b : Bus) (session : String) (id : ℕ) (s : Subscriber)
    → get_elem? b.heap id ≡ some s
    → s.done ≡ false
    → close session id (close session id b) ≡ close session id b
closed-again b session id s e d = rw (close-open b session id s e d) (
    close-done _ session id (record s { closed = true; done = true }) (closed-at b session id s e)
      refl)

-- A subscription may be closed any number of times: the second call changes nothing.
pub close-close :
    (b : Bus) (session : String) (id : ℕ)
    → close session id (close session id b) ≡ close session id b
close-close b session id = elim (Option-cases (get_elem? b.heap id)) [
  | inl e ↦ ap (close session id) (close-gone b session id e)
  | inr (s, e) ↦ elim (Bool-cases s.done) [
    | inl d ↦ ap (close session id) (close-done b session id s e d)
    | inr d ↦ closed-again b session id s e d
  ]
]
