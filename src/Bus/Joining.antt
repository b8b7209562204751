-- ===== src/Bus/Joining.antt =====
-- `Subscribe` of internal/bus/memory_bus.go: whom it lets in.
use yaralpho.Base.{
  ℕ, ◌≡◌, refl, sym, subst, inl, inr, arith, true, false, Option, none, some, List, [], ◌∷◌, ◌++◌,
  String, length, str_eq, str_eq_refl, Bool-cases, Option-cases,
}
use yaralpho.Bus.State.{
  Bus, Bucket, BusError, session_limit, subscriber_limit, find_bucket, put_bucket,
}
use yaralpho.Base.Int.{ℤ}
use yaralpho.Bus.Subscribe.{subscribe, join, open_bucket, reached, new_subscriber}

-- The bus after a new subscriber joined the bucket whose members were `ms`.
unfoldable pub joined_bus : Bus → String → List ℕ → Bus
joined_bus b session ms = record b {
  subs = put_bucket session (ms ++ (length b.heap ∷ [])) b.subs;
  heap = b.heap ++ (new_subscriber b.cfg.buffer_size b.cfg.idle_timeout ∷ []);
}

-- The outcomes of a call: it joins the session's bucket, or it makes the bucket, or it is refused and
-- the bus stays as it was. A limit that is not above 0 refuses no one.
pub data Subscribed (b : Bus) (session : String) : (Option BusError × Option ℕ) × Bus → Type 0 where
  joins :
      (ms : List ℕ)
      → find_bucket session b.subs ≡ some ms
      → reached b.cfg.max_subscribers (length ms) ≡ false
      → Subscribed b session ((none, some (length b.heap)), joined_bus b session ms)
  begins :
      find_bucket session b.subs ≡ none
      → reached b.cfg.max_sessions (length b.subs) ≡ false
      → Subscribed b session ((none, some (length b.heap)), joined_bus b session [])
  bucket_full :
      (ms : List ℕ)
      → find_bucket session b.subs ≡ some ms
      → reached b.cfg.max_subscribers (length ms) ≡ true
      → Subscribed b session ((some subscriber_limit, none), b)
  bus_full :
      find_bucket session b.subs ≡ none
      → reached b.cfg.max_sessions (length b.subs) ≡ true
      → Subscribed b session ((some session_limit, none), b)

put-put :
    (k : String) (ms ns : List ℕ) (subs : List Bucket)
    → put_bucket k ns (put_bucket k ms subs) ≡ put_bucket k ns subs
unfolding put_bucket
put-put k ms ns [] = rw (str_eq_refl k) refl
put-put k ms ns (b ∷ rest) = elim (Bool-cases (str_eq b.session k)) [
  | inl e ↦ simp (put_bucket, e)
  | inr e ↦ simp (put_bucket, e, put-put k ms ns rest)
]

pub reached-zero : (limit : ℤ) → reached limit 0 ≡ false
unfolding reached
reached-zero limit = ground arith

join-room :
    (b : Bus) (session : String) (ms : List ℕ) (subs : List Bucket)
    → reached b.cfg.max_subscribers (length ms) ≡ false
    → join b session ms subs ≡ (
      (none, some (length b.heap)),
      record b {
        subs = put_bucket session (ms ++ (length b.heap ∷ [])) subs;
        heap = b.heap ++ (new_subscriber b.cfg.buffer_size b.cfg.idle_timeout ∷ []);
      },
    )
unfolding join
join-room b session ms subs h = rw h refl

join-full :
    (b : Bus) (session : String) (ms : List ℕ) (subs : List Bucket)
    → reached b.cfg.max_subscribers (length ms) ≡ true
    → join b session ms subs ≡ ((some subscriber_limit, none), record b { subs = subs })
unfolding join
join-full b session ms subs h = rw h refl

open_bucket-some :
    (b : Bus) (session : String) (ms : List ℕ)
    → find_bucket session b.subs ≡ some ms
    → open_bucket b.cfg session b.subs ≡ some (ms, b.subs)
unfolding open_bucket
open_bucket-some b session ms h = rw (open_bucket, h) refl

open_bucket-full :
    (b : Bus) (session : String)
    → find_bucket session b.subs ≡ none
    → reached b.cfg.max_sessions (length b.subs) ≡ true
    → open_bucket b.cfg session b.subs ≡ none
unfolding open_bucket
open_bucket-full b session h r = rw (open_bucket, h) (rw r refl)

open_bucket-new :
    (b : Bus) (session : String)
    → find_bucket session b.subs ≡ none
    → reached b.cfg.max_sessions (length b.subs) ≡ false
    → open_bucket b.cfg session b.subs ≡ some ([], put_bucket session [] b.subs)
unfolding open_bucket
open_bucket-new b session h r = rw (open_bucket, h) (rw r refl)

subscribe-open :
    (b : Bus) (session : String) (ms : List ℕ) (subs : List Bucket)
    → open_bucket b.cfg session b.subs ≡ some (ms, subs)
    → subscribe b session ≡ join b session ms subs
unfolding subscribe
subscribe-open b session ms subs h = rw (subscribe, h) refl

subscribe-shut :
    (b : Bus) (session : String)
    → open_bucket b.cfg session b.subs ≡ none
    → subscribe b session ≡ ((some session_limit, none), b)
unfolding subscribe
subscribe-shut b session h = rw (subscribe, h) refl

Subscribed-old :
    (b : Bus) (session : String) (ms : List ℕ)
    → find_bucket session b.subs ≡ some ms
    → Subscribed b session (join b session ms b.subs)
unfolding joined_bus
Subscribed-old b session ms h = elim (Bool-cases (reached b.cfg.max_subscribers (length ms))) [
  | inl r ↦
      subst (Subscribed b session) (sym (join-full b session ms b.subs r)) (bucket_full ms h r)
  | inr r ↦ subst (Subscribed b session) (sym (join-room b session ms b.subs r)) (joins ms h r)
]

Subscribed-new :
    (b : Bus) (session : String)
    → find_bucket session b.subs ≡ none
    → reached b.cfg.max_sessions (length b.subs) ≡ false
    → Subscribed b session (join b session [] (put_bucket session [] b.subs))
unfolding joined_bus
Subscribed-new b session h r =
    let room = join-room b session [] (put_bucket session [] b.subs) (reached-zero _) in
    rw (room, put-put session [] (length b.heap ∷ []) b.subs) (begins h r)

-- `Subscribe` lets a subscriber in exactly when the limits leave room: it joins the bucket of its
-- session or begins one, as the last of its members and with an empty buffer of the configured size;
-- otherwise it is refused with the limit's error and the bus does not change.
pub subscribe-Subscribed : (b : Bus) (session : String) → Subscribed b session (subscribe b session)
subscribe-Subscribed b session = elim (Option-cases (find_bucket session b.subs)) [
  | inr (ms, h) ↦
      subst (Subscribed b session)
        (sym (subscribe-open b session ms b.subs (open_bucket-some b session ms h)))
        (Subscribed-old b session ms h)
  | inl h ↦ elim (Bool-cases (reached b.cfg.max_sessions (length b.subs))) [
    | inl r ↦
        subst (Subscribed b session)
          (sym (subscribe-shut b session (open_bucket-full b session h r))) (bus_full h r)
    | inr r ↦
        subst (Subscribed b session)
          (sym (subscribe-open b session [] _ (open_bucket-new b session h r)))
          (Subscribed-new b session h r)
  ]
]
