-- ===== src/Bus/Admission.antt =====
-- Whom `Subscribe` of internal/bus/memory_bus.go lets in, by the members of the sessions.
use yaralpho.Base.{
  ℕ, ◌≡◌, refl, sym, ap, ◌∙◌, ◌≢◌, ◌⊎◌, inl, inr, arith, true, false, Option, none, some, List, [],
  ◌∷◌, ◌++◌, String, length, str_eq, str_eq_iff, str_eq_refl, Bool-cases,
}
use yaralpho.Base.Int.{ℤ, pos, ◌<ℤ◌, ◌≤ℤ◌}
use yaralpho.Bus.State.{Bus, Bucket, BusError, find_bucket, put_bucket}
use yaralpho.Bus.Subscribe.{subscribe, reached, snapshot}
use yaralpho.Bus.Joining.{
  Subscribed, joins, begins, bucket_full, bus_full, joined_bus, subscribe-Subscribed,
}

-- One more than `n` is within the limit; a limit that is not above 0 is none.
abbrev pub HasRoom : ℤ → ℕ → Type 0
HasRoom limit n = (limit ≤ℤ pos 0) ⊎ (pos n <ℤ limit)

reached-HasRoom : (limit : ℤ) (n : ℕ) → reached limit n ≡ false → HasRoom limit n
unfolding reached
reached-HasRoom limit n h = ground arith

reached-full : (limit : ℤ) (n : ℕ) → reached limit n ≡ true → ¬ HasRoom limit n
unfolding reached
reached-full limit n h = ground arith

-- The session has room for one more member, and it has members already or there is room for one more
-- session.
abbrev pub Admits : Bus → String → Type 0
Admits b session =
    HasRoom b.cfg.max_subscribers (length (snapshot b session))
    × ((find_bucket session b.subs ≢ none) ⊎ HasRoom b.cfg.max_sessions (length b.subs))

find-put_same :
    (k : String) (ms : List ℕ) (subs : List Bucket) → find_bucket k (put_bucket k ms subs) ≡ some ms
unfolding find_bucket put_bucket
find-put_same k ms [] = rw (str_eq_refl k) refl
find-put_same k ms (b ∷ rest) = elim (Bool-cases (str_eq b.session k)) [
  | inl e ↦ simp (find_bucket, put_bucket, e)
  | inr e ↦ simp (find_bucket, put_bucket, e, find-put_same k ms rest)
]

find-put_other :
    (k l : String) (ms : List ℕ) (subs : List Bucket)
    → l ≢ k
    → find_bucket l (put_bucket k ms subs) ≡ find_bucket l subs
unfolding find_bucket put_bucket
find-put_other k l ms [] n = elim (Bool-cases (str_eq k l)) [
  | inl e ↦ absurd (n (sym ((str_eq_iff k l).0 e)))
  | inr e ↦ rw e refl
]
find-put_other k l ms (b ∷ rest) n = elim (Bool-cases (str_eq b.session k)) [
  | inl e ↦ elim (Bool-cases (str_eq b.session l)) [
    | inl d ↦ absurd (n (sym ((str_eq_iff b.session l).0 d) ∙ (str_eq_iff b.session k).0 e))
    | inr d ↦ simp (find_bucket, put_bucket, e, d)
  ]
  | inr e ↦ simp (find_bucket, put_bucket, e, find-put_other k l ms rest n)
]

-- The two outcomes of a call. The caller is let in as the last member of its session; or it gets an
-- error and nothing has changed.
pub Admitted : Bus → String → (Option BusError × Option ℕ) × Bus → Type 0
Admitted b session r =
    (r.0.0 ≡ none)
    × (r.0.1 ≡ some (length b.heap))
    × (snapshot r.1 session ≡ snapshot b session ++ (length b.heap ∷ []))
    × ((other : String) → other ≢ session → snapshot r.1 other ≡ snapshot b other)

pub TurnedAway : Bus → (Option BusError × Option ℕ) × Bus → Type 0
TurnedAway b r = (r.0.0 ≢ none) × (r.0.1 ≡ none) × (r.1 ≡ b)

-- What a call does, by whether the limits admit it.
pub IsAdmission : Bus → String → (Option BusError × Option ℕ) × Bus → Type 0
IsAdmission b session r =
    (Admits b session × Admitted b session r) ⊎ ((¬ Admits b session) × TurnedAway b r)

snapshot-some :
    (b : Bus) (session : String) (ms : List ℕ)
    → find_bucket session b.subs ≡ some ms
    → snapshot b session ≡ ms
unfolding snapshot
snapshot-some b session ms h = rw (snapshot, h) refl

snapshot-none :
    (b : Bus) (session : String) → find_bucket session b.subs ≡ none → snapshot b session ≡ []
unfolding snapshot
snapshot-none b session h = rw (snapshot, h) refl

snapshot-other :
    (b c : Bus) (other : String)
    → find_bucket other c.subs ≡ find_bucket other b.subs
    → snapshot c other ≡ snapshot b other
unfolding snapshot
snapshot-other b c other h = rw (snapshot, h) refl

joined-Admitted :
    (b : Bus) (session : String) (ms : List ℕ)
    → snapshot b session ≡ ms
    → Admitted b session ((none, some (length b.heap)), joined_bus b session ms)
unfolding Admitted joined_bus
joined-Admitted b session ms h = (
  refl,
  refl,
  snapshot-some (joined_bus b session ms) session (ms ++ (length b.heap ∷ []))
        (find-put_same session (ms ++ (length b.heap ∷ [])) b.subs)
      ∙ ap (λ xs. xs ++ (length b.heap ∷ [])) (sym h),
  λ other ne.
      snapshot-other b (joined_bus b session ms) other
        (find-put_other session other (ms ++ (length b.heap ∷ [])) b.subs ne),
)

some-set : {A : Type 0} (o : Option A) (a : A) → o ≡ some a → o ≢ none
some-set o a p q = absurd (cc)

Subscribed-IsAdmission :
    (b : Bus) (session : String) (r : (Option BusError × Option ℕ) × Bus)
    → Subscribed b session r
    → IsAdmission b session r
unfolding IsAdmission TurnedAway
Subscribed-IsAdmission b session _ (joins ms h r) =
    let at = snapshot-some b session ms h in
    inl (
      (rw at (reached-HasRoom b.cfg.max_subscribers (length ms) r), inl (some-set _ ms h)),
      joined-Admitted b session ms at,
    )
Subscribed-IsAdmission b session _ (begins h r) =
    let at = snapshot-none b session h in
    inl (
      (rw at (ground arith), inr (reached-HasRoom b.cfg.max_sessions (length b.subs) r)),
      joined-Admitted b session [] at,
    )
Subscribed-IsAdmission b session _ (bucket_full ms h r) =
    let at = snapshot-some b session ms h in
    inr (
      λ (room, _). reached-full b.cfg.max_subscribers (length ms) r (rw at at room),
      (λ p. cc, refl, refl),
    )
Subscribed-IsAdmission b session _ (bus_full h r) = inr (
  λ (_, s). elim s [
    | inl known ↦ known h
    | inr room ↦ reached-full b.cfg.max_sessions (length b.subs) r room
  ],
  (λ p. cc, refl, refl),
)

-- A caller is let in exactly when its session has fewer members than their limit, and has members
-- already or there are fewer sessions than their limit, where a limit that is not above 0 refuses
-- nobody. It is then the last of the members of its session, and those of the others are as they were;
-- a caller that is turned away gets an error and the bus does not change.
pub subscribe-IsAdmission :
    (b : Bus) (session : String) → IsAdmission b session (subscribe b session)
subscribe-IsAdmission b session =
    Subscribed-IsAdmission b session (subscribe b session) (subscribe-Subscribed b session)
