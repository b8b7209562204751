-- ===== src/Bus/Bounds.antt =====
-- The limits of internal/bus/memory_bus.go: how many sessions have subscribers, and how many
-- subscribers a session has.
use yaralpho.Base.{
  ℕ, suc, ◌≡◌, refl, sym, subst, ◌⊎◌, inl, inr, arith, ◌≤◌, false, Option, none, some, List, [],
  ◌∷◌, String, length, length-append, All, str_eq, Bool-cases, Option-cases, if-ind, get_elem?,
}
use yaralpho.Base.Int.{ℤ, pos, ◌≤ℤ◌}
use yaralpho.Bus.State.{
  Bus, Bucket, Config, BusError, find_bucket, put_bucket, drop_bucket, new_memory_bus,
}
use yaralpho.Bus.Joining.{
  Subscribed, joins, begins, bucket_full, bus_full, joined_bus, reached-zero,
}
use yaralpho.Bus.Subscribe.{reached, remove_member, put_or_drop, leave, close, cleanup, mark_done}

-- A count under a limit; a limit that is not above 0 is none.
unfoldable pub Under : ℤ → ℕ → Type 0
Under limit n = (limit ≤ℤ pos 0) ⊎ (pos n ≤ℤ limit)

-- A bucket that has a subscriber, and no more of them than the limit.
unfoldable pub IsFair : Config → Bucket → Type 0
IsFair cfg b = (1 ≤ length b.members) × Under cfg.max_subscribers (length b.members)

-- The limits hold, and no bucket is empty.
unfoldable pub IsWithin : Config → List Bucket → Type 0
IsWithin cfg subs = Under cfg.max_sessions (length subs) × All (IsFair cfg) subs

unreached : (limit : ℤ) (n : ℕ) → reached limit n ≡ false → Under limit (suc n)
unfolding reached Under
unreached limit n h = ground arith

Under-le : (limit : ℤ) (m n : ℕ) → m ≤ n → Under limit n → Under limit m
unfolding Under
Under-le limit m n h u = ground arith

length-put_some :
    (k : String) (ms ns : List ℕ) (subs : List Bucket)
    → find_bucket k subs ≡ some ms
    → length (put_bucket k ns subs) ≡ length subs
unfolding find_bucket put_bucket
length-put_some k ms ns [] h = absurd (cc)
length-put_some k ms ns (b ∷ rest) h = let ih = length-put_some k ms ns rest in ground arith

length-put_none :
    (k : String) (ns : List ℕ) (subs : List Bucket)
    → find_bucket k subs ≡ none
    → length (put_bucket k ns subs) ≡ suc (length subs)
unfolding find_bucket put_bucket
length-put_none k ns [] h = refl
length-put_none k ns (b ∷ rest) h = let ih = length-put_none k ns rest in ground arith

length-put :
    (k : String) (ns : List ℕ) (subs : List Bucket)
    → length (put_bucket k ns subs) ≤ suc (length subs)
unfolding put_bucket
length-put k ns [] = omega arith
length-put k ns (b ∷ rest) = let ih = length-put k ns rest in ground arith

length-drop : (k : String) (subs : List Bucket) → length (drop_bucket k subs) ≤ length subs
unfolding drop_bucket
length-drop k [] = omega arith
length-drop k (b ∷ rest) = let ih = length-drop k rest in ground arith

length-remove : (id : ℕ) (xs : List ℕ) → length (remove_member id xs) ≤ length xs
unfolding remove_member
length-remove id [] = omega arith
length-remove id (x ∷ xs) = let ih = length-remove id xs in ground arith

module _ (cfg : Config) where
  IsFair-find_bucket :
      (k : String) (ms : List ℕ) (subs : List Bucket)
      → All (IsFair cfg) subs
      → find_bucket k subs ≡ some ms
      → (1 ≤ length ms) × Under cfg.max_subscribers (length ms)
  unfolding find_bucket IsFair
  IsFair-find_bucket k ms [] a h = absurd (cc)
  IsFair-find_bucket k ms (b ∷ rest) (f, a) h =
      let ih = IsFair-find_bucket k ms rest a in
      let same = λ (e : b.members ≡ ms).
        subst (λ l. (1 ≤ length l) × Under cfg.max_subscribers (length l)) e f in
      ground arith

  IsFair-put_bucket :
      (k : String) (ns : List ℕ) (subs : List Bucket)
      → All (IsFair cfg) subs
      → (1 ≤ length ns) × Under cfg.max_subscribers (length ns)
      → All (IsFair cfg) (put_bucket k ns subs)
  unfolding put_bucket IsFair
  IsFair-put_bucket k ns [] a f = (f, tt)
  IsFair-put_bucket k ns (b ∷ rest) (g, a) f =
      if-ind (All (IsFair cfg)) (str_eq b.session k) (f, a) (g, IsFair-put_bucket k ns rest a f)

  IsFair-drop_bucket :
      (k : String) (subs : List Bucket)
      → All (IsFair cfg) subs
      → All (IsFair cfg) (drop_bucket k subs)
  unfolding drop_bucket
  IsFair-drop_bucket k [] a = tt
  IsFair-drop_bucket k (b ∷ rest) (g, a) =
      if-ind (All (IsFair cfg)) (str_eq b.session k) a (g, IsFair-drop_bucket k rest a)

  IsWithin-put_bucket :
      (k : String) (ns : List ℕ) (subs : List Bucket)
      → IsWithin cfg subs
      → Under cfg.max_sessions (length (put_bucket k ns subs))
      → (1 ≤ length ns) × Under cfg.max_subscribers (length ns)
      → IsWithin cfg (put_bucket k ns subs)
  unfolding IsWithin
  IsWithin-put_bucket k ns subs (u, a) v f = (v, IsFair-put_bucket k ns subs a f)

  IsWithin-put_or_drop :
      (k : String) (ms ns : List ℕ) (subs : List Bucket)
      → IsWithin cfg subs
      → find_bucket k subs ≡ some ms
      → length ns ≤ length ms
      → IsWithin cfg (put_or_drop k ns subs)
  unfolding put_or_drop IsWithin
  IsWithin-put_or_drop k ms [] subs (u, a) h l =
      (Under-le _ _ _ (length-drop k subs) u, IsFair-drop_bucket k subs a)
  IsWithin-put_or_drop k ms (n ∷ ns) subs (u, a) h l =
      let (_, v) = IsFair-find_bucket k ms subs a h in
      let e = length-put_some k ms (n ∷ ns) subs h in
      (
        Under-le _ _ _ (omega arith) u,
        IsFair-put_bucket k _ subs a (omega arith, Under-le _ _ _ l v),
      )

  IsWithin-leave :
      (k : String) (id : ℕ) (subs : List Bucket)
      → IsWithin cfg subs
      → IsWithin cfg (leave k id subs)
  unfolding leave
  IsWithin-leave k id subs h = elim (Option-cases (find_bucket k subs)) [
    | inl e ↦ rw (leave, e) h
    | inr (ms, e) ↦ rw (leave, e) (IsWithin-put_or_drop k ms _ subs h e (length-remove id ms))
  ]

-- A new bus is within its limits.
pub new_memory_bus-IsWithin :
    (cfg : Config) → IsWithin (new_memory_bus cfg).cfg (new_memory_bus cfg).subs
unfolding new_memory_bus IsWithin Under
new_memory_bus-IsWithin cfg = ground arith

pub IsWithin-subscribe :
    (b : Bus) (session : String) (r : (Option BusError × Option ℕ) × Bus)
    → Subscribed b session r
    → IsWithin b.cfg b.subs
    → IsWithin b.cfg r.1.subs
unfolding IsWithin joined_bus
IsWithin-subscribe b session _ (joins ms h r) w =
    let l = length-append ms (length b.heap ∷ []) in
    IsWithin-put_bucket b.cfg session _ b.subs w
      (subst (Under b.cfg.max_sessions) (sym (length-put_some session ms _ b.subs h)) w.0)
      (omega arith, subst (Under b.cfg.max_subscribers) (omega arith) (unreached _ _ r))
IsWithin-subscribe b session _ (begins h r) w =
    IsWithin-put_bucket b.cfg session _ b.subs w
      (subst (Under b.cfg.max_sessions) (sym (length-put_none session _ b.subs h))
        (unreached _ _ r))
      (omega arith, unreached _ _ (reached-zero _))
IsWithin-subscribe b session _ (bucket_full ms h r) w = w
IsWithin-subscribe b session _ (bus_full h r) w = w

pub IsWithin-close :
    (b : Bus) (session : String) (id : ℕ)
    → IsWithin b.cfg b.subs
    → IsWithin b.cfg (close session id b).subs
unfolding close cleanup mark_done
IsWithin-close b session id w = elim (Option-cases (get_elem? b.heap id)) [
  | inl e ↦ rw (close, e) w
  | inr (s, e) ↦ elim (Bool-cases s.done) [
    | inl d ↦ rw (close, e, d) w
    | inr d ↦ rw (close, e, d) (IsWithin-leave b.cfg session id b.subs w)
  ]
]
