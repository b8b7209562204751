-- ===== src/Scheduler/Invariant.antt =====
-- What holds of a batch document between two writes of internal/scheduler/scheduler.go.
use yaralpho.Base.{
  ℕ, zero, suc, ◌≤◌, ◌≡◌, refl, ap, ◌∙◌, Bool, true, false, ◌||◌, some, List, [], ◌∷◌, arith, All,
  All-modify, get_elem?, modify, get_elem?-modify, if◌then◌else◌,
}
use yaralpho.Base.Int.{ℤ, pos, ◌≤ℤ◌, ◌<ℤ◌}
use yaralpho.Storage.Models.{BatchStatus, ItemStatus, BatchItem, Batch, is_in_progress, is_failed}
use yaralpho.Scheduler.Select.{all_items_done}
use yaralpho.Scheduler.Settle.{claim, rollback, settle, settle_item, with_status}
use yaralpho.Scheduler.Selection.{NotBusy, FirstPending, IsEligible}

unfoldable pub busy_count : List BatchItem → ℕ
busy_count [] = 0
busy_count (x ∷ xs) = if is_in_progress x.status then suc (busy_count xs) else busy_count xs

unfoldable pub any_failed : List BatchItem → Bool
any_failed [] = false
any_failed (x ∷ xs) = is_failed x.status || any_failed xs

-- The attempts of an item stay within the cap, and below it while the item can still be tried.
pub record IsItemSound (max_retries : ℤ) (x : BatchItem) : Type 0 where
  pub nonneg : pos 0 ≤ℤ x.attempts
  pub capped : x.attempts ≤ℤ max_retries
  pub pending_below : x.status ≡ ItemStatus.pending → x.attempts <ℤ max_retries
  pub running_below : x.status ≡ ItemStatus.in_progress → x.attempts <ℤ max_retries
  pub failed_at : x.status ≡ ItemStatus.failed → x.attempts ≡ max_retries

pub record IsSound (max_retries : ℤ) (b : Batch) : Type 0 where
  pub one_busy : busy_count b.items ≤ 1
  pub items_sound : All (IsItemSound max_retries) b.items
  pub done_all : b.status ≡ BatchStatus.done → All (λ x. x.status ≡ ItemStatus.done) b.items
  pub failed_some : b.status ≡ BatchStatus.failed → any_failed b.items ≡ true

pub FirstPending-get_elem? :
    (xs : List BatchItem) (i : ℕ)
    → FirstPending i xs
    → (x : BatchItem) × (get_elem? xs i ≡ some x) × (x.status ≡ ItemStatus.pending)
FirstPending-get_elem? [] i h = absurd h
FirstPending-get_elem? (x ∷ xs) zero h = (x, refl, h)
FirstPending-get_elem? (x ∷ xs) (suc i) h = FirstPending-get_elem? xs i h.1

pub busy_count-idle : (xs : List BatchItem) → All NotBusy xs → busy_count xs ≡ 0
unfolding busy_count
busy_count-idle [] h = refl
busy_count-idle (x ∷ xs) h = ground (arith, busy_count-idle xs)

busy_count-claim :
    (xs : List BatchItem) (i : ℕ)
    → All NotBusy xs
    → busy_count (modify xs i (with_status ItemStatus.in_progress)) ≤ 1
unfolding busy_count
busy_count-claim [] i h = omega arith
busy_count-claim (x ∷ xs) zero h = ground (arith, busy_count-idle xs)
busy_count-claim (x ∷ xs) (suc i) h = ground (arith, busy_count-claim xs i)

-- A busy item that is written idle leaves one busy item less.
busy_count-modify :
    (f : BatchItem → BatchItem)
    → ((x : BatchItem) → is_in_progress (f x).status ≡ false)
    → (xs : List BatchItem) (i : ℕ) (x : BatchItem) → get_elem? xs i ≡ some x
    → x.status ≡ ItemStatus.in_progress
    → suc (busy_count (modify xs i f)) ≡ busy_count xs
unfolding busy_count
busy_count-modify f idle [] i x h e = absurd (cc)
busy_count-modify f idle (y ∷ xs) zero x h e = ground (arith, idle y)
busy_count-modify f idle (y ∷ xs) (suc i) x h e =
    ground (arith, busy_count-modify f idle xs i x h e)

pub all_items_done-All :
    (xs : List BatchItem) → all_items_done xs ≡ true → All (λ x. x.status ≡ ItemStatus.done) xs
unfolding all_items_done
all_items_done-All [] h = tt
all_items_done-All (x ∷ xs) h = ground (arith, all_items_done-All xs)

any_failed-modify :
    (xs : List BatchItem) (i : ℕ) (f : BatchItem → BatchItem) (x : BatchItem)
    → get_elem? xs i ≡ some x
    → (f x).status ≡ ItemStatus.failed
    → any_failed (modify xs i f) ≡ true
unfolding any_failed
any_failed-modify [] i f x h e = absurd (cc)
any_failed-modify (y ∷ xs) zero f x h e = ground arith
any_failed-modify (y ∷ xs) (suc i) f x h e = ground (arith, any_failed-modify xs i f x h e)

settle_item-IsItemSound :
    (m : ℤ) (failed : Bool) (x : BatchItem)
    → x.status ≡ ItemStatus.in_progress
    → IsItemSound m x
    → IsItemSound m (settle_item m failed x)
unfolding settle_item
settle_item-IsItemSound m failed x e h = ground arith

settle_item-idle :
    (m : ℤ) (failed : Bool) (x : BatchItem) → is_in_progress (settle_item m failed x).status ≡ false
unfolding settle_item
settle_item-idle m failed x = ground arith

-- A claim of the eligible item of a sound batch keeps it sound, with at most one item in progress.
pub claim-IsSound :
    (m : ℤ) (b : Batch) (i : ℕ) → IsEligible b i → IsSound m b → IsSound m (claim i b)
unfolding claim
claim-IsSound m b i e s = record {
  one_busy = busy_count-claim b.items i e.1;
  items_sound = All-modify _ b.items i _ (λ x at h. claimed x at h) s.items_sound;
  done_all = λ h. absurd (cc);
  failed_some = λ h. absurd (cc);
}
  where
    claimed :
        (x : BatchItem)
        → get_elem? b.items i ≡ some x
        → IsItemSound m x
        → IsItemSound m (with_status ItemStatus.in_progress x)
    claimed x at h =
        let (y, at', p) = FirstPending-get_elem? b.items i e.2 in
        let q : y ≡ x = cc in ground (arith, ap (λ (z : BatchItem). z.status) q)

-- The batch holds an item in progress at index `i`.
abbrev pub IsRunningAt : ℕ → Batch → Type 0
IsRunningAt i b =
    (x : BatchItem) × (get_elem? b.items i ≡ some x) × (x.status ≡ ItemStatus.in_progress)

-- If a batch is sound and its item `i` is in progress, then what a finished attempt on that item makes
-- of the batch is sound, whether the worker failed or not.
pub settle-IsSound :
    (m : ℤ) (failed : Bool) (b : Batch) (i : ℕ)
    → IsRunningAt i b
    → IsSound m b
    → IsSound m (settle m failed i b)
unfolding settle
settle-IsSound m failed b i (x, at, busy) s = record {
  one_busy = omega (
    arith,
    busy_count-modify (settle_item m failed) (settle_item-idle m failed) b.items i x at busy,
    s.one_busy,
  );
  items_sound =
      All-modify _ b.items i (settle_item m failed)
        (λ y at' h. settle_item-IsItemSound m failed y (same y at') h) s.items_sound;
  done_all = λ h. all_items_done-All _ (ground arith);
  failed_some = λ h. any_failed-modify b.items i (settle_item m failed) x at (gave_up h);
}
  where
    same : (y : BatchItem) → get_elem? b.items i ≡ some y → y.status ≡ ItemStatus.in_progress
    same y at' = let q : y ≡ x = cc in ap (λ (z : BatchItem). z.status) q ∙ busy

    gave_up :
        (settle m failed i b).status ≡ BatchStatus.failed
        → (settle_item m failed x).status ≡ ItemStatus.failed
    gave_up h = ground (arith, get_elem?-modify b.items i (settle_item m failed) x at)

-- If a batch is sound and its item `i` is in progress, then the rollback of that item keeps it sound.
pub rollback-IsSound :
    (m : ℤ) (b : Batch) (i : ℕ) → IsRunningAt i b → IsSound m b → IsSound m (rollback i b)
unfolding rollback
rollback-IsSound m b i (x, at, busy) s = record {
  one_busy = omega (
    arith,
    busy_count-modify (with_status ItemStatus.pending) (λ y. refl) b.items i x at busy,
    s.one_busy,
  );
  items_sound = All-modify _ b.items i (with_status ItemStatus.pending) released s.items_sound;
  done_all = λ h. absurd (cc);
  failed_some = λ h. absurd (cc);
}
  where
    released :
        (y : BatchItem)
        → get_elem? b.items i ≡ some y
        → IsItemSound m y
        → IsItemSound m (with_status ItemStatus.pending y)
    released y at' h = let q : y ≡ x = cc in ground (arith, ap (λ (z : BatchItem). z.status) q)

-- After the claim, the item is the one in progress.
pub claim-IsRunningAt : (b : Batch) (i : ℕ) → IsEligible b i → IsRunningAt i (claim i b)
unfolding claim
claim-IsRunningAt b i e =
    let (y, at, p) = FirstPending-get_elem? b.items i e.2 in
    (
      with_status ItemStatus.in_progress y,
      get_elem?-modify b.items i (with_status ItemStatus.in_progress) y at,
      refl,
    )
