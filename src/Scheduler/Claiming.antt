-- ===== src/Scheduler/Claiming.antt =====
-- What a claim of internal/scheduler/scheduler.go keeps others from, and how the rollback undoes it.
use yaralpho.Base.{ℕ, zero, suc, ◌≡◌, sym, ap, List, [], ◌∷◌, All-get_elem?, modify}
use yaralpho.Base.Int.{ℤ}
use yaralpho.Storage.Models.{BatchStatus, ItemStatus, BatchItem, Batch}
use yaralpho.Scheduler.Settle.{claim, rollback, with_status}
use yaralpho.Scheduler.Selection.{NotBusy, FirstPending, IsEligible}
use yaralpho.Scheduler.Invariant.{IsSound, IsRunningAt, claim-IsSound, claim-IsRunningAt}

-- A batch with an item in progress has no eligible item.
running-not-IsEligible : (b : Batch) (i j : ℕ) → IsRunningAt i b → ¬ IsEligible b j
running-not-IsEligible b i j (x, at, busy) e = All-get_elem? NotBusy b.items i x e.1 at busy

-- A claim of the eligible item of a sound batch keeps it sound, with the item in progress, and as
-- long as the batch is stored in that form no item of it is eligible, so that no other tick can take
-- the item or another one of the batch.
pub claim-locks :
    (m : ℤ) (b : Batch) (i : ℕ)
    → IsEligible b i
    → IsSound m b
    → IsSound m (claim i b) × IsRunningAt i (claim i b) × ((j : ℕ) → ¬ IsEligible (claim i b) j)
claim-locks m b i e s =
    let running = claim-IsRunningAt b i e in
    (claim-IsSound m b i e s, running, λ j. running-not-IsEligible (claim i b) i j running)

put_back :
    (x : BatchItem) → x.status ≡ ItemStatus.pending → record x { status = ItemStatus.pending } ≡ x
put_back x h = ap (λ s. record x { status = s }) (sym h)

released-items :
    (xs : List BatchItem) (i : ℕ)
    → FirstPending i xs
    → modify (modify xs i (with_status ItemStatus.in_progress)) i (with_status ItemStatus.pending)
      ≡ xs
released-items [] i h = absurd h
released-items (x ∷ xs) zero h = ap (λ y. y ∷ xs) (put_back x h)
released-items (x ∷ xs) (suc i) h = ap (λ ys. x ∷ ys) (released-items xs i h.1)

-- The rollback of a claim of an eligible item gives the batch back with its items as they were, and
-- pending; the item is eligible again.
pub rollback-claim :
    (b : Batch) (i : ℕ)
    → IsEligible b i
    → (rollback i (claim i b) ≡ record b { status = BatchStatus.pending })
      × IsEligible (rollback i (claim i b)) i
unfolding rollback claim
rollback-claim b i e =
    let items = released-items b.items i e.2 in
    (
      ap (λ xs. record b { status = BatchStatus.pending; items = xs }) items,
      ((λ h. cc, λ h. cc, λ h. cc), rw items e.1, rw items e.2),
    )
