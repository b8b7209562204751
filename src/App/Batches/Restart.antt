-- ===== src/App/Batches/Restart.antt =====
-- A restarted batch of internal/app/batch_restart_handler.go before the scheduler.
use yaralpho.Base.{
  ℕ, zero, suc, ◌≤◌, ◌≡◌, refl, inl, inr, true, some, List, [], ◌∷◌, arith, All, All-modify, modify,
  Bool-cases,
}
use yaralpho.Base.Int.{ℤ, pos, ◌<ℤ◌}
use yaralpho.Storage.Models.{BatchStatus, BatchItem, Batch, Time, is_failed, is_pending}
use yaralpho.Scheduler.Select.{eligible_item}
use yaralpho.Scheduler.Selection.{NotBusy, FirstPending, eligible_item_iff}
use yaralpho.Scheduler.Invariant.{IsSound, busy_count-idle, any_failed}
use yaralpho.App.Batches.{first_failed, reset_item, restarted}

-- Where some item has failed the handler finds one.
first_failed-some :
    (xs : List BatchItem) → any_failed xs ≡ true → (i : ℕ) × (first_failed xs ≡ some i)
unfolding first_failed any_failed
first_failed-some [] h = absurd (cc)
first_failed-some (x ∷ xs) h = elim (Bool-cases (is_failed x.status)) [
  | inl e ↦ (0, ground arith)
  | inr e ↦ let (i, p) = first_failed-some xs (ground arith) in (suc i, ground arith)
]

reset-NotBusy :
    (xs : List BatchItem) (i : ℕ) → All NotBusy xs → All NotBusy (modify xs i reset_item)
reset-NotBusy xs i h = All-modify NotBusy xs i reset_item (λ x at p q. cc) h

-- After the reset there is a first pending item, at the failed item or before it.
reset-FirstPending :
    (xs : List BatchItem) (i : ℕ)
    → first_failed xs ≡ some i
    → (j : ℕ) × (j ≤ i) × FirstPending j (modify xs i reset_item)
unfolding first_failed
reset-FirstPending [] i h = absurd (cc)
reset-FirstPending (x ∷ xs) zero h = (0, omega arith, refl)
reset-FirstPending (x ∷ xs) (suc i) h = elim (Bool-cases (is_pending x.status)) [
  | inl e ↦ (0, omega arith, ground arith)
  | inr e ↦
      let (j, le, p) = reset-FirstPending xs i (ground arith) in
      (suc j, omega arith, (λ q. ground arith, p))
]

-- A sound failed batch of which no item is in progress can be restarted, and the restarted batch is
-- eligible for the scheduler again, at the item that had failed or at an earlier one.
pub restarted-eligible :
    (m : ℤ) (now : Time) (b : Batch)
    → IsSound m b
    → b.status ≡ BatchStatus.failed
    → All NotBusy b.items
    → (i : ℕ) × (first_failed b.items ≡ some i)
      × ((j : ℕ) × (j ≤ i) × (eligible_item (restarted now i b) ≡ some j))
unfolding restarted
restarted-eligible m now b s f idle =
    let (i, p) = first_failed-some b.items (s.failed_some f) in
    let (j, le, q) = reset-FirstPending b.items i p in
    (
      i,
      p,
      (
        j,
        le,
        (eligible_item_iff (restarted now i b) j).1
            ((λ h. cc, λ h. cc, λ h. cc), reset-NotBusy b.items i idle, q),
      ),
    )

-- A restart keeps a sound batch of which no item is in progress sound, when the number of attempts is
-- above 0.
pub restarted-IsSound :
    (m : ℤ) (now : Time) (b : Batch) (i : ℕ)
    → pos 0 <ℤ m
    → All NotBusy b.items
    → IsSound m b
    → IsSound m (restarted now i b)
unfolding restarted
restarted-IsSound m now b i some_retry idle s = record {
  one_busy = omega (arith, busy_count-idle _ (reset-NotBusy b.items i idle));
  items_sound = All-modify _ b.items i reset_item (λ x at h. ground arith) s.items_sound;
  done_all = λ h. absurd (cc);
  failed_some = λ h. absurd (cc);
}
