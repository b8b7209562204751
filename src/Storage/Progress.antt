-- ===== src/Storage/Progress.antt =====
-- internal/storage/mongo/progress.go: the counts of a batch's runs, from the rows of the aggregation,
-- a status and its count each.
use yaralpho.Base.{
  ℕ, zero, suc, ◌+◌, ◌≡◌, refl, ◌∙◌, ap, sym, arith, inl, inr, Bool-cases, Bool, true, List, [],
  ◌∷◌, ◌==◌, if◌then◌else◌,
}
use yaralpho.Base.Int.{ℤ, pos, negsuc, ◌+ℤ◌, pos_part, neg_part}
use yaralpho.Storage.Models.{BatchProgress, TaskRunStatus}

-- -n
abbrev pub neg : ℤ → ℤ
neg (pos zero) = pos 0
neg (pos (suc n)) = negsuc n
neg (negsuc n) = pos (suc n)

-- `updateProgressCounts`; a count is a number of documents.
unfoldable pub count_in : BatchProgress → TaskRunStatus → ℤ → BatchProgress
count_in p TaskRunStatus.running n = record p { total = p.total +ℤ n; running = p.running +ℤ n }
count_in p TaskRunStatus.succeeded n = record p {
  total = p.total +ℤ n;
  succeeded = p.succeeded +ℤ n;
}
count_in p TaskRunStatus.failed n = record p { total = p.total +ℤ n; failed = p.failed +ℤ n }
count_in p TaskRunStatus.timed_out n = record p { total = p.total +ℤ n; failed = p.failed +ℤ n }
count_in p TaskRunStatus.stopped n = record p { total = p.total +ℤ n; stopped = p.stopped +ℤ n }
count_in p TaskRunStatus.unset n = record p { total = p.total +ℤ n; pending = p.pending +ℤ n }
count_in p (TaskRunStatus.other s) n = record p { total = p.total +ℤ n; pending = p.pending +ℤ n }

unfoldable pub update_progress_counts : BatchProgress → TaskRunStatus → ℕ → BatchProgress
unfolding count_in
update_progress_counts p status n = if n == 0 then p else count_in p status (pos n)

unfoldable pub fold_rows : BatchProgress → List (TaskRunStatus × ℕ) → BatchProgress
unfolding update_progress_counts
fold_rows p [] = p
fold_rows p (r ∷ rest) = fold_rows (update_progress_counts p r.0 r.1) rest

-- The sum of what is counted as no longer pending.
abbrev pub counted : BatchProgress → ℤ
counted p = p.running +ℤ p.succeeded +ℤ p.failed +ℤ p.stopped

unfoldable pub is_zero_ℤ : ℤ → Bool
is_zero_ℤ (pos zero) = Bool.true
is_zero_ℤ _ = Bool.false

unfoldable pub settle_pending : BatchProgress → BatchProgress
unfolding is_zero_ℤ
settle_pending p =
    if is_zero_ℤ p.pending then record p { pending = p.total +ℤ neg (counted p) } else p

abbrev pub no_progress : BatchProgress
no_progress = record {
  total = pos 0;
  pending = pos 0;
  running = pos 0;
  succeeded = pos 0;
  failed = pos 0;
  stopped = pos 0;
}

-- `GetBatchProgress`, once the rows are there.
unfoldable pub get_batch_progress : List (TaskRunStatus × ℕ) → BatchProgress
unfolding fold_rows settle_pending
get_batch_progress rows = settle_pending (fold_rows no_progress rows)

-- No count is below 0, and the total is the sum of the others.
pub IsBalanced : BatchProgress → Type 0
IsBalanced p =
    (pos_part p.total
      ≡ pos_part p.pending
        + pos_part p.running
        + pos_part p.succeeded
        + pos_part p.failed
        + pos_part p.stopped)
    × (neg_part p.total ≡ 0)
    × (neg_part p.pending ≡ 0)
    × (neg_part p.running ≡ 0)
    × (neg_part p.succeeded ≡ 0)
    × (neg_part p.failed ≡ 0)
    × (neg_part p.stopped ≡ 0)

add-parts :
    (a : ℤ) (n : ℕ)
    → neg_part a ≡ 0
    → (pos_part (a +ℤ pos n) ≡ pos_part a + n) × (neg_part (a +ℤ pos n) ≡ 0)
add-parts a n h = ground arith

count_in-IsBalanced :
    (p : BatchProgress) (s : TaskRunStatus) (n : ℕ)
    → IsBalanced p
    → IsBalanced (count_in p s (pos n))
      × (pos_part (count_in p s (pos n)).total ≡ pos_part p.total + n)
unfolding count_in IsBalanced
count_in-IsBalanced p s n (t, a, b, c, d, e, f) =
    let t1 = add-parts p.total n a in
    let b1 = add-parts p.pending n b in
    let c1 = add-parts p.running n c in
    let d1 = add-parts p.succeeded n d in
    let e1 = add-parts p.failed n e in let f1 = add-parts p.stopped n f in ground arith

-- The number of documents in the rows.
pub sum_rows : List (TaskRunStatus × ℕ) → ℕ
sum_rows [] = 0
sum_rows (r ∷ rest) = r.1 + sum_rows rest

update-IsBalanced :
    (p : BatchProgress) (s : TaskRunStatus) (n : ℕ)
    → IsBalanced p
    → IsBalanced (update_progress_counts p s n)
      × (pos_part (update_progress_counts p s n).total ≡ pos_part p.total + n)
unfolding update_progress_counts
update-IsBalanced p s n b = elim (Bool-cases (n == 0)) [
  | inl e ↦ rw (update_progress_counts, e) (b, ground arith)
  | inr e ↦ rw (update_progress_counts, e) (count_in-IsBalanced p s n b)
]

fold-IsBalanced :
    (rows : List (TaskRunStatus × ℕ)) (p : BatchProgress)
    → IsBalanced p
    → IsBalanced (fold_rows p rows)
      × (pos_part (fold_rows p rows).total ≡ pos_part p.total + sum_rows rows)
unfolding fold_rows sum_rows
fold-IsBalanced [] p b = (b, omega arith)
fold-IsBalanced (r ∷ rest) p b =
    let (c, t) = update-IsBalanced p r.0 r.1 b in
    let (d, u) = fold-IsBalanced rest _ c in (d, omega (arith, t, u))

add-neg : (a b : ℤ) → neg_part a ≡ 0 → neg_part b ≡ 0 → pos_part a ≡ pos_part b → a +ℤ neg b ≡ pos 0
add-neg a (pos zero) h k e = ground arith
add-neg a (pos (suc n)) h k e = ground arith
add-neg a (negsuc n) h k e = absurd (omega arith)

add-parts_sum :
    (a b : ℤ)
    → neg_part a ≡ 0
    → neg_part b ≡ 0
    → (pos_part (a +ℤ b) ≡ pos_part a + pos_part b) × (neg_part (a +ℤ b) ≡ 0)
add-parts_sum a b h k = ground arith

settle-zero :
    (p : BatchProgress) → IsBalanced p → p.pending ≡ pos 0 → p.total +ℤ neg (counted p) ≡ pos 0
unfolding IsBalanced
settle-zero p (t, a, b, c, d, e, f) z =
    let (x, x0) = add-parts_sum p.running p.succeeded c d in
    let (y, y0) = add-parts_sum (p.running +ℤ p.succeeded) p.failed x0 e in
    let (v, v0) = add-parts_sum (p.running +ℤ p.succeeded +ℤ p.failed) p.stopped y0 f in
    let w = ap pos_part z in add-neg p.total (counted p) a v0 (omega (arith, t, x, y, v, w))

is_zero-eq : (a : ℤ) → is_zero_ℤ a ≡ true → a ≡ pos 0
unfolding is_zero_ℤ
is_zero-eq (pos zero) h = refl
is_zero-eq (pos (suc n)) h = absurd (cc)
is_zero-eq (negsuc n) h = absurd (cc)

settle-same : (p : BatchProgress) → IsBalanced p → settle_pending p ≡ p
unfolding settle_pending
settle-same p b = elim (Bool-cases (is_zero_ℤ p.pending)) [
  | inl e ↦
      let z = is_zero-eq p.pending e in
      rw (settle_pending, e) (ap (λ n. record p { pending = n }) (settle-zero p b z ∙ sym z))
  | inr e ↦ rw (settle_pending, e) refl
]

no_progress-IsBalanced : IsBalanced no_progress
unfolding IsBalanced
no_progress-IsBalanced = (refl, refl, refl, refl, refl, refl, refl)

-- The progress of a batch is balanced: no count is below 0, the total is the number of runs in the
-- rows, and it is the sum of the other counts.
pub get_batch_progress-IsBalanced :
    (rows : List (TaskRunStatus × ℕ))
    → IsBalanced (get_batch_progress rows)
      × (pos_part (get_batch_progress rows).total ≡ sum_rows rows)
unfolding get_batch_progress
get_batch_progress-IsBalanced rows =
    let (b, t) = fold-IsBalanced rows no_progress no_progress-IsBalanced in
    rw (settle-same (fold_rows no_progress rows) b) (b, omega (arith, t))
