-- ===== src/Scheduler/Liveness.antt =====
-- Repeated attempts bring a batch of internal/scheduler/scheduler.go to an end.
use yaralpho.Base.{
  ℕ, ◌≤◌, ◌<◌, ◌≡◌, ap, ◌⊎◌, inl, inr, Bool, true, false, none, some, List, [], ◌∷◌, arith, All,
  All-modify, get_elem?, sym, ◌∙◌, modify, length,
}
use yaralpho.Base.Int.{ℤ}
use yaralpho.Storage.Models.{BatchStatus, ItemStatus, BatchItem, Batch}
use yaralpho.Scheduler.Select.{eligible_item}
use yaralpho.Scheduler.Settle.{claim, settle}
use yaralpho.Scheduler.Selection.{FirstPending, Ineligible, eligible_item_iff, eligible_item-none}
use yaralpho.Scheduler.Invariant.{all_items_done-All, FirstPending-get_elem?}
use yaralpho.Scheduler.Attempts.{
  attempt, attempts, IsOpenItem, IsReady, IsFinished, work, tried, work-modify, done-tried,
  tried-IsOpenItem, done_or_pending, open-NotBusy, FirstPending-modify, Outcome, items-settle-claim,
  status-settle_done, status-settle_more, status-settle_failed,
}

module _ (m : ℤ) (b : Batch) (i : ℕ) (r : IsReady m b) (p : FirstPending i b.items) where
  ready_again :
      (failed : Bool) (b' : Batch)
      → b'.items ≡ modify b.items i (tried m failed)
      → b'.status ≡ BatchStatus.pending
      → All (IsOpenItem m) b'.items
      → ((j : ℕ) × FirstPending j b'.items)
      → Outcome m b b'
  ready_again failed b' e st o w = inl (
    record { is_open = (λ q. cc, λ q. cc, λ q. cc); items_open = o; has_work = w },
    rw e (work-modify m failed b.items i r.items_open p),
  )

  at_i : (x : BatchItem) × (get_elem? b.items i ≡ some x) × (x.status ≡ ItemStatus.pending)
  at_i = FirstPending-get_elem? b.items i p

  pending_at : (y : BatchItem) → get_elem? b.items i ≡ some y → y.status ≡ ItemStatus.pending
  pending_at y at =
      let (x, at', q) = at_i in let e : x ≡ y = cc in sym (ap (λ (z : BatchItem). z.status) e) ∙ q

  succeeds : Outcome m b (settle m false i (claim i b))
  succeeds =
      let e = items-settle-claim m false i b in
      let o : All (IsOpenItem m) (settle m false i (claim i b)).items =
        rw e
          (All-modify _ b.items i (tried m false) (λ y at h. inr (done-tried m y)) r.items_open) in
      elim (done_or_pending m _ o) [
        | inl d ↦ inr (inl (status-settle_done m i (claim i b) d, all_items_done-All _ d))
        | inr (d, w) ↦ ready_again false _ e (status-settle_more m i (claim i b) d) o w
      ]

  again :
      (x : BatchItem)
      → get_elem? b.items i ≡ some x
      → (tried m true x).status ≡ ItemStatus.pending
      → (y : BatchItem) → get_elem? b.items i ≡ some y
      → (tried m true y).status ≡ ItemStatus.pending
  again x at f y at' =
      let e : x ≡ y = cc in sym (ap (λ (z : BatchItem). (tried m true z).status) e) ∙ f

  fails : Outcome m b (settle m true i (claim i b))
  fails =
      let (x, at, q) = at_i in
      let e = items-settle-claim m true i b in
      elim (status-settle_failed m i b x at) [
        | inl (f, st) ↦ inr (inr st)
        | inr (f, st) ↦
            ready_again true _ e st
              (rw e (
                All-modify _ b.items i (tried m true)
                  (λ y at' h. tried-IsOpenItem m y h (pending_at y at') (again x at f y at'))
                  r.items_open))
              (i, rw e (FirstPending-modify b.items i _ (again x at f) p))
      ]

ready-eligible :
    (m : ℤ) (b : Batch)
    → IsReady m b
    → (i : ℕ) × (eligible_item b ≡ some i) × FirstPending i b.items
ready-eligible m b r =
    let (i, p) = r.has_work in
    (i, (eligible_item_iff b i).1 (r.is_open, open-NotBusy m b.items r.items_open, p), p)

attempt-some :
    (m : ℤ) (failed : Bool) (b : Batch) (i : ℕ)
    → eligible_item b ≡ some i
    → attempt m failed b ≡ settle m failed i (claim i b)
unfolding attempt
attempt-some m failed b i e = ground arith

attempt-none : (m : ℤ) (failed : Bool) (b : Batch) → eligible_item b ≡ none → attempt m failed b ≡ b
unfolding attempt
attempt-none m failed b e = ground arith

-- An attempt on a ready batch finishes it, or leaves it ready with less work.
pub attempt-outcome :
    (m : ℤ) (failed : Bool) (b : Batch)
    → IsReady m b
    → (IsReady m (attempt m failed b) × (work m (attempt m failed b).items < work m b.items))
      ⊎ IsFinished (attempt m failed b)
attempt-outcome m true b r =
    let (i, e, p) = ready-eligible m b r in rw (attempt-some m true b i e) (fails m b i r p)
attempt-outcome m false b r =
    let (i, e, p) = ready-eligible m b r in rw (attempt-some m false b i e) (succeeds m b i r p)

not-eligible : (b : Batch) → IsFinished b → Ineligible b
not-eligible b (inl (d, _)) j e = e.0.2 d
not-eligible b (inr f) j e = e.0.1 f

finished-stays : (m : ℤ) (failed : Bool) (b : Batch) → IsFinished b → attempt m failed b ≡ b
finished-stays m failed b f = attempt-none m failed b ((eligible_item-none b).1 (not-eligible b f))

attempts-IsFinished_after :
    (m : ℤ) (outcomes : List Bool) (b : Batch) → IsFinished b → IsFinished (attempts m outcomes b)
unfolding attempts
attempts-IsFinished_after m [] b f = f
attempts-IsFinished_after m (failed ∷ rest) b f =
    attempts-IsFinished_after m rest (attempt m failed b) (rw (finished-stays m failed b f) f)

-- However the attempts go, a ready batch is done or failed once there were as many of them as its
-- pending items have left; if it is done, each of its items is.
pub attempts-IsFinished :
    (m : ℤ) (outcomes : List Bool) (b : Batch)
    → IsReady m b
    → work m b.items ≤ length outcomes
    → IsFinished (attempts m outcomes b)
unfolding attempts
attempts-IsFinished m [] b r h =
    let (i, p) = r.has_work in absurd (omega (arith, work-modify m true b.items i r.items_open p))
attempts-IsFinished m (failed ∷ rest) b r h = elim (attempt-outcome m failed b r) [
  | inl (r', less) ↦ attempts-IsFinished m rest (attempt m failed b) r' (omega arith)
  | inr f ↦ attempts-IsFinished_after m rest (attempt m failed b) f
]
