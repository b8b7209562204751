-- ===== src/Scheduler/Attempts.antt =====
-- An attempt on a batch, as a tick of internal/scheduler/scheduler.go makes it, and the work that is
-- left of it.
use yaralpho.Base.{
  ℕ, zero, suc, ◌+◌, ◌-◌, ◌<◌, ◌≡◌, refl, ap, ◌⊎◌, inl, inr, Bool, true, false, none, some, List,
  [], ◌∷◌, arith, All, get_elem?, get_elem?-modify, modify,
}
use yaralpho.Base.Int.{ℤ, pos, pos_part, ◌≤ℤ◌, ◌<ℤ◌}
use yaralpho.Storage.Models.{BatchStatus, ItemStatus, BatchItem, Batch, is_pending}
use yaralpho.Scheduler.Select.{eligible_item, all_items_done}
use yaralpho.Scheduler.Settle.{claim, settle, settle_item, with_status}
use yaralpho.Scheduler.Selection.{FirstPending, IsOpen, NotBusy}

-- One attempt on the batch, as a tick that reaches the worker makes it: nothing happens to a batch
-- that is not eligible.
unfoldable pub attempt : ℤ → Bool → Batch → Batch
attempt m failed b = elim (eligible_item b) [ none ↦ b | some i ↦ settle m failed i (claim i b) ]

unfoldable pub attempts : ℤ → List Bool → Batch → Batch
unfolding attempt
attempts m [] b = b
attempts m (failed ∷ rest) b = attempts m rest (attempt m failed b)

-- An item of an open batch: to be tried, with attempts left, or done.
abbrev pub IsOpenItem : ℤ → BatchItem → Type 0
IsOpenItem m x =
    ((x.status ≡ ItemStatus.pending) × (pos 0 ≤ℤ x.attempts) × (x.attempts <ℤ m))
    ⊎ (x.status ≡ ItemStatus.done)

-- Between two ticks, a batch that is neither paused nor finished: something is left to do.
pub record IsReady (m : ℤ) (b : Batch) : Type 0 where
  pub is_open : IsOpen b.status
  pub items_open : All (IsOpenItem m) b.items
  pub has_work : (i : ℕ) × FirstPending i b.items

abbrev pub IsFinished : Batch → Type 0
IsFinished b =
    ((b.status ≡ BatchStatus.done) × All (λ x. x.status ≡ ItemStatus.done) b.items)
    ⊎ (b.status ≡ BatchStatus.failed)

-- The attempts that an item can still take.
unfoldable pub item_work : ℤ → BatchItem → ℕ
item_work m x = elim (is_pending x.status) [ true ↦ pos_part m - pos_part x.attempts | false ↦ 0 ]

unfoldable pub work : ℤ → List BatchItem → ℕ
unfolding item_work
work m [] = 0
work m (x ∷ xs) = item_work m x + work m xs

-- What the claim and the attempt together make of the chosen item.
pub tried : ℤ → Bool → BatchItem → BatchItem
tried m failed x = settle_item m failed (with_status ItemStatus.in_progress x)

modify-modify :
    (m : ℤ) (failed : Bool) (xs : List BatchItem) (i : ℕ)
    → modify (modify xs i (with_status ItemStatus.in_progress)) i (settle_item m failed)
      ≡ modify xs i (tried m failed)
unfolding tried
modify-modify m failed [] i = refl
modify-modify m failed (x ∷ xs) zero = refl
modify-modify m failed (x ∷ xs) (suc i) = ap (◌∷◌ x) (modify-modify m failed xs i)

-- The work falls with every attempt.
pub work-modify :
    (m : ℤ) (failed : Bool) (xs : List BatchItem) (i : ℕ)
    → All (IsOpenItem m) xs
    → FirstPending i xs
    → work m (modify xs i (tried m failed)) < work m xs
unfolding work tried settle_item
work-modify m failed [] i o p = absurd p
work-modify m failed (x ∷ xs) zero o p = ground arith
work-modify m failed (x ∷ xs) (suc i) o p = ground (arith, work-modify m failed xs i o.1 p.1)

pub done-tried : (m : ℤ) (x : BatchItem) → (tried m false x).status ≡ ItemStatus.done
unfolding tried settle_item
done-tried m x = refl

-- An item that is to be tried again has attempts left.
pub tried-IsOpenItem :
    (m : ℤ) (x : BatchItem)
    → IsOpenItem m x
    → x.status ≡ ItemStatus.pending
    → (tried m true x).status ≡ ItemStatus.pending
    → IsOpenItem m (tried m true x)
unfolding tried settle_item
tried-IsOpenItem m x o p q = ground arith

-- Open items: all are done, or one is pending.
pub done_or_pending :
    (m : ℤ) (xs : List BatchItem)
    → All (IsOpenItem m) xs
    → (all_items_done xs ≡ true) ⊎ ((all_items_done xs ≡ false) × ((i : ℕ) × FirstPending i xs))
unfolding all_items_done
done_or_pending m [] o = inl refl
done_or_pending m (x ∷ xs) o = elim o.0 [
  | inl p ↦ inr (ground arith, (0, p.0))
  | inr d ↦ elim (done_or_pending m xs o.1) [
    | inl e ↦ inl (ground arith)
    | inr (e, (i, p)) ↦ inr (ground arith, (suc i, (λ q. cc, p)))
  ]
]

pub open-NotBusy : (m : ℤ) (xs : List BatchItem) → All (IsOpenItem m) xs → All NotBusy xs
open-NotBusy m [] o = tt
open-NotBusy m (x ∷ xs) o = ground (arith, open-NotBusy m xs o.1)

pub FirstPending-modify :
    (xs : List BatchItem) (i : ℕ) (f : BatchItem → BatchItem)
    → ((x : BatchItem) → get_elem? xs i ≡ some x → (f x).status ≡ ItemStatus.pending)
    → FirstPending i xs
    → FirstPending i (modify xs i f)
FirstPending-modify [] i f keep p = p
FirstPending-modify (x ∷ xs) zero f keep p = keep x refl
FirstPending-modify (x ∷ xs) (suc i) f keep p = (p.0, FirstPending-modify xs i f keep p.1)

-- The outcome of one attempt on item `i` of a ready batch.
abbrev pub Outcome : ℤ → Batch → Batch → Type 0
Outcome m b b' = (IsReady m b' × (work m b'.items < work m b.items)) ⊎ IsFinished b'

pub items-settle-claim :
    (m : ℤ) (failed : Bool) (i : ℕ) (b : Batch)
    → (settle m failed i (claim i b)).items ≡ modify b.items i (tried m failed)
unfolding settle claim
items-settle-claim m failed i b = modify-modify m failed b.items i

pub status-settle_done :
    (m : ℤ) (i : ℕ) (b : Batch)
    → all_items_done (settle m false i b).items ≡ true
    → (settle m false i b).status ≡ BatchStatus.done
unfolding settle
status-settle_done m i b h = ground arith

pub status-settle_more :
    (m : ℤ) (i : ℕ) (b : Batch)
    → all_items_done (settle m false i b).items ≡ false
    → (settle m false i b).status ≡ BatchStatus.pending
unfolding settle
status-settle_more m i b h = ground arith

-- After a failure the batch is failed if its item is, and pending otherwise.
pub status-settle_failed :
    (m : ℤ) (i : ℕ) (b : Batch) (x : BatchItem)
    → get_elem? b.items i ≡ some x
    → let b' = settle m true i (claim i b) in
      (((tried m true x).status ≡ ItemStatus.failed) × (b'.status ≡ BatchStatus.failed))
      ⊎ (((tried m true x).status ≡ ItemStatus.pending) × (b'.status ≡ BatchStatus.pending))
unfolding settle claim tried
status-settle_failed m i b x at = ground (
  arith,
  get_elem?-modify (modify b.items i (with_status ItemStatus.in_progress)) i (settle_item m true)
      (with_status ItemStatus.in_progress x)
      (get_elem?-modify b.items i (with_status ItemStatus.in_progress) x at),
)
