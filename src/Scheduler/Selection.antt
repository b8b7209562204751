-- ===== src/Scheduler/Selection.antt =====
-- What the selection of internal/scheduler/scheduler.go chooses, against a description of the
-- eligible batches that does not scan.
use yaralpho.Base.{
  ℕ, zero, suc, ◌+◌, ◌≡◌, refl, ◌≢◌, ◌↔◌, ◌⊎◌, inl, inr, Bool, true, false, ◌||◌, Option, none,
  some, List, [], ◌∷◌, arith, All, Option-cases,
}
use yaralpho.Storage.Models.{
  BatchStatus, ItemStatus, AgentStatus, BatchItem, Batch, Agent, is_pending, is_in_progress,
}
use yaralpho.Scheduler.Select.{
  first_idle_agent, next_pending_from, next_pending_index, eligible_item, select,
}

-- Neither paused nor finished.
abbrev pub IsOpen : BatchStatus → Type 0
IsOpen s = (s ≢ BatchStatus.paused) × (s ≢ BatchStatus.failed) × (s ≢ BatchStatus.done)

abbrev pub NotBusy : BatchItem → Type 0
NotBusy x = x.status ≢ ItemStatus.in_progress

-- Item `i` is pending, and none before it is.
abbrev pub FirstPending : ℕ → List BatchItem → Type 0
FirstPending i [] = ⊥
FirstPending zero (x ∷ xs) = x.status ≡ ItemStatus.pending
FirstPending (suc i) (x ∷ xs) = (x.status ≢ ItemStatus.pending) × FirstPending i xs

abbrev pub IsEligible : Batch → ℕ → Type 0
IsEligible b i = IsOpen b.status × All NotBusy b.items × FirstPending i b.items

first_pending : List BatchItem → Option ℕ
first_pending [] = none
first_pending (x ∷ xs) = elim (is_pending x.status) [
  | true ↦ some 0
  | false ↦ elim (first_pending xs) [ none ↦ none | some i ↦ some (suc i) ]
]

any_busy : List BatchItem → Bool
any_busy [] = false
any_busy (x ∷ xs) = is_in_progress x.status || any_busy xs

abbrev or_shifted : ℕ → Option ℕ → Option ℕ → Option ℕ
or_shifted n (some j) o = some j
or_shifted n none none = none
or_shifted n none (some i) = some (n + i)

next_pending_from-eq :
    (n : ℕ) (p : Option ℕ) (busy : Bool) (xs : List BatchItem)
    → next_pending_from n (p, busy) xs ≡ (or_shifted n p (first_pending xs), busy || any_busy xs)
unfolding next_pending_from first_pending any_busy
next_pending_from-eq n none true [] = refl
next_pending_from-eq n none false [] = refl
next_pending_from-eq n (some j) true [] = refl
next_pending_from-eq n (some j) false [] = refl
next_pending_from-eq n none busy (x ∷ xs) = ground (
  arith,
  next_pending_from-eq (suc n) none busy xs,
  next_pending_from-eq (suc n) none true xs,
  next_pending_from-eq (suc n) (some n) busy xs,
)
next_pending_from-eq n (some j) busy (x ∷ xs) = ground (
  arith,
  next_pending_from-eq (suc n) (some j) busy xs,
  next_pending_from-eq (suc n) (some j) true xs,
)

first_pending-some : (xs : List BatchItem) (i : ℕ) → first_pending xs ≡ some i → FirstPending i xs
unfolding first_pending
first_pending-some [] i h = cc
first_pending-some (x ∷ xs) zero h = ground arith
first_pending-some (x ∷ xs) (suc i) h = ground (arith, first_pending-some xs i)

some-first_pending : (xs : List BatchItem) (i : ℕ) → FirstPending i xs → first_pending xs ≡ some i
unfolding first_pending
some-first_pending [] i h = absurd h
some-first_pending (x ∷ xs) zero h = ground arith
some-first_pending (x ∷ xs) (suc i) h = ground (arith, some-first_pending xs i)

not-any_busy : (xs : List BatchItem) → any_busy xs ≡ false → All NotBusy xs
unfolding any_busy
not-any_busy [] h = tt
not-any_busy (x ∷ xs) h = ground (arith, not-any_busy xs)

any_busy-All : (xs : List BatchItem) → All NotBusy xs → any_busy xs ≡ false
unfolding any_busy
any_busy-All [] h = refl
any_busy-All (x ∷ xs) h = ground (arith, any_busy-All xs)

next_pending_index-eq :
    (xs : List BatchItem) → next_pending_index xs ≡ (first_pending xs, any_busy xs)
unfolding next_pending_index
next_pending_index-eq xs = ground (arith, next_pending_from-eq 0 none false xs)

-- The guards of the loop let item `i` of a batch through exactly when the batch is open, no item of
-- it is in progress, and `i` is its first pending item.
pub eligible_item_iff : (b : Batch) (i : ℕ) → (eligible_item b ≡ some i) ↔ IsEligible b i
unfolding eligible_item
eligible_item_iff b i = (
  λ h.
      ground
        (arith, next_pending_index-eq b.items, first_pending-some b.items i, not-any_busy b.items),
  λ h.
      ground
        (arith, next_pending_index-eq b.items, some-first_pending b.items i, any_busy-All b.items),
)

abbrev pub Ineligible : Batch → Type 0
Ineligible b = (j : ℕ) → ¬ IsEligible b j

pub eligible_item-none : (b : Batch) → (eligible_item b ≡ none) ↔ Ineligible b
eligible_item-none b = (
  λ h j e. ground (arith, (eligible_item_iff b j).1 e),
  λ h. elim (Option-cases (eligible_item b)) [
    | inl e ↦ e
    | inr (i, e) ↦ absurd (h i ((eligible_item_iff b i).0 e))
  ],
)

-- `b` is the first eligible batch of the list, and `i` is the item that makes it so.
abbrev pub IsFirstEligible : Batch → ℕ → List Batch → Type 0
IsFirstEligible b i [] = ⊥
IsFirstEligible b i (x ∷ rest) =
    ((x ≡ b) × IsEligible b i) ⊎ (Ineligible x × IsFirstEligible b i rest)

select-skip :
    (x : Batch) (rest : List Batch) → eligible_item x ≡ none → select (x ∷ rest) ≡ select rest
unfolding select
select-skip x rest e = ground arith

select-hit :
    (x : Batch) (rest : List Batch) (j : ℕ)
    → eligible_item x ≡ some j
    → select (x ∷ rest) ≡ some (x, j)
unfolding select
select-hit x rest j e = ground arith

select-dead :
    (x b : Batch) (rest : List Batch) (i : ℕ)
    → eligible_item x ≡ none
    → ((select rest ≡ some (b, i)) ↔ IsFirstEligible b i rest)
    → (select (x ∷ rest) ≡ some (b, i)) ↔ IsFirstEligible b i (x ∷ rest)
select-dead x b rest i e ih =
    let dead = (eligible_item-none x).0 e in
    rw (select-skip x rest e) (
      λ h. inr (dead, ih.0 h),
      λ h. elim h [ inl (p, el) ↦ absurd (dead i (rw p el)) | inr (d, later) ↦ ih.1 later ],
    )

select-live :
    (x b : Batch) (rest : List Batch) (i j : ℕ)
    → eligible_item x ≡ some j
    → (select (x ∷ rest) ≡ some (b, i)) ↔ IsFirstEligible b i (x ∷ rest)
select-live x b rest i j e =
    let live = (eligible_item_iff x j).0 e in
    rw (select-hit x rest j e) (
      λ h. let p : x ≡ b = cc in let q : j ≡ i = cc in inl (p, rw (← p, ← q) live),
      λ h. elim h [
        | inl (p, el) ↦ cc ((eligible_item_iff x i).1 (rw p el))
        | inr (d, later) ↦ absurd (d j live)
      ],
    )

select-step :
    (x b : Batch) (rest : List Batch) (i : ℕ)
    → ((select rest ≡ some (b, i)) ↔ IsFirstEligible b i rest)
    → (select (x ∷ rest) ≡ some (b, i)) ↔ IsFirstEligible b i (x ∷ rest)
select-step x b rest i ih = elim (Option-cases (eligible_item x)) [
  | inl e ↦ select-dead x b rest i e ih
  | inr (j, e) ↦ select-live x b rest i j e
]

-- A tick chooses a batch and an item of it exactly when the batch is the first eligible one in the
-- order in which the store lists them, and the item is its first pending one.
pub select_iff :
    (bs : List Batch) (b : Batch) (i : ℕ) → (select bs ≡ some (b, i)) ↔ IsFirstEligible b i bs
unfolding select
select_iff [] b i = (λ h. cc, λ h. absurd h)
select_iff (x ∷ rest) b i = select-step x b rest i (select_iff rest b i)

-- The choice of a tick is none exactly when no listed batch is eligible.
pub select-none : (bs : List Batch) → (select bs ≡ none) ↔ All Ineligible bs
unfolding select
select-none [] = (λ h. tt, λ h. refl)
select-none (x ∷ rest) = elim (Option-cases (eligible_item x)) [
  | inl e ↦
      rw (select-skip x rest e)
        (λ h. ((eligible_item-none x).0 e, (select-none rest).0 h), λ h. (select-none rest).1 h.1)
  | inr (j, e) ↦
      rw (select-hit x rest j e)
        (λ h. absurd (cc), λ h. absurd (h.0 j ((eligible_item_iff x j).0 e)))
]

-- The agent is idle, and those listed before it are not.
abbrev pub IsFirstIdle : Agent → List Agent → Type 0
IsFirstIdle a [] = ⊥
IsFirstIdle a (x ∷ rest) =
    ((x ≡ a) × (x.status ≡ AgentStatus.idle)) ⊎ ((x.status ≢ AgentStatus.idle) × IsFirstIdle a rest)

-- The agent that a tick takes is the first idle one of the list.
pub first_idle_agent_iff :
    (l : List Agent) (a : Agent) → (first_idle_agent l ≡ some a) ↔ IsFirstIdle a l
unfolding first_idle_agent
first_idle_agent_iff [] a = (λ h. cc, λ h. absurd h)
first_idle_agent_iff (x ∷ rest) a = (
  λ h. ground (arith, (first_idle_agent_iff rest a).0),
  λ h. ground (arith, (first_idle_agent_iff rest a).1),
)
