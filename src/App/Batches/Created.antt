-- ===== src/App/Batches/Created.antt =====
-- The batch that addBatchHandler of internal/app/batch_handlers.go creates.
use Prim.Native.String.{String}
use yaralpho.Base.{
  ◌≡◌, refl, ◌≢◌, inl, inr, Option, some, List, [], ◌∷◌, map, arith, All, Bool-cases, str_eq,
  str_eq_iff,
}
use yaralpho.Base.Int.{ℤ, pos, ◌<ℤ◌}
use yaralpho.Base.Text.{trim_space}
use yaralpho.Storage.Interface.{Storage}
use yaralpho.Storage.Models.{Batch, Time}
use yaralpho.Scheduler.Selection.{NotBusy}
use yaralpho.Scheduler.Invariant.{IsSound, IsItemSound, busy_count-idle}
use yaralpho.Scheduler.Attempts.{IsReady, IsOpenItem}
use yaralpho.App.Batches.{clean_items, new_item, new_batch, new_batch_id}

new_items-open :
    (m : ℤ) (items : List String) → pos 0 <ℤ m → All (IsOpenItem m) (map new_item items)
new_items-open m [] h = tt
new_items-open m (it ∷ rest) h = (inl (refl, ground arith, h), new_items-open m rest h)

new_items_sound :
    (m : ℤ) (items : List String) → pos 0 <ℤ m → All (IsItemSound m) (map new_item items)
new_items_sound m [] h = tt
new_items_sound m (it ∷ rest) h = (ground arith, new_items_sound m rest h)

new_items-NotBusy : (items : List String) → All NotBusy (map new_item items)
new_items-NotBusy [] = tt
new_items-NotBusy (it ∷ rest) = (λ h. cc, new_items-NotBusy rest)

-- A batch that is created from at least one item is sound and ready to be scheduled.
pub new_batch-IsReady :
    (m : ℤ) (now : Time) (repo_id : String) (it : String) (rest : List String) (label : String)
    → pos 0 <ℤ m
    → let b = new_batch now repo_id (it ∷ rest) label in IsSound m b × IsReady m b
unfolding new_batch
new_batch-IsReady m now repo_id it rest label h = (
  record {
    one_busy =
        omega (arith, busy_count-idle (map new_item (it ∷ rest)) (new_items-NotBusy (it ∷ rest)));
    items_sound = new_items_sound m (it ∷ rest) h;
    done_all = λ e. absurd (cc);
    failed_some = λ e. absurd (cc);
  },
  record {
    is_open = (λ e. cc, λ e. cc, λ e. cc);
    items_open = new_items-open m (it ∷ rest) h;
    has_work = (0, refl);
  },
)

-- Every item that is kept is not blank.
pub clean_items-nonblank : (items : List String) → All (λ it. it ≢ "") (clean_items items)
unfolding clean_items
clean_items-nonblank [] = tt
clean_items-nonblank (it ∷ rest) = elim (Bool-cases (str_eq (trim_space it) "")) [
  | inl e ↦ rw e (clean_items-nonblank rest)
  | inr e ↦ rw e ((λ p. ground (arith, str_eq_iff (trim_space it) "")), clean_items-nonblank rest)
]

-- The batch stored under the new identity is sound and ready, belongs to the repository, and holds
-- the given items in their order.
abbrev pub Created :
    {W : Type 0} → ℤ → (W → String → Option Batch) → Time → String → List String → W → Type 0
Created m view now repo_id items w =
    (b : Batch) × (view w (new_batch_id now) ≡ some b)
    × IsSound m b
    × IsReady m b
    × (b.repository_id ≡ repo_id)
    × (b.items ≡ map new_item items)
