-- ===== src/Mongo/Laws.antt =====
-- What internal/storage/mongo keeps of the documents that it writes, and when its operations report an
-- error.
use yaralpho.Base.{
  ℕ, ◌<◌, ◌≡◌, ◌≢◌, refl, sym, ap, ◌∙◌, ◌↔◌, inl, inr, Bool-cases, Result-cases, Option, none, some,
  List, [], ◌∷◌, map, All, String, Error, Result, ok, err, ◌==◌, arith,
}
use yaralpho.Base.Int.{ℤ, pos, negsuc, neg_part}
use yaralpho.Storage.Models.{Batch, BatchItem, BatchStatus, ItemStatus}
use yaralpho.Storage.Interface.{Ctx}
use yaralpho.Storage.Contract.{IsNormal}
use yaralpho.Mongo.Driver.{Rows, Database, match_error, collect}
use yaralpho.Mongo.Documents.{
  item_status_or_pending, not_negative, normalize_item, normalize_items, batch_status_or_pending,
  new_batch, changed_batch,
}
use yaralpho.Mongo.Client.{by, create_batch, update_batch}
use yaralpho.Mongo.Runs.{client}

status-IsNormal : (s : ItemStatus) → item_status_or_pending s ≢ ItemStatus.unset
unfolding item_status_or_pending
status-IsNormal ItemStatus.unset h = absurd (cc)
status-IsNormal ItemStatus.pending h = absurd (cc)
status-IsNormal ItemStatus.in_progress h = absurd (cc)
status-IsNormal ItemStatus.done h = absurd (cc)
status-IsNormal ItemStatus.failed h = absurd (cc)
status-IsNormal (ItemStatus.other s) h = absurd (cc)

status-id : (s : ItemStatus) → s ≢ ItemStatus.unset → item_status_or_pending s ≡ s
unfolding item_status_or_pending
status-id ItemStatus.unset h = absurd (h refl)
status-id ItemStatus.pending h = refl
status-id ItemStatus.in_progress h = refl
status-id ItemStatus.done h = refl
status-id ItemStatus.failed h = refl
status-id (ItemStatus.other s) h = refl

attempts-IsNormal : (a : ℤ) → neg_part (not_negative a) ≡ 0
unfolding not_negative
attempts-IsNormal (pos n) = refl
attempts-IsNormal (negsuc n) = refl

attempts-id : (a : ℤ) → neg_part a ≡ 0 → not_negative a ≡ a
unfolding not_negative
attempts-id (pos n) h = refl
attempts-id (negsuc n) h = ground arith

normalize_items-IsNormal : (items : List BatchItem) → All IsNormal (normalize_items items)
unfolding normalize_items normalize_item
normalize_items-IsNormal [] = tt
normalize_items-IsNormal (i ∷ rest) =
    ((status-IsNormal i.status, attempts-IsNormal i.attempts), normalize_items-IsNormal rest)

normalize_item-id : (i : BatchItem) → IsNormal i → normalize_item i ≡ i
unfolding normalize_item
normalize_item-id i (s, a) = simp (normalize_item, status-id i.status s, attempts-id i.attempts a)

pub normalize_items-id :
    (items : List BatchItem) → All IsNormal items → normalize_items items ≡ items
unfolding normalize_items normalize_item
normalize_items-id [] h = refl
normalize_items-id (i ∷ rest) ((s, a), h) =
    let p = normalize_item-id i (s, a) in let q = normalize_items-id rest h in cc

batch_status-set : (s : BatchStatus) → batch_status_or_pending s ≢ BatchStatus.unset
unfolding batch_status_or_pending
batch_status-set BatchStatus.unset h = absurd (cc)
batch_status-set BatchStatus.pending h = absurd (cc)
batch_status-set BatchStatus.in_progress h = absurd (cc)
batch_status-set BatchStatus.paused h = absurd (cc)
batch_status-set BatchStatus.done h = absurd (cc)
batch_status-set BatchStatus.failed h = absurd (cc)
batch_status-set (BatchStatus.other s) h = absurd (cc)

module _ {A : Type 0} (decode iterate : String) where
  collect-ok :
      (a : A) (rest : List (Result A)) (ended : Option Error) (l : List A)
      → collect decode iterate (rest, ended) ≡ ok l
      → collect decode iterate (ok a ∷ rest, ended) ≡ ok (a ∷ l)
  unfolding collect
  collect-ok a rest ended l h = rw (collect, h) refl

  collect-err :
      (a : A) (rest : List (Result A)) (ended : Option Error) (e : Error)
      → collect decode iterate (rest, ended) ≡ err e
      → collect decode iterate (ok a ∷ rest, ended) ≡ err e
  unfolding collect
  collect-err a rest ended e h = rw (collect, h) refl

  collect_rows :
      (rows : List (Result A)) (ended : Option Error) (l : List A)
      → collect decode iterate (rows, ended) ≡ ok l
      → (rows ≡ map ok l) × (ended ≡ none)
  unfolding collect
  collect_rows [] none [] h = (refl, refl)
  collect_rows [] none (x ∷ l) h = absurd (cc)
  collect_rows [] (some e) l h = absurd (cc)
  collect_rows (err e ∷ rest) ended l h = absurd (cc)
  collect_rows (ok a ∷ rest) ended l h =
      elim (Result-cases (collect decode iterate (rest, ended))) [
        | inr (e, q) ↦ let r = sym (collect-err a rest ended e q) ∙ h in absurd (cc)
        | inl (l', q) ↦
            let r : ok (a ∷ l') ≡ ok l = sym (collect-ok a rest ended l' q) ∙ h in
            let t : a ∷ l' ≡ l = cc in
            let (p, n) = collect_rows rest ended l' q in (ap (λ xs. ok a ∷ xs) p ∙ ap (map ok) t, n)
      ]

  collect-map : (l : List A) → collect decode iterate (map ok l, none) ≡ ok l
  unfolding collect
  collect-map [] = refl
  collect-map (a ∷ l) = collect-ok a (map ok l) none l (collect-map l)

  -- The list that is made of a cursor is that of its rows in their order, each of them decoded, with
  -- no error at the end; without that there is no list.
  pub collect_iff :
      (rows : Rows A) (l : List A)
      → (collect decode iterate rows ≡ ok l) ↔ ((rows.0 ≡ map ok l) × (rows.1 ≡ none))
  collect_iff (rows, ended) l = (
    collect_rows rows ended l,
    λ (p, n).
        ap (λ r. collect decode iterate (r, ended)) p
        ∙ ap (λ e. collect decode iterate (map ok l, e)) n
        ∙ collect-map l,
  )

pub match_error-none :
    (explain : Error → Error) (r : Result ℕ)
    → (match_error explain r ≡ none) ↔ ((n : ℕ) × (r ≡ ok n) × (0 < n))
unfolding match_error
match_error-none explain (err e) = (λ h. absurd (cc), λ (n, h, l). absurd (cc))
match_error-none explain (ok n) = elim (Bool-cases (n == 0)) [
  | inl e ↦
      rw (match_error, e)
        (λ h. absurd (cc), λ (m, h, l). let q : n ≡ m = cc in absurd (ground arith))
  | inr e ↦ rw (match_error, e) (λ h. (n, refl, ground arith), λ _. refl)
]

module _ {W : Type 0} (db : Database W) where
  -- A batch that is created is stored with a status, and each of its items with a status and a number
  -- of attempts that is not negative.
  create_batch-IsNormal :
      (k : Ctx) (b : Batch) (w : W)
      → All IsNormal ((client db).create_batch k b w).1.items
        × (((client db).create_batch k b w).1.status ≢ BatchStatus.unset)
  unfolding client create_batch new_batch
  create_batch-IsNormal k b w = (normalize_items-IsNormal b.items, batch_status-set b.status)

  -- The store leaves the status of a batch that it updates, and the items where each has a status and
  -- a number of attempts that is not negative; what it writes is always of that form.
  pub update_batch-content :
      (k : Ctx) (b : Batch) (w : W)
      → (((client db).update_batch k b w).1.status ≡ b.status)
        × All IsNormal ((client db).update_batch k b w).1.items
        × (All IsNormal b.items → ((client db).update_batch k b w).1.items ≡ b.items)
  unfolding client update_batch changed_batch
  update_batch-content k b w = (refl, normalize_items-IsNormal b.items, normalize_items-id b.items)

  -- An update of a batch reports no error exactly when the database answers that a document matched.
  pub update_batch-error :
      (k : Ctx) (b : Batch) (w : W)
      → (((client db).update_batch k b w).0 ≡ none) ↔ (
          (n : ℕ) × ((db.batches.update_one
              (by "batch_id" b.id)
              (changed_batch (db.now w).0 b)
              (db.now w).1).0
            ≡ ok n)
          × (0 < n))
  unfolding client update_batch
  update_batch-error k b w = match_error-none _ _
