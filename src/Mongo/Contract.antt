-- ===== src/Mongo/Contract.antt =====
-- The client of internal/storage/mongo as the store that the batch handlers rely on.
use yaralpho.Base.{
  ℕ, ◌<◌, ◌≡◌, ◌≢◌, refl, ap, ◌∙◌, ◌⊎◌, inl, inr, Option, none, some, Bool-cases, String, Error,
  Result, ok, err, is_no_documents, wrap,
}
use yaralpho.Storage.Models.{Batch, BatchStatus}
use yaralpho.Storage.Interface.{request}
use yaralpho.Storage.Contract.{View, Stores, IsBatchStorage, IsCreator}
use yaralpho.Mongo.Driver.{Filter, Database, insert_error, one_document}
use yaralpho.Mongo.Documents.{new_batch, changed_batch, batch_status_or_pending}
use yaralpho.Mongo.Client.{by, create_batch, update_batch, get_batch, get_repository}
use yaralpho.Mongo.Runs.{client}
use yaralpho.Mongo.Laws.{match_error-none, normalize_items-id}

-- What the database is documented to do, with a unique index on batch_id: reads and the clock change
-- nothing; FindOne answers with a stored document that matches its filter; InsertOne stores the
-- document if it reports no error; UpdateOne with $set stores it if it reports a match, touches no
-- document that does not match, and is atomic on the document that does.
pub record IsDatabase {W : Type 0} (db : Database W) (view : View W) : Type 0 where
  pub now_keeps : (w : W) → view (db.now w).1 ≡ view w
  pub repositories_keep : (f : Filter) (w : W) → view (db.repositories.find_one f w).1 ≡ view w
  pub batches_keep : (f : Filter) (w : W) → view (db.batches.find_one f w).1 ≡ view w
  pub finds :
      (id : String) (w : W) (b : Batch)
      → (db.batches.find_one (by "batch_id" id) w).0 ≡ ok b
      → (view w id ≡ some b) × (b.id ≡ id)
  pub inserts :
      (b : Batch) (w : W)
      → (db.batches.insert_one b w).0 ≡ none
      → Stores (view (db.batches.insert_one b w).1 b.id) b
  pub updates :
      (b : Batch) (w : W) (n : ℕ)
      → (db.batches.update_one (by "batch_id" b.id) b w).0 ≡ ok n
      → 0 < n
      → Stores (view (db.batches.update_one (by "batch_id" b.id) b w).1 b.id) b
  pub atomic :
      (b : Batch) (w : W)
      → (view (db.batches.update_one (by "batch_id" b.id) b w).1 b.id ≡ view w b.id)
        ⊎ Stores (view (db.batches.update_one (by "batch_id" b.id) b w).1 b.id) b
  pub others :
      (b : Batch) (w : W) (id : String)
      → id ≢ b.id
      → view (db.batches.update_one (by "batch_id" b.id) b w).1 id ≡ view w id

one_document-ok :
    (what : String) (r : Result Batch) (b : Batch) → one_document what r ≡ ok b → r ≡ ok b
unfolding one_document
one_document-ok what (ok a) b h = h
one_document-ok what (err e) b h = elim (Bool-cases (is_no_documents e)) [
  | inl n ↦ let q = rw n at h in absurd (cc)
  | inr n ↦ let q = rw n at h in absurd (cc)
]

insert_error-none : (what : String) (r : Option Error) → insert_error what r ≡ none → r ≡ none
unfolding insert_error
insert_error-none what none h = refl
insert_error-none what (some e) h = absurd (cc)

status-kept : (s : BatchStatus) → s ≢ BatchStatus.unset → batch_status_or_pending s ≡ s
unfolding batch_status_or_pending
status-kept BatchStatus.unset h = absurd (h refl)
status-kept BatchStatus.pending h = refl
status-kept BatchStatus.in_progress h = refl
status-kept BatchStatus.paused h = refl
status-kept BatchStatus.done h = refl
status-kept BatchStatus.failed h = refl
status-kept (BatchStatus.other s) h = refl

module _ {W : Type 0} (db : Database W) (view : View W) (laws : IsDatabase db view) where
  client-saves :
      (b : Batch) (w : W)
      → ((client db).update_batch request b w).0 ≡ none
      → Stores
          (view ((client db).update_batch request b w).2 b.id)
          ((client db).update_batch request b w).1
  unfolding client update_batch changed_batch
  client-saves b w h =
      let (n, matched, positive) = (match_error-none (wrap "update batch") _).0 h in
      laws.updates (changed_batch (db.now w).0 b) (db.now w).1 n matched positive

  client-atomic :
      (b : Batch) (w : W)
      → (view ((client db).update_batch request b w).2 b.id ≡ view w b.id)
        ⊎ Stores
            (view ((client db).update_batch request b w).2 b.id)
            ((client db).update_batch request b w).1
  unfolding client update_batch changed_batch
  client-atomic b w = elim (laws.atomic (changed_batch (db.now w).0 b) (db.now w).1) [
    | inl q ↦ inl (q ∙ ap (λ v. v b.id) (laws.now_keeps w))
    | inr s ↦ inr s
  ]

  client-creates :
      (b : Batch) (w : W)
      → ((client db).create_batch request b w).0 ≡ none
      → Stores
          (view ((client db).create_batch request b w).2 b.id)
          ((client db).create_batch request b w).1
  unfolding client create_batch new_batch
  client-creates b w h =
      laws.inserts (new_batch (db.now w).0 b) (db.now w).1 (insert_error-none "insert batch" _ h)

  -- Over a database that keeps its documented laws, the client is a store of batches and a creator of
  -- batches as the handlers rely on them: a write that succeeds stores what the call leaves, with the
  -- status and the normal items of the document, and an update touches no other batch and is atomic.
  pub client-refines : IsBatchStorage (client db) view × IsCreator (client db) view
  unfolding client update_batch create_batch get_batch get_repository changed_batch new_batch
  client-refines = (
    record {
      repository_keeps = λ id w. laws.repositories_keep (by "repository_id" id) w;
      get_keeps = λ id w. laws.batches_keep (by "batch_id" id) w;
      gets = λ id w b h. laws.finds id w b (one_document-ok "get batch" _ b h);
      saves = client-saves;
      leaves = λ b w. (refl, refl, normalize_items-id b.items);
      others = λ b w id ne.
          laws.others (changed_batch (db.now w).0 b) (db.now w).1 id ne
          ∙ ap (λ v. v id) (laws.now_keeps w);
      atomic = λ b w e h. client-atomic b w;
    },
    record {
      creates = client-creates;
      leaves = λ b w. (refl, status-kept b.status, normalize_items-id b.items);
    },
  )
