-- ===== src/Mongo/Scenarios.antt =====
-- A database whose updates match one document, and the theorems about internal/storage/mongo applied
-- to it.
use yaralpho.Base.{
  Option, some, String, Result, ◌<◌, ◌≢◌, ◌⊎◌, inl, inr, arith, ℕ, suc, ◌≡◌, ◌↔◌, refl, false, none,
  [], ◌∷◌, map, no_documents, ok, err,
}
use yaralpho.Base.Int.{pos, negsuc}
use yaralpho.Storage.Models.{Batch, BatchStatus, ItemStatus}
use yaralpho.Storage.Interface.{request}
use yaralpho.Storage.Contract.{Stores, IsBatchStorage, IsCreator}
use yaralpho.App.Memory.{Memory, put_in, fetch, view, fetch-ok, put-other, put-Stores}
use yaralpho.Mongo.Driver.{Filter, Collection, Database, Rows, collect}
use yaralpho.Mongo.Documents.{normalize_items}
use yaralpho.Mongo.Runs.{client}
use yaralpho.Mongo.Laws.{collect_iff}
use yaralpho.Mongo.Contract.{IsDatabase, client-refines}

abbrev collection : {A : Type 0} → Collection A ℕ
collection = record {
  insert_one = λ a w. (none, suc w);
  update_one = λ f a w. (ok 1, suc w);
  find_one = λ f w. (err no_documents, w);
  find = λ f o n w. (ok ([], none), w);
  delete_one = λ f w. (ok 0, w);
}

abbrev database : Database ℕ
database = record {
  repositories = collection;
  agents = collection;
  batches = collection;
  task_runs = collection;
  session_events = collection;
  is_duplicate_key = λ e. false;
  now = λ w. (9, w);
  count_active = λ id w. (ok 0, w);
  event_counts = λ ids w. (ok ([], none), w);
  progress_rows = λ id w. (ok ([], none), w);
}

abbrev stored : Batch
stored = record {
  id = "b-1";
  repository_id = "repo-1";
  created_at = 1;
  updated_at = 1;
  items = record { input = "issue-1"; status = ItemStatus.unset; attempts = negsuc 0 } ∷ [];
  status = BatchStatus.paused;
  summary = "";
  session_name = "s";
}

update_batch_test :
    ((client database).update_batch request stored 0).1.items
    ≡ record { input = "issue-1"; status = ItemStatus.pending; attempts = pos 0 } ∷ []
unfolding client normalize_items
update_batch_test = refl

-- A database in memory, with the batches under their identities.
abbrev first_value : Filter → String
first_value [] = ""
first_value ((key, value) ∷ rest) = value

abbrev put_matched : Batch → Option Batch → Memory → Result ℕ × Memory
put_matched b none w = (ok 0, w)
put_matched b (some old) w = (ok 1, put_in b w)

abbrev nothing : {A : Type 0} → Collection A Memory
nothing = record {
  insert_one = λ a w. (none, w);
  update_one = λ f a w. (ok 0, w);
  find_one = λ f w. (err no_documents, w);
  find = λ f o n w. (ok ([], none), w);
  delete_one = λ f w. (ok 0, w);
}

abbrev in_memory : Database Memory
in_memory = record {
  repositories = nothing;
  agents = nothing;
  batches = record {
    insert_one = λ b w. (none, put_in b w);
    update_one = λ f b w. put_matched b (w (first_value f)) w;
    find_one = λ f w. (fetch (first_value f) (w (first_value f)), w);
    find = λ f o n w. (ok ([], none), w);
    delete_one = λ f w. (ok 0, w);
  };
  task_runs = nothing;
  session_events = nothing;
  is_duplicate_key = λ e. false;
  now = λ w. (9, w);
  count_active = λ id w. (ok 0, w);
  event_counts = λ ids w. (ok ([], none), w);
  progress_rows = λ id w. (ok ([], none), w);
}

matched-Stores :
    (b : Batch) (o : Option Batch) (w : Memory) (n : ℕ)
    → (put_matched b o w).0 ≡ ok n
    → 0 < n
    → Stores ((put_matched b o w).1 b.id) b
matched-Stores b none w n h p = let q : 0 ≡ n = cc in absurd (omega arith)
matched-Stores b (some old) w n h p = put-Stores b w

matched-atomic :
    (b : Batch) (o : Option Batch) (w : Memory)
    → ((put_matched b o w).1 b.id ≡ w b.id) ⊎ Stores ((put_matched b o w).1 b.id) b
matched-atomic b none w = inl refl
matched-atomic b (some old) w = inr (put-Stores b w)

matched-others :
    (b : Batch) (o : Option Batch) (w : Memory) (id : String)
    → id ≢ b.id
    → (put_matched b o w).1 id ≡ w id
matched-others b none w id n = refl
matched-others b (some old) w id n = put-other b w id n

in_memory-IsDatabase : IsDatabase in_memory view
in_memory-IsDatabase = record {
  now_keeps = λ w. refl;
  repositories_keep = λ f w. refl;
  batches_keep = λ f w. refl;
  finds = λ id w b h. fetch-ok id (w id) b h;
  inserts = λ b w h. put-Stores b w;
  updates = λ b w n h p. matched-Stores b (w b.id) w n h p;
  atomic = λ b w. matched-atomic b (w b.id) w;
  others = λ b w id n. matched-others b (w b.id) w id n;
}

client-refines_example : IsBatchStorage (client in_memory) view × IsCreator (client in_memory) view
client-refines_example = client-refines in_memory view in_memory-IsDatabase

abbrev rows : Rows ℕ
rows = (ok 1 ∷ ok 2 ∷ [], none)

collect_iff_example :
    (collect "decode" "iterate" rows ≡ ok (1 ∷ 2 ∷ []))
    ↔ ((rows.0 ≡ map ok (1 ∷ 2 ∷ [])) × (rows.1 ≡ none))
collect_iff_example = collect_iff "decode" "iterate" rows (1 ∷ 2 ∷ [])
