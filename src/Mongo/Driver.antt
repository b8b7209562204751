-- ===== src/Mongo/Driver.antt =====
-- What internal/storage/mongo uses of the database's driver, as operations on a world, and what it
-- makes of their answers. A filter is a list of fields and the values that they equal.
use yaralpho.Base.{
  ℕ, Bool, Option, none, some, List, [], ◌∷◌, String, Error, no_documents, conflict, wrap, Result,
  ok, err, is_no_documents, ◌==◌, if◌then◌else◌,
}
use yaralpho.Storage.Models.{Repository, Agent, Batch, TaskRun, TaskRunStatus, SessionEvent, Time}
use yaralpho.Storage.Interface.{Read}

abbrev pub Filter : Type 0
Filter = List (String × String)

-- The rows of a cursor: a document or the error of its decoding, and the error that ends them.
abbrev pub Rows : Type 0 → Type 0
Rows A = List (Result A) × Option Error

-- A collection: InsertOne, UpdateOne with its count of matches, FindOne with Decode, Find in an order
-- with a limit (0 is none), and DeleteOne with its count.
pub record Collection (A W : Type 0) : Type 0 where
  pub insert_one : A → W → Option Error × W
  pub update_one : Filter → A → W → Result ℕ × W
  pub find_one : Filter → W → Read A W
  pub find : Filter → String → ℕ → W → Result (Rows A) × W
  pub delete_one : Filter → W → Result ℕ × W

-- The database: its collections, mongo.IsDuplicateKeyError, the clock, CountDocuments of a
-- repository's active batches, and the two aggregations.
pub record Database (W : Type 0) : Type 0 where
  pub repositories : Collection Repository W
  pub agents : Collection Agent W
  pub batches : Collection Batch W
  pub task_runs : Collection TaskRun W
  pub session_events : Collection SessionEvent W
  pub is_duplicate_key : Error → Bool
  pub now : W → Time × W
  pub count_active : String → W → Result ℕ × W
  pub event_counts : List String → W → Result (Rows (String × ℕ)) × W
  pub progress_rows : String → W → Result (Rows (TaskRunStatus × ℕ)) × W

-- The error of an insertion, and of one that reports a duplicate key as a conflict.
unfoldable pub insert_error : String → Option Error → Option Error
insert_error what none = none
insert_error what (some e) = some (wrap what e)

unfoldable pub unique_error : (Error → Bool) → String → Error → Error
unique_error duplicate what e = if duplicate e then conflict else wrap what e

unfoldable pub insert_unique_error : (Error → Bool) → String → Option Error → Option Error
unfolding unique_error
insert_unique_error duplicate what none = none
insert_unique_error duplicate what (some e) = some (unique_error duplicate what e)

-- The error of an update or of a deletion, where no match is ErrNoDocuments.
unfoldable pub match_error : (Error → Error) → Result ℕ → Option Error
match_error explain (err e) = some (explain e)
match_error explain (ok n) = if n == 0 then some no_documents else none

-- A document that is read: ErrNoDocuments as it is, any other error wrapped.
unfoldable pub one_document : {A : Type 0} → String → Result A → Result A
one_document what (ok a) = ok a
one_document what (err e) = if is_no_documents e then err e else err (wrap what e)

-- The loop over a cursor.
unfoldable pub collect : {A : Type 0} → String → String → Rows A → Result (List A)
collect decode iterate ([], none) = ok []
collect decode iterate ([], some e) = err (wrap iterate e)
collect decode iterate (err e ∷ rest, ended) = err (wrap decode e)
collect decode iterate (ok a ∷ rest, ended) =
    let later = collect decode iterate (rest, ended) in
    elim later [ err e ↦ err e | ok l ↦ ok (a ∷ l) ]

-- The answer of Find, with the messages of its three errors.
unfoldable pub all_documents :
    {A : Type 0} → String → String → String → Result (Rows A) → Result (List A)
unfolding collect
all_documents what decode iterate (err e) = err (wrap what e)
all_documents what decode iterate (ok rows) = collect decode iterate rows
