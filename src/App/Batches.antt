-- ===== src/App/Batches.antt =====
-- internal/app/batch_pause_handlers.go, batch_restart_handler.go and batch_handlers.go.
pub mod Transitions
pub mod Moves
pub mod Restart
pub mod Created
pub mod Accepted
use Prim.Native.String.{◌++◌ as str_append}
use yaralpho.Base.{
  ℕ, zero, suc, Bool, true, false, ◌||◌, Option, none, some, List, [], ◌∷◌, map, String, Error,
  str_eq, modify, if◌then◌else◌,
}
use yaralpho.Base.Int.{pos}
use yaralpho.Base.Text.{trim_space, format_int}
use yaralpho.Storage.Models.{BatchStatus, ItemStatus, Batch, BatchItem, Time, is_failed}
use yaralpho.Storage.Interface.{Storage, request}
use yaralpho.App.Http.{
  Response, Handler, batch_summary, write_json, write_error, write_storage_error,
  equals_no_documents, after_read, after_write, scoped_batch,
}

abbrev pub is_finished : BatchStatus → Bool
is_finished BatchStatus.done = true
is_finished BatchStatus.failed = true
is_finished _ = false

abbrev pub is_paused : BatchStatus → Bool
is_paused BatchStatus.paused = true
is_paused _ = false

abbrev pub is_failed_batch : BatchStatus → Bool
is_failed_batch BatchStatus.failed = true
is_failed_batch _ = false

abbrev pub summary_of : Batch → Response
summary_of b = write_json 200 (batch_summary b.id b.status b.repository_id)

-- The write at the end of the three handlers, and its answer.
pub save_batch : {W : Type 0} → Storage W → Batch → Handler W
unfolding write_storage_error
save_batch st b w =
    after_write (st.update_batch request b w) write_storage_error λ b' w'. (summary_of b', w')

pub pause : {W : Type 0} → Storage W → Time → Batch → Handler W
unfolding save_batch
pause st now b w =
    if is_finished b.status
    then (write_error 409 "batch cannot be paused in current state", w)
    else if is_paused b.status
    then (write_error 409 "batch already paused", w)
    else save_batch st (record b { status = BatchStatus.paused; updated_at = now }) w

-- `pauseBatchHandler`
unfoldable pub pause_batch : {W : Type 0} → Storage W → Time → String → String → Handler W
unfolding scoped_batch pause
pause_batch st now repo_id batch_id = scoped_batch st repo_id batch_id (pause st now)

pub resume : {W : Type 0} → Storage W → Time → Batch → Handler W
unfolding save_batch
resume st now b w =
    if is_paused b.status
    then save_batch st (record b { status = BatchStatus.pending; updated_at = now }) w
    else (write_error 409 "batch is not paused", w)

-- `resumeBatchHandler`
unfoldable pub resume_batch : {W : Type 0} → Storage W → Time → String → String → Handler W
unfolding scoped_batch resume
resume_batch st now repo_id batch_id = scoped_batch st repo_id batch_id (resume st now)

-- The loop over the items; `none` is the index -1.
unfoldable pub first_failed : List BatchItem → Option ℕ
first_failed [] = none
first_failed (x ∷ xs) =
    let rest = first_failed xs in
    if is_failed x.status then some 0 else elim rest [ none ↦ none | some i ↦ some (suc i) ]

abbrev pub reset_item : BatchItem → BatchItem
reset_item x = record x { status = ItemStatus.pending; attempts = pos 0 }

-- The batch that a restart writes.
unfoldable pub restarted : Time → ℕ → Batch → Batch
restarted now i b = record b {
  items = modify b.items i reset_item;
  status = BatchStatus.pending;
  updated_at = now;
}

pub restart : {W : Type 0} → Storage W → Time → Batch → Handler W
unfolding save_batch
restart st now b w =
    if is_failed_batch b.status
    then elim (first_failed b.items) [
      | none ↦ (write_error 400 "batch has no failed item to restart", w)
      | some i ↦ save_batch st (restarted now i b) w
    ]
    else (write_error 409 "batch is not in failed state", w)

-- `restartBatchHandler`
unfoldable pub restart_batch : {W : Type 0} → Storage W → Time → String → String → Handler W
unfolding scoped_batch restart
restart_batch st now repo_id batch_id = scoped_batch st repo_id batch_id (restart st now)

pub record AddBatchRequest : Type 0 where
  pub items : List String
  pub session_name : String

-- The items that are not blank, trimmed.
unfoldable pub clean_items : List String → List String
clean_items [] = []
clean_items (it ∷ rest) =
    let trimmed = trim_space it in
    if str_eq trimmed "" then clean_items rest else trimmed ∷ clean_items rest

abbrev pub new_item : String → BatchItem
new_item it = record { input = it; status = ItemStatus.pending; attempts = pos 0 }

unfoldable pub new_batch_id : Time → String
unfolding format_int
new_batch_id now = str_append "batch-" (format_int now)

unfoldable pub new_batch : Time → String → List String → String → Batch
unfolding new_batch_id
new_batch now repo_id items session_name = record {
  id = new_batch_id now;
  repository_id = repo_id;
  created_at = now;
  updated_at = now;
  items = map new_item items;
  status = BatchStatus.pending;
  summary = "";
  session_name = trim_space session_name;
}

pub repository_missing : Error → Response
unfolding write_storage_error
repository_missing e =
    if equals_no_documents e then write_error 404 "repository not found" else write_storage_error e

pub add_items : {W : Type 0} → Storage W → Time → String → String → List String → Handler W
unfolding write_storage_error
add_items st now repo_id session_name [] w = (write_error 400 "items is required", w)
add_items st now repo_id session_name (it ∷ rest) w =
    after_write (st.create_batch request (new_batch now repo_id (it ∷ rest) session_name) w)
      write_storage_error λ b w'. (write_json 201 (batch_summary b.id b.status b.repository_id), w')

pub add : {W : Type 0} → Storage W → Time → String → Option AddBatchRequest → Handler W
unfolding add_items
add st now repo_id none w = (write_error 400 "invalid json", w)
add st now repo_id (some req) w =
    add_items st now repo_id req.session_name (clean_items req.items) w

-- `addBatchHandler`
unfoldable pub add_batch :
    {W : Type 0} → Storage W → Time → String → Option AddBatchRequest → Handler W
unfolding add repository_missing
add_batch st now repo_id body w =
    if str_eq repo_id ""
    then (write_error 400 "repository id is required", w)
    else after_read (st.get_repository request repo_id w) repository_missing
        λ repo w1. add st now repo_id body w1
