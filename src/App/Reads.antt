-- ===== src/App/Reads.antt =====
-- internal/app: the handlers that only read (list_batches_handler.go, batch_progress_handler.go,
-- batch_detail_handler.go, list_runs_handler.go, run_detail_handler.go, run_events_handler.go).
use yaralpho.Base.{List, String, str_eq, length, take, if◌then◌else◌}
use yaralpho.Base.Int.{ℤ, pos, pos_part, ltb_ℤ}
use yaralpho.Storage.Models.{Batch, TaskRun}
use yaralpho.Storage.Interface.{Storage, request}
use yaralpho.App.Http.{
  Handler, batches, batch_detail, runs, run_events, progress, write_json, write_error,
  write_storage_error, after_read, parse_limit, scoped_batch, default_list_limit, max_list_limit,
  default_events_limit, max_events_limit,
}

-- `listBatchesHandler`
unfoldable pub list_batches : {W : Type 0} → Storage W → String → Handler W
unfolding parse_limit write_storage_error
list_batches st raw_limit w =
    let limit = pos_part (parse_limit raw_limit default_list_limit max_list_limit) in
    after_read (st.list_batches request limit w) write_storage_error
      λ l w'. (write_json 200 (batches l (length l)), w')

-- `batchProgressHandler`
unfoldable pub batch_progress : {W : Type 0} → Storage W → String → Handler W
unfolding write_storage_error
batch_progress st batch_id w =
    if str_eq batch_id ""
    then (write_error 400 "batch id is required", w)
    else after_read (st.get_batch_progress request batch_id w) write_storage_error
        λ p w'. (write_json 200 (progress p), w')

detail_of : {W : Type 0} → Storage W → String → Batch → Handler W
unfolding write_storage_error
detail_of st batch_id b w =
    after_read (st.list_task_runs request batch_id w) write_storage_error
      λ l w'. (write_json 200 (batch_detail b l), w')

-- `batchDetailHandler`
unfoldable pub batch_detail_handler : {W : Type 0} → Storage W → String → Handler W
unfolding write_storage_error detail_of
batch_detail_handler st batch_id w =
    if str_eq batch_id ""
    then (write_error 400 "batch id is required", w)
    else after_read (st.get_batch request batch_id w) write_storage_error (detail_of st batch_id)

-- `xs[:limit]` where the list is longer.
unfoldable pub cap_list : {A : Type 0} → ℤ → List A → List A
cap_list limit xs = if ltb_ℤ limit (pos (length xs)) then take (pos_part limit) xs else xs

unfoldable pub runs_of : {W : Type 0} → Storage W → String → String → Batch → Handler W
unfolding parse_limit write_storage_error cap_list
runs_of st batch_id raw_limit b w =
    let limit = parse_limit raw_limit default_list_limit max_list_limit in
    after_read (st.list_task_runs request batch_id w) write_storage_error
      λ l w'. let kept = cap_list limit l in (write_json 200 (runs kept (length kept)), w')

-- `listRunsHandler`
unfoldable pub list_runs : {W : Type 0} → Storage W → String → String → String → Handler W
unfolding scoped_batch runs_of
list_runs st repo_id batch_id raw_limit =
    scoped_batch st repo_id batch_id (runs_of st batch_id raw_limit)

unfoldable pub events_of : {W : Type 0} → Storage W → String → TaskRun → Handler W
unfolding parse_limit write_storage_error cap_list
events_of st raw_limit run w =
    let limit = parse_limit raw_limit default_events_limit max_events_limit in
    after_read (st.list_session_events request run.session_id w) write_storage_error λ l w'.
      let kept = cap_list limit l in
      (write_json 200 (run_events run kept (length kept) (ltb_ℤ limit (pos (length l))) limit), w')

-- `runEventsHandler`, and `runDetailHandler`, which differ in the name of the query parameter and in
-- the keys of the answer.
unfoldable pub run_events_handler : {W : Type 0} → Storage W → String → String → Handler W
unfolding write_storage_error events_of
run_events_handler st run_id raw_limit w =
    if str_eq run_id ""
    then (write_error 400 "run id is required", w)
    else after_read (st.get_task_run request run_id w) write_storage_error (events_of st raw_limit)

unfoldable pub run_detail_handler : {W : Type 0} → Storage W → String → String → Handler W
unfolding write_storage_error events_of
run_detail_handler st run_id raw_event_limit w =
    if str_eq run_id ""
    then (write_error 400 "run id is required", w)
    else after_read (st.get_task_run request run_id w) write_storage_error
        (events_of st raw_event_limit)
