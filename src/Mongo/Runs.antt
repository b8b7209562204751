-- ===== src/Mongo/Runs.antt =====
-- internal/storage/mongo/task_runs.go, session_events.go and progress.go: the operations on runs and
-- their events, and the store that all the operations make up.
use yaralpho.Base.{
  ℕ, not, ◌&&◌, Option, none, some, List, [], ◌∷◌, String, Error, wrap, ok, err, str_eq, map,
  if◌then◌else◌,
}
use yaralpho.Base.Text.{trim_space}
use yaralpho.Storage.Models.{TaskRun, TaskRunSummary, SessionEvent, BatchProgress, is_zero}
use yaralpho.Storage.Interface.{Storage, Read, Write}
use yaralpho.Storage.Progress.{get_batch_progress as progress_of}
use yaralpho.Mongo.Driver.{Filter, Database, insert_error, match_error, one_document, all_documents}
use yaralpho.Mongo.Documents.{finished_run}
use yaralpho.Mongo.Client.{
  by, create_repository, update_repository, get_repository, list_repositories, delete_repository,
  repository_has_active_batches, create_agent, update_agent, get_agent, list_agents, delete_agent,
  create_batch, update_batch, get_batch, list_batches, list_batches_by_repository,
}

-- counts[id] = total, for the rows in order.
unfoldable pub count_rows : (String → Option ℕ) → List (String × ℕ) → String → Option ℕ
count_rows counts [] id = counts id
count_rows counts (row ∷ rest) id =
    count_rows (λ k. if str_eq row.0 k then some row.1 else counts k) rest id

-- counts[id], which is 0 for a run without events.
unfoldable pub count_of : String → List (String × ℕ) → ℕ
unfolding count_rows
count_of id rows = elim (count_rows (λ k. none) rows id) [ none ↦ 0 | some n ↦ n ]

-- The runs with their counts of events.
unfoldable pub summarize : List (String × ℕ) → List TaskRun → List TaskRunSummary
unfolding count_of
summarize counts [] = []
summarize counts (run ∷ rest) =
    record { task_run = run; total_events = count_of run.id counts } ∷ summarize counts rest

-- The filter of `ListTaskRuns`.
unfoldable pub runs_filter : String → Filter
runs_filter batch_id = if str_eq (trim_space batch_id) "" then [] else by "batch_id" batch_id

module _ {W : Type 0} (db : Database W) where
  -- The repository of a run's batch, where the run has none.
  unfoldable pub fill_repository : TaskRun → W → TaskRun × W
  unfolding get_batch
  fill_repository run w =
      if str_eq run.repository_id "" && not (str_eq run.batch_id "")
      then (let (answer, w') = get_batch db run.batch_id w in
          elim answer [
            | err e ↦ (run, w')
            | ok batch ↦ (record run { repository_id = batch.repository_id }, w')
          ])
      else (run, w)

  -- `CreateTaskRun`
  unfoldable pub create_task_run : TaskRun → W → Write TaskRun W
  unfolding fill_repository insert_error
  create_task_run run w =
      let (now, w1) = db.now w in
      let started = if is_zero run.started_at then record run { started_at = now } else run in
      let (filled, w2) = fill_repository started w1 in
      let (e, w3) = db.task_runs.insert_one filled w2 in
      (insert_error "insert task run" e, filled, w3)

  -- `UpdateTaskRun`
  unfoldable pub update_task_run : TaskRun → W → Write TaskRun W
  unfolding finished_run fill_repository match_error
  update_task_run run w =
      let (now, w1) = db.now w in
      let (filled, w2) = fill_repository (finished_run now run) w1 in
      let (r, w3) = db.task_runs.update_one (by "run_id" run.id) filled w2 in
      (match_error (wrap "update task run") r, filled, w3)

  -- `GetTaskRun`
  unfoldable pub get_task_run : String → W → Read TaskRun W
  unfolding one_document
  get_task_run id w =
      let (r, w') = db.task_runs.find_one (by "run_id" id) w in (one_document "get task run" r, w')

  -- `fetchEventCounts`
  unfoldable pub fetch_event_counts : List String → W → Read (List (String × ℕ)) W
  unfolding all_documents
  fetch_event_counts [] w = (ok [], w)
  fetch_event_counts (id ∷ ids) w =
      let (r, w') = db.event_counts (id ∷ ids) w in
      (
        all_documents "aggregate session events" "decode session events aggregate"
            "iterate session events aggregate" r,
        w',
      )

  -- The runs that were found, with the counts of their events.
  unfoldable pub count_runs : Read (List TaskRun) W → Read (List TaskRunSummary) W
  unfolding fetch_event_counts summarize
  count_runs (err e, w) = (err e, w)
  count_runs (ok runs, w) =
      let (answer, w') = fetch_event_counts (map (λ r. r.id) runs) w in
      elim answer [ err e ↦ (err e, w') | ok counts ↦ (ok (summarize counts runs), w') ]

  -- `ListTaskRuns`
  unfoldable pub list_task_runs : String → W → Read (List TaskRunSummary) W
  unfolding all_documents runs_filter count_runs
  list_task_runs batch_id w =
      let (r, w') = db.task_runs.find (runs_filter batch_id) "started_at -1" 0 w in
      count_runs (all_documents "list task runs" "decode task run" "iterate task runs" r, w')

  -- `ListTaskRunsByRepository`
  unfoldable pub list_task_runs_by_repository : String → W → Read (List TaskRunSummary) W
  unfolding all_documents count_runs
  list_task_runs_by_repository repository_id w =
      let (r, w') = db.task_runs.find (by "repository_id" repository_id) "started_at -1" 0 w in
      count_runs
        (all_documents "list task runs by repo" "decode task run" "iterate task runs" r, w')

  -- `InsertSessionEvent`
  unfoldable pub insert_session_event : SessionEvent → W → Option Error × W
  unfolding insert_error
  insert_session_event event w =
      let (e, w') = db.session_events.insert_one event w in
      (insert_error "insert session event" e, w')

  -- `ListSessionEvents`
  unfoldable pub list_session_events : String → W → Read (List SessionEvent) W
  unfolding all_documents
  list_session_events session_id w =
      let (r, w') = db.session_events.find (by "session_id" session_id) "ingested_at 1" 0 w in
      (all_documents "list session events" "decode session event" "iterate session events" r, w')

  -- `GetBatchProgress`
  unfoldable pub get_batch_progress : String → W → Read BatchProgress W
  unfolding all_documents
  get_batch_progress batch_id w =
      let (r, w') = db.progress_rows batch_id w in
      elim (all_documents "aggregate progress" "decode progress" "iterate progress" r) [
        | err e ↦ (err e, w')
        | ok rows ↦ (ok (progress_of rows), w')
      ]

  -- `Client` as the store.
  unfoldable pub client : Storage W
  unfolding update_batch
  client = record {
    create_repository = λ k. create_repository db;
    update_repository = λ k. update_repository db;
    get_repository = λ k. get_repository db;
    list_repositories = λ k. list_repositories db;
    delete_repository = λ k. delete_repository db;
    repository_has_active_batches = λ k. repository_has_active_batches db;
    create_agent = λ k. create_agent db;
    update_agent = λ k. update_agent db;
    get_agent = λ k. get_agent db;
    list_agents = λ k. list_agents db;
    delete_agent = λ k. delete_agent db;
    create_batch = λ k. create_batch db;
    update_batch = λ k. update_batch db;
    get_batch = λ k. get_batch db;
    list_batches = λ k. list_batches db;
    list_batches_by_repository = λ k. list_batches_by_repository db;
    create_task_run = λ k. create_task_run;
    update_task_run = λ k. update_task_run;
    get_task_run = λ k. get_task_run;
    list_task_runs_by_repository = λ k. list_task_runs_by_repository;
    list_task_runs = λ k. list_task_runs;
    insert_session_event = λ k. insert_session_event;
    list_session_events = λ k. list_session_events;
    get_batch_progress = λ k. get_batch_progress;
  }
