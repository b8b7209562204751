-- ===== src/Worker/Process.antt =====
-- internal/consumer/worker.go: `Process` and `clientForRuntime`. The logger is left out.
use yaralpho.Base.{
  ℕ, ◌||◌, Option, none, some, String, Error, message, wrap, Result, ok, err, str_eq, if◌then◌else◌,
}
use yaralpho.Base.Text.{trim_space, to_lower, ◌&◌}
use yaralpho.Storage.Models.{Repository, Batch, BatchStatus}
use yaralpho.Storage.Interface.{request}
use yaralpho.Scheduler.State.{WorkItem}
use yaralpho.Worker.Env.{Env, Context, Client, State}
use yaralpho.Worker.Reports.{task_event, task_title, notify_task_event, mark_batch}
use yaralpho.Worker.Attempts.{handle_single_task}

unfoldable pub outcome_of :
    {W : Type 0} → Option (Option Error × Batch × State W) → Option (Option Error × State W)
outcome_of none = none
outcome_of (some (e, batch, s)) = some (e, s)

-- The item with its ids trimmed.
abbrev pub trimmed_item : WorkItem → WorkItem
trimmed_item item = record item {
  batch_id = trim_space item.batch_id;
  task_ref = trim_space item.task_ref;
}

module _ {W : Type 0} (env : Env W) where
  -- `clientForRuntime`
  unfoldable pub client_for_runtime : String → State W → Result (Client W) × State W
  client_for_runtime runtime s =
      let rt = to_lower (trim_space runtime) in
      if str_eq rt "" || str_eq rt "codex"
      then elim s.codex_client [
        | some client ↦ (ok client, s)
        | none ↦
            let (client, w) = env.new_codex s.world in
            (ok client, record s { codex_client = some client; world = w })
      ]
      else if str_eq rt "copilot" || str_eq rt "github"
      then elim s.github_client [
        | some client ↦ (ok client, s)
        | none ↦
            let (client, w) = env.new_github s.world in
            (ok client, record s { github_client = some client; world = w })
      ]
      else (err (message ("unknown agent runtime " & env.quote runtime)), s)

  unfoldable pub report_error : WorkItem → Error → State W → State W
  report_error item e s = record s {
    world = (env.notifier.notify_error request item.batch_id "" item.task_ref e s.world).1;
  }

  -- The last step of `Process`, with the answer of `clientForRuntime`.
  unfoldable pub with_client :
      ℕ
      → Context
      → WorkItem
      → String
      → Batch
      → Result (Client W) × State W
      → Option (Option Error × State W)
  unfolding handle_single_task outcome_of
  with_client fuel ctx item repo_path batch (err e, s) = some (some e, s)
  with_client fuel ctx item repo_path batch (ok client, s) =
      outcome_of (handle_single_task env fuel client ctx repo_path item batch s)

  -- The item is received and started: the notifications, and the batch in progress.
  unfoldable pub receive_item : WorkItem → String → Batch → State W → Batch × State W
  unfolding mark_batch task_title notify_task_event
  receive_item item repo_path batch s =
      let (title, s1) = task_title env repo_path item.task_ref s in
      let s2 = notify_task_event env (task_event "task_received" item title "pending") s1 in
      let (batch', s3) = mark_batch env BatchStatus.in_progress batch s2 in
      (batch', notify_task_event env (task_event "task_started" item title "running") s3)

  -- `Process`, once the batch and its repository are there.
  unfoldable pub start_item :
      ℕ → Context → WorkItem → String → Batch → State W → Option (Option Error × State W)
  unfolding client_for_runtime with_client receive_item
  start_item fuel ctx item repo_path batch s =
      let (batch', s') = receive_item item repo_path batch s in
      with_client fuel ctx item repo_path batch' (client_for_runtime item.runtime s')

  -- `Process`, with the answer of GetRepository.
  unfoldable pub with_repository :
      ℕ → Context → WorkItem → Batch → Result Repository → State W → Option (Option Error × State W)
  unfolding report_error start_item
  with_repository fuel ctx item batch (err e) s =
      some (some (wrap ("get repository " & batch.repository_id) e), report_error item e s)
  with_repository fuel ctx item batch (ok repo) s =
      let repo_path = trim_space repo.path in
      if str_eq repo_path ""
      then some (some (message ("repository path is empty for " & batch.repository_id)), s)
      else start_item fuel ctx item repo_path batch s

  -- `Process`, with the answer of GetBatch.
  unfoldable pub with_batch :
      ℕ → Context → WorkItem → Result Batch → State W → Option (Option Error × State W)
  unfolding report_error with_repository
  with_batch fuel ctx item (err e) s =
      some (some (wrap ("get batch " & item.batch_id) e), report_error item e s)
  with_batch fuel ctx item (ok batch) s =
      let (answer, w) = env.storage.get_repository request batch.repository_id s.world in
      with_repository fuel ctx item batch answer (record s { world = w })

  -- `Process`, of an item that is trimmed and not blank.
  unfoldable pub read_item : ℕ → Context → WorkItem → State W → Option (Option Error × State W)
  unfolding with_batch
  read_item fuel ctx item s =
      let (answer, w) = env.storage.get_batch request item.batch_id s.world in
      with_batch fuel ctx item answer (record s { world = w })

  -- `Process`
  unfoldable pub process : ℕ → Context → WorkItem → State W → Option (Option Error × State W)
  unfolding read_item
  process fuel ctx item s =
      let t = trimmed_item item in
      if str_eq t.batch_id "" || str_eq t.task_ref ""
      then some (some (message "work item missing batch_id or task_ref"), s)
      else read_item fuel ctx t s
