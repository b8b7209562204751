-- ===== src/Worker/Reports.antt =====
-- internal/consumer/worker.go: the titles and the notifications of a task, and the status of its
-- batch, over the worker's state.
use yaralpho.Base.{ℕ, Option, none, some, List, [], ◌∷◌, String, ok, err, str_eq, if◌then◌else◌}
use yaralpho.Base.Int.{ℤ, pos}
use yaralpho.Base.Text.{trim_space}
use yaralpho.Storage.Models.{Batch, BatchStatus}
use yaralpho.Storage.Interface.{request}
use yaralpho.Notify.Events.{Event, no_event}
use yaralpho.Scheduler.State.{WorkItem}
use yaralpho.Worker.Env.{Env, State}
use yaralpho.Worker.Session.{set_batch_status}

-- titleMap[taskRef]
unfoldable pub find_title : String → List (String × String) → Option String
find_title ref [] = none
find_title ref (t ∷ rest) = if str_eq t.0 ref then some t.1 else find_title ref rest

-- The event of a task; the other fields of it are set by the caller.
abbrev pub task_event : String → WorkItem → String → String → Event
task_event kind item task_name status = record no_event {
  kind = kind;
  batch_id = item.batch_id;
  task_ref = item.task_ref;
  task_name = task_name;
  status = status;
}

abbrev pub attempt_event : String → WorkItem → String → ℕ → ℤ → String → String → Event
attempt_event kind item status attempts retries details title =
    record (task_event kind item title status) {
      attempt = pos attempts;
      max_attempts = retries;
      details = details;
    }

module _ {W : Type 0} (env : Env W) where
  -- `taskTitle`
  unfoldable pub task_title : String → String → State W → String × State W
  unfolding find_title
  task_title repo_path task_ref s =
      let ref = trim_space task_ref in
      if str_eq ref "" then ("", s) else elim (find_title ref s.titles) [
        | some title ↦ (title, s)
        | none ↦
            let (answer, w) = env.tracker.get_title repo_path ref s.world in
            elim answer [
              | err e ↦ ("", record s { world = w })
              | ok name ↦
                  let title = trim_space name in
                  (title, record s { titles = (ref, title) ∷ s.titles; world = w })
            ]
      ]

  -- `notifyTaskEvent`
  unfoldable pub notify_task_event : Event → State W → State W
  notify_task_event event s =
      let named = if str_eq event.kind "" then record event { kind = "task_event" } else event in
      record s { world = (env.notifier.notify_event request named s.world).1 }

  -- An event with the task's title.
  unfoldable pub announce : String → WorkItem → (String → Event) → State W → State W
  unfolding task_title notify_task_event
  announce repo_path item event s =
      let (title, s') = task_title repo_path item.task_ref s in notify_task_event (event title) s'

  -- setBatchStatus(ctx, w.storage, ...), of a state.
  unfoldable pub mark_batch : BatchStatus → Batch → State W → Batch × State W
  unfolding set_batch_status
  mark_batch status batch s =
      let (batch', w) = set_batch_status env request status batch s.world in
      (batch', record s { world = w })
