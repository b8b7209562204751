-- ===== src/Worker/Writes.antt =====
-- The writes of a run of an agent (internal/consumer/task_helpers.go), and the properties of the world
-- that such writes keep.
use yaralpho.Base.{
  ◌≡◌, refl, ◌⊎◌, inl, inr, Bool-cases, true, Option, none, some, String, Error, is_some,
}
use yaralpho.Storage.Models.{Batch, BatchStatus, TaskRun, TaskRunStatus, SessionEvent, Time}
use yaralpho.Storage.Interface.{Ctx}
use yaralpho.Notify.Events.{Event}
use yaralpho.Worker.Env.{State, Env, Context, Client, AgentSession, Ending, closed, done}
use yaralpho.Worker.Following.{is_deadline_exceeded, ending_status}
use yaralpho.Worker.Session.{started_run, unstarted_run}

-- A run that is over, by its status.
abbrev pub IsOver : TaskRunStatus → Type 0
IsOver TaskRunStatus.succeeded = Unit
IsOver TaskRunStatus.failed = Unit
IsOver TaskRunStatus.stopped = Unit
IsOver TaskRunStatus.timed_out = Unit
IsOver _ = ⊥

-- A run that is created: it is running, or it has failed already.
abbrev pub IsBegun : TaskRun → Type 0
IsBegun r =
    ((r.status ≡ TaskRunStatus.running) × (r.finished_at ≡ none))
    ⊎ ((r.status ≡ TaskRunStatus.failed) × (is_some r.finished_at ≡ true))

-- A run that is updated: it is over, and has the time of its end.
abbrev pub IsEnded : TaskRun → Type 0
IsEnded r = IsOver r.status × (is_some r.finished_at ≡ true)

-- The statuses that a run of an agent gives to its batch.
abbrev pub IsGiven : BatchStatus → Type 0
IsGiven BatchStatus.pending = Unit
IsGiven BatchStatus.failed = Unit
IsGiven _ = ⊥

-- A property of the world that is kept by the reads, the events, the notifications, and by the writes
-- of runs that are begun or ended and of batches with such a status.
pub record Keeps {W : Type 0} (env : Env W) (client : Client W) (I : W → Type 0) : Type 0 where
  pub on_now : (w : W) → I w → I (env.now w).1
  pub on_title : (path ref : String) (w : W) → I w → I (env.tracker.get_title path ref w).1
  pub on_start :
      (ctx : Context) (prompt path : String) (w : W)
      → I w
      → I (client.start_session ctx prompt path w).1
  pub on_stop : (s : AgentSession) (w : W) → I w → I (client.stop s w)
  pub on_create :
      (k : Ctx) (r : TaskRun) (w : W) → IsBegun r → I w → I (env.storage.create_task_run k r w).2
  pub on_update :
      (k : Ctx) (r : TaskRun) (w : W) → IsEnded r → I w → I (env.storage.update_task_run k r w).2
  pub on_event :
      (k : Ctx) (e : SessionEvent) (w : W) → I w → I (env.storage.insert_session_event k e w).1
  pub on_batch :
      (k : Ctx) (b : Batch) (w : W) → IsGiven b.status → I w → I (env.storage.update_batch k b w).2
  pub on_error :
      (k : Ctx) (b r t : String) (e : Error) (w : W)
      → I w
      → I (env.notifier.notify_error k b r t e w).1
  pub on_idle : (k : Ctx) (b : String) (w : W) → I w → I (env.notifier.notify_batch_idle k b w).1
  pub on_finished :
      (k : Ctx) (b r t n s c : String) (w : W)
      → I w
      → I (env.notifier.notify_task_finished k b r t n s c w).1
  pub on_publish :
      (publish : String → SessionEvent → W → Option Error × W)
      → env.bus ≡ some publish
      → (id : String) (e : SessionEvent) (w : W) → I w
      → I (publish id e w).1

pub ending-IsOver : (ending : Ending) → IsOver (ending_status ending)
unfolding ending_status
ending-IsOver closed = tt
ending-IsOver (done e) = elim (Bool-cases (is_deadline_exceeded e)) [
  | inl d ↦ rw d tt
  | inr d ↦ rw d tt
]

pub unstarted-IsBegun :
    (batch : Batch) (id ref : String) (finished started : Time)
    → IsBegun (unstarted_run batch id ref finished started)
unfolding unstarted_run
unstarted-IsBegun batch id ref finished started = inr (refl, refl)

pub started-IsBegun :
    (batch : Batch) (id ref session_id : String) (started : Time)
    → IsBegun (started_run batch id ref session_id started)
unfolding started_run
started-IsBegun batch id ref session_id started = inl (refl, refl)

-- The statuses that the worker gives to a batch.
abbrev pub IsWorkers : BatchStatus → Type 0
IsWorkers BatchStatus.in_progress = Unit
IsWorkers BatchStatus.pending = Unit
IsWorkers BatchStatus.failed = Unit
IsWorkers _ = ⊥

-- The same for what is around the runs: the reads, the tracker, the notifications, the clients that
-- are made, and the writes of batches with such a status.
pub record Hosts {W : Type 0} (env : Env W) (I : W → Type 0) : Type 0 where
  pub on_title : (path ref : String) (w : W) → I w → I (env.tracker.get_title path ref w).1
  pub on_comment :
      (path ref text : String) (w : W) → I w → I (env.tracker.add_comment path ref text w).1
  pub on_comments : (path ref : String) (w : W) → I w → I (env.tracker.fetch_comments path ref w).1
  pub on_notify : (k : Ctx) (e : Event) (w : W) → I w → I (env.notifier.notify_event k e w).1
  pub on_error :
      (k : Ctx) (b r t : String) (e : Error) (w : W)
      → I w
      → I (env.notifier.notify_error k b r t e w).1
  pub on_run_id : (w : W) → I w → I (env.new_run_id w).1
  pub on_get_batch : (k : Ctx) (id : String) (w : W) → I w → I (env.storage.get_batch k id w).1
  pub on_get_repository :
      (k : Ctx) (id : String) (w : W) → I w → I (env.storage.get_repository k id w).1
  pub on_get_run : (k : Ctx) (id : String) (w : W) → I w → I (env.storage.get_task_run k id w).1
  pub on_list_events :
      (k : Ctx) (id : String) (w : W) → I w → I (env.storage.list_session_events k id w).1
  pub on_batch :
      (k : Ctx) (b : Batch) (w : W)
      → IsWorkers b.status
      → I w
      → I (env.storage.update_batch k b w).2
  pub on_codex : (w : W) → I w → I (env.new_codex w).1
  pub on_github : (w : W) → I w → I (env.new_github w).1
  pub codex_keeps : (w : W) → Keeps env (env.new_codex w).0 I
  pub github_keeps : (w : W) → Keeps env (env.new_github w).0 I

-- The property of the world, and of each client that the worker has.
abbrev pub Holds : {W : Type 0} → Env W → (W → Type 0) → State W → Type 0
Holds env I s =
    I s.world
    × ((c : Client _) → s.codex_client ≡ some c → Keeps env c I)
    × ((c : Client _) → s.github_client ≡ some c → Keeps env c I)
