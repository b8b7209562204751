-- ===== src/Worker/Scenarios.antt =====
-- A worker over a store in memory, and the theorems about internal/consumer applied to it.
use yaralpho.Base.{
  ◌≤◌, ◌≡◌, ◌≢◌, ◌↔◌, refl, arith, true, Option, none, some, [], ◌∷◌, String, Error,
  deadline_exceeded, message, Result, ok, str_eq, is_some, if◌then◌else◌,
}
use yaralpho.Base.Int.{pos}
use yaralpho.Base.Text.{trim_space, to_lower, equal_fold, atoi, join}
use yaralpho.Worker.Messages.{is_session_idle_event, format_agent_response_text}
use yaralpho.Storage.Models.{
  Batch, BatchStatus, ItemStatus, TaskRun, TaskRunStatus, SessionEvent, Fields, field, end, text,
  object,
}
use yaralpho.Notify.Events.{noop}
use yaralpho.Scheduler.State.{WorkItem}
use yaralpho.App.Memory.{Memory, put_in, memory}
use yaralpho.Worker.Env.{Env, Context, Client, AgentSession, closed, done, AgentResponse, State}
use yaralpho.Worker.Tasks.{Verified}
use yaralpho.Worker.Following.{event_loop}
use yaralpho.Worker.Session.{execute_task}
use yaralpho.Worker.Attempts.{
  again, finished, judge, handle_single_task, parse_max_retries, max_retries_of,
}
use yaralpho.Worker.Process.{process}
use yaralpho.Worker.Outcomes.{execute_task-error, event_loop_idle, has_idle}
use yaralpho.Worker.Retries.{judge-again, judge-finished, attempts_allowed, IsAllowed}
use yaralpho.Worker.Termination.{process_ends}
use yaralpho.Worker.Pending.{handle_single_task-pending}

abbrev failing : AgentResponse
failing = record { status = "failure"; reason = "task_not_closed"; details = "open" }

abbrev pub succeeding : AgentResponse
succeeding = record { status = "success"; reason = "abc"; details = "done" }

abbrev message_event : String → Fields
message_event content =
    field "type" (text "assistant.message")
      (field "data" (object (field "content" (text content) end)) end)

abbrev idle_event : Fields
idle_event = field "type" (text "Session.Idle") end

-- The events of a run of which one says what the agent did.
abbrev stored_event : SessionEvent
stored_event = record {
  batch_id = "b-1";
  run_id = "run-1";
  session_id = "s-1";
  event = message_event "all good";
  ingested_at = 7;
}

abbrev stored_run : TaskRun
stored_run = record {
  id = "run-1";
  batch_id = "b-1";
  repository_id = "repo-1";
  task_ref = "issue-1";
  session_id = "s-1";
  started_at = 5;
  finished_at = some 8;
  status = TaskRunStatus.succeeded;
  result = none;
}

abbrev session : AgentSession
session = record {
  id = "s-1";
  events = message_event "all good" ∷ idle_event ∷ [];
  ending = done deadline_exceeded;
}

abbrev pub agent : Client Memory
agent = record { start_session = λ ctx prompt path w. (ok session, w); stop = λ s w. w }

abbrev settings : String → Result String
settings key = if str_eq key "YARALPHO_MAX_RETRIES" then ok "2" else ok "Task %s"

-- An environment whose verification answers the same each time.
abbrev pub environment : AgentResponse → Env Memory
environment response = record {
  cfg = settings;
  tracker = record {
    add_comment = λ p r t w. (none, w);
    fetch_comments = λ p r w. (ok [], w);
    get_title = λ p r w. (ok " A task ", w);
  };
  storage = record memory {
    get_task_run = λ k id w. (ok stored_run, w);
    list_session_events = λ k id w. (ok (stored_event ∷ []), w);
  };
  notifier = noop;
  bus = none;
  now = λ w. (9, w);
  new_run_id = λ w. ("run-1", w);
  new_codex = λ w. (agent, w);
  new_github = λ w. (agent, w);
  parse_duration = λ s. ok (pos 60);
  sprintf = λ prompt task. task;
  quote = λ s. s;
  unmarshal = λ output. (response, none);
}

abbrev pub batch : Batch
batch = record {
  id = "b-1";
  repository_id = "repo-1";
  created_at = 1;
  updated_at = 1;
  items = record { input = "issue-1"; status = ItemStatus.in_progress; attempts = pos 0 } ∷ [];
  status = BatchStatus.in_progress;
  summary = "";
  session_name = "s";
}

abbrev pub start : State Memory
start = record {
  titles = [];
  codex_client = some agent;
  github_client = none;
  world = put_in batch (λ id. none);
}

abbrev pub work : WorkItem
work = record { batch_id = " b-1 "; task_ref = "issue-1"; agent_id = "a-1"; runtime = "Codex" }

abbrev pub context : Context
context = record { phase = none; timeout = none; deadlines = [] }

-- The error of what `process` returns, if it returns.
abbrev error_of : Option (Option Error × State Memory) → Option (Option Error)
error_of none = none
error_of (some (e, s)) = some e

process-success_test : error_of (process (environment succeeding) 2 context work start) ≡ some none
unfolding process trim_space to_lower is_session_idle_event equal_fold
process-success_test = refl

process-failure_test :
    error_of (process (environment failing) 2 context work start)
    ≡ some (some (message "verification failed: Reason: task_not_closed\nDetails: open"))
unfolding process trim_space to_lower is_session_idle_event equal_fold max_retries_of atoi
    format_agent_response_text join
process-failure_test = refl

two_allowed : attempts_allowed (parse_max_retries (environment failing)) ≤ 2
unfolding max_retries_of atoi
two_allowed = ground arith

process_ends_example : is_some (process (environment failing) 2 context work start) ≡ true
process_ends_example = process_ends (environment failing) context 2 work start two_allowed

abbrev executed : TaskRunStatus × Option Error × Batch × Memory
executed =
    execute_task (environment succeeding) agent context "/n" "run-1" batch "issue-1" "Task"
      start.world

execute_task-error_example : (executed.0 ≡ TaskRunStatus.succeeded) ↔ (executed.1 ≡ none)
execute_task-error_example =
    execute_task-error (environment succeeding) agent context "/n" "run-1" batch "issue-1" "Task"
      start.world

idle_seen : has_idle (idle_event ∷ []) ≡ true
unfolding has_idle is_session_idle_event equal_fold
idle_seen = refl

event_loop_idle_example :
    event_loop
      (environment succeeding)
      batch
      stored_run
      "s-1"
      (idle_event ∷ message_event "late" ∷ [])
      (done deadline_exceeded)
      start.world
    ≡ event_loop
        (environment succeeding)
        batch
        stored_run
        "s-1"
        (idle_event ∷ [])
        closed
        start.world
event_loop_idle_example =
    event_loop_idle (environment succeeding) batch stored_run "s-1" (idle_event ∷ [])
      (message_event "late" ∷ []) (done deadline_exceeded) closed start.world idle_seen

abbrev checked : AgentResponse → Verified Memory
checked response = record {
  status = TaskRunStatus.succeeded;
  response = response;
  assistant_output = "";
  output = "all good";
  error = none;
  batch = batch;
  world = start.world;
}

judge-again_example :
    ((judge (environment failing) "/n" work 1 (some (pos 2)) (checked failing) start).0 ≡ again) ↔ (
      ((checked failing).error ≡ none)
      × ((checked failing).response.status ≡ "failure")
      × IsAllowed 1 (some (pos 2)))
judge-again_example =
    judge-again (environment failing) "/n" work (checked failing) 1 (some (pos 2)) start

judge-finished_example :
    ((judge (environment failing) "/n" work 1 none (checked succeeding) start).0 ≡ finished none)
    ↔ (((checked succeeding).error ≡ none)
        × ((checked succeeding).response.status ≢ "failure")
        × (TaskRunStatus.succeeded ≡ TaskRunStatus.succeeded))
judge-finished_example =
    judge-finished (environment failing) "/n" work (checked succeeding) 1 none start

abbrev batch_of : Option (Option Error × Batch × State Memory) → Batch
batch_of none = batch
batch_of (some (e, b, s)) = b

abbrev state_of : Option (Option Error × Batch × State Memory) → State Memory
state_of none = start
state_of (some (e, b, s)) = s

abbrev handled : Option (Option Error × Batch × State Memory)
handled = handle_single_task (environment succeeding) 2 agent context "/n" work batch start

handled_well : handled ≡ some (none, batch_of handled, state_of handled)
unfolding handle_single_task trim_space is_session_idle_event equal_fold
handled_well = refl

handle_single_task-pending_example : (batch_of handled).status ≡ BatchStatus.pending
handle_single_task-pending_example =
    handle_single_task-pending (environment succeeding) (λ k b w. refl) 2 agent context "/n" work
      batch (batch_of handled) start (state_of handled) handled_well
