-- ===== src/Worker/SafetyScenarios.antt =====
-- A run of an agent over a store in memory in which no batch is done.
use yaralpho.Base.{
  sym, ◌≤◌, arith, Option, Error, ◌≡◌, ◌≢◌, ap, ◌∙◌, inl, inr, Bool-cases, none, some, String,
  str_eq,
}
use yaralpho.Base.Text.{atoi}
use yaralpho.Storage.Models.{Batch, BatchStatus}
use yaralpho.Notify.Events.{noop}
use yaralpho.App.Memory.{Memory, put_in, view}
use yaralpho.Worker.Session.{execute_task}
use yaralpho.Worker.Env.{State, Client}
use yaralpho.Worker.Attempts.{max_retries_of, parse_max_retries}
use yaralpho.Worker.Process.{process}
use yaralpho.Worker.Retries.{attempts_allowed}
use yaralpho.Worker.Serving.{process-keeps}
use yaralpho.Worker.Writes.{IsGiven, IsWorkers, Keeps, Hosts}
use yaralpho.Worker.Safety.{execute_task-Keeps}
use yaralpho.Worker.Scenarios.{environment, succeeding, agent, batch, start, context, work}

-- No stored batch is done.
NoneDone : Memory → Type 0
NoneDone w = (id : String) (b : Batch) → view w id ≡ some b → b.status ≢ BatchStatus.done

given-not_done : (s : BatchStatus) → IsGiven s → s ≢ BatchStatus.done
given-not_done BatchStatus.pending h p = absurd (cc)
given-not_done BatchStatus.failed h p = absurd (cc)
given-not_done BatchStatus.unset h p = absurd h
given-not_done BatchStatus.in_progress h p = absurd h
given-not_done BatchStatus.paused h p = absurd h
given-not_done BatchStatus.done h p = absurd h
given-not_done (BatchStatus.other s) h p = absurd h

put_in-NoneDone :
    (b : Batch) (w : Memory) → b.status ≢ BatchStatus.done → NoneDone w → NoneDone (put_in b w)
unfolding NoneDone
put_in-NoneDone b w n h id x p = elim (Bool-cases (str_eq b.id id)) [
  | inl e ↦ let q = rw e at p in let d : b ≡ x = cc in λ r. n (ap (λ y. y.status) d ∙ r)
  | inr e ↦ let q = rw e at p in h id x q
]

empty-NoneDone : NoneDone (λ id. none)
unfolding NoneDone
empty-NoneDone id b p = absurd (cc)

in_progress-not_done : BatchStatus.in_progress ≢ BatchStatus.done
in_progress-not_done p = absurd (cc)

environment-Keeps : Keeps (environment succeeding) agent NoneDone
unfolding noop
environment-Keeps = record {
  on_now = λ w h. h;
  on_title = λ p r w h. h;
  on_start = λ ctx p r w h. h;
  on_stop = λ s w h. h;
  on_create = λ k r w b h. h;
  on_update = λ k r w b h. h;
  on_event = λ k e w h. h;
  on_batch = λ k b w g h. put_in-NoneDone b w (given-not_done b.status g) h;
  on_error = λ k b r t e w h. h;
  on_idle = λ k b w h. h;
  on_finished = λ k b r t n s c w h. h;
  on_publish = λ f p id e w h. absurd (cc);
}

execute_task-Keeps_example :
    NoneDone
      (execute_task
        (environment succeeding)
        agent
        context
        "/n"
        "run-1"
        batch
        "issue-1"
        "Task"
        start.world).3
execute_task-Keeps_example =
    execute_task-Keeps (environment succeeding) agent NoneDone environment-Keeps context "/n"
      "run-1" batch "issue-1" "Task" start.world
      (put_in-NoneDone batch (λ id. none) in_progress-not_done empty-NoneDone)

workers-not_done : (s : BatchStatus) → IsWorkers s → s ≢ BatchStatus.done
workers-not_done BatchStatus.in_progress h p = absurd (cc)
workers-not_done BatchStatus.pending h p = absurd (cc)
workers-not_done BatchStatus.failed h p = absurd (cc)
workers-not_done BatchStatus.unset h p = absurd h
workers-not_done BatchStatus.paused h p = absurd h
workers-not_done BatchStatus.done h p = absurd h
workers-not_done (BatchStatus.other s) h p = absurd h

environment-Hosts : Hosts (environment succeeding) NoneDone
unfolding noop
environment-Hosts = record {
  on_title = λ p r w h. h;
  on_comment = λ p r t w h. h;
  on_comments = λ p r w h. h;
  on_notify = λ k e w h. h;
  on_error = λ k b r t e w h. h;
  on_run_id = λ w h. h;
  on_get_batch = λ k id w h. h;
  on_get_repository = λ k id w h. h;
  on_get_run = λ k id w h. h;
  on_list_events = λ k id w h. h;
  on_batch = λ k b w g h. put_in-NoneDone b w (workers-not_done b.status g) h;
  on_codex = λ w h. h;
  on_github = λ w h. h;
  codex_keeps = λ w. environment-Keeps;
  github_keeps = λ w. environment-Keeps;
}

two_enough : attempts_allowed (parse_max_retries (environment succeeding)) ≤ 2
unfolding max_retries_of atoi
two_enough = ground arith

agent-Keeps : (c : Client Memory) → some agent ≡ some c → Keeps (environment succeeding) c NoneDone
agent-Keeps c p = let q : agent ≡ c = cc in rw (sym q) environment-Keeps

process-keeps_example :
    (e : Option Error) × (s' : State Memory) × (process
        (environment succeeding)
        2
        context
        work
        start
      ≡ some (e, s'))
    × NoneDone s'.world
process-keeps_example =
    process-keeps (environment succeeding) NoneDone environment-Hosts 2 context work start
      two_enough
      (
        put_in-NoneDone batch (λ id. none) in_progress-not_done empty-NoneDone,
        agent-Keeps,
        λ c p. absurd (cc),
      )
