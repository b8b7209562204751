-- ===== src/Worker/Attempts.antt =====
-- internal/consumer/worker.go: `handleSingleTask`, its loop and `shouldRetry`. The logger is left out.
use yaralpho.Base.{
  ℕ, zero, suc, ◌+◌, Bool, true, false, Option, none, some, String, Error, message, Result, ok, err,
  str_eq, if◌then◌else◌,
}
use yaralpho.Base.Int.{ℤ, pos, pos_part, neg_part, leb_ℤ, sub_ℕ}
use yaralpho.Base.Text.{itoa, atoi, ◌&◌}
use yaralpho.Settings.Load.{max_retries_key}
use yaralpho.Storage.Models.{Batch, BatchStatus}
use yaralpho.Storage.Interface.{request}
use yaralpho.Notify.Events.{Event}
use yaralpho.Scheduler.State.{WorkItem}
use yaralpho.Worker.Env.{Env, Context, Client, AgentResponse, State}
use yaralpho.Worker.Messages.{format_agent_response_text, append_detail_line}
use yaralpho.Worker.Tasks.{with_run_timeout, Verified, is_succeeded, execute_and_verify}
use yaralpho.Worker.Reports.{announce, mark_batch, attempt_event}

-- What the loop of `handleSingleTask` does after an attempt.
pub data Verdict : Type 0 where
  again : Verdict
  finished : Option Error → Verdict

-- `parseMaxRetries`, of what the configuration gives.
unfoldable pub max_retries_of : Result String → Option ℤ
max_retries_of (err e) = none
max_retries_of (ok value) = elim (atoi value) [ none ↦ some (pos 3) | some n ↦ some n ]

-- The count that `parseMaxRetries` returns.
abbrev pub retries_of : Option ℤ → ℤ
retries_of none = pos 0
retries_of (some r) = r

-- retries - attempts, which is above 0.
abbrev pub remaining : ℤ → ℕ → ℤ
remaining retries attempts = sub_ℕ (pos_part retries) (neg_part retries + attempts)

-- The comment on a verification that failed, and the events of an attempt.
unfoldable pub failure_comment : {W : Type 0} → Verified W → String
failure_comment v =
    "Verification failed: " & v.response.reason & "\nDetails: " & v.response.details
    & "\nAssistant output: " & v.assistant_output

unfoldable pub started_event : WorkItem → ℕ → String → Event
started_event item attempts = attempt_event "attempt_started" item "in_progress" attempts (pos 0) ""

unfoldable pub failed_event : WorkItem → AgentResponse → ℕ → ℤ → String → Event
failed_event item response attempts retries =
    attempt_event "verification_failed" item "failed" attempts retries
      (format_agent_response_text response "")

unfoldable pub last_event : WorkItem → AgentResponse → ℕ → ℤ → String → Event
last_event item response attempts retries =
    attempt_event "verification_failed_max_retries" item "failed" attempts retries
      (append_detail_line (format_agent_response_text response "") "Next: no retries remaining")

unfoldable pub retry_event : WorkItem → AgentResponse → ℕ → ℤ → String → Event
retry_event item response attempts retries =
    attempt_event "verification_failed_retrying" item "retrying" attempts retries (
      append_detail_line (format_agent_response_text response "")
        ("Next: retrying (" & itoa (remaining retries attempts) & " attempts remaining)"))

unfoldable pub success_event : {W : Type 0} → WorkItem → ℕ → Verified W → String → Event
success_event item attempts v =
    attempt_event "verification_succeeded" item "succeeded" attempts (pos 0)
      (format_agent_response_text v.response v.output)

unfoldable pub last_cause : AgentResponse → ℕ → Error
last_cause response attempts =
    message ("verification failed after " & itoa (pos attempts) & " attempts: " & response.reason)

module _ {W : Type 0} (env : Env W) where
  abbrev pub parse_max_retries : Option ℤ
  parse_max_retries = max_retries_of (env.cfg max_retries_key)

  -- The last attempt allowed has failed.
  unfoldable pub give_up :
      String → WorkItem → AgentResponse → ℕ → ℤ → Batch → State W → Batch × State W
  unfolding mark_batch announce last_event last_cause
  give_up repo_path item response attempts retries batch s =
      let (batch', s1) = mark_batch env BatchStatus.failed batch s in
      let s2 = announce env repo_path item (last_event item response attempts retries) s1 in
      let (_, w) =
        env.notifier.notify_error request item.batch_id "" item.task_ref
          (last_cause response attempts) s2.world in
      (batch', record s2 { world = w })

  -- `shouldRetry`; `retries` is none where hasRetries is false, and the count is then 0.
  unfoldable pub should_retry :
      String → WorkItem → Verified W → ℕ → Option ℤ → State W → Bool × Batch × State W
  unfolding announce give_up failure_comment failed_event retry_event
  should_retry repo_path item v attempts retries s =
      let (_, w) = env.tracker.add_comment repo_path item.task_ref (failure_comment v) s.world in
      let s1 =
        announce env repo_path item (failed_event item v.response attempts (retries_of retries))
          (record s { world = w }) in
      elim retries [
        | none ↦ (false, v.batch, s1)
        | some r ↦
            if leb_ℤ r (pos attempts)
            then (let (batch', s2) = give_up repo_path item v.response attempts r v.batch s1 in
                (false, batch', s2))
            else (
              true,
              v.batch,
              announce env repo_path item (retry_event item v.response attempts r) s1,
            )
      ]

  -- A verification that succeeded: the batch is pending again, for its next item.
  unfoldable pub succeed : String → WorkItem → ℕ → Verified W → State W → Verdict × Batch × State W
  unfolding announce mark_batch success_event
  succeed repo_path item attempts v s =
      let s1 = announce env repo_path item (success_event item attempts v) s in
      let (batch', s2) = mark_batch env BatchStatus.pending v.batch s1 in
      (finished none, batch', s2)

  -- What is made of an execution and its verification.
  unfoldable pub judge :
      String → WorkItem → ℕ → Option ℤ → Verified W → State W → Verdict × Batch × State W
  unfolding should_retry succeed
  judge repo_path item attempts retries v s = elim v.error [
    | some e ↦ (finished (some e), v.batch, s)
    | none ↦
        if str_eq v.response.status "failure"
        then (let (retry, batch', s') = should_retry repo_path item v attempts retries s in
            (
              if retry
                  then again
                  else finished (
                      some (
                        message (
                          "verification failed: "
                          & format_agent_response_text v.response v.output))),
              batch',
              s',
            ))
        else if is_succeeded v.status
        then succeed repo_path item attempts v s
        else (
          finished (some (message ("verification task did not succeed: " & v.output))),
          v.batch,
          s,
        )
  ]

  -- The start of an attempt is told.
  unfoldable pub announce_attempt : String → WorkItem → ℕ → State W → State W
  unfolding announce started_event
  announce_attempt repo_path item attempts s =
      announce env repo_path item (started_event item attempts) s

  -- The execution and the verification of an item, with their instructions.
  unfoldable pub run_item : Client W → Context → String → WorkItem → Batch → State W → Verified W
  unfolding execute_and_verify
  run_item client ctx repo_path item batch s =
      execute_and_verify env client ctx repo_path item.task_ref ("Work on task " & item.task_ref)
        ("Verify task " & item.task_ref) batch s.world

  -- One turn of the loop of `handleSingleTask`, the attempt of number `attempts`.
  unfoldable pub attempt :
      Client W
      → Context
      → String
      → WorkItem
      → ℕ
      → Option ℤ
      → Batch
      → State W
      → Verdict × Batch × State W
  unfolding announce_attempt run_item judge
  attempt client ctx repo_path item attempts retries batch s =
      let s1 = announce_attempt repo_path item attempts s in
      let v = run_item client ctx repo_path item batch s1 in
      judge repo_path item attempts retries v (record s1 { world = v.world })

  -- The loop, on fuel, after `attempts` turns.
  unfoldable pub attempt_loop :
      ℕ
      → Client W
      → Context
      → String
      → WorkItem
      → ℕ
      → Option ℤ
      → Batch
      → State W
      → Option (Option Error × Batch × State W)
  unfolding attempt
  attempt_loop zero client ctx repo_path item attempts retries batch s = none
  attempt_loop (suc fuel) client ctx repo_path item attempts retries batch s =
      let (verdict, batch', s') =
        attempt client ctx repo_path item (suc attempts) retries batch s in
      elim verdict [
        | finished e ↦ some (e, batch', s')
        | again ↦ attempt_loop fuel client ctx repo_path item (suc attempts) retries batch' s'
      ]

  -- `handleSingleTask`, with fuel for so many attempts.
  unfoldable pub handle_single_task :
      ℕ
      → Client W
      → Context
      → String
      → WorkItem
      → Batch
      → State W
      → Option (Option Error × Batch × State W)
  unfolding attempt_loop
  handle_single_task fuel client ctx repo_path item batch s =
      attempt_loop fuel client (with_run_timeout env ctx) repo_path item 0 parse_max_retries batch s
