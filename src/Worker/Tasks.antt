-- ===== src/Worker/Tasks.antt =====
-- internal/consumer: `executeTaskWithAssistantMessages`, `executeTaskWithStructuredOutput`,
-- `ExecutionTask`, `VerificationTask` and `executeAndVerify`, with the timeouts of their contexts.
use yaralpho.Base.{
  Bool, true, false, ◌&&◌, ◌||◌, Option, none, some, List, ◌∷◌, String, Error, wrap, ok, err,
  str_eq, if◌then◌else◌,
}
use yaralpho.Base.Int.{ℤ, pos, leb_ℤ, ltb_ℤ}
use yaralpho.Base.Text.{trim_space, join, contains}
use yaralpho.Settings.Load.{
  execution_task_prompt_key, verification_task_prompt_key, task_run_timeout_key,
  task_exec_timeout_key, task_verify_timeout_key,
}
use yaralpho.Storage.Models.{Batch, TaskRunStatus, SessionEvent}
use yaralpho.Storage.Interface.{request}
use yaralpho.Worker.Env.{Env, Context, Client, AgentResponse, no_response}
use yaralpho.Worker.Messages.{
  assistant_message_contents, latest_assistant_message_content, build_prompt, with_comments,
}
use yaralpho.Worker.Session.{execute_task}

-- `withTimeoutMetadata`
unfoldable pub with_timeout_metadata : Context → String → ℤ → Context
with_timeout_metadata ctx phase timeout =
    if str_eq phase ""
    then record ctx { timeout = some timeout }
    else record ctx { phase = some phase; timeout = some timeout }

-- `timeoutValue`
unfoldable pub timeout_value : Context → ℤ
timeout_value ctx = elim ctx.timeout [ none ↦ pos 0 | some t ↦ t ]

-- context.WithTimeout(ctx, duration)
abbrev pub with_timeout : Context → ℤ → Context
with_timeout ctx duration = record ctx { deadlines = duration ∷ ctx.deadlines }

-- A status, an output and an error, with the batch and the world after them.
abbrev pub TaskOutcome : Type 0 → Type 0
TaskOutcome W = TaskRunStatus × String × Option Error × Batch × W

-- What `executeAndVerify` returns.
pub record Verified (W : Type 0) : Type 0 where
  pub status : TaskRunStatus
  pub response : AgentResponse
  pub assistant_output : String
  pub output : String
  pub error : Option Error
  pub batch : Batch
  pub world : W

unfoldable pub is_succeeded : TaskRunStatus → Bool
is_succeeded TaskRunStatus.succeeded = true
is_succeeded _ = false

-- The timeout that a phase reports: the parent's, where that is set and is the smaller one.
unfoldable pub phase_value : ℤ → ℤ → ℤ
phase_value parent own =
    if ltb_ℤ (pos 0) parent && (leb_ℤ own (pos 0) || ltb_ℤ parent own) then parent else own

abbrev pub joined_messages : List SessionEvent → String
joined_messages events = join "\n" (assistant_message_contents events)

unfoldable pub unverified : {W : Type 0} → TaskOutcome W → Verified W
unverified (status, output, e, batch, w) = record {
  status = status;
  response = no_response;
  assistant_output = output;
  output = "";
  error = e;
  batch = batch;
  world = w;
}

module _ {W : Type 0} (env : Env W) where
  -- A duration of the configuration, where it can be read and parsed.
  unfoldable pub configured_timeout : String → Option ℤ
  configured_timeout key = elim (env.cfg key) [
    | err e ↦ none
    | ok value ↦ elim (env.parse_duration (trim_space value)) [ err e ↦ none | ok d ↦ some d ]
  ]

  -- `withRunTimeout`
  unfoldable pub with_run_timeout : Context → Context
  unfolding configured_timeout with_timeout_metadata
  with_run_timeout ctx = elim (configured_timeout task_run_timeout_key) [
    | none ↦ with_timeout_metadata ctx "run" (pos 0)
    | some d ↦
        if ltb_ℤ (pos 0) d
        then with_timeout_metadata (with_timeout ctx d) "run" d
        else with_timeout_metadata ctx "run" d
  ]

  -- The context of a phase in `executeAndVerify`.
  unfoldable pub phase_context : String → String → Context → Context
  unfolding configured_timeout with_timeout_metadata timeout_value phase_value
  phase_context phase key ctx = elim (configured_timeout key) [
    | none ↦ with_timeout_metadata ctx phase (phase_value (timeout_value ctx) (pos 0))
    | some d ↦
        with_timeout_metadata (if ltb_ℤ (pos 0) d then with_timeout ctx d else ctx) phase
          (phase_value (timeout_value ctx) d)
  ]

  -- The text that is made of the stored events of a run, once it is over.
  unfoldable pub run_output : (List SessionEvent → String) → String → W → String × W
  run_output summary run_id w =
      if str_eq run_id ""
      then ("", w)
      else (let (answer, w1) = env.storage.get_task_run request run_id w in
          elim answer [
            | err e ↦ ("", w1)
            | ok run ↦
                if str_eq run.session_id ""
                then ("", w1)
                else (let (listed, w2) =
                      env.storage.list_session_events request run.session_id w1 in
                    elim listed [ err e ↦ ("", w2) | ok events ↦ (summary events, w2) ])
          ])

  -- A run of an agent, with the text of its events.
  unfoldable pub execute_task_with :
      (List SessionEvent → String)
      → Client W
      → Context
      → String
      → Batch
      → String
      → String
      → W
      → TaskOutcome W
  unfolding execute_task run_output
  execute_task_with summary client ctx repo_path batch run_ref prompt w =
      let (run_id, w1) = env.new_run_id w in
      let (status, e, batch', w2) =
        execute_task env client ctx repo_path run_id batch run_ref prompt w1 in
      let (output, w3) = run_output summary run_id w2 in (status, output, e, batch', w3)

  -- `executeTaskWithAssistantMessages`
  unfoldable pub execute_task_with_assistant_messages :
      Client W → Context → String → Batch → String → String → W → TaskOutcome W
  unfolding execute_task_with
  execute_task_with_assistant_messages = execute_task_with joined_messages

  -- `executeTaskWithStructuredOutput`
  unfoldable pub execute_task_with_structured_output :
      Client W → Context → String → Batch → String → String → W → TaskOutcome W
  unfolding execute_task_with
  execute_task_with_structured_output = execute_task_with latest_assistant_message_content

  -- The task's reference, put into a text that asks for it.
  unfoldable pub fill_in : String → String → String
  fill_in prompt task_id = if contains prompt "%s" then env.sprintf prompt task_id else prompt

  -- `ExecutionTask.Execute`
  unfoldable pub execute : Client W → Context → String → String → Batch → String → W → TaskOutcome W
  unfolding fill_in execute_task_with_assistant_messages
  execute client ctx repo_path instruction batch task_id w =
      elim (env.cfg execution_task_prompt_key) [
        | err e ↦ (TaskRunStatus.failed, "", some (wrap "get execution task prompt" e), batch, w)
        | ok base_prompt ↦
            let (answer, w1) = env.tracker.fetch_comments (trim_space repo_path) task_id w in
            elim answer [
              | err e ↦
                  (TaskRunStatus.failed, "", some (wrap "fetch tracker comments" e), batch, w1)
              | ok comments ↦
                  execute_task_with_assistant_messages client ctx (trim_space repo_path) batch
                    task_id
                    (with_comments
                      (build_prompt (fill_in base_prompt task_id) (trim_space instruction))
                      comments)
                    w1
            ]
      ]

  -- `VerificationTask.Execute`
  unfoldable pub verify : Client W → Context → String → String → Batch → String → W → TaskOutcome W
  unfolding fill_in execute_task_with_structured_output
  verify client ctx repo_path instruction batch task_id w =
      elim (env.cfg verification_task_prompt_key) [
        | err e ↦ (TaskRunStatus.failed, "", some (wrap "get verification task prompt" e), batch, w)
        | ok base_prompt ↦
            execute_task_with_structured_output client ctx (trim_space repo_path) batch task_id
              (fill_in (build_prompt base_prompt (trim_space instruction)) task_id) w
      ]

  -- The response, as json.Unmarshal leaves it; its error is only logged.
  unfoldable pub response_of : String → AgentResponse
  response_of output = (env.unmarshal output).0

  unfoldable pub verified : String → TaskOutcome W → Verified W
  unfolding response_of
  verified assistant_output (status, output, e, batch, w) = record {
    status = status;
    response = elim e [ none ↦ response_of output | some x ↦ no_response ];
    assistant_output = assistant_output;
    output = output;
    error = e;
    batch = batch;
    world = w;
  }

  -- `executeAndVerify`
  unfoldable pub execute_and_verify :
      Client W → Context → String → String → String → String → Batch → W → Verified W
  unfolding phase_context execute verify is_succeeded verified unverified
  execute_and_verify client ctx repo_path task_ref exec_text verify_text batch w =
      let executed =
        execute client (phase_context "execute" task_exec_timeout_key ctx) repo_path exec_text batch
          task_ref w in
      if is_succeeded executed.0
      then verified executed.1 (
          verify client (phase_context "verify" task_verify_timeout_key ctx) repo_path verify_text
            executed.3 task_ref executed.4)
      else unverified executed
