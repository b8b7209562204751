-- ===== src/Worker/Tending.antt =====
-- What the execution and the verification of a task write (internal/consumer), in addition to the run
-- of the agent.
use yaralpho.Base.{inl, inr, Bool-cases, Result-cases, List, String, str_eq}
use yaralpho.Base.Text.{trim_space}
use yaralpho.Settings.Load.{
  execution_task_prompt_key, verification_task_prompt_key, task_exec_timeout_key,
  task_verify_timeout_key,
}
use yaralpho.Storage.Models.{Batch, SessionEvent}
use yaralpho.Storage.Interface.{request}
use yaralpho.Worker.Env.{Env, Context, Client}
use yaralpho.Worker.Messages.{build_prompt, with_comments, latest_assistant_message_content}
use yaralpho.Worker.Tasks.{
  run_output, execute_task_with, execute_task_with_assistant_messages,
  execute_task_with_structured_output, joined_messages, fill_in, execute, verify, verified,
  unverified, is_succeeded, phase_context, execute_and_verify,
}
use yaralpho.Worker.Writes.{Keeps, Hosts}
use yaralpho.Worker.Safety.{execute_task-Keeps}

module _ {W : Type 0} (env : Env W) (I : W → Type 0) (hosts : Hosts env I) (client : Client W)
    (keeps : Keeps env client I) where
  run_output-Keeps :
      (summary : List SessionEvent → String) (run_id : String) (w : W)
      → I w
      → I (run_output env summary run_id w).1
  unfolding run_output
  run_output-Keeps summary run_id w h = elim (Bool-cases (str_eq run_id "")) [
    | inl a ↦ rw (run_output, a) h
    | inr a ↦
        let kept = hosts.on_get_run request run_id w h in
        elim (Result-cases (env.storage.get_task_run request run_id w).0) [
          | inr (x, b) ↦ rw (run_output, a, b) kept
          | inl (run, b) ↦ elim (Bool-cases (str_eq run.session_id "")) [
            | inl c ↦ rw (run_output, a, b, c) kept
            | inr c ↦
                let (listed, w2) =
                  env.storage.list_session_events request run.session_id
                    (env.storage.get_task_run request run_id w).1 in
                let kept' = hosts.on_list_events request run.session_id _ kept in
                elim (Result-cases
                  (env.storage.list_session_events request run.session_id
                    (env.storage.get_task_run request run_id w).1).0) [
                      | inr (y, d) ↦ rw (run_output, a, b, c, d) kept'
                      | inl (es, d) ↦ rw (run_output, a, b, c, d) kept'
                    ]
          ]
        ]
  ]

  execute_task_with-Keeps :
      (summary : List SessionEvent → String) (ctx : Context) (path : String) (batch : Batch)
      (ref prompt : String) (w : W)
      → I w
      → I (execute_task_with env summary client ctx path batch ref prompt w).4
  unfolding execute_task_with
  execute_task_with-Keeps summary ctx path batch ref prompt w h =
      let (run_id, w1) = env.new_run_id w in
      run_output-Keeps summary run_id _ (
        execute_task-Keeps env client I keeps ctx path run_id batch ref prompt w1
          (hosts.on_run_id w h))

  execute-Keeps :
      (ctx : Context) (path instruction : String) (batch : Batch) (ref : String) (w : W)
      → I w
      → I (execute env client ctx path instruction batch ref w).4
  unfolding execute execute_task_with_assistant_messages
  execute-Keeps ctx path instruction batch ref w h =
      elim (Result-cases (env.cfg execution_task_prompt_key)) [
        | inr (x, a) ↦ rw (execute, a) h
        | inl (base, a) ↦
            let kept = hosts.on_comments (trim_space path) ref w h in
            elim (Result-cases (env.tracker.fetch_comments (trim_space path) ref w).0) [
              | inr (x, b) ↦ rw (execute, a, b) kept
              | inl (comments, b) ↦
                  rw (execute, a, b)
                    (execute_task_with-Keeps joined_messages ctx (trim_space path) batch ref
                      (with_comments (build_prompt (fill_in env base ref) (trim_space instruction))
                        comments)
                      _ kept)
            ]
      ]

  verify-Keeps :
      (ctx : Context) (path instruction : String) (batch : Batch) (ref : String) (w : W)
      → I w
      → I (verify env client ctx path instruction batch ref w).4
  unfolding verify execute_task_with_structured_output
  verify-Keeps ctx path instruction batch ref w h =
      elim (Result-cases (env.cfg verification_task_prompt_key)) [
        | inr (x, a) ↦ rw (verify, a) h
        | inl (base, a) ↦
            rw (verify, a)
              (execute_task_with-Keeps latest_assistant_message_content ctx (trim_space path) batch
                ref (fill_in env (build_prompt base (trim_space instruction)) ref) w h)
      ]

  pub execute_and_verify-Keeps :
      (ctx : Context) (path ref first second : String) (batch : Batch) (w : W)
      → I w
      → I (execute_and_verify env client ctx path ref first second batch w).world
  unfolding execute_and_verify verified unverified
  execute_and_verify-Keeps ctx path ref first second batch w h =
      let exec_ctx = phase_context env "execute" task_exec_timeout_key ctx in
      let kept = execute-Keeps exec_ctx path first batch ref w h in
      elim (Bool-cases (is_succeeded (execute env client exec_ctx path first batch ref w).0)) [
        | inl a ↦
            rw (execute_and_verify, a)
              (verify-Keeps (phase_context env "verify" task_verify_timeout_key ctx) path second _
                ref _ kept)
        | inr a ↦ rw (execute_and_verify, a) kept
      ]
