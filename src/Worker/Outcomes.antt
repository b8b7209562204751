-- ===== src/Worker/Outcomes.antt =====
-- What a run of an agent returns (internal/consumer/task_helpers.go): its status and its error agree,
-- and the event loop ends with the first idle event.
use yaralpho.Base.{
  ◌≡◌, refl, sym, subst, ◌∙◌, ◌↔◌, inl, inr, Bool-cases, Option-cases, Bool, true, false, ◌||◌,
  Option, none, some, List, [], ◌∷◌, ◌++◌, String, Error, ok, err, arith,
}
use yaralpho.Storage.Models.{Batch, TaskRun, TaskRunStatus, Fields}
use yaralpho.Storage.Interface.{detached, Read, Write}
use yaralpho.Worker.Env.{Env, Context, Client, AgentSession, Ending, closed, done}
use yaralpho.Worker.Messages.{is_session_idle_event}
use yaralpho.Worker.Following.{
  Outcome, is_deadline_exceeded, ending_status, ending_error, store_event, event_loop,
}
use yaralpho.Worker.Session.{
  conclude, finish, fail_batch, not_started, follow_created, follow_session, run_session,
  stop_session, execute_task,
}

-- A status is `succeeded` exactly where there is no error.
abbrev pub Agrees : TaskRunStatus → Option Error → Type 0
Agrees status e = (status ≡ TaskRunStatus.succeeded) ↔ (e ≡ none)

failed-Agrees : (e : Error) → Agrees TaskRunStatus.failed (some e)
failed-Agrees e = (λ h. absurd (cc), λ h. absurd (cc))

ending-Agrees : (ending : Ending) → Agrees (ending_status ending) (ending_error ending)
unfolding ending_status ending_error
ending-Agrees closed = (λ h. refl, λ h. refl)
ending-Agrees (done e) = elim (Bool-cases (is_deadline_exceeded e)) [
  | inl d ↦ rw d (λ h. absurd (cc), λ h. absurd (cc))
  | inr d ↦ rw d (λ h. absurd (cc), λ h. absurd (cc))
]

abbrev OutcomeAgrees : {W : Type 0} → Outcome W → Type 0
OutcomeAgrees o = Agrees o.0 o.1

abbrev RunAgrees : {W : Type 0} → TaskRunStatus × Option Error × Batch × W → Type 0
RunAgrees r = Agrees r.0 r.1

-- Whether an event of type session.idle is among the events.
unfoldable pub has_idle : List Fields → Bool
has_idle [] = false
has_idle (evt ∷ rest) = is_session_idle_event evt || has_idle rest

later :
    (evt : Fields) (rest : List Fields)
    → is_session_idle_event evt ≡ false
    → has_idle (evt ∷ rest) ≡ true
    → has_idle rest ≡ true
unfolding has_idle
later evt rest i h = ground arith

module _ {W : Type 0} (env : Env W) where
  module _ (batch : Batch) (run : TaskRun) (id : String) (ending : Ending) where
    event_loop-failed :
        (evt : Fields) (rest : List Fields) (w : W) (e : Error)
        → (store_event env batch run id evt w).0 ≡ some e
        → event_loop env batch run id (evt ∷ rest) ending w
          ≡ (TaskRunStatus.failed, some e, (store_event env batch run id evt w).1)
    unfolding event_loop
    event_loop-failed evt rest w e h = rw (event_loop, h) refl

    event_loop_stops :
        (evt : Fields) (rest : List Fields) (w : W)
        → (store_event env batch run id evt w).0 ≡ none
        → is_session_idle_event evt ≡ true
        → event_loop env batch run id (evt ∷ rest) ending w
          ≡ (TaskRunStatus.succeeded, none, (store_event env batch run id evt w).1)
    unfolding event_loop
    event_loop_stops evt rest w h i = rw (event_loop, h, i) refl

    event_loop_goes :
        (evt : Fields) (rest : List Fields) (w : W)
        → (store_event env batch run id evt w).0 ≡ none
        → is_session_idle_event evt ≡ false
        → event_loop env batch run id (evt ∷ rest) ending w
          ≡ event_loop env batch run id rest ending (store_event env batch run id evt w).1
    unfolding event_loop
    event_loop_goes evt rest w h i = rw (event_loop, h, i) refl

    event_loop-Agrees :
        (events : List Fields) (w : W) → OutcomeAgrees (event_loop env batch run id events ending w)
    unfolding event_loop
    event_loop-Agrees [] w = ending-Agrees ending
    event_loop-Agrees (evt ∷ rest) w = elim (Option-cases (store_event env batch run id evt w).0) [
      | inl h ↦ elim (Bool-cases (is_session_idle_event evt)) [
        | inl i ↦ subst OutcomeAgrees (sym (event_loop_stops evt rest w h i)) (λ _. refl, λ _. refl)
        | inr i ↦
            subst OutcomeAgrees (sym (event_loop_goes evt rest w h i)) (event_loop-Agrees rest _)
      ]
      | inr (e, h) ↦ subst OutcomeAgrees (sym (event_loop-failed evt rest w e h)) (failed-Agrees e)
    ]

  -- Nothing that arrives after an event of type session.idle, and no way in which the arrivals end,
  -- makes a difference to the event loop.
  pub event_loop_idle :
      (batch : Batch) (run : TaskRun) (id : String) (xs ys : List Fields) (e e' : Ending) (w : W)
      → has_idle xs ≡ true
      → event_loop env batch run id (xs ++ ys) e w ≡ event_loop env batch run id xs e' w
  unfolding has_idle
  event_loop_idle batch run id [] ys e e' w h = absurd (cc)
  event_loop_idle batch run id (evt ∷ xs) ys e e' w h =
      elim (Option-cases (store_event env batch run id evt w).0) [
        | inr (x, s) ↦
            event_loop-failed batch run id e evt (xs ++ ys) w x s
            ∙ sym (event_loop-failed batch run id e' evt xs w x s)
        | inl s ↦ elim (Bool-cases (is_session_idle_event evt)) [
          | inl i ↦
              event_loop_stops batch run id e evt (xs ++ ys) w s i
              ∙ sym (event_loop_stops batch run id e' evt xs w s i)
          | inr i ↦
              event_loop_goes batch run id e evt (xs ++ ys) w s i
              ∙ event_loop_idle batch run id xs ys e e' _ (later evt xs i h)
              ∙ sym (event_loop_goes batch run id e' evt xs w s i)
        ]
      ]

  conclude-Agrees :
      (batch : Batch) (run : TaskRun) (name : String) (status : TaskRunStatus) (e : Option Error)
      (w : W)
      → Agrees status e
      → RunAgrees (conclude env batch run name status e w)
  unfolding conclude
  conclude-Agrees batch run name TaskRunStatus.succeeded e w h = h
  conclude-Agrees batch run name TaskRunStatus.stopped e w h = h
  conclude-Agrees batch run name TaskRunStatus.unset e w h = (λ p. absurd (cc), λ p. absurd (cc))
  conclude-Agrees batch run name TaskRunStatus.running e w h = (λ p. absurd (cc), λ p. absurd (cc))
  conclude-Agrees batch run name TaskRunStatus.failed e w h = (λ p. absurd (cc), λ p. absurd (cc))
  conclude-Agrees batch run name TaskRunStatus.timed_out e w h =
      (λ p. absurd (cc), λ p. absurd (cc))
  conclude-Agrees batch run name (TaskRunStatus.other s) e w h =
      (λ p. absurd (cc), λ p. absurd (cc))

  finish-Agrees :
      (batch : Batch) (run : TaskRun) (name : String) (o : Outcome W)
      → Agrees o.0 o.1
      → RunAgrees (finish env batch run name o)
  unfolding finish
  finish-Agrees batch run name (status, e, w) h =
      let (finished, w1) = env.now w in
      let (_, run', w2) =
        env.storage.update_task_run detached
          (record run { status = status; finished_at = some finished }) w1 in
      conclude-Agrees batch run' name status e w2 h

  follow_created-Agrees :
      (batch : Batch) (run_id run_ref name : String) (session : AgentSession) (a : Write TaskRun W)
      → RunAgrees (follow_created env batch run_id run_ref name session a)
  unfolding follow_created fail_batch
  follow_created-Agrees batch run_id run_ref name session (some e, run, w) = failed-Agrees _
  follow_created-Agrees batch run_id run_ref name session (none, run, w) =
      finish-Agrees batch run name
        (event_loop env batch run session.id session.events session.ending w)
        (event_loop-Agrees batch run session.id session.ending session.events w)

  run_session-Agrees :
      (client : Client W) (batch : Batch) (run_id run_ref name : String) (a : Read AgentSession W)
      → RunAgrees (run_session env client batch run_id run_ref name a)
  unfolding run_session not_started fail_batch stop_session follow_session
  run_session-Agrees client batch run_id run_ref name (err e, w) = failed-Agrees _
  run_session-Agrees client batch run_id run_ref name (ok session, w) =
      follow_created-Agrees batch run_id run_ref name session _

  -- A run of an agent succeeds exactly when it returns no error, whatever the session, the store, the
  -- bus and the notifier do.
  pub execute_task-error :
      (client : Client W) (ctx : Context) (repo_path run_id : String) (batch : Batch)
      (run_ref prompt : String) (w : W)
      → ((execute_task env client ctx repo_path run_id batch run_ref prompt w).0
          ≡ TaskRunStatus.succeeded)
        ↔ ((execute_task env client ctx repo_path run_id batch run_ref prompt w).1 ≡ none)
  unfolding execute_task
  execute_task-error client ctx repo_path run_id batch run_ref prompt w =
      run_session-Agrees client batch run_id run_ref _ _
