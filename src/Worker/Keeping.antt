-- ===== src/Worker/Keeping.antt =====
-- What the attempts at a task write (internal/consumer/worker.go): the whole of `handleSingleTask`.
use yaralpho.Base.{
  ℕ, zero, suc, inl, inr, Bool-cases, Option-cases, Result-cases, Option, none, some, String,
  str_eq,
}
use yaralpho.Base.Int.{ℤ, pos, leb_ℤ}
use yaralpho.Base.Text.{trim_space, ◌&◌}
use yaralpho.Storage.Models.{Batch, BatchStatus, BatchStatus_eq}
use yaralpho.Storage.Interface.{request}
use yaralpho.Notify.Events.{Event}
use yaralpho.Scheduler.State.{WorkItem}
use yaralpho.Worker.Env.{Env, Context, Client, State, AgentResponse}
use yaralpho.Worker.Session.{set_batch_status}
use yaralpho.Worker.Tasks.{Verified, is_succeeded, with_run_timeout}
use yaralpho.Worker.Reports.{find_title, task_title, notify_task_event, announce, mark_batch}
use yaralpho.Worker.Attempts.{
  give_up, should_retry, succeed, judge, announce_attempt, run_item, attempt, attempt_loop,
  handle_single_task, parse_max_retries, last_event, last_cause, failed_event, retry_event,
  success_event, failure_comment, started_event,
}
use yaralpho.Worker.Retries.{Verdict-cases}
use yaralpho.Worker.Pending.{attempt_loop_goes, attempt_loop_stops}
use yaralpho.Worker.Writes.{IsWorkers, Keeps, Hosts, Holds}
use yaralpho.Worker.Tending.{execute_and_verify-Keeps}

-- The property, of what a computation ends in, if it ends.
abbrev pub EndsIn : {A : Type 0} → (A → Type 0) → Option A → Type 0
EndsIn P none = Unit
EndsIn P (some a) = P a

module _ {W : Type 0} (env : Env W) (I : W → Type 0) (hosts : Hosts env I) where
  -- The property, of a state whose clients are those of another.
  pub moved : (s : State W) (w : W) → Holds env I s → I w → Holds env I (record s { world = w })
  moved s w (h, c, g) k = (k, c, g)

  pub task_title-Holds :
      (path ref : String) (s : State W) → Holds env I s → Holds env I (task_title env path ref s).1
  unfolding task_title
  task_title-Holds path ref s h = elim (Bool-cases (str_eq (trim_space ref) "")) [
    | inl a ↦ rw (task_title, a) h
    | inr a ↦ elim (Option-cases (find_title (trim_space ref) s.titles)) [
      | inr (t, b) ↦ rw (task_title, a, b) h
      | inl b ↦
          let kept = hosts.on_title path (trim_space ref) s.world h.0 in
          elim (Result-cases (env.tracker.get_title path (trim_space ref) s.world).0) [
            | inl (t, c) ↦ rw (task_title, a, b, c) (kept, h.1, h.2)
            | inr (x, c) ↦ rw (task_title, a, b, c) (kept, h.1, h.2)
          ]
    ]
  ]

  pub notify_task_event-Holds :
      (event : Event) (s : State W) → Holds env I s → Holds env I (notify_task_event env event s)
  unfolding notify_task_event
  notify_task_event-Holds event s h = (hosts.on_notify request _ s.world h.0, h.1, h.2)

  announce-Holds :
      (path : String) (item : WorkItem) (event : String → Event) (s : State W)
      → Holds env I s
      → Holds env I (announce env path item event s)
  unfolding announce
  announce-Holds path item event s h =
      notify_task_event-Holds (event (task_title env path item.task_ref s).0)
        (task_title env path item.task_ref s).1 (task_title-Holds path item.task_ref s h)

  set_batch_status-keeps :
      (status : BatchStatus) (batch : Batch) (w : W)
      → IsWorkers status
      → I w
      → I (set_batch_status env request status batch w).1
  unfolding set_batch_status
  set_batch_status-keeps status batch w g h =
      elim (Bool-cases (BatchStatus_eq batch.status status)) [
        | inl e ↦ rw (set_batch_status, e) h
        | inr e ↦
            rw (set_batch_status, e)
              (hosts.on_batch request (record batch { status = status }) w g h)
      ]

  pub mark_batch-Holds :
      (status : BatchStatus) (batch : Batch) (s : State W)
      → IsWorkers status
      → Holds env I s
      → Holds env I (mark_batch env status batch s).1
  unfolding mark_batch
  mark_batch-Holds status batch s g h =
      (set_batch_status-keeps status batch s.world g h.0, h.1, h.2)

  give_up-Holds :
      (path : String) (item : WorkItem) (r : AgentResponse) (n : ℕ) (m : ℤ) (batch : Batch)
      (s : State W)
      → Holds env I s
      → Holds env I (give_up env path item r n m batch s).1
  unfolding give_up
  give_up-Holds path item r n m batch s h =
      let (k, c, g) =
        announce-Holds path item (last_event item r n m)
          (mark_batch env BatchStatus.failed batch s).1
          (mark_batch-Holds BatchStatus.failed batch s tt h) in
      (hosts.on_error request item.batch_id "" item.task_ref (last_cause r n) _ k, c, g)

  -- The world after the comment on a failure, and the notification of it.
  failure_told-Holds :
      (path : String) (item : WorkItem) (v : Verified W) (n : ℕ) (m : ℤ) (s : State W)
      → Holds env I s
      → Holds env I (
          announce env path item (failed_event item v.response n m) (record s {
            world = (env.tracker.add_comment path item.task_ref (failure_comment v) s.world).1;
          }))
  failure_told-Holds path item v n m s h =
      announce-Holds path item (failed_event item v.response n m) _
        (moved s _ h (hosts.on_comment path item.task_ref (failure_comment v) s.world h.0))

  should_retry-Holds :
      (path : String) (item : WorkItem) (v : Verified W) (n : ℕ) (retries : Option ℤ) (s : State W)
      → Holds env I s
      → Holds env I (should_retry env path item v n retries s).2
  unfolding should_retry
  should_retry-Holds path item v n none s h = failure_told-Holds path item v n (pos 0) s h
  should_retry-Holds path item v n (some r) s h =
      let told = failure_told-Holds path item v n r s h in
      elim (Bool-cases (leb_ℤ r (pos n))) [
        | inl e ↦ rw (should_retry, e) (give_up-Holds path item v.response n r v.batch _ told)
        | inr e ↦
            rw (should_retry, e) (announce-Holds path item (retry_event item v.response n r) _ told)
      ]

  succeed-Holds :
      (path : String) (item : WorkItem) (n : ℕ) (v : Verified W) (s : State W)
      → Holds env I s
      → Holds env I (succeed env path item n v s).2
  unfolding succeed
  succeed-Holds path item n v s h =
      mark_batch-Holds BatchStatus.pending v.batch
        (announce env path item (success_event item n v) s) tt
        (announce-Holds path item (success_event item n v) s h)

  judge-Holds :
      (path : String) (item : WorkItem) (n : ℕ) (retries : Option ℤ) (v : Verified W) (s : State W)
      → Holds env I s
      → Holds env I (judge env path item n retries v s).2
  unfolding judge
  judge-Holds path item n retries v s h = elim (Option-cases v.error) [
    | inr (x, e) ↦ rw (judge, e) h
    | inl e ↦ elim (Bool-cases (str_eq v.response.status "failure")) [
      | inl f ↦ rw (judge, e, f) (should_retry-Holds path item v n retries s h)
      | inr f ↦ elim (Bool-cases (is_succeeded v.status)) [
        | inl t ↦ rw (judge, e, f, t) (succeed-Holds path item n v s h)
        | inr t ↦ rw (judge, e, f, t) h
      ]
    ]
  ]

  module _ (client : Client W) (keeps : Keeps env client I) where
    attempt-Holds :
        (ctx : Context) (path : String) (item : WorkItem) (n : ℕ) (retries : Option ℤ)
        (batch : Batch) (s : State W)
        → Holds env I s
        → Holds env I (attempt env client ctx path item n retries batch s).2
    unfolding attempt announce_attempt run_item
    attempt-Holds ctx path item n retries batch s h =
        let s1 = announce_attempt env path item n s in
        let told = announce-Holds path item (started_event item n) s h in
        judge-Holds path item n retries (run_item env client ctx path item batch s1) _ (
          moved s1 _ told (
            execute_and_verify-Keeps env I hosts client keeps ctx path item.task_ref
              ("Work on task " & item.task_ref) ("Verify task " & item.task_ref) batch s1.world
              told.0))

    attempt_loop-Holds :
        (fuel : ℕ) (ctx : Context) (path : String) (item : WorkItem) (n : ℕ) (retries : Option ℤ)
        (batch : Batch) (s : State W)
        → Holds env I s
        → EndsIn
            (λ r. Holds env I r.2)
            (attempt_loop env fuel client ctx path item n retries batch s)
    unfolding attempt_loop
    attempt_loop-Holds zero ctx path item n retries batch s h = tt
    attempt_loop-Holds (suc fuel) ctx path item n retries batch s h =
        let kept = attempt-Holds ctx path item (suc n) retries batch s h in
        let (verdict, b, t) = attempt env client ctx path item (suc n) retries batch s in
        elim (Verdict-cases (attempt env client ctx path item (suc n) retries batch s).0) [
          | inl e ↦
              rw (attempt_loop_goes env fuel client ctx path item n retries batch s e)
                (attempt_loop-Holds fuel ctx path item (suc n) retries b t kept)
          | inr (x, e) ↦
              rw (attempt_loop_stops env fuel client ctx path item n retries batch s x e) kept
        ]

    pub handle_single_task-Holds :
        (fuel : ℕ) (ctx : Context) (path : String) (item : WorkItem) (batch : Batch) (s : State W)
        → Holds env I s
        → EndsIn (λ r. Holds env I r.2) (handle_single_task env fuel client ctx path item batch s)
    unfolding handle_single_task
    handle_single_task-Holds fuel ctx path item batch s h =
        attempt_loop-Holds fuel (with_run_timeout env ctx) path item 0 (parse_max_retries env) batch
          s h
