-- ===== src/Worker/Pending.antt =====
-- What the attempts at a task (internal/consumer/worker.go) leave in the worker's copy of the batch.
use yaralpho.Base.{
  ℕ, zero, suc, ◌≡◌, refl, sym, ap, ◌∙◌, inl, inr, Bool-cases, true, Option, none, some, String,
  Error, str_eq, str_eq_iff,
}
use yaralpho.Base.Int.{ℤ}
use yaralpho.Storage.Models.{Batch, BatchStatus, BatchStatus_eq}
use yaralpho.Storage.Interface.{Ctx, request}
use yaralpho.Scheduler.State.{WorkItem}
use yaralpho.Worker.Env.{Env, Context, Client, State}
use yaralpho.Worker.Tasks.{Verified, is_succeeded, with_run_timeout}
use yaralpho.Worker.Session.{set_batch_status}
use yaralpho.Worker.Reports.{mark_batch}
use yaralpho.Worker.Attempts.{
  again, finished, judge, succeed, announce_attempt, run_item, attempt, attempt_loop,
  handle_single_task, parse_max_retries,
}
use yaralpho.Worker.Retries.{Verdict-cases, judge-finished}

-- The store leaves the status of a batch that it is given to write.
abbrev pub LeavesStatus : {W : Type 0} → Env W → Type 0
LeavesStatus {W} env =
    (k : Ctx) (b : Batch) (w : W) → (env.storage.update_batch k b w).1.status ≡ b.status

equals_pending :
    (b : BatchStatus) → BatchStatus_eq b BatchStatus.pending ≡ true → b ≡ BatchStatus.pending
equals_pending BatchStatus.pending h = refl
equals_pending BatchStatus.unset h = absurd (cc)
equals_pending BatchStatus.in_progress h = absurd (cc)
equals_pending BatchStatus.paused h = absurd (cc)
equals_pending BatchStatus.done h = absurd (cc)
equals_pending BatchStatus.failed h = absurd (cc)
equals_pending (BatchStatus.other s) h = absurd (cc)

module _ {W : Type 0} (env : Env W) (fuel : ℕ) (client : Client W) (ctx : Context)
    (repo_path : String) (item : WorkItem) (n : ℕ) (retries : Option ℤ) (batch : Batch)
    (s : State W) where
  pub attempt_loop_goes :
      (attempt env client ctx repo_path item (suc n) retries batch s).0 ≡ again
      → attempt_loop env (suc fuel) client ctx repo_path item n retries batch s
        ≡ attempt_loop env fuel client ctx repo_path item
            (suc n)
            retries
            (attempt env client ctx repo_path item (suc n) retries batch s).1
            (attempt env client ctx repo_path item (suc n) retries batch s).2
  unfolding attempt_loop
  attempt_loop_goes h = rw (attempt_loop, h) refl

  pub attempt_loop_stops :
      (e : Option Error)
      → (attempt env client ctx repo_path item (suc n) retries batch s).0 ≡ finished e
      → attempt_loop env (suc fuel) client ctx repo_path item n retries batch s
        ≡ some (
          e,
          (attempt env client ctx repo_path item (suc n) retries batch s).1,
          (attempt env client ctx repo_path item (suc n) retries batch s).2,
        )
  unfolding attempt_loop
  attempt_loop_stops e h = rw (attempt_loop, h) refl

module _ {W : Type 0} (env : Env W) (leaves : LeavesStatus env) where
  set_batch_status-pending :
      (k : Ctx) (batch : Batch) (w : W)
      → (set_batch_status env k BatchStatus.pending batch w).0.status ≡ BatchStatus.pending
  unfolding set_batch_status
  set_batch_status-pending k batch w =
      elim (Bool-cases (BatchStatus_eq batch.status BatchStatus.pending)) [
        | inl e ↦ rw (set_batch_status, e) (equals_pending batch.status e)
        | inr e ↦
            rw (set_batch_status, e) (leaves k (record batch { status = BatchStatus.pending }) w)
      ]

  judge-pending :
      (repo_path : String) (item : WorkItem) (v : Verified W) (n : ℕ) (retries : Option ℤ)
      (s : State W)
      → (judge env repo_path item n retries v s).0 ≡ finished none
      → (judge env repo_path item n retries v s).1.status ≡ BatchStatus.pending
  unfolding judge succeed mark_batch is_succeeded
  judge-pending repo_path item v n retries s h =
      let (a, b, c) = (judge-finished env repo_path item v n retries s).0 h in
      elim (Bool-cases (str_eq v.response.status "failure")) [
        | inl e ↦ absurd (b ((str_eq_iff v.response.status "failure").0 e))
        | inr e ↦ rw (judge, a, e, c) (set_batch_status-pending request v.batch _)
      ]

  attempt-pending :
      (client : Client W) (ctx : Context) (repo_path : String) (item : WorkItem) (n : ℕ)
      (retries : Option ℤ) (batch : Batch) (s : State W)
      → (attempt env client ctx repo_path item n retries batch s).0 ≡ finished none
      → (attempt env client ctx repo_path item n retries batch s).1.status ≡ BatchStatus.pending
  unfolding attempt
  attempt-pending client ctx repo_path item n retries batch s h =
      let s1 = announce_attempt env repo_path item n s in
      let v = run_item env client ctx repo_path item batch s1 in
      judge-pending repo_path item v n retries (record s1 { world = v.world }) h

  attempt_loop-pending :
      (fuel : ℕ) (client : Client W) (ctx : Context) (repo_path : String) (item : WorkItem) (n : ℕ)
      (retries : Option ℤ) (batch batch' : Batch) (s s' : State W)
      → attempt_loop env fuel client ctx repo_path item n retries batch s ≡ some (none, batch', s')
      → batch'.status ≡ BatchStatus.pending
  unfolding attempt_loop
  attempt_loop-pending zero client ctx repo_path item n retries batch batch' s s' h = absurd (cc)
  attempt_loop-pending (suc fuel) client ctx repo_path item n retries batch batch' s s' h =
      let (verdict, b, t) = attempt env client ctx repo_path item (suc n) retries batch s in
      elim (Verdict-cases (attempt env client ctx repo_path item (suc n) retries batch s).0) [
        | inl e ↦
            attempt_loop-pending fuel client ctx repo_path item (suc n) retries b batch' t s'
              (sym (attempt_loop_goes env fuel client ctx repo_path item n retries batch s e) ∙ h)
        | inr (x, e) ↦
            let q =
              sym (attempt_loop_stops env fuel client ctx repo_path item n retries batch s x e)
              ∙ h in
            let d : b ≡ batch' = cc in
            let c : x ≡ none = cc in
            ap (λ y. y.status) (sym d)
            ∙ attempt-pending client ctx repo_path item (suc n) retries batch s (e ∙ ap finished c)
      ]

  -- An item that is handled without an error leaves the worker's copy of the batch pending, ready for
  -- the next item, if the store leaves the status of what it writes.
  pub handle_single_task-pending :
      (fuel : ℕ) (client : Client W) (ctx : Context) (repo_path : String) (item : WorkItem)
      (batch batch' : Batch) (s s' : State W)
      → handle_single_task env fuel client ctx repo_path item batch s ≡ some (none, batch', s')
      → batch'.status ≡ BatchStatus.pending
  unfolding handle_single_task
  handle_single_task-pending fuel client ctx repo_path item batch batch' s s' h =
      attempt_loop-pending fuel client (with_run_timeout env ctx) repo_path item 0
        (parse_max_retries env) batch batch' s s' h
