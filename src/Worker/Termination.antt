-- ===== src/Worker/Termination.antt =====
-- `Process` (internal/consumer/worker.go) ends, and an item that it ends without an error leaves its
-- batch pending.
use yaralpho.Base.{
  ℕ, ◌≤◌, ◌<◌, ◌≡◌, refl, inl, inr, Bool-cases, true, ◌||◌, Option, none, some, String, Error,
  Result, ok, err, str_eq, is_some, arith,
}
use yaralpho.Base.Int.{ℤ}
use yaralpho.Base.Text.{trim_space}
use yaralpho.Storage.Models.{Repository, Batch}
use yaralpho.Storage.Interface.{request}
use yaralpho.Scheduler.State.{WorkItem}
use yaralpho.Worker.Env.{Env, Context, Client, State}
use yaralpho.Worker.Tasks.{with_run_timeout}
use yaralpho.Worker.Attempts.{handle_single_task, parse_max_retries}
use yaralpho.Worker.Process.{
  client_for_runtime, outcome_of, start_item, with_client, receive_item, with_repository,
  with_batch, read_item, process, trimmed_item,
}
use yaralpho.Worker.Retries.{attempts_allowed, attempt_loop_ends}

outcome_of-some :
    {W : Type 0} (o : Option (Option Error × Batch × State W))
    → is_some o ≡ true
    → is_some (outcome_of o) ≡ true
unfolding outcome_of
outcome_of-some none h = h
outcome_of-some (some (e, b, s)) h = refl

positive : (retries : Option ℤ) → 0 < attempts_allowed retries
positive none = ground arith
positive (some r) = ground arith

module _ {W : Type 0} (env : Env W) (ctx : Context) where
  IsEnough : ℕ → Type 0
  IsEnough fuel = attempts_allowed (parse_max_retries env) ≤ fuel

  handle_single_task_ends :
      (fuel : ℕ) (client : Client W) (repo_path : String) (item : WorkItem) (batch : Batch)
      (s : State W)
      → IsEnough fuel
      → is_some (handle_single_task env fuel client ctx repo_path item batch s) ≡ true
  unfolding handle_single_task IsEnough
  handle_single_task_ends fuel client repo_path item batch s h =
      attempt_loop_ends env client (with_run_timeout env ctx) repo_path item (parse_max_retries env)
        fuel 0 batch s (ground arith) (positive (parse_max_retries env))

  with_client_ends :
      (fuel : ℕ) (item : WorkItem) (repo_path : String) (batch : Batch)
      (a : Result (Client W) × State W)
      → IsEnough fuel
      → is_some (with_client env fuel ctx item repo_path batch a) ≡ true
  unfolding with_client
  with_client_ends fuel item repo_path batch (err e, s) h = refl
  with_client_ends fuel item repo_path batch (ok client, s) h =
      outcome_of-some _ (handle_single_task_ends fuel client repo_path item batch s h)

  with_repository_ends :
      (fuel : ℕ) (item : WorkItem) (batch : Batch) (a : Result Repository) (s : State W)
      → IsEnough fuel
      → is_some (with_repository env fuel ctx item batch a s) ≡ true
  unfolding with_repository start_item
  with_repository_ends fuel item batch (err e) s h = refl
  with_repository_ends fuel item batch (ok repo) s h =
      elim (Bool-cases (str_eq (trim_space repo.path) "")) [
        | inl e ↦ rw (with_repository, e) refl
        | inr e ↦
            let (batch', s') = receive_item env item (trim_space repo.path) batch s in
            rw (with_repository, e)
              (with_client_ends fuel item (trim_space repo.path) batch'
                (client_for_runtime env item.runtime s') h)
      ]

  with_batch_ends :
      (fuel : ℕ) (item : WorkItem) (a : Result Batch) (s : State W)
      → IsEnough fuel
      → is_some (with_batch env fuel ctx item a s) ≡ true
  unfolding with_batch
  with_batch_ends fuel item (err e) s h = refl
  with_batch_ends fuel item (ok batch) s h =
      let (answer, w) = env.storage.get_repository request batch.repository_id s.world in
      with_repository_ends fuel item batch answer (record s { world = w }) h

  -- Whatever the agents, the tracker and the store answer, an item is processed to its end with as
  -- many attempts as the configuration gives, and with one if it gives none.
  pub process_ends :
      (fuel : ℕ) (item : WorkItem) (s : State W)
      → attempts_allowed (parse_max_retries env) ≤ fuel
      → is_some (process env fuel ctx item s) ≡ true
  unfolding process read_item IsEnough
  process_ends fuel item s h =
      let t = trimmed_item item in
      elim (Bool-cases (str_eq t.batch_id "" || str_eq t.task_ref "")) [
        | inl e ↦ rw (process, e) refl
        | inr e ↦
            let (answer, w) = env.storage.get_batch request t.batch_id s.world in
            rw (process, e) (with_batch_ends fuel t answer (record s { world = w }) h)
      ]
