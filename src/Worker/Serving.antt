-- ===== src/Worker/Serving.antt =====
-- What the processing of a work item writes (internal/consumer/worker.go): `Process` and
-- `clientForRuntime`.
use yaralpho.Base.{
  ℕ, ◌≤◌, is_some, true, ◌≡◌, refl, sym, inl, inr, Bool-cases, Option-cases, ◌||◌, Option, none,
  some, String, Error, Result, ok, err, str_eq,
}
use yaralpho.Base.Text.{trim_space, to_lower}
use yaralpho.Storage.Models.{Repository, Batch, BatchStatus}
use yaralpho.Storage.Interface.{request}
use yaralpho.Scheduler.State.{WorkItem}
use yaralpho.Worker.Env.{Env, Context, Client, State}
use yaralpho.Worker.Reports.{task_event, task_title, notify_task_event, mark_batch}
use yaralpho.Worker.Attempts.{handle_single_task, parse_max_retries}
use yaralpho.Worker.Process.{
  outcome_of, trimmed_item, client_for_runtime, report_error, with_client, receive_item, start_item,
  with_repository, with_batch, read_item, process,
}
use yaralpho.Worker.Retries.{attempts_allowed}
use yaralpho.Worker.Termination.{process_ends}
use yaralpho.Worker.Writes.{Keeps, Hosts, Holds}
use yaralpho.Worker.Keeping.{
  EndsIn, moved, task_title-Holds, notify_task_event-Holds, mark_batch-Holds,
  handle_single_task-Holds,
}

outcome-EndsIn :
    {W : Type 0} (P : State W → Type 0) (r : Option (Option Error × Batch × State W))
    → EndsIn (λ x. P x.2) r
    → EndsIn (λ x. P x.1) (outcome_of r)
unfolding outcome_of
outcome-EndsIn P none h = tt
outcome-EndsIn P (some (e, batch, s)) h = h

module _ {W : Type 0} (env : Env W) (I : W → Type 0) (hosts : Hosts env I) where
  -- The property, of an answer of `clientForRuntime`.
  Served : Result (Client W) × State W → Type 0
  Served r = Holds env I r.1 × ((c : Client W) → r.0 ≡ ok c → Keeps env c I)

  unknown-Served : (e : Error) (s : State W) → Holds env I s → Served (err e, s)
  unfolding Served
  unknown-Served e s h = (h, λ c p. absurd (cc))

  same_ok-Keeps : (c d : Client W) → Keeps env c I → Result.ok c ≡ ok d → Keeps env d I
  same_ok-Keeps c d k p = let q : c ≡ d = cc in rw (sym q) k

  same_some-Keeps : (c d : Client W) → Keeps env c I → Option.some c ≡ some d → Keeps env d I
  same_some-Keeps c d k p = let q : c ≡ d = cc in rw (sym q) k

  -- The client that is there already, and the client that is made.
  codex-Served :
      (s : State W)
      → Holds env I s
      → Served (elim s.codex_client [
        | some client ↦ (ok client, s)
        | none ↦
            let (client, w) = env.new_codex s.world in
            (ok client, record s { codex_client = some client; world = w })
      ])
  unfolding Served
  codex-Served s h = elim (Option-cases s.codex_client) [
    | inr (c, e) ↦ rw e (h, λ d p. same_ok-Keeps c d (h.1 c e) p)
    | inl e ↦
        let keeps = hosts.codex_keeps s.world in
        rw e (
          (hosts.on_codex s.world h.0, (λ d p. same_some-Keeps _ d keeps p), h.2),
          λ d p. same_ok-Keeps _ d keeps p,
        )
  ]

  github-Served :
      (s : State W)
      → Holds env I s
      → Served (elim s.github_client [
        | some client ↦ (ok client, s)
        | none ↦
            let (client, w) = env.new_github s.world in
            (ok client, record s { github_client = some client; world = w })
      ])
  unfolding Served
  github-Served s h = elim (Option-cases s.github_client) [
    | inr (c, e) ↦ rw e (h, λ d p. same_ok-Keeps c d (h.2 c e) p)
    | inl e ↦
        let keeps = hosts.github_keeps s.world in
        rw e (
          (hosts.on_github s.world h.0, h.1, λ d p. same_some-Keeps _ d keeps p),
          λ d p. same_ok-Keeps _ d keeps p,
        )
  ]

  client_for_runtime-Served :
      (runtime : String) (s : State W) → Holds env I s → Served (client_for_runtime env runtime s)
  unfolding client_for_runtime
  client_for_runtime-Served runtime s h =
      let rt = to_lower (trim_space runtime) in
      elim (Bool-cases (str_eq rt "" || str_eq rt "codex")) [
        | inl a ↦ rw (client_for_runtime, a) (codex-Served s h)
        | inr a ↦ elim (Bool-cases (str_eq rt "copilot" || str_eq rt "github")) [
          | inl b ↦ rw (client_for_runtime, a, b) (github-Served s h)
          | inr b ↦ rw (client_for_runtime, a, b) (unknown-Served _ s h)
        ]
      ]

  report_error-Holds :
      (item : WorkItem) (e : Error) (s : State W)
      → Holds env I s
      → Holds env I (report_error env item e s)
  unfolding report_error
  report_error-Holds item e s h =
      moved env I hosts s _ h (hosts.on_error request item.batch_id "" item.task_ref e s.world h.0)

  receive_item-Holds :
      (item : WorkItem) (path : String) (batch : Batch) (s : State W)
      → Holds env I s
      → Holds env I (receive_item env item path batch s).1
  unfolding receive_item
  receive_item-Holds item path batch s h =
      let (title, s1) = task_title env path item.task_ref s in
      let received = task_event "task_received" item title "pending" in
      let s2 = notify_task_event env received s1 in
      let h2 =
        notify_task_event-Holds env I hosts received s1
          (task_title-Holds env I hosts path item.task_ref s h) in
      notify_task_event-Holds env I hosts (task_event "task_started" item title "running")
        (mark_batch env BatchStatus.in_progress batch s2).1
        (mark_batch-Holds env I hosts BatchStatus.in_progress batch s2 tt h2)

  ended :
      (r : Option (Option Error × State W))
      → is_some r ≡ true
      → EndsIn (λ x. Holds env I x.1) r
      → (e : Option Error) × (s : State W) × (r ≡ some (e, s)) × I s.world
  ended none p h = absurd (cc)
  ended (some (e, s)) p h = (e, s, refl, h.0)

  module _ (fuel : ℕ) (ctx : Context) (item : WorkItem) where
    with_client-Holds :
        (path : String) (batch : Batch) (r : Result (Client W) × State W)
        → Served r
        → EndsIn (λ x. Holds env I x.1) (with_client env fuel ctx item path batch r)
    unfolding with_client Served
    with_client-Holds path batch (err e, s) h = h.0
    with_client-Holds path batch (ok client, s) h =
        outcome-EndsIn (Holds env I) (handle_single_task env fuel client ctx path item batch s) (
          handle_single_task-Holds env I hosts client (h.1 client refl) fuel ctx path item batch s
            h.0)

    with_repository-Holds :
        (batch : Batch) (r : Result Repository) (s : State W)
        → Holds env I s
        → EndsIn (λ x. Holds env I x.1) (with_repository env fuel ctx item batch r s)
    unfolding with_repository start_item
    with_repository-Holds batch (err e) s h = report_error-Holds item e s h
    with_repository-Holds batch (ok repo) s h =
        let path = trim_space repo.path in
        elim (Bool-cases (str_eq path "")) [
          | inl a ↦ rw (with_repository, a) h
          | inr a ↦
              rw (with_repository, a)
                (with_client-Holds path (receive_item env item path batch s).0 _ (
                  client_for_runtime-Served item.runtime (receive_item env item path batch s).1
                    (receive_item-Holds item path batch s h)))
        ]

    with_batch-Holds :
        (r : Result Batch) (s : State W)
        → Holds env I s
        → EndsIn (λ x. Holds env I x.1) (with_batch env fuel ctx item r s)
    unfolding with_batch
    with_batch-Holds (err e) s h = report_error-Holds item e s h
    with_batch-Holds (ok batch) s h =
        with_repository-Holds batch _ _ (
          moved env I hosts s _ h (hosts.on_get_repository request batch.repository_id s.world h.0))

  process-Holds :
      (fuel : ℕ) (ctx : Context) (item : WorkItem) (s : State W)
      → Holds env I s
      → EndsIn (λ x. Holds env I x.1) (process env fuel ctx item s)
  unfolding process read_item
  process-Holds fuel ctx item s h =
      let t = trimmed_item item in
      elim (Bool-cases (str_eq t.batch_id "" || str_eq t.task_ref "")) [
        | inl a ↦ rw (process, a) h
        | inr a ↦
            rw (process, a)
              (with_batch-Holds fuel ctx t _ _
                (moved env I hosts s _ h (hosts.on_get_batch request t.batch_id s.world h.0)))
      ]

  -- With as much fuel as attempts are configured a work item is processed to its end, and the worker
  -- writes batches as in progress, pending and failed only, creates only runs that are running or have
  -- failed, and updates a run only to an ended one: what such writes, the reads, the tracker, the
  -- clients and the notifications keep, holds of the world at the end if it held at the start.
  pub process-keeps :
      (fuel : ℕ) (ctx : Context) (item : WorkItem) (s : State W)
      → attempts_allowed (parse_max_retries env) ≤ fuel
      → Holds env I s
      → (e : Option Error) × (s' : State W) × (process env fuel ctx item s ≡ some (e, s'))
        × I s'.world
  process-keeps fuel ctx item s enough h =
      ended (process env fuel ctx item s) (process_ends env ctx fuel item s enough)
        (process-Holds fuel ctx item s h)
