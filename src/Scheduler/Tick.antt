-- ===== src/Scheduler/Tick.antt =====
-- internal/scheduler/scheduler.go: `Tick`, one function for each stretch between two calls that can
-- fail. The log lines are left out.
use Prim.Native.String.{◌++◌ as str_append}
use yaralpho.Base.{
  ℕ, zero, suc, Option, none, some, List, [], ◌∷◌, String, Error, message, wrap, ok, err, is_some,
  if◌then◌else◌,
}
use yaralpho.Base.Int.{ℤ, pos, negsuc, ◌+ℤ◌}
use yaralpho.Storage.Models.{AgentStatus, BatchItem, Batch, Agent}
use yaralpho.Storage.Interface.{request, detached}
use yaralpho.Scheduler.State.{WorkItem, Store, State, Worker, Scheduler}
use yaralpho.Scheduler.Select.{first_idle_agent, select}
use yaralpho.Scheduler.Settle.{claim, rollback, settle}

-- What the caller's context says of itself: `ctx.Err()`.
abbrev pub CtxErr : Type 0 → Type 0
CtxErr W = W → Option Error

abbrev pub with_agent_status : AgentStatus → Agent → Agent
with_agent_status s a = record a { status = s }

-- The order in which the errors of a finished run are returned.
unfoldable pub completion_error :
    Option Error → Option Error → Option Error → Batch → Agent → Option Error
completion_error (some e) agent_err worker_err b a =
    some (wrap (str_append "update batch " (str_append b.id " after completion")) e)
completion_error none (some e) worker_err b a =
    some (wrap (str_append "set agent " (str_append a.id " idle")) e)
completion_error none none worker_err b a = worker_err

-- After the worker: both writes are made, whatever the first returns.
unfoldable pub complete :
    {W : Type 0}
    → CtxErr W
    → Scheduler W
    → Store W
    → Batch
    → ℕ
    → Agent
    → Option Error × State W
    → Option Error × State W
unfolding settle completion_error
complete ctx c store b i a (worker_err, s) =
    let settled = settle c.max_retries (is_some worker_err) i b in
    let completion = if is_some (ctx s.world) then detached else request in
    let (batch_err, b', w') = store.update_batch completion settled s.world in
    let (agent_err, a', w'') =
      store.update_agent completion (with_agent_status AgentStatus.idle a) w' in
    (completion_error batch_err agent_err worker_err b' a', record s { world = w'' })

-- `batch.Items[i].Input`; the index is in range.
unfoldable pub input_at : List BatchItem → ℕ → String
input_at [] i = ""
input_at (x ∷ xs) zero = x.input
input_at (x ∷ xs) (suc i) = input_at xs i

abbrev pub add_active : {W : Type 0} → ℤ → State W → State W
add_active n s = record s { active_runs = s.active_runs +ℤ n }

-- The claimed item is handed to the worker; the deferred decrement runs at the very end.
unfoldable pub run_claimed :
    {W : Type 0}
    → CtxErr W
    → Scheduler W
    → Store W
    → Worker W
    → Batch
    → ℕ
    → Agent
    → State W
    → Option Error × State W
unfolding complete input_at
run_claimed ctx c store worker b i a s =
    let work : WorkItem = record {
      batch_id = b.id;
      task_ref = input_at b.items i;
      agent_id = a.id;
      runtime = a.runtime;
    } in
    let (e, s') = complete ctx c store b i a (worker.process work (add_active (pos 1) s)) in
    (e, add_active (negsuc 0) s')

-- The claim of the agent, for a batch that is claimed.
unfoldable pub claim_agent :
    {W : Type 0}
    → CtxErr W
    → Scheduler W
    → Store W
    → Worker W
    → Batch
    → ℕ
    → Agent
    → State W
    → Option Error × State W
unfolding run_claimed
claim_agent ctx c store worker b i idle s =
    let (e, a, w) = store.update_agent request (with_agent_status AgentStatus.busy idle) s.world in
    elim e [
      | some x ↦
          let (_, _, w') = store.update_batch request (rollback i b) w in
          (some (wrap (str_append "update agent " idle.id) x), record s { world = w' })
      | none ↦ run_claimed ctx c store worker b i a (record s { world = w })
    ]

-- The claim of the batch.
unfoldable pub claim_batch :
    {W : Type 0}
    → CtxErr W
    → Scheduler W
    → Store W
    → Worker W
    → Batch
    → ℕ
    → Agent
    → State W
    → Option Error × State W
unfolding claim_agent
claim_batch ctx c store worker b i idle s =
    let (e, b', w) = store.update_batch request (claim i b) s.world in
    elim e [
      | some x ↦ (some (wrap (str_append "update batch " b'.id) x), record s { world = w })
      | none ↦ claim_agent ctx c store worker b' i idle (record s { world = w })
    ]

-- `Tick` once both lists are read.
unfoldable pub dispatch :
    {W : Type 0}
    → CtxErr W
    → Scheduler W
    → Store W
    → Worker W
    → List Batch
    → List Agent
    → State W
    → Option Error × State W
unfolding claim_batch
dispatch ctx c store worker batches agents s = elim (first_idle_agent agents) [
  | none ↦ (none, s)
  | some idle ↦ elim (select batches) [
    | none ↦ (none, s)
    | some (b, i) ↦ claim_batch ctx c store worker b i idle s
  ]
]

unfoldable pub read_agents :
    {W : Type 0}
    → CtxErr W
    → Scheduler W
    → Store W
    → Worker W
    → List Batch
    → State W
    → Option Error × State W
unfolding dispatch
read_agents ctx c store worker batches s =
    let (r, w) = store.list_agents request s.world in
    elim r [
      | err e ↦ (some (wrap "list agents" e), record s { world = w })
      | ok agents ↦ dispatch ctx c store worker batches agents (record s { world = w })
    ]

unfoldable pub read_batches :
    {W : Type 0} → CtxErr W → Scheduler W → Store W → Worker W → State W → Option Error × State W
unfolding read_agents
read_batches ctx c store worker s =
    let (r, w) = store.list_batches request 0 s.world in
    elim r [
      | err e ↦ (some (wrap "list batches" e), record s { world = w })
      | ok batches ↦ read_agents ctx c store worker batches (record s { world = w })
    ]

unfoldable pub initialized :
    {W : Type 0}
    → CtxErr W
    → Scheduler W
    → Option (Store W)
    → Option (Worker W)
    → State W
    → Option Error × State W
unfolding read_batches
initialized ctx c (some store) (some worker) s = read_batches ctx c store worker s
initialized ctx c _ _ s = (some (message "scheduler not initialized"), s)

-- `Tick`
unfoldable pub tick :
    {W : Type 0} → CtxErr W → Option (Scheduler W) → State W → Option Error × State W
unfolding initialized
tick ctx none s = (none, s)
tick ctx (some c) s = if s.draining then (none, s) else initialized ctx c c.store c.worker s
