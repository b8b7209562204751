-- ===== src/App/Memory.antt =====
-- A storage of batches in memory that keeps the laws which the handlers of internal/app rely on.
use yaralpho.Base.{
  ◌≡◌, refl, ◌≢◌, ap, sym, ◌∙◌, inl, inr, true, Option, none, some, [], String, no_documents,
  Result, ok, err, str_eq, str_eq_iff, str_eq_refl, Bool-cases, if◌then◌else◌,
}
use yaralpho.Storage.Models.{Repository, Batch, Agent, AgentStatus}
use yaralpho.Storage.Interface.{Storage}
use yaralpho.Storage.Progress.{no_progress}
use yaralpho.Storage.Contract.{Stores, IsBatchStorage, IsCreator}

abbrev pub Memory : Type 0
Memory = String → Option Batch

abbrev pub home : Repository
home = record { id = "repo-1"; name = "n"; path = "/n"; created_at = 1; updated_at = 1 }

abbrev pub worker_agent : Agent
worker_agent = record {
  id = "a-1";
  name = "n";
  runtime = "codex";
  status = AgentStatus.busy;
  created_at = 1;
  updated_at = 1;
}

abbrev pub put_in : Batch → Memory → Memory
put_in b w id = if str_eq b.id id then some b else w id

-- A stored batch is returned under its own identity only.
abbrev pub fetch : String → Option Batch → Result Batch
fetch id none = err no_documents
fetch id (some b) = if str_eq b.id id then ok b else err no_documents

abbrev pub memory : Storage Memory
memory = record {
  create_repository = λ k r w. (none, r, w);
  update_repository = λ k r w. (none, r, w);
  get_repository = λ k id w. (ok home, w);
  list_repositories = λ k w. (ok [], w);
  delete_repository = λ k id w. (none, w);
  repository_has_active_batches = λ k id w. (ok true, w);
  create_agent = λ k a w. (none, a, w);
  update_agent = λ k a w. (none, a, w);
  get_agent = λ k id w. (ok worker_agent, w);
  list_agents = λ k w. (ok [], w);
  delete_agent = λ k id w. (none, w);
  create_batch = λ k b w. (none, b, put_in b w);
  update_batch = λ k b w. (none, b, put_in b w);
  get_batch = λ k id w. (fetch id (w id), w);
  list_batches = λ k n w. (ok [], w);
  list_batches_by_repository = λ k id st n w. (ok [], w);
  create_task_run = λ k r w. (none, r, w);
  update_task_run = λ k r w. (none, r, w);
  get_task_run = λ k id w. (err no_documents, w);
  list_task_runs_by_repository = λ k id w. (ok [], w);
  list_task_runs = λ k id w. (ok [], w);
  insert_session_event = λ k e w. (none, w);
  list_session_events = λ k id w. (ok [], w);
  get_batch_progress = λ k id w. (ok no_progress, w);
}

abbrev pub view : Memory → String → Option Batch
view w = w

abbrev fetched : Batch → Result Batch → Batch
fetched d (ok b) = b
fetched d (err e) = d

pub fetch-ok :
    (id : String) (o : Option Batch) (b : Batch) → fetch id o ≡ ok b → (o ≡ some b) × (b.id ≡ id)
fetch-ok id none b h = absurd (cc)
fetch-ok id (some a) b h = elim (Bool-cases (str_eq a.id id)) [
  | inl e ↦
      let q = ap (fetched a) (rw e at h) in
      (ap some q, sym (ap (λ (x : Batch). x.id) q) ∙ (str_eq_iff a.id id).0 e)
  | inr e ↦ let n = rw e at h in absurd (cc)
]

pub put-other : (b : Batch) (w : Memory) (id : String) → id ≢ b.id → put_in b w id ≡ w id
put-other b w id n = elim (Bool-cases (str_eq b.id id)) [
  | inl e ↦ absurd (n (sym ((str_eq_iff b.id id).0 e)))
  | inr e ↦ rw e refl
]

put-same : (b : Batch) (w : Memory) → put_in b w b.id ≡ some b
put-same b w = rw (str_eq_refl b.id) refl

pub put-Stores : (b : Batch) (w : Memory) → Stores (put_in b w b.id) b
put-Stores b w = (b, put-same b w, refl, refl, refl, refl)

pub memory-IsBatchStorage : IsBatchStorage memory view
memory-IsBatchStorage = record {
  repository_keeps = λ id w. refl;
  get_keeps = λ id w. refl;
  gets = λ id w b h. fetch-ok id (w id) b h;
  saves = λ b w h. put-Stores b w;
  leaves = λ b w. (refl, refl, λ n. refl);
  others = λ b w id n. put-other b w id n;
  atomic = λ b w e h. absurd (cc);
}

pub memory-IsCreator : IsCreator memory view
memory-IsCreator = record {
  creates = λ b w h. put-Stores b w;
  leaves = λ b w. (refl, λ p. refl, λ n. refl);
}
