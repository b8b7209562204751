-- ===== src/Storage/Interface.antt =====
-- internal/storage/interfaces.go: `Storage`, as operations on a world `W` that holds what the
-- implementation keeps. A method that takes a pointer to a document may change it (Mongo stamps
-- `updated_at`), so it returns the document as it leaves it.
use yaralpho.Base.{ℕ, String, Bool, Option, List, Result, Error}
use yaralpho.Storage.Models.{
  Repository, Batch, BatchStatus, TaskRun, TaskRunSummary, Agent, BatchProgress, SessionEvent,
}

-- The context of a call: the caller's own, or context.WithoutCancel of it.
pub data Ctx : Type 0 where
  request detached : Ctx

-- A write: the error, the document as the call leaves it, and the world after it.
abbrev pub Write : Type 0 → Type 0 → Type 0
Write A W = Option Error × A × W

-- A read: the value or the error, and the world after it.
abbrev pub Read : Type 0 → Type 0 → Type 0
Read A W = Result A × W

pub record Storage (W : Type 0) : Type 0 where
  pub create_repository : Ctx → Repository → W → Write Repository W
  pub update_repository : Ctx → Repository → W → Write Repository W
  pub get_repository : Ctx → String → W → Read Repository W
  pub list_repositories : Ctx → W → Read (List Repository) W
  pub delete_repository : Ctx → String → W → Option Error × W
  pub repository_has_active_batches : Ctx → String → W → Read Bool W
  pub create_agent : Ctx → Agent → W → Write Agent W
  pub update_agent : Ctx → Agent → W → Write Agent W
  pub get_agent : Ctx → String → W → Read Agent W
  pub list_agents : Ctx → W → Read (List Agent) W
  pub delete_agent : Ctx → String → W → Option Error × W
  pub create_batch : Ctx → Batch → W → Write Batch W
  pub update_batch : Ctx → Batch → W → Write Batch W
  pub get_batch : Ctx → String → W → Read Batch W
  pub list_batches : Ctx → ℕ → W → Read (List Batch) W
  pub list_batches_by_repository : Ctx → String → BatchStatus → ℕ → W → Read (List Batch) W
  pub create_task_run : Ctx → TaskRun → W → Write TaskRun W
  pub update_task_run : Ctx → TaskRun → W → Write TaskRun W
  pub get_task_run : Ctx → String → W → Read TaskRun W
  pub list_task_runs_by_repository : Ctx → String → W → Read (List TaskRunSummary) W
  pub list_task_runs : Ctx → String → W → Read (List TaskRunSummary) W
  pub insert_session_event : Ctx → SessionEvent → W → Option Error × W
  pub list_session_events : Ctx → String → W → Read (List SessionEvent) W
  pub get_batch_progress : Ctx → String → W → Read BatchProgress W
