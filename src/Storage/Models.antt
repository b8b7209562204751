-- ===== src/Storage/Models.antt =====
-- internal/storage/models.go. A status is a Go string: `unset` is the empty one, and `other` stands
-- for any text that is none of the declared constants. A time.Time is a number of nanoseconds since
-- the zero time, which is 0.
use Prim.Native.String.{String}
use yaralpho.Base.{ℕ, ◌==◌, Bool, true, false, Option, List, str_eq}
use yaralpho.Base.Int.{ℤ}

pub data BatchStatus : Type 0 where
  unset pending in_progress paused done failed : BatchStatus
  other : String → BatchStatus

pub data ItemStatus : Type 0 where
  unset pending in_progress done failed : ItemStatus
  other : String → ItemStatus

pub data TaskRunStatus : Type 0 where
  unset running succeeded failed stopped timed_out : TaskRunStatus
  other : String → TaskRunStatus

pub data AgentStatus : Type 0 where
  unset idle busy : AgentStatus
  other : String → AgentStatus

abbrev pub Time : Type 0
Time = ℕ

abbrev pub is_zero : Time → Bool
is_zero t = t == 0

pub record Repository : Type 0 where
  pub id : String
  pub name : String
  pub path : String
  pub created_at : Time
  pub updated_at : Time

pub record BatchItem : Type 0 where
  pub input : String
  pub status : ItemStatus
  pub attempts : ℤ

pub record Batch : Type 0 where
  pub id : String
  pub repository_id : String
  pub created_at : Time
  pub updated_at : Time
  pub items : List BatchItem
  pub status : BatchStatus
  pub summary : String
  pub session_name : String

pub record RunResult : Type 0 where
  pub commit_hash : String
  pub final_message : String

pub record TaskRun : Type 0 where
  pub id : String
  pub batch_id : String
  pub repository_id : String
  pub task_ref : String
  pub session_id : String
  pub started_at : Time
  pub finished_at : Option Time
  pub status : TaskRunStatus
  pub result : Option RunResult

pub record TaskRunSummary : Type 0 where
  pub task_run : TaskRun
  pub total_events : ℕ

pub record Agent : Type 0 where
  pub id : String
  pub name : String
  pub runtime : String
  pub status : AgentStatus
  pub created_at : Time
  pub updated_at : Time

pub record BatchProgress : Type 0 where
  pub total : ℤ
  pub pending : ℤ
  pub running : ℤ
  pub succeeded : ℤ
  pub failed : ℤ
  pub stopped : ℤ

-- A decoded JSON value, the `any` of Go; a number is kept as its text.
mutual
  pub data Value : Type 0 where
    null : Value
    boolean : Bool → Value
    number : String → Value
    text : String → Value
    array : Values → Value
    object : Fields → Value

  pub data Values : Type 0 where
    nil : Values
    cons : Value → Values → Values

  -- A map[string]any.
  pub data Fields : Type 0 where
    end : Fields
    field : String → Value → Fields → Fields

pub record SessionEvent : Type 0 where
  pub batch_id : String
  pub run_id : String
  pub session_id : String
  pub event : Fields
  pub ingested_at : Time

-- Tests against the declared constants.
abbrev pub is_pending : ItemStatus → Bool
is_pending ItemStatus.pending = true
is_pending _ = false

abbrev pub is_in_progress : ItemStatus → Bool
is_in_progress ItemStatus.in_progress = true
is_in_progress _ = false

abbrev pub is_done : ItemStatus → Bool
is_done ItemStatus.done = true
is_done _ = false

abbrev pub is_failed : ItemStatus → Bool
is_failed ItemStatus.failed = true
is_failed _ = false

abbrev pub is_idle : AgentStatus → Bool
is_idle AgentStatus.idle = true
is_idle _ = false

abbrev pub is_busy : AgentStatus → Bool
is_busy AgentStatus.busy = true
is_busy _ = false

-- `a == b` on two batch statuses.
abbrev pub BatchStatus_eq : BatchStatus → BatchStatus → Bool
BatchStatus_eq BatchStatus.unset BatchStatus.unset = true
BatchStatus_eq BatchStatus.pending BatchStatus.pending = true
BatchStatus_eq BatchStatus.in_progress BatchStatus.in_progress = true
BatchStatus_eq BatchStatus.paused BatchStatus.paused = true
BatchStatus_eq BatchStatus.done BatchStatus.done = true
BatchStatus_eq BatchStatus.failed BatchStatus.failed = true
BatchStatus_eq (BatchStatus.other s) (BatchStatus.other t) = str_eq s t
BatchStatus_eq _ _ = false
