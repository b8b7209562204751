-- ===== src/Scheduler/State.antt =====
-- internal/scheduler/scheduler.go, its types and flags. What several goroutines share (the two
-- atomics, and what the store keeps) is a state that is threaded; a nil pointer or interface is `none`.
use yaralpho.Base.{ℕ, Bool, true, false, Option, none, some, List, String, Error, if◌then◌else◌}
use yaralpho.Base.Int.{ℤ, pos, leb_ℤ}
use yaralpho.Storage.Models.{Batch, Agent}
use yaralpho.Storage.Interface.{Ctx, Write, Read}

-- consumer.WorkItem
pub record WorkItem : Type 0 where
  pub batch_id : String
  pub task_ref : String
  pub agent_id : String
  pub runtime : String

-- The scheduler's own `Storage` interface.
pub record Store (W : Type 0) : Type 0 where
  pub list_batches : Ctx → ℕ → W → Read (List Batch) W
  pub update_batch : Ctx → Batch → W → Write Batch W
  pub list_agents : Ctx → W → Read (List Agent) W
  pub update_agent : Ctx → Agent → W → Write Agent W

-- `draining` and `active_runs` are atomics, which handlers read and write while a worker runs.
pub record State (W : Type 0) : Type 0 where
  pub draining : Bool
  pub active_runs : ℤ
  pub world : W

pub record Worker (W : Type 0) : Type 0 where
  pub process : WorkItem → State W → Option Error × State W

pub record Scheduler (W : Type 0) : Type 0 where
  pub store : Option (Store W)
  pub worker : Option (Worker W)
  pub interval : ℤ
  pub max_retries : ℤ

pub record Options : Type 0 where
  pub interval : ℤ
  pub draining : Bool
  pub max_retries : ℤ

abbrev pub default_max_retries : ℤ
default_max_retries = pos 5

-- Ten seconds, in nanoseconds.
abbrev pub default_interval : ℤ
default_interval = pos 10000000000

-- `New`: the scheduler, and the initial value of its atomics over a world.
unfoldable pub new :
    {W : Type 0} → Option (Store W) → Option (Worker W) → Options → W → Scheduler W × State W
new store worker opts w = (
  record {
    store = store;
    worker = worker;
    interval = if leb_ℤ opts.interval (pos 0) then default_interval else opts.interval;
    max_retries = if leb_ℤ opts.max_retries (pos 0) then default_max_retries else opts.max_retries;
  },
  record { draining = opts.draining; active_runs = pos 0; world = w },
)

unfoldable pub set_draining : {W : Type 0} → Bool → State W → State W
set_draining b s = record s { draining = b }

-- `Stop`: a nil scheduler is left alone.
unfoldable pub stop : {W : Type 0} → Option (Scheduler W) → State W → Option Error × State W
unfolding set_draining
stop none s = (none, s)
stop (some c) s = (none, set_draining true s)

unfoldable pub is_draining : {W : Type 0} → Option (Scheduler W) → State W → Bool
is_draining none s = false
is_draining (some c) s = s.draining

unfoldable pub active_count : {W : Type 0} → Option (Scheduler W) → State W → ℤ
active_count none s = pos 0
active_count (some c) s = s.active_runs
