-- ===== src/Notify/Events.antt =====
-- internal/notify/interface.go: `Event`, and `Notifier` as operations on a world.
use yaralpho.Base.{Option, none, String, Error}
use yaralpho.Base.Int.{ℤ, pos}
use yaralpho.Storage.Interface.{Ctx}

pub record Event : Type 0 where
  pub kind : String
  pub batch_id : String
  pub run_id : String
  pub task_ref : String
  pub task_name : String
  pub parent_task_ref : String
  pub status : String
  pub details : String
  pub attempt : ℤ
  pub max_attempts : ℤ
  pub commit_hash : String

-- Event{}
abbrev pub no_event : Event
no_event = record {
  kind = "";
  batch_id = "";
  run_id = "";
  task_ref = "";
  task_name = "";
  parent_task_ref = "";
  status = "";
  details = "";
  attempt = pos 0;
  max_attempts = pos 0;
  commit_hash = "";
}

pub record Notifier (W : Type 0) : Type 0 where
  pub notify_event : Ctx → Event → W → Option Error × W
  pub notify_task_finished :
      Ctx → String → String → String → String → String → String → W → Option Error × W
  pub notify_batch_idle : Ctx → String → W → Option Error × W
  pub notify_error : Ctx → String → String → String → Error → W → Option Error × W

-- `Noop`
unfoldable pub noop : {W : Type 0} → Notifier W
noop = record {
  notify_event = λ k e w. (none, w);
  notify_task_finished = λ k b r t n s c w. (none, w);
  notify_batch_idle = λ k b w. (none, w);
  notify_error = λ k b r t e w. (none, w);
}
