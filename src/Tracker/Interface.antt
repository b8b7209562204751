-- ===== src/Tracker/Interface.antt =====
-- internal/tracker/tracker.go: `Tracker` as operations on a world. The arguments are the path of the
-- repository and the task, as in the source.
use yaralpho.Base.{Option, List, String, Error}
use yaralpho.Storage.Models.{Time}
use yaralpho.Storage.Interface.{Read}

pub record Comment : Type 0 where
  pub id : String
  pub author : String
  pub text : String
  pub created_at : Time
  pub updated_at : Time

pub record Tracker (W : Type 0) : Type 0 where
  pub add_comment : String → String → String → W → Option Error × W
  pub fetch_comments : String → String → W → Read (List Comment) W
  pub get_title : String → String → W → Read String W
