-- ===== src/Model.antt =====
-- internal/core/model/model.go: the domain's records. A pointer to a scalar is an `Option`.
use keep_it_up.Prelude.{ℤ, Bool, String, Option}
use keep_it_up.Time.{Time}

-- `SharedDataStatus`
pub data Status : Type 0 where
  not_started playing paused : Status

pub Status-discrete : Discrete Status
Status-discrete = hlevel

pub record Game : Type 0 where
  pub id : ℤ
  pub name : String

pub record Player : Type 0 where
  pub id : ℤ
  pub name : String
  pub username : String

pub record Interaction : Type 0 where
  pub id : ℤ
  pub game_id : ℤ
  pub player_id : Option ℤ
  pub action : String
  pub occurred_at : Time
  pub saved_by : Option ℤ

pub record SharedData : Type 0 where
  pub game_id : ℤ
  pub valid : Option Bool
  pub status : Status
  pub deadline_at : Option Time
  pub last_saved_at : Option Time
  pub last_paused_at : Option Time

pub record AuthResult : Type 0 where
  pub token : String
  pub player : Player
