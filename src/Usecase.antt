-- ===== src/Usecase.antt =====
-- internal/application/usecase: what the use cases share.
--
-- A use case takes the database and returns it beside its `(value, error)`. `ctx` carries no data
-- and is left out; a cancelled one shows as a query that fails. An error is its kind, with the
-- values that its message prints.
pub mod Constructors
pub mod GameCommands
pub mod GameManagement
pub mod AccessManagement
pub mod DataFetching
pub mod Authentication
pub mod PlayerManagement
use keep_it_up.Prelude.{ℤ, pos, String, Bool, ltb_ℤ, if◌then◌else◌, Result, ok, err}
use keep_it_up.Time.{Time}
use keep_it_up.Text.{PasswordError}
use keep_it_up.SharedData.{BuildError}
use keep_it_up.Db.{Db, Query, DbError}

pub data Error : Type 0 where
  invalid_game_id invalid_player_id : ℤ → Error
  short_duration negative_limit negative_offset : Error
  clock_failed : String → Error
  cannot_save_while_paused cannot_pause cannot_resume : Error
  query_failed : Query → DbError → Error
  mapping_failed : ℤ → Error
  build_failed : BuildError → Error
  short_game_name short_player_name short_username not_alphanumeric : String → Error
  password_is_username empty_username : Error
  bad_password : PasswordError → Error
  hash_failed compare_failed token_failed : String → Error
  incorrect_current_password player_does_not_exist : Error
  unauthorized bad_request : Error
  check_failed : Error → Error

-- `port.TimeProvider`: what the call of `Time()` returns.
abbrev pub Clock : Type 0
Clock = Result String Time

-- A use case that changes the database.
abbrev pub Action : Type 0 → Type 0
Action A = Result Error A × Db

-- The two guards that most use cases begin with.
abbrev pub with_ids : {A : Type 0} → ℤ → ℤ → (Error → A) → A → A
with_ids game_id player_id fail rest =
    if ltb_ℤ game_id (pos 1)
    then fail (invalid_game_id game_id)
    else if ltb_ℤ player_id (pos 1)
    then fail (invalid_player_id player_id)
    else rest
