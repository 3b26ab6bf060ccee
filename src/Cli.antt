-- ===== src/Cli.antt =====
-- internal/infrastructure/driver/cliadapter/cli.go: the command line.
--
-- `Run` is `run`, and each `run…` method the function of that name, with a function for each verb
-- of its `switch`. A run takes the database and returns it beside what it prints on Stdout, or the
-- error; the usage that two of the errors print on Stderr belongs to them. An `Output` holds the
-- values that its line prints.
pub mod Manage
pub mod Play
pub mod Run
pub mod Refines
pub mod Lines
use keep_it_up.Prelude.{
  ℤ, pos, Bool, ◌||◌, Option, none, some, List, [], ◌∷◌, String, str_eq, if◌then◌else◌, Result, ok,
  err, map_err,
}
use keep_it_up.Model.{Game, Player, Interaction, SharedData}
use keep_it_up.Number.{parse_int}
use keep_it_up.Text.{is_password_valid}
use keep_it_up.Db.{Db}
use keep_it_up.Usecase.{Error, bad_password, Clock, Action}
use keep_it_up.Usecase.GameManagement.{add_game, update, delete}
use keep_it_up.Usecase.AccessManagement.{grant, revoke, check}
use keep_it_up.Usecase.PlayerManagement.{
  add_player, rename, update_password, update_password_force, remove_player,
}
use keep_it_up.Usecase.Authentication.{generate_password_hash, check_player_password}
use keep_it_up.Usecase.DataFetching.{list_games, get_shared_data, list_interactions}
use keep_it_up.Usecase.GameCommands.{save, pause, resume}
use keep_it_up.Requests.{Platform}

-- What is printed on Stdout.
pub data Output : Type 0 where
  usage valid : Output
  game_added : Game → Output
  game_updated game_deleted : ℤ → Output
  access_granted access_revoked : ℤ → ℤ → Output
  access_checked : ℤ → ℤ → Bool → Output
  player_added player_checked : Player → Output
  player_renamed player_deleted : ℤ → Output
  password_updated password_forced hash : String → Output
  games : List Game → Output
  shared : SharedData → Output
  interactions : List Interaction → Output
  game_saved : ℤ → ℤ → ℤ → Output
  game_resumed game_paused : ℤ → ℤ → Output

-- The errors: the words in front of an error, and the argument that it names.
pub data CliError : Type 0 where
  no_command : CliError
  unknown_command no_subcommand wrong_arg_count : String → CliError
  unknown_subcommand : String → String → CliError
  invalid_id : String → String → CliError
  invalid_limit invalid_offset invalid_timestamp : String → CliError
  failed : String → Error → CliError

abbrev pub Ran : Type 0
Ran = Result CliError Output × Db

-- `parseID` of an argument, in front of the rest of the verb.
abbrev pub with_id : String → String → Db → (ℤ → Ran) → Ran
with_id cmd s db rest = elim (parse_int s) [
  | none ↦ (err (invalid_id cmd s), db)
  | some id ↦ rest id
]

-- `strconv.ParseInt` of an argument that is no id.
abbrev pub with_number : CliError → String → Db → (ℤ → Ran) → Ran
with_number e s db rest = elim (parse_int s) [ none ↦ (err e, db) | some n ↦ rest n ]

-- The end of a verb: the use case's error behind the verb's words, or the line that is printed.
abbrev pub done : {A : Type 0} → String → (A → Output) → Action A → Ran
done cmd line (ok a, db) = (ok (line a), db)
done cmd line (err e, db) = (err (failed cmd e), db)

abbrev pub answered : {A : Type 0} → String → (A → Output) → Db → Result Error A → Ran
answered cmd line db (ok a) = (ok (line a), db)
answered cmd line db (err e) = (err (failed cmd e), db)
