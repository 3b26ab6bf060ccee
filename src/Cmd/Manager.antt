-- ===== src/Cmd/Manager.antt =====
-- cmd/manager/main.go: `run`.
use keep_it_up.Prelude.{ℕ, some, List, String, Result, ok, err}
use keep_it_up.Db.{Db}
use keep_it_up.Time.{Time}
use keep_it_up.Config.{Config}
use keep_it_up.Requests.{Platform}
use keep_it_up.Usecase.Constructors.{
  Queries, DefaultTimeProvider, default_time_provider, time, GameCommands, new_game_commands,
  DataFetching, new_data_fetching, GameManagement, new_game_management, AccessManagement,
  new_access_management, Authentication, new_authentication, PlayerManagement,
  new_player_management,
}
use keep_it_up.Http.Adapter.{JwtTokenGenerator}
use keep_it_up.Cli.{Ran}
use keep_it_up.Cli.Run.{run}
use keep_it_up.Cmd.Defer.{
  database, Effect, Failure, create_failed, Frame, Program, ◌>>=◌, ◌>>◌, called, return, use_of,
  effects_of, enter,
}
use keep_it_up.Cmd.{Outside, connect}

-- `cliadapter.Deps`, without the two streams
pub record CliDeps : Type 0 where
  pub games : GameManagement (Queries String)
  pub access : AccessManagement (Queries String)
  pub players :
      PlayerManagement (Queries String) (Authentication (Queries String) JwtTokenGenerator)
  pub auth : Authentication (Queries String) JwtTokenGenerator
  pub fetch : DataFetching (Queries String) DefaultTimeProvider
  pub commands : GameCommands (Queries String) DefaultTimeProvider

-- The constructors, in the order of the calls.
unfoldable pub cli_deps : Config → Queries String → Program CliDeps
cli_deps cfg q = do
  auth ← called create_failed (
      new_authentication (some q) (
        some (record {
          jwt_secret = cfg.jwt_secret;
          time_provider = default_time_provider;
          session_lifetime = cfg.session_lifetime;
        })))
  players ← called create_failed (new_player_management (some q) (some auth))
  games ← called create_failed (new_game_management (some q))
  access ← called create_failed (new_access_management (some q))
  fetch ← called create_failed (new_data_fetching (some q) (some default_time_provider))
  commands ← called create_failed (new_game_commands (some q) (some default_time_provider))
  return (record {
    games = games;
    access = access;
    players = players;
    auth = auth;
    fetch = fetch;
    commands = commands;
  })

-- `run` to its return, with the arguments and the database that the name stands for.
unfoldable pub manage : Platform → Outside → Time → List String → Db → Program Ran
manage p o now args db = do
  (cfg, q) ← connect o
  deps ← cli_deps cfg q
  use_of database
  return (run p (time deps.commands.tp now) db args)

-- The exit code, the database that is left, and what has been done.
abbrev pub left : Db → Result Failure Ran × Frame → ℕ × Db × List Effect
left db (err e, f) = (1, db, effects_of f)
left db (ok (err e, db'), f) = (1, db', effects_of f)
left db (ok (ok line, db'), f) = (0, db', effects_of f)

unfoldable pub manager : Platform → Outside → Time → List String → Db → ℕ × Db × List Effect
manager p o now args db = left db (enter (manage p o now args db))
