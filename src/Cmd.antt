-- ===== src/Cmd.antt =====
-- cmd: the two entry points.
--
-- The environment, the file .env, and the answers of `sql.Open`, of `valkey.NewClient` and of the
-- two pings are parameters. Where the signals are notified nothing fails. An error of a deferred
-- `Close` is only logged.
pub mod Defer
pub mod Manager
pub mod Serving
pub mod Server
pub mod Nested
pub mod Exits
pub mod Starts
pub mod Serves
pub mod Sessions
pub mod Returns
use keep_it_up.Prelude.{◌∷◌, List, [], String, Result, ok, some}
use Prim.Native.String.{◌++◌}
use keep_it_up.Config.{Config, Os, Env, load, load_env}
use keep_it_up.Usecase.Constructors.{Queries, new_queries}
use keep_it_up.Cmd.Defer.{
  Resource, signals, database, load_failed, open_failed, connect_failed, Program, ◌>>=◌, ◌>>◌,
  called, return, hold, use_of,
}

pub record Outside : Type 0 where
  pub os : Os
  pub env : Env
  pub dotenv : List String
  pub sql_open : String → Result String Unit
  pub sql_ping : String → Result String Unit
  pub valkey_client : String → Result String Unit
  pub valkey_ping : Result String Unit

-- The data source name stands for the connection.
abbrev pub data_source : Config → String
data_source cfg = "file:" ++ (cfg.db_string ++ "?mode=rw")

-- How both `run` begin: to the queries over the database that has answered.
unfoldable pub connect : Outside → Program (Config × Queries String)
connect o = do
  hold signals open_failed (ok tt)
  cfg ← called load_failed (load o.os (load_env o.os o.dotenv o.env))
  hold database open_failed (o.sql_open (data_source cfg))
  use_of database
  called connect_failed (o.sql_ping (data_source cfg))
  return (cfg, new_queries (data_source cfg))
