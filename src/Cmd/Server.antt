-- ===== src/Cmd/Server.antt =====
-- cmd/server/main.go: `run`.
use keep_it_up.Prelude.{ℕ, Option, none, some, List, [], ◌∷◌, String, Result, ok, err}
use keep_it_up.Config.{Config}
use keep_it_up.Usecase.Constructors.{
  default_time_provider, new_game_commands, new_data_fetching, new_access_management,
  new_authentication,
}
use keep_it_up.Idempotency.Valkey.{Valkey, Base64, valkey_store}
use keep_it_up.Http.Adapter.{Deps, Adapter, with_idempotency, new_adapter}
use keep_it_up.Cmd.Defer.{
  database, valkey_client, Effect, Failure, create_failed, valkey_failed, Frame, Program, ◌>>=◌,
  ◌>>◌, called, return, hold, use_of, effects_of, enter,
}
use keep_it_up.Cmd.Serving.{MainAt, exited, Event, starting, serving}
use keep_it_up.Cmd.{Outside, connect}

module _ {S : Type 0} (v : Valkey S) (b : Base64) where
  -- The adapter over the constructed use cases.
  abbrev pub adapter_of : Config → Deps String → Adapter String S
  adapter_of cfg deps =
      new_adapter cfg.server_address cfg.jwt_secret default_time_provider deps cfg.session_lifetime
        cfg.interactions_limit
        (with_idempotency (valkey_store v b) cfg.idempotency_ttl cfg.idempotency_header ∷ [])

  -- `run` up to the start of the goroutines.
  unfoldable pub start : Outside → Program (Adapter String S)
  start o = do
    (cfg, q) ← connect o
    fetching ← called create_failed (new_data_fetching (some q) (some default_time_provider))
    commands ← called create_failed (new_game_commands (some q) (some default_time_provider))
    access ← called create_failed (new_access_management (some q))
    hold valkey_client valkey_failed (o.valkey_client cfg.valkey_address)
    use_of valkey_client
    called valkey_failed o.valkey_ping
    auth ← called create_failed (
        new_authentication (some q) (
          some (record {
            jwt_secret = cfg.jwt_secret;
            time_provider = default_time_provider;
            session_lifetime = cfg.session_lifetime;
          })))
    return (
        adapter_of cfg
          (record { auth = auth; fetch = fetching; commands = commands; access = access }))

  -- A started server serves over both connections.
  unfoldable pub serve_with : Outside → Program (Adapter String S)
  serve_with o = do a ← start o; use_of database; use_of valkey_client; return a

  -- The exit code and what has been done, once the main goroutine returns.
  abbrev pub exit : List Effect → MainAt → Option (ℕ × List Effect)
  exit effects (exited c) = some (c, effects)
  exit effects _ = none

  abbrev pub ended :
      Result String Unit
      → List Event
      → Result Failure (Adapter String S) × Frame
      → Option (ℕ × List Effect)
  ended shutdown events (err e, f) = some (1, effects_of f)
  ended shutdown events (ok a, f) = exit (effects_of f) (serving shutdown events starting).main_at

  -- `run`, with what `Shutdown` returns and a schedule of the goroutines; none while it runs.
  unfoldable pub server : Outside → Result String Unit → List Event → Option (ℕ × List Effect)
  server o shutdown events = ended shutdown events (enter (serve_with o))
