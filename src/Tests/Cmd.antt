-- ===== src/Tests/Cmd.antt =====
-- A server that is started, interrupted and shut down.
use keep_it_up.Prelude.{List, [], ◌∷◌, Result, ok, String}
use keep_it_up.Cmd.{Outside}
use keep_it_up.Cmd.Serving.{Event, server_steps, done_case, main_steps}
use keep_it_up.Tests.Server
use keep_it_up.Tests.Logins.{variable, os}

abbrev outside : Outside
outside = record {
  os = os;
  env = variable;
  dotenv = [];
  sql_open = λ source. ok tt;
  sql_ping = λ source. ok tt;
  valkey_client = λ address. ok tt;
  valkey_ping = ok tt;
}

abbrev no_error : Result String Unit
no_error = ok tt

-- A step of the main goroutine that is blocked, before the signal.
abbrev blocked : List Event
blocked = main_steps ∷ []

abbrev four_steps : List Event
four_steps =
    server_steps done_case
    ∷ server_steps done_case
    ∷ server_steps done_case
    ∷ server_steps done_case
    ∷ []

abbrev two_steps : List Event
two_steps = main_steps ∷ main_steps ∷ []
