-- ===== src/Cli/Refines/Run.antt =====
-- internal/infrastructure/driver/cliadapter/cli.go: what a run does to the database.
use keep_it_up.Prelude.{List, [], ◌∷◌, String, refl, inl}
use keep_it_up.Db.{Db}
use keep_it_up.Usecase.{Clock}
use keep_it_up.Requests.{Platform, Faults, faulty}
use keep_it_up.Cli.Run.{run}
use keep_it_up.Cli.Refines.{Refines, refused-Refines, printed-Refines, if-Refines, noun-Refines}
use keep_it_up.Cli.Refines.Manage.{run_game-Refines, run_access-Refines, run_player-Refines}
use keep_it_up.Cli.Refines.Play.{run_auth-Refines, run_fetch-Refines, run_command-Refines}

ruleset run_rules = (
  refused-Refines, printed-Refines, if-Refines, noun-Refines, run_game-Refines, run_access-Refines,
  run_player-Refines, run_auth-Refines, run_fetch-Refines, run_command-Refines,
)

-- Whatever the arguments, a run of the command line leaves the database as it was, or it has
-- performed exactly one of the calls of the ports that change the database, with the clock's
-- reading, and has returned no error; the call is then the one that the arguments say: the noun and
-- the verb are those of the call, its texts are the arguments behind them, and its numbers what
-- these arguments are parsed as, in the order of the usage.
pub run-Refines :
    (p : Platform) (f : Faults) (clock : Clock) (db : Db) (args : List String)
    → Refines p f clock db args (run (faulty p f) clock db args)
unfolding run
run-Refines p f clock db [] = inl refl
run-Refines p f clock db (noun ∷ rest) = search run_rules depth 12
