-- ===== src/Cli/Run.antt =====
-- internal/infrastructure/driver/cliadapter/cli.go: `Run`.
use keep_it_up.Prelude.{◌||◌, List, [], ◌∷◌, String, str_eq, if◌then◌else◌, ok, err}
use keep_it_up.Db.{Db}
use keep_it_up.Usecase.{Clock}
use keep_it_up.Requests.{Platform}
use keep_it_up.Cli.{usage, no_command, unknown_command, Ran}
use keep_it_up.Cli.Manage.{run_game, run_access, run_player}
use keep_it_up.Cli.Play.{run_auth, run_fetch, run_command}

-- `Run`
unfoldable pub run : Platform → Clock → Db → List String → Ran
unfolding run_game run_access run_player run_auth run_fetch run_command
run p clock db [] = (err no_command, db)
run p clock db (noun ∷ rest) =
    if str_eq noun "game"
    then run_game p db rest
    else if str_eq noun "access"
    then run_access p db rest
    else if str_eq noun "player"
    then run_player p db rest
    else if str_eq noun "auth"
    then run_auth p clock db rest
    else if str_eq noun "fetch"
    then run_fetch p clock db rest
    else if str_eq noun "command"
    then run_command p clock db rest
    else if str_eq noun "help" || str_eq noun "-h" || str_eq noun "--help"
    then (ok usage, db)
    else (err (unknown_command noun), db)
