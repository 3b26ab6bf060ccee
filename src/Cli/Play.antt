-- ===== src/Cli/Play.antt =====
-- internal/infrastructure/driver/cliadapter/cli.go: the nouns that ask about passwords, fetch, and
-- play.
use keep_it_up.Prelude.{pos, List, [], ◌∷◌, String, str_eq, if◌then◌else◌, err, map_err}
use keep_it_up.Text.{is_password_valid}
use keep_it_up.Db.{Db}
use keep_it_up.Usecase.{Clock, bad_password}
use keep_it_up.Usecase.Authentication.{generate_password_hash, check_player_password}
use keep_it_up.Usecase.DataFetching.{list_games, get_shared_data, list_interactions}
use keep_it_up.Usecase.GameCommands.{save, pause, resume}
use keep_it_up.Requests.{Platform}
use keep_it_up.Cli.{
  valid, hash, player_checked, games, shared, interactions, game_saved, game_resumed, game_paused,
  no_subcommand, wrong_arg_count, unknown_subcommand, invalid_limit, invalid_offset,
  invalid_timestamp, Ran, with_id, with_number, done, answered,
}

module _ (p : Platform) (clock : Clock) (db : Db) where
  abbrev pub auth_validate : List String → Ran
  auth_validate (password ∷ []) =
      answered "auth validate-passwd" (λ _. valid) db
        (map_err bad_password (is_password_valid password))
  auth_validate _ = (err (wrong_arg_count "auth validate-passwd"), db)

  abbrev pub auth_hash : List String → Ran
  auth_hash (password ∷ []) =
      answered "auth hash-passwd" hash db (generate_password_hash p.bcrypt password)
  auth_hash _ = (err (wrong_arg_count "auth hash-passwd"), db)

  abbrev pub auth_check : List String → Ran
  auth_check (username ∷ password ∷ []) =
      answered "auth check-passwd" player_checked db
        (check_player_password p.sqlite p.bcrypt db username password)
  auth_check _ = (err (wrong_arg_count "auth check-passwd"), db)

  -- `runAuth`
  unfoldable pub run_auth : List String → Ran
  run_auth [] = (err (no_subcommand "auth"), db)
  run_auth (verb ∷ rest) =
      if str_eq verb "validate-passwd"
      then auth_validate rest
      else if str_eq verb "hash-passwd"
      then auth_hash rest
      else if str_eq verb "check-passwd"
      then auth_check rest
      else (err (unknown_subcommand "auth" verb), db)

  abbrev pub fetch_games : List String → Ran
  fetch_games (player_id ∷ []) =
      with_id "fetch games" player_id db
        λ pl. answered "fetch games" games db (list_games p.sqlite p.codec db pl)
  fetch_games _ = (err (wrong_arg_count "fetch games"), db)

  abbrev pub fetch_shared : List String → Ran
  fetch_shared (game_id ∷ []) =
      with_id "fetch shared" game_id db
        λ g. answered "fetch shared" shared db (get_shared_data p.sqlite p.codec db clock g)
  fetch_shared _ = (err (wrong_arg_count "fetch shared"), db)

  -- The offset may be left out, and is then 0.
  abbrev pub fetch_interactions : List String → Ran
  fetch_interactions (game_id ∷ limit ∷ []) = with_id "fetch interactions" game_id db λ g.
      with_number (invalid_limit limit) limit db λ n.
        answered "fetch interactions" interactions db
          (list_interactions p.sqlite p.codec db g n (pos 0))
  fetch_interactions (game_id ∷ limit ∷ offset ∷ []) = with_id "fetch interactions" game_id db λ g.
      with_number (invalid_limit limit) limit db λ n.
        with_number (invalid_offset offset) offset db λ m.
          answered "fetch interactions" interactions db
            (list_interactions p.sqlite p.codec db g n m)
  fetch_interactions _ = (err (wrong_arg_count "fetch interactions"), db)

  -- `runFetch`, whose first error begins with "data"
  unfoldable pub run_fetch : List String → Ran
  run_fetch [] = (err (no_subcommand "data"), db)
  run_fetch (verb ∷ rest) =
      if str_eq verb "games"
      then fetch_games rest
      else if str_eq verb "shared"
      then fetch_shared rest
      else if str_eq verb "interactions"
      then fetch_interactions rest
      else (err (unknown_subcommand "fetch" verb), db)

  abbrev pub command_save : List String → Ran
  command_save (game_id ∷ player_id ∷ duration ∷ []) = with_id "command save" game_id db λ g.
      with_id "command save" player_id db λ pl.
        with_number (invalid_timestamp duration) duration db
          λ n. done "command save" (λ _. game_saved g pl n) (save p.sqlite p.codec clock db g pl n)
  command_save _ = (err (wrong_arg_count "command save"), db)

  abbrev pub command_resume : List String → Ran
  command_resume (game_id ∷ player_id ∷ []) = with_id "command resume" game_id db λ g.
      with_id "command resume" player_id db
        λ pl. done "command resume" (λ _. game_resumed g pl) (resume p.sqlite p.codec clock db g pl)
  command_resume _ = (err (wrong_arg_count "command resume"), db)

  abbrev pub command_pause : List String → Ran
  command_pause (game_id ∷ player_id ∷ []) = with_id "command pause" game_id db λ g.
      with_id "command pause" player_id db
        λ pl. done "command pause" (λ _. game_paused g pl) (pause p.sqlite p.codec clock db g pl)
  command_pause _ = (err (wrong_arg_count "command pause"), db)

  -- `runCommand`
  unfoldable pub run_command : List String → Ran
  run_command [] = (err (no_subcommand "command"), db)
  run_command (verb ∷ rest) =
      if str_eq verb "save"
      then command_save rest
      else if str_eq verb "resume"
      then command_resume rest
      else if str_eq verb "pause"
      then command_pause rest
      else (err (unknown_subcommand "command" verb), db)
