-- ===== src/Cli/Manage.antt =====
-- internal/infrastructure/driver/cliadapter/cli.go: the nouns that manage games, access and players.
use keep_it_up.Prelude.{List, [], ◌∷◌, String, str_eq, if◌then◌else◌, err}
use keep_it_up.Db.{Db}
use keep_it_up.Usecase.GameManagement.{add_game, update, delete}
use keep_it_up.Usecase.AccessManagement.{grant, revoke, check}
use keep_it_up.Usecase.PlayerManagement.{
  add_player, rename, update_password, update_password_force, remove_player,
}
use keep_it_up.Requests.{Platform}
use keep_it_up.Cli.{
  game_added, game_updated, game_deleted, access_granted, access_revoked, access_checked,
  player_added, player_renamed, player_deleted, password_updated, password_forced, no_subcommand,
  wrong_arg_count, unknown_subcommand, Ran, with_id, done, answered,
}

module _ (p : Platform) (db : Db) where
  abbrev pub game_add : List String → Ran
  game_add (name ∷ []) = done "game add" game_added (add_game p.sqlite db name)
  game_add _ = (err (wrong_arg_count "game add"), db)

  abbrev pub game_update : List String → Ran
  game_update (id ∷ name ∷ []) =
      with_id "game update" id db
        λ g. done "game update" (λ _. game_updated g) (update p.sqlite db g name)
  game_update _ = (err (wrong_arg_count "game update"), db)

  abbrev pub game_delete : List String → Ran
  game_delete (id ∷ []) =
      with_id "game delete" id db
        λ g. done "game delete" (λ _. game_deleted g) (delete p.sqlite db g)
  game_delete _ = (err (wrong_arg_count "game delete"), db)

  -- `runGame`
  unfoldable pub run_game : List String → Ran
  run_game [] = (err (no_subcommand "game"), db)
  run_game (verb ∷ rest) =
      if str_eq verb "add"
      then game_add rest
      else if str_eq verb "update"
      then game_update rest
      else if str_eq verb "delete"
      then game_delete rest
      else (err (unknown_subcommand "game" verb), db)

  abbrev pub access_grant : List String → Ran
  access_grant (game_id ∷ player_id ∷ []) = with_id "access grant" game_id db λ g.
      with_id "access grant" player_id db
        λ pl. done "access grant" (λ _. access_granted pl g) (grant p.sqlite db g pl)
  access_grant _ = (err (wrong_arg_count "access grant"), db)

  abbrev pub access_revoke : List String → Ran
  access_revoke (game_id ∷ player_id ∷ []) = with_id "access revoke" game_id db λ g.
      with_id "access revoke" player_id db
        λ pl. done "access revoke" (λ _. access_revoked pl g) (revoke p.sqlite db g pl)
  access_revoke _ = (err (wrong_arg_count "access revoke"), db)

  abbrev pub access_check : List String → Ran
  access_check (game_id ∷ player_id ∷ []) = with_id "access check" game_id db λ g.
      with_id "access check" player_id db
        λ pl. answered "access check" (access_checked pl g) db (check p.sqlite db g pl)
  access_check _ = (err (wrong_arg_count "access check"), db)

  -- `runAccess`
  unfoldable pub run_access : List String → Ran
  run_access [] = (err (no_subcommand "access"), db)
  run_access (verb ∷ rest) =
      if str_eq verb "grant"
      then access_grant rest
      else if str_eq verb "revoke"
      then access_revoke rest
      else if str_eq verb "check"
      then access_check rest
      else (err (unknown_subcommand "access" verb), db)

  abbrev pub player_add : List String → Ran
  player_add (name ∷ username ∷ password ∷ []) =
      done "player add" player_added
        (add_player p.sqlite p.bcrypt db p.is_letter p.is_digit name username password)
  player_add _ = (err (wrong_arg_count "player add"), db)

  abbrev pub player_rename : List String → Ran
  player_rename (id ∷ name ∷ []) =
      with_id "player rename" id db
        λ pl. done "player rename" (λ _. player_renamed pl) (rename p.sqlite p.bcrypt db pl name)
  player_rename _ = (err (wrong_arg_count "player rename"), db)

  abbrev pub player_passwd : List String → Ran
  player_passwd (username ∷ current ∷ new ∷ []) =
      done "player passwd" (λ _. password_updated username)
        (update_password p.sqlite p.bcrypt db username current new)
  player_passwd _ = (err (wrong_arg_count "player passwd"), db)

  abbrev pub player_passwd_force : List String → Ran
  player_passwd_force (username ∷ password ∷ []) =
      done "player passwd-force" (λ _. password_forced username)
        (update_password_force p.sqlite p.bcrypt db username password)
  player_passwd_force _ = (err (wrong_arg_count "player passwd-force"), db)

  abbrev pub player_delete : List String → Ran
  player_delete (id ∷ []) =
      with_id "player delete" id db
        λ pl. done "player delete" (λ _. player_deleted pl) (remove_player p.sqlite p.bcrypt db pl)
  player_delete _ = (err (wrong_arg_count "player delete"), db)

  -- `runPlayer`
  unfoldable pub run_player : List String → Ran
  run_player [] = (err (no_subcommand "player"), db)
  run_player (verb ∷ rest) =
      if str_eq verb "add"
      then player_add rest
      else if str_eq verb "rename"
      then player_rename rest
      else if str_eq verb "passwd"
      then player_passwd rest
      else if str_eq verb "passwd-force"
      then player_passwd_force rest
      else if str_eq verb "delete"
      then player_delete rest
      else (err (unknown_subcommand "player" verb), db)
