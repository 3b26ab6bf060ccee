-- ===== src/Usecase/GameManagement.antt =====
-- internal/application/usecase/game_management.go
use keep_it_up.Prelude.{ℤ, pos, String, ltb, ltb_ℤ, if◌then◌else◌, Result, ok, err, map_err}
use keep_it_up.Model.{Game}
use keep_it_up.Text.{byte_len, trim_space}
use keep_it_up.Mapping.{to_domain_game}
use keep_it_up.Db.{Sqlite, Db, GameRow, DbError, create_game, update_game, delete_game}
use keep_it_up.Db.Games.{query_create_game, query_update_game, query_delete_game}
use keep_it_up.Usecase.{invalid_game_id, short_game_name, query_failed, Action}

abbrev created : Result DbError GameRow × Db → Action Game
created (ok g, db) = (ok (to_domain_game g), db)
created (err e, db) = (err (query_failed create_game e), db)

module _ (q : Sqlite) (db : Db) where
  -- `AddGame`
  unfoldable pub add_game : String → Action Game
  unfolding query_create_game
  add_game untrimmed =
      let name = trim_space untrimmed in
      if ltb (byte_len name) 3
      then (err (short_game_name name), db)
      else created (query_create_game q db name)

  -- `UpdateGame`
  unfoldable pub update : ℤ → String → Action Unit
  unfolding query_update_game
  update id untrimmed =
      if ltb_ℤ id (pos 1)
      then (err (invalid_game_id id), db)
      else let name = trim_space untrimmed in
        if ltb (byte_len name) 3
        then (err (short_game_name name), db)
        else let (r, db') = query_update_game q db id name in
          (map_err (query_failed update_game) r, db')

  -- `DeleteGame`
  unfoldable pub delete : ℤ → Action Unit
  unfolding query_delete_game
  delete id =
      if ltb_ℤ id (pos 1)
      then (err (invalid_game_id id), db)
      else let (r, db') = query_delete_game q db id in (map_err (query_failed delete_game) r, db')
