-- ===== src/Db/Access.antt =====
-- internal/infrastructure/database/access.sql.go
use keep_it_up.Prelude.{
  ℤ, Bool, [], ◌∷◌, ◌++◌, not, ◌&&◌, filter, any, ◌==ℤ◌, if◌then◌else◌, Result, ok, err,
}
use keep_it_up.Db.{
  Sqlite, Db, GameRow, PlayerRow, AccessRow, DbError, violated, primary_key_access, foreign_key,
  check_player_access, grant_player_access, revoke_player_access, reading, writing,
}

abbrev pub is_access : ℤ → ℤ → AccessRow → Bool
is_access game_id player_id a = a.game_id ==ℤ game_id && a.player_id ==ℤ player_id

-- `SELECT EXISTS (…)`
unfoldable pub query_check_access : Sqlite → Db → ℤ → ℤ → Result DbError Bool
query_check_access q db game_id player_id =
    reading q check_player_access (ok (any (is_access game_id player_id) db.access))

-- `PRIMARY KEY (game_id, player_id)` and the foreign keys of `access`
unfoldable pub query_grant_access : Sqlite → Db → ℤ → ℤ → Result DbError AccessRow × Db
query_grant_access q db game_id player_id =
    let a : AccessRow = record { game_id = game_id; player_id = player_id } in
    writing q grant_player_access db (
      if any (is_access game_id player_id) db.access
      then (err (violated primary_key_access), db)
      else if q.foreign_keys
          && not (
              any (λ (g : GameRow). g.id ==ℤ game_id) db.games
              && any (λ (p : PlayerRow). p.id ==ℤ player_id) db.players)
      then (err (violated foreign_key), db)
      else (ok a, record db { access = db.access ++ a ∷ [] }))

unfoldable pub query_revoke_access : Sqlite → Db → ℤ → ℤ → Result DbError Unit × Db
query_revoke_access q db game_id player_id = writing q revoke_player_access db (
  ok tt,
  record db { access = filter (λ (a : AccessRow). not (is_access game_id player_id a)) db.access },
)
