-- ===== src/Db/Players.antt =====
-- internal/infrastructure/database/players.sql.go
use keep_it_up.Prelude.{
  ℤ, Bool, false, none, some, List, [], ◌∷◌, ◌++◌, map, not, ◌&&◌, String, str_eq, filter, any,
  ◌==ℤ◌, if◌then◌else◌, Result, ok, err,
}
use keep_it_up.Db.{
  Sqlite, Db, PlayerRow, AccessRow, InteractionRow, DbError, no_rows, violated, unique_username,
  foreign_key, create_player, delete_player, get_player, get_player_by_username, update_player_name,
  update_player_password, reading, writing,
}

abbrev pub find_row : (PlayerRow → Bool) → List PlayerRow → Result DbError PlayerRow
find_row p [] = err no_rows
find_row p (r ∷ rest) = if p r then ok r else find_row p rest

-- `username TEXT NOT NULL UNIQUE`
unfoldable pub query_create_player :
    Sqlite → Db → String → String → String → Result DbError PlayerRow × Db
query_create_player q db name username hashed_password =
    let r : PlayerRow = record {
      id = q.next_id (map (λ (r : PlayerRow). r.id) db.players);
      name = name;
      username = username;
      hashed_password = hashed_password;
    } in
    writing q create_player db (
      if any (λ (p : PlayerRow). str_eq p.username username) db.players
      then (err (violated unique_username), db)
      else (ok r, record db { players = db.players ++ r ∷ [] }))

abbrev acted_by : ℤ → InteractionRow → Bool
acted_by id r = elim r.player_id [ none ↦ false | some p ↦ p ==ℤ id ]

-- With foreign keys enforced, the access goes with the player, and a player who has interactions
-- cannot be deleted: that reference has no ON DELETE clause.
unfoldable pub query_delete_player : Sqlite → Db → ℤ → Result DbError Unit × Db
query_delete_player q db id =
    let players' = filter (λ (p : PlayerRow). not (p.id ==ℤ id)) db.players in
    writing q delete_player db (
      if q.foreign_keys
      then (if any (λ (p : PlayerRow). p.id ==ℤ id) db.players && any (acted_by id) db.interactions
          then (err (violated foreign_key), db)
          else (
            ok tt,
            record db {
              players = players';
              access = filter (λ (a : AccessRow). not (a.player_id ==ℤ id)) db.access;
            },
          ))
      else (ok tt, record db { players = players' }))

unfoldable pub query_get_player : Sqlite → Db → ℤ → Result DbError PlayerRow
query_get_player q db id = reading q get_player (find_row (λ r. r.id ==ℤ id) db.players)

unfoldable pub query_player_by_username : Sqlite → Db → String → Result DbError PlayerRow
query_player_by_username q db username =
    reading q get_player_by_username (find_row (λ r. str_eq r.username username) db.players)

unfoldable pub query_update_player_name : Sqlite → Db → ℤ → String → Result DbError Unit × Db
query_update_player_name q db id name = writing q update_player_name db (
  ok tt,
  record db {
    players =
        map (λ (p : PlayerRow). if p.id ==ℤ id then record p { name = name } else p) db.players;
  },
)

unfoldable pub query_update_player_password : Sqlite → Db → ℤ → String → Result DbError Unit × Db
query_update_player_password q db id hashed_password = writing q update_player_password db (
  ok tt,
  record db {
    players =
        map
          (λ (p : PlayerRow).
            if p.id ==ℤ id then record p { hashed_password = hashed_password } else p)
          db.players;
  },
)
