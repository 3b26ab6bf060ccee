-- ===== src/Db/Games.antt =====
-- internal/infrastructure/database/games.sql.go
use keep_it_up.Prelude.{
  ℤ, [], ◌∷◌, ◌++◌, map, not, String, filter, ◌==ℤ◌, if◌then◌else◌, Result, ok,
}
use keep_it_up.Db.{
  Sqlite, Db, GameRow, AccessRow, InteractionRow, DbError, create_game, update_game, delete_game,
  writing,
}

unfoldable pub query_create_game : Sqlite → Db → String → Result DbError GameRow × Db
query_create_game q db name =
    let g : GameRow = record {
      id = q.next_id (map (λ (r : GameRow). r.id) db.games);
      name = name;
    } in
    writing q create_game db (ok g, record db { games = db.games ++ g ∷ [] })

unfoldable pub query_update_game : Sqlite → Db → ℤ → String → Result DbError Unit × Db
query_update_game q db id name = writing q update_game db (
  ok tt,
  record db {
    games = map (λ (g : GameRow). if g.id ==ℤ id then record g { name = name } else g) db.games;
  },
)

-- With foreign keys enforced, `ON DELETE CASCADE` takes the game's access and interactions along.
unfoldable pub query_delete_game : Sqlite → Db → ℤ → Result DbError Unit × Db
query_delete_game q db id =
    let games' = filter (λ (g : GameRow). not (g.id ==ℤ id)) db.games in
    writing q delete_game db (
      ok tt,
      (if q.foreign_keys
          then record db {
            games = games';
            access = filter (λ (a : AccessRow). not (a.game_id ==ℤ id)) db.access;
            interactions = filter (λ (r : InteractionRow). not (r.game_id ==ℤ id)) db.interactions;
          }
          else record db { games = games' }),
    )
