-- ===== src/Db/Fetching.antt =====
-- internal/infrastructure/database/fetching.sql.go: the queries that read games and interactions.
use keep_it_up.Prelude.{
  ℤ, pos, negsuc, Bool, false, ◌&&◌, Option, none, some, List, [], ◌∷◌, ◌++◌, map, filter, take,
  drop, ◌==ℤ◌, Result, ok, err,
}
use keep_it_up.Db.{
  Sqlite, Db, GameRow, AccessRow, InteractionRow, DbError, no_rows, reading, first_interaction,
  last_interaction, list_interactions_for_replay, list_player_games, list_player_interactions,
  list_recent_interactions,
}
use keep_it_up.Db.Sort.{order_by}
use keep_it_up.Db.Trigger.{of_game, earlier, later, first_row, latest}

-- `LIMIT n OFFSET m`: SQLite takes a negative limit for none, and a negative offset for 0.
abbrev limited : {A : Type 0} → ℤ → List A → List A
limited (pos n) l = take n l
limited (negsuc n) l = l

abbrev skipped : {A : Type 0} → ℤ → List A → List A
skipped (pos n) l = drop n l
skipped (negsuc n) l = l

abbrev pub one_row : Option InteractionRow → Result DbError InteractionRow
one_row none = err no_rows
one_row (some r) = ok r

abbrev pub by_player : Option ℤ → InteractionRow → Bool
by_player none r = false
by_player (some p) r = elim r.player_id [ none ↦ false | some o ↦ o ==ℤ p ]

module _ (q : Sqlite) (db : Db) where
  unfoldable pub query_first_interaction : ℤ → Result DbError InteractionRow
  query_first_interaction game_id =
      reading q first_interaction
        (one_row (first_row (order_by (earlier q) (filter (of_game game_id) db.interactions))))

  unfoldable pub query_last_interaction : ℤ → Result DbError InteractionRow
  query_last_interaction game_id =
      reading q last_interaction (one_row (latest q db.interactions game_id))

  unfoldable pub query_interactions_for_replay : ℤ → Result DbError (List InteractionRow)
  query_interactions_for_replay game_id =
      reading q list_interactions_for_replay
        (ok (order_by (earlier q) (filter (of_game game_id) db.interactions)))

  unfoldable pub query_recent_interactions : ℤ → ℤ → ℤ → Result DbError (List InteractionRow)
  query_recent_interactions game_id limit offset = reading q list_recent_interactions (
      ok (
        limited limit
          (skipped offset (order_by (later q) (filter (of_game game_id) db.interactions)))))

  unfoldable pub query_player_interactions :
      ℤ → Option ℤ → ℤ → ℤ → Result DbError (List InteractionRow)
  query_player_interactions game_id player_id limit offset = reading q list_player_interactions (
      ok (
        limited limit (
          skipped offset (
            order_by (later q)
              (filter (λ r. of_game game_id r && by_player player_id r) db.interactions)))))

-- `games JOIN access ON access.game_id = games.id WHERE access.player_id = ?`. The query has no
-- ORDER BY; the model goes through the games in the order of their table.
unfoldable pub join_access : ℤ → List GameRow → List AccessRow → List GameRow
join_access player_id [] access = []
join_access player_id (g ∷ games) access =
    map (λ _. g) (filter (λ a. a.game_id ==ℤ g.id && a.player_id ==ℤ player_id) access)
    ++ join_access player_id games access

unfoldable pub query_player_games : Sqlite → Db → ℤ → Result DbError (List GameRow)
query_player_games q db player_id =
    reading q list_player_games (ok (join_access player_id db.games db.access))
