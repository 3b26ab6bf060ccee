-- ===== src/Usecase/DataFetching.antt =====
-- internal/application/usecase/data_fetching.go
pub mod Listing
pub mod Rows
pub mod Pages
use keep_it_up.Prelude.{
  ℤ, pos, Option, none, some, List, ltb_ℤ, if◌then◌else◌, Result, ok, err, ◌>>=◌, map_err,
}
use keep_it_up.Stamp.{Codec}
use keep_it_up.Model.{Game, Interaction, SharedData}
use keep_it_up.SharedData.{build_shared_data}
use keep_it_up.Mapping.{to_domain_games, to_domain_interaction, to_domain_interactions}
use keep_it_up.Db.{
  Sqlite, Db, InteractionRow, DbError, no_rows, Query, list_player_games,
  list_interactions_for_replay, list_recent_interactions, list_player_interactions,
  first_interaction, last_interaction,
}
use keep_it_up.Db.Fetching.{
  query_player_games, query_interactions_for_replay, query_recent_interactions,
  query_player_interactions, query_first_interaction, query_last_interaction,
}
use keep_it_up.Usecase.{
  Error, invalid_game_id, invalid_player_id, negative_limit, negative_offset, clock_failed,
  query_failed, mapping_failed, build_failed, Clock, with_ids,
}

-- `errors.Is(err, sql.ErrNoRows)` becomes a nil interaction.
abbrev pub optional_row :
    Codec → Query → Result DbError InteractionRow → Result Error (Option Interaction)
optional_row c name (ok r) = do i ← map_err mapping_failed (to_domain_interaction c r); ok (some i)
optional_row c name (err no_rows) = ok none
optional_row c name (err e) = err (query_failed name e)

abbrev pub with_page : {A : Type 0} → ℤ → ℤ → Result Error A → Result Error A
with_page limit offset rest =
    if ltb_ℤ limit (pos 0)
    then err negative_limit
    else if ltb_ℤ offset (pos 0)
    then err negative_offset
    else rest

module _ (q : Sqlite) (c : Codec) (db : Db) where
  -- `ListPlayerGames`
  unfoldable pub list_games : ℤ → Result Error (List Game)
  unfolding query_player_games
  list_games player_id = if ltb_ℤ player_id (pos 1) then err (invalid_player_id player_id) else do
    games ← map_err (query_failed list_player_games) (query_player_games q db player_id)
    ok (to_domain_games games)

  -- `GetSharedData`
  unfoldable pub get_shared_data : Clock → ℤ → Result Error SharedData
  get_shared_data clock game_id =
      if ltb_ℤ game_id (pos 1) then err (invalid_game_id game_id) else do
        rows ←
            map_err (query_failed list_interactions_for_replay)
              (query_interactions_for_replay q db game_id)
        now ← map_err clock_failed clock
        interactions ← map_err mapping_failed (to_domain_interactions c rows)
        map_err build_failed (build_shared_data game_id interactions now)

  -- `ListInteractions`
  unfoldable pub list_interactions : ℤ → ℤ → ℤ → Result Error (List Interaction)
  unfolding query_recent_interactions
  list_interactions game_id limit offset =
      if ltb_ℤ game_id (pos 1)
      then err (invalid_game_id game_id)
      else with_page limit offset (do
        rows ←
            map_err (query_failed list_recent_interactions)
              (query_recent_interactions q db game_id limit offset)
        map_err mapping_failed (to_domain_interactions c rows))

  -- `ListPlayerInteractions`
  unfoldable pub list_own_interactions : ℤ → ℤ → ℤ → ℤ → Result Error (List Interaction)
  unfolding query_player_interactions
  list_own_interactions game_id player_id limit offset =
      with_ids game_id player_id (λ e. err e)
        (with_page limit offset (do
          rows ←
              map_err (query_failed list_player_interactions)
                (query_player_interactions q db game_id (some player_id) limit offset)
          map_err mapping_failed (to_domain_interactions c rows)))

  -- `FirstInteraction`
  unfoldable pub first : ℤ → Result Error (Option Interaction)
  unfolding query_first_interaction
  first game_id =
      if ltb_ℤ game_id (pos 1)
      then err (invalid_game_id game_id)
      else optional_row c first_interaction (query_first_interaction q db game_id)

  -- `LastInteraction`
  unfoldable pub last : ℤ → Result Error (Option Interaction)
  unfolding query_last_interaction
  last game_id =
      if ltb_ℤ game_id (pos 1)
      then err (invalid_game_id game_id)
      else optional_row c last_interaction (query_last_interaction q db game_id)
