-- ===== src/Usecase/DataFetching/Listing.antt =====
-- internal/application/usecase/data_fetching.go: `ListPlayerGames` against `CheckPlayerAccess`.
use keep_it_up.Prelude.{
  ℤ, pos, Bool, ◌&&◌, none, List, [], ◌∷◌, map, ◌≡◌, refl, ◌∙◌, arith, any, any-append, filter,
  ◌==ℤ◌, ==ℤ_iff, ◌≤ℤ◌, ok,
}
use keep_it_up.Model.{Game}
use keep_it_up.Stamp.{Codec}
use keep_it_up.Mapping.{to_domain_games}
use keep_it_up.Db.{Sqlite, Db, GameRow, AccessRow, list_player_games, check_player_access}
use keep_it_up.Db.Access.{is_access, query_check_access}
use keep_it_up.Db.Fetching.{join_access, query_player_games}
use keep_it_up.Usecase.AccessManagement.{check}
use keep_it_up.Usecase.DataFetching.{list_games}

module _ (g pl : ℤ) where
  abbrev named : GameRow → Bool
  named x = x.id ==ℤ g

  -- One game of the join: a copy of it for each of the player's rows of access.
  any-copies :
      (x : GameRow) (access : List AccessRow)
      → any named (map (λ _. x) (filter (λ a. a.game_id ==ℤ x.id && a.player_id ==ℤ pl) access))
        ≡ (named x && any (is_access g pl) access)
  unfolding any filter
  any-copies x [] = ground arith
  any-copies x (a ∷ access) =
      ground
        (arith, any-copies x access, ==ℤ_iff x.id g, ==ℤ_iff a.game_id x.id, ==ℤ_iff a.game_id g)

  any-join :
      (games : List GameRow) (access : List AccessRow)
      → any named (join_access pl games access) ≡ (any named games && any (is_access g pl) access)
  unfolding any join_access
  any-join [] access = refl
  any-join (x ∷ games) access =
      any-append named
        (map (λ _. x) (filter (λ a. a.game_id ==ℤ x.id && a.player_id ==ℤ pl) access))
        (join_access pl games access)
      ∙ ground (arith, any-copies x access, any-join games access)

  any-to_domain_games :
      (games : List GameRow)
      → any (λ (x : Game). x.id ==ℤ g) (to_domain_games games) ≡ any named games
  unfolding any
  any-to_domain_games [] = refl
  any-to_domain_games (x ∷ games) = ground (arith, any-to_domain_games games)

  -- If both queries run, `ListPlayerGames` and `CheckPlayerAccess` succeed, and a game is shown to
  -- a player exactly when it exists and the check answers yes for the two.
  pub list_games-check :
      (q : Sqlite) (c : Codec) (db : Db)
      → pos 1 ≤ℤ g
      → pos 1 ≤ℤ pl
      → q.fault list_player_games ≡ none
      → q.fault check_player_access ≡ none
      → (games : List Game) × (answer : Bool) × (list_games q c db pl ≡ ok games)
        × (check q db g pl ≡ ok answer)
        × (any (λ (x : Game). x.id ==ℤ g) games
            ≡ (any (λ (x : GameRow). x.id ==ℤ g) db.games && answer))
  unfolding list_games query_player_games check query_check_access
  list_games-check q c db one two up up' = (
    to_domain_games (join_access pl db.games db.access),
    any (is_access g pl) db.access,
    ground arith,
    ground arith,
    any-to_domain_games (join_access pl db.games db.access) ∙ any-join db.games db.access,
  )
