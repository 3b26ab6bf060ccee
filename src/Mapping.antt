-- ===== src/Mapping.antt =====
-- internal/infrastructure/database/mapping: rows to domain values.
use keep_it_up.Prelude.{ℤ, Option, none, some, List, [], ◌∷◌, map, Result, ok, err, ◌>>=◌}
use keep_it_up.Model.{Game, Player, Interaction}
use keep_it_up.Stamp.{Codec}
use keep_it_up.Db.{GameRow, PlayerRow, InteractionRow}

abbrev pub to_domain_game : GameRow → Game
to_domain_game g = record { id = g.id; name = g.name }

abbrev pub to_domain_games : List GameRow → List Game
to_domain_games gs = map to_domain_game gs

-- The hashed password is dropped.
abbrev pub to_domain_player : PlayerRow → Player
to_domain_player p = record { id = p.id; name = p.name; username = p.username }

-- `nullableInt64`: a `sql.NullInt64` and a `*int64` are one `Option`.
abbrev pub nullable_int64 : Option ℤ → Option ℤ
nullable_int64 none = none
nullable_int64 (some x) = some x

-- The error carries the id of the row whose timestamp cannot be parsed.
unfoldable pub to_domain_interaction : Codec → InteractionRow → Result ℤ Interaction
to_domain_interaction c i = elim (c.parse i.occurred_at) [
  | none ↦ err i.id
  | some occurred_at ↦ ok (record {
    id = i.id;
    game_id = i.game_id;
    player_id = nullable_int64 i.player_id;
    action = i.action;
    occurred_at = occurred_at;
    saved_by = nullable_int64 i.saved_by;
  })
]

unfoldable pub to_domain_interactions : Codec → List InteractionRow → Result ℤ (List Interaction)
unfolding to_domain_interaction
to_domain_interactions c [] = ok []
to_domain_interactions c (i ∷ rest) = do
  d ← to_domain_interaction c i
  ds ← to_domain_interactions c rest
  ok (d ∷ ds)
