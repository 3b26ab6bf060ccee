-- ===== src/Db/Commands.antt =====
-- internal/infrastructure/database/commands.sql.go: the insertions into `interactions`.
use keep_it_up.Prelude.{
  ℤ, pos, Bool, true, false, Option, none, some, [], ◌∷◌, ◌++◌, map, String, str_eq, ◌&&◌, ◌||◌,
  not, any, leb_ℤ, ◌==ℤ◌, if◌then◌else◌, Result, ok, err, ◌≡◌, ◌⊎◌, inl, inr, Option-cases, arith,
}
use keep_it_up.Db.{
  Sqlite, Db, InteractionRow, DbError, raised, faulty, violated, action_known, occurred_at_iso,
  saved_by_matches_action, saved_by_positive, foreign_key, Constraint, Query, save_game, pause_game,
  resume_game, writing,
}
use keep_it_up.Db.Trigger.{trigger}

abbrev is_some : Option ℤ → Bool
is_some none = false
is_some (some _) = true

-- `saved_by IS NULL OR saved_by > 0`
abbrev positive_or_null : Option ℤ → Bool
positive_or_null none = true
positive_or_null (some s) = not (leb_ℤ s (pos 0))

-- `(action = 'saved') = (saved_by IS NOT NULL)`
abbrev agrees : Bool → Bool → Bool
agrees true b = b
agrees false b = not b

-- `FOREIGN KEY (player_id) REFERENCES players(id)`: NULL refers to no row.
abbrev player_exists : Db → Option ℤ → Bool
player_exists db none = true
player_exists db (some p) = any (λ r. r.id ==ℤ p) db.players

-- The CHECK constraints and the foreign keys of the table.
check_interaction : Sqlite → Db → InteractionRow → Option Constraint
check_interaction q db r =
    if not (str_eq r.action "saved" || str_eq r.action "paused" || str_eq r.action "resumed")
    then some action_known
    else if not (q.iso_check r.occurred_at)
    then some occurred_at_iso
    else if not (agrees (str_eq r.action "saved") (is_some r.saved_by))
    then some saved_by_matches_action
    else if not (positive_or_null r.saved_by)
    then some saved_by_positive
    else if q.foreign_keys
        && not (any (λ g. g.id ==ℤ r.game_id) db.games && player_exists db r.player_id)
    then some foreign_key
    else none

-- `INSERT INTO interactions … RETURNING …`: the trigger, the constraints, the row at the end.
unfoldable pub insert_interaction :
    Sqlite → Db → InteractionRow → Result DbError InteractionRow × Db
unfolding check_interaction
insert_interaction q db r = elim (trigger q db.interactions r.game_id r.action r.occurred_at) [
  | some a ↦ (err (raised a), db)
  | none ↦ elim (check_interaction q db r) [
    | some c ↦ (err (violated c), db)
    | none ↦ (ok r, record db { interactions = db.interactions ++ r ∷ [] })
  ]
]

-- An insertion adds the row at the end if the trigger lets it through, or changes nothing.
pub insert_interaction_cases :
    (q : Sqlite) (db : Db) (r : InteractionRow)
    → ((insert_interaction q db r).1.interactions ≡ db.interactions)
      ⊎ ((trigger q db.interactions r.game_id r.action r.occurred_at ≡ none)
          × ((insert_interaction q db r).1.interactions ≡ db.interactions ++ r ∷ []))
unfolding insert_interaction
insert_interaction_cases q db r = ground arith

-- A query that inserts a row adds it at the end, or fails; one that fails has no effect (`writing`).
pub writing_atomic :
    (q : Sqlite) (db : Db) (name : Query) (r : InteractionRow)
    → ((e : DbError) × (writing q name db (insert_interaction q db r) ≡ (err e, db)))
      ⊎ ((row : InteractionRow) × (writing q name db (insert_interaction q db r)
            ≡ (ok row, record db { interactions = db.interactions ++ row ∷ [] })))
unfolding insert_interaction
writing_atomic q db name r = elim (Option-cases (q.fault name)) [
  | inr (text, f) ↦ inl (faulty text, ground arith)
  | inl f ↦ elim (Option-cases (trigger q db.interactions r.game_id r.action r.occurred_at)) [
    | inr (a, e) ↦ inl (raised a, ground arith)
    | inl e ↦ elim (Option-cases (check_interaction q db r)) [
      | inr (c, e') ↦ inl (violated c, ground arith)
      | inl e' ↦ inr (r, ground arith)
    ]
  ]
]

abbrev pub new_interaction_id : Sqlite → Db → ℤ
new_interaction_id q db = q.next_id (map (λ (r : InteractionRow). r.id) db.interactions)

abbrev pub new_row : Sqlite → Db → ℤ → Option ℤ → String → String → Option ℤ → InteractionRow
new_row q db game_id player_id action occurred_at saved_by = record {
  id = new_interaction_id q db;
  game_id = game_id;
  player_id = player_id;
  action = action;
  occurred_at = occurred_at;
  saved_by = saved_by;
}

module _ (q : Sqlite) (db : Db) (game_id : ℤ) (player_id : Option ℤ) (occurred_at : String) where
  -- `Queries.SaveGame`
  unfoldable pub query_save : Option ℤ → Result DbError InteractionRow × Db
  query_save saved_by =
      writing q save_game db
        (insert_interaction q db (new_row q db game_id player_id "saved" occurred_at saved_by))

  -- `Queries.PauseGame`
  unfoldable pub query_pause : Result DbError InteractionRow × Db
  query_pause =
      writing q pause_game db
        (insert_interaction q db (new_row q db game_id player_id "paused" occurred_at none))

  -- `Queries.ResumeGame`
  unfoldable pub query_resume : Result DbError InteractionRow × Db
  query_resume =
      writing q resume_game db
        (insert_interaction q db (new_row q db game_id player_id "resumed" occurred_at none))
