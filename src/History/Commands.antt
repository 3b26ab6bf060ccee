-- ===== src/History/Commands.antt =====
-- internal/application/usecase/game_commands.go: what the commands do to the rows of all games.
use keep_it_up.Prelude.{
  ℤ, pos, Bool, true, false, Option, none, some, List, String, ◌≡◌, refl, inl, inr, arith, ltb_ℤ,
  ltb_ℤ-false_iff, if◌then◌else◌, Result, ok, err, Bool-cases, Option-cases,
}
use keep_it_up.Time.{Time}
use keep_it_up.Stamp.{Codec, IsCodec, IsStorable}
use keep_it_up.Db.{
  Sqlite, IsSqlite, Db, InteractionRow, DbError, Query, writing, contains, save_game, pause_game,
  resume_game,
}
use keep_it_up.Db.Commands.{new_row, insert_interaction, query_save, query_pause, query_resume}
use keep_it_up.Usecase.{
  Error, Clock, Action, with_ids, invalid_game_id, invalid_player_id, short_duration,
  cannot_save_while_paused, cannot_pause, cannot_resume,
}
use keep_it_up.Usecase.GameCommands.{outcome, at_time, save, pause, resume}
use keep_it_up.History.Extend.{IsCommand, saving, pausing, resuming}
use keep_it_up.History.Run.{IsSound, insert_interaction-IsSound}

-- A clock that fails, or one that reads a time which can be stored.
abbrev pub IsClock : Clock → Type 0
IsClock (ok t) = IsStorable t
IsClock (err e) = Unit

-- The interactions that a call leaves have a property.
pub record Leaves {E A : Type 0} (P : List InteractionRow → Type 0) (r : Result E A × Db)
    : Type 0 where
  pub left : P r.1.interactions

module _ {P : List InteractionRow → Type 0} where
  -- A command that ends after a query leaves the database of the query, or the one it had.
  outcome-Leaves :
      (q : Sqlite) (words : String) (sentinel : Error) (r : Result DbError InteractionRow × Db)
      (name : Query)
      → Leaves P r
      → Leaves P (outcome q words sentinel name r)
  outcome-Leaves q words sentinel (ok row, db) name p = record { left = p.left }
  outcome-Leaves q words sentinel (err e, db) name p =
      elim (Bool-cases (contains (q.error_text e) words)) [
        | inl h ↦ rw (h, outcome) (record { left = p.left })
        | inr h ↦ rw (h, outcome) (record { left = p.left })
      ]

  pub writing-Leaves :
      {A : Type 0} (q : Sqlite) (name : Query) (db : Db) (r : Result DbError A × Db)
      → P db.interactions
      → Leaves P r
      → Leaves P (writing q name db r)
  writing-Leaves q name db r p p' = elim (Option-cases (q.fault name)) [
    | inl h ↦ rw (h, writing) p'
    | inr (text, h) ↦ rw (h, writing) (record { left = p })
  ]

  -- A guard that fails leaves the database as it was.
  pub if_Leaves :
      {A : Type 0} (b : Bool) (x y : Action A)
      → Leaves P x
      → (b ≡ false → Leaves P y)
      → Leaves P (if b then x else y)
  if_Leaves true x y p p' = p
  if_Leaves false x y p p' = p' refl

  at_time-Leaves :
      (clock : Clock) (db : Db) (rest : Time → Action Unit)
      → IsClock clock
      → P db.interactions
      → ((t : Time) → IsStorable t → Leaves P (rest t))
      → Leaves P (at_time clock db rest)
  at_time-Leaves (ok t) db rest k p p' = p' t k
  at_time-Leaves (err e) db rest k p p' = record { left = p }

module _ (q : Sqlite) (c : Codec) (laws : IsSqlite q) (codec : IsCodec q c) (db : Db)
    (clock : Clock) (game_id player_id : ℤ) (s : IsSound q c db.interactions)
    (k : IsClock clock) where
  -- The part of a command behind its guards.
  written-Leaves :
      (words : String) (sentinel : Error) (name : Query) (action : String) (saved_by : Option ℤ)
      → ((t : Time)
          → IsCommand (new_row q db game_id (some player_id) action (c.format t) saved_by))
      → Leaves (IsSound q c) (
          at_time clock db (λ t. outcome q words sentinel name (
            writing q name db (
              insert_interaction q db
                (new_row q db game_id (some player_id) action (c.format t) saved_by)))))
  written-Leaves words sentinel name action saved_by command = at_time-Leaves clock db _ k s λ t st.
      outcome-Leaves q words sentinel _ name (
        writing-Leaves q name db _ s (record {
          left =
              insert_interaction-IsSound q c laws codec db
                (new_row q db game_id (some player_id) action (c.format t) saved_by) t s st refl
                (command t) refl;
        }))

  -- `with_ids` in front of a command.
  guarded-Leaves :
      {rest : Action Unit}
      → Leaves (IsSound q c) rest
      → Leaves (IsSound q c) (with_ids game_id player_id (λ e. (err e, db)) rest)
  guarded-Leaves {rest} h =
      if_Leaves (ltb_ℤ game_id (pos 1)) (err (invalid_game_id game_id), db)
        (if ltb_ℤ player_id (pos 1) then (err (invalid_player_id player_id), db) else rest)
        (record { left = s })
        λ _.
          if_Leaves (ltb_ℤ player_id (pos 1)) (err (invalid_player_id player_id), db) rest
            (record { left = s }) λ _. h

  pub save-IsSound :
      (duration : ℤ) → Leaves (IsSound q c) (save q c clock db game_id player_id duration)
  unfolding save query_save
  save-IsSound duration = guarded-Leaves (
      if_Leaves (ltb_ℤ duration (pos 1)) (err short_duration, db) _ (record { left = s })
        λ long.
          written-Leaves "cannot save while paused" cannot_save_while_paused save_game "saved"
            (some duration)
            λ t.
              saving duration refl refl (omega (arith, (ltb_ℤ-false_iff duration (pos 1)).0 long)))

  pub resume-IsSound : Leaves (IsSound q c) (resume q c clock db game_id player_id)
  unfolding resume query_resume
  resume-IsSound =
      guarded-Leaves (
        written-Leaves "cannot resume" cannot_resume resume_game "resumed" none
          (λ t. resuming refl))

  pub pause-IsSound : Leaves (IsSound q c) (pause q c clock db game_id player_id)
  unfolding pause query_pause
  pause-IsSound =
      guarded-Leaves
        (written-Leaves "cannot pause" cannot_pause pause_game "paused" none (λ t. pausing refl))
