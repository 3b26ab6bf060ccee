-- ===== src/Usecase/GameCommands.antt =====
-- internal/application/usecase/game_commands.go
pub mod Refusals
pub mod Accepted
use keep_it_up.Prelude.{ℤ, pos, Bool, Option, some, String, ltb_ℤ, if◌then◌else◌, Result, ok, err}
use keep_it_up.Time.{Time}
use keep_it_up.Stamp.{Codec}
use keep_it_up.Db.{
  Sqlite, Db, InteractionRow, Query, DbError, save_game, pause_game, resume_game, contains,
}
use keep_it_up.Db.Commands.{query_save, query_pause, query_resume}
use keep_it_up.Usecase.{
  Error, short_duration, clock_failed, cannot_save_while_paused, cannot_pause, cannot_resume,
  query_failed, Clock, Action, with_ids,
}

-- The end of each command: the row is dropped, and an error whose text has the sentinel's words
-- becomes the sentinel.
abbrev pub outcome :
    Sqlite → String → Error → Query → Result DbError InteractionRow × Db → Action Unit
outcome q words sentinel name (ok row, db) = (ok tt, db)
outcome q words sentinel name (err e, db) =
    if contains (q.error_text e) words then (err sentinel, db) else (err (query_failed name e), db)

-- `t, err := uc.tp.Time()`
abbrev pub at_time : Clock → Db → (Time → Action Unit) → Action Unit
at_time (ok t) db rest = rest t
at_time (err e) db rest = (err (clock_failed e), db)

module _ (q : Sqlite) (c : Codec) (clock : Clock) (db : Db) (game_id player_id : ℤ) where
  -- `SaveGame`
  unfoldable pub save : ℤ → Action Unit
  save duration =
      with_ids game_id player_id (λ e. (err e, db))
        (if ltb_ℤ duration (pos 1)
          then (err short_duration, db)
          else at_time clock db λ t.
            outcome q "cannot save while paused" cannot_save_while_paused save_game
              (query_save q db game_id (some player_id) (c.format t) (some duration)))

  -- `ResumeGame`
  unfoldable pub resume : Action Unit
  resume =
      with_ids game_id player_id (λ e. (err e, db))
        (at_time clock db λ t.
          outcome q "cannot resume" cannot_resume resume_game
            (query_resume q db game_id (some player_id) (c.format t)))

  -- `PauseGame`
  unfoldable pub pause : Action Unit
  pause =
      with_ids game_id player_id (λ e. (err e, db))
        (at_time clock db λ t.
          outcome q "cannot pause" cannot_pause pause_game
            (query_pause q db game_id (some player_id) (c.format t)))
