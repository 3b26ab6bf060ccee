-- ===== src/Usecase/GameCommands/Accepted.antt =====
-- internal/application/usecase/game_commands.go: the commands that are accepted.
use keep_it_up.Prelude.{
  ℤ, pos, true, false, ◌&&◌, ◌||◌, not, none, List, String, ◌≡◌, arith, any, ◌≤ℤ◌, ◌==ℤ◌, ok,
}
use keep_it_up.Time.{Time}
use keep_it_up.Stamp.{Codec}
use keep_it_up.Db.{Sqlite, Db, InteractionRow, save_game, pause_game, resume_game}
use keep_it_up.Db.Trigger.{of_game, latest, acted, trigger}
use keep_it_up.Db.Commands.{insert_interaction, query_save, query_pause, query_resume}
use keep_it_up.Usecase.GameCommands.{save, pause, resume}
use keep_it_up.Usecase.GameCommands.Refusals.{IsTimely}

module _ (q : Sqlite) (rows : List InteractionRow) (g : ℤ) (at : String)
    (in_order : any (λ r. of_game g r && q.text_before at r.occurred_at) rows ≡ false) where
  passes_save : acted (latest q rows g) "paused" ≡ false → trigger q rows g "saved" at ≡ none
  unfolding trigger
  passes_save h = ground arith

  passes_pause :
      (acted (latest q rows g) "saved" || acted (latest q rows g) "resumed") ≡ true
      → trigger q rows g "paused" at ≡ none
  unfolding trigger
  passes_pause h = ground arith

  passes_resume : acted (latest q rows g) "paused" ≡ true → trigger q rows g "resumed" at ≡ none
  unfolding trigger
  passes_resume h = ground arith

-- The row that a command writes keeps the constraints: its timestamp is in the form that the table
-- checks, and if foreign keys are enforced, the game and the player exist.
pub record IsAdmitted (q : Sqlite) (c : Codec) (db : Db) (t : Time) (g pl : ℤ) : Type 0 where
  pub iso : q.iso_check (c.format t) ≡ true
  pub references :
      (q.foreign_keys && not (any (λ r. r.id ==ℤ g) db.games && any (λ r. r.id ==ℤ pl) db.players))
      ≡ false

module _ (q : Sqlite) (c : Codec) (db : Db) (t : Time) (g pl : ℤ) (timely : IsTimely q c db t g pl)
    (admitted : IsAdmitted q c db t g pl) where
  pub save_accepted :
      (n : ℤ)
      → pos 1 ≤ℤ n
      → q.fault save_game ≡ none
      → acted (latest q db.interactions g) "paused" ≡ false
      → (save q c (ok t) db g pl n).0 ≡ ok tt
  unfolding save query_save insert_interaction
  save_accepted n long up h =
      ground (arith, passes_save q db.interactions g (c.format t) timely.in_order h)

  pub pause_accepted :
      q.fault pause_game ≡ none
      → (acted (latest q db.interactions g) "saved" || acted (latest q db.interactions g) "resumed")
        ≡ true
      → (pause q c (ok t) db g pl).0 ≡ ok tt
  unfolding pause query_pause insert_interaction
  pause_accepted up h =
      ground (arith, passes_pause q db.interactions g (c.format t) timely.in_order h)

  pub resume_accepted :
      q.fault resume_game ≡ none
      → acted (latest q db.interactions g) "paused" ≡ true
      → (resume q c (ok t) db g pl).0 ≡ ok tt
  unfolding resume query_resume insert_interaction
  resume_accepted up h =
      ground (arith, passes_resume q db.interactions g (c.format t) timely.in_order h)
