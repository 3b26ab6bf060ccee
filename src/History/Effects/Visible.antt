-- ===== src/History/Effects/Visible.antt =====
-- internal/application/usecase/game_commands.go and data_fetching.go: what `GetSharedData` returns
-- before and after a command.
use keep_it_up.Prelude.{ℤ, Option, none, some, List, ◌≡◌, refl, sym, ◌∙◌, ap, arith, filter, ok}
use keep_it_up.Time.{Time, add, sub, seconds}
use keep_it_up.Model.{playing, paused, Interaction, SharedData}
use keep_it_up.SharedData.{on_action, on_paused, on_resumed, extended, compute_valid}
use keep_it_up.SharedData.Shape.{IsWellFormed}
use keep_it_up.SharedData.Moves.{
  on_action-saved, on_action-paused, on_action-resumed, on_saved_cases,
}
use keep_it_up.Stamp.{IsCodec, IsStorable, floor_second}
use keep_it_up.Db.{IsSqlite, Db, empty_db, list_interactions_for_replay}
use keep_it_up.Db.Commands.{new_row}
use keep_it_up.Usecase.GameCommands.{save, pause, resume}
use keep_it_up.Usecase.DataFetching.{get_shared_data}
use keep_it_up.Requests.{Request, Platform, Faults, perform_all}
use keep_it_up.History.Rows.{IsConsistent-nil}
use keep_it_up.History.Extend.{saving, pausing, resuming}
use keep_it_up.History.Run.{IsSound}
use keep_it_up.History.Answers.{HaveClocks, perform_all-IsSound}
use keep_it_up.History.Effects.{save-Added, pause-Added, resume-Added, effect}

-- A deadline that may not be set yet, and is then counted from `t`.
abbrev pub deadline_or : Option Time → Time → Time
deadline_or none t = t
deadline_or (some x) t = x

module _ (s : SharedData) (ia : Interaction) (s' : SharedData) (w : IsWellFormed s)
    (took : on_action s ia ≡ ok s') where
  save_state :
      (n : ℤ)
      → ia.action ≡ "saved"
      → ia.saved_by ≡ some n
      → (s'.status ≡ playing)
        × (s'.last_saved_at ≡ some ia.occurred_at)
        × (s'.deadline_at ≡ some (add (deadline_or s.deadline_at ia.occurred_at) (seconds n)))
  unfolding extended
  save_state n a b =
      let (m, p, sb, q, x) = on_saved_cases s ia s' (sym (on_action-saved s ia a) ∙ took) in
      let same : m ≡ n = cc in ground (arith, rw same at x)

  pause_state :
      ia.action ≡ "paused"
      → (s.status ≡ playing)
        × (s'.status ≡ paused)
        × (s'.last_paused_at ≡ some ia.occurred_at)
        × (s'.deadline_at ≡ s.deadline_at)
  unfolding on_paused
  pause_state a = let e = sym (on_action-paused s ia a) ∙ took in ground (arith, e)

  resume_state :
      (since deadline : Time)
      → ia.action ≡ "resumed"
      → s.last_paused_at ≡ some since
      → s.deadline_at ≡ some deadline
      → (s.status ≡ paused)
        × (s'.status ≡ playing)
        × (s'.deadline_at ≡ some (add deadline (sub ia.occurred_at since)))
  unfolding on_resumed
  resume_state since deadline a l k =
      let e = sym (on_action-resumed s ia a) ∙ took in ground (arith, e)

module _ (p : Platform) (laws : IsSqlite p.sqlite) (codec : IsCodec p.sqlite p.codec)
    (history : List (Faults × Request)) (g pl : ℤ) (t now now' : Time) (d : SharedData)
    (clocks : HaveClocks history) (st : IsStorable t)
    (up : p.sqlite.fault list_interactions_for_replay ≡ none)
    (was : get_shared_data p.sqlite p.codec (perform_all p history empty_db) (ok now) g
      ≡ ok d) where
  abbrev db : Db
  db = perform_all p history empty_db

  sound : IsSound p.sqlite p.codec db.interactions
  unfolding filter
  sound =
      perform_all-IsSound p laws codec history empty_db clocks
        (record { at_game = λ g'. IsConsistent-nil p.sqlite p.codec g' })

  -- After any history of calls, if `GetSharedData` of a game succeeds, then it also does after a
  -- `SaveGame` that succeeds at a time that can be stored, and the game is then playing, last
  -- saved in the second of the clock, with the deadline moved by the Duration of the save from
  -- where it was, or from the save if there was none.
  pub save_visible :
      (n : ℤ)
      → (save p.sqlite p.codec (ok t) db g pl n).0 ≡ ok tt
      → (d' : SharedData) × (get_shared_data p.sqlite p.codec
            (save p.sqlite p.codec (ok t) db g pl n).1
            (ok now')
            g
          ≡ ok d')
        × (d'.status ≡ playing)
        × (d'.last_saved_at ≡ some (floor_second t))
        × (d'.deadline_at ≡ some (add (deadline_or d.deadline_at (floor_second t)) (seconds n)))
  unfolding compute_valid
  save_visible n done =
      let (a, positive) = save-Added p.sqlite p.codec t db g pl n done in
      let r = new_row p.sqlite db g (some pl) "saved" (p.codec.format t) (some n) in
      let (s, s', same, w, took, built) =
        effect p laws codec db (save p.sqlite p.codec (ok t) db g pl n).1 r t now d sound st refl
          (saving n refl refl positive) refl a up was now' in
      let (x, y, z) = save_state s _ s' w took n refl refl in
      (compute_valid s' now', built, x, y, rw same z)

  -- After any history of calls, if `GetSharedData` of a game succeeds, then it also does after a
  -- `PauseGame` that succeeds at a time that can be stored: the game was playing, and is then
  -- paused since the second of the clock, with the deadline that it had.
  pub pause_visible :
      (pause p.sqlite p.codec (ok t) db g pl).0 ≡ ok tt
      → (d' : SharedData) × (get_shared_data p.sqlite p.codec
            (pause p.sqlite p.codec (ok t) db g pl).1
            (ok now')
            g
          ≡ ok d')
        × (d.status ≡ playing)
        × (d'.status ≡ paused)
        × (d'.last_paused_at ≡ some (floor_second t))
        × (d'.deadline_at ≡ d.deadline_at)
  unfolding compute_valid
  pause_visible done =
      let a = pause-Added p.sqlite p.codec t db g pl done in
      let r = new_row p.sqlite db g (some pl) "paused" (p.codec.format t) none in
      let (s, s', same, w, took, built) =
        effect p laws codec db (pause p.sqlite p.codec (ok t) db g pl).1 r t now d sound st refl
          (pausing refl) refl a up was now' in
      let (v, x, y, z) = pause_state s _ s' w took refl in
      (compute_valid s' now', built, rw same v, x, y, rw same z)

  -- After any history of calls, if `GetSharedData` of a game succeeds and names a pause and a
  -- deadline, then it also succeeds after a `ResumeGame` that succeeds at a time that can be
  -- stored: the game was paused, and is then playing, with the deadline moved by the Duration
  -- from the pause to the second of the clock.
  pub resume_visible :
      (since deadline : Time)
      → d.last_paused_at ≡ some since
      → d.deadline_at ≡ some deadline
      → (resume p.sqlite p.codec (ok t) db g pl).0 ≡ ok tt
      → (d' : SharedData) × (get_shared_data p.sqlite p.codec
            (resume p.sqlite p.codec (ok t) db g pl).1
            (ok now')
            g
          ≡ ok d')
        × (d.status ≡ paused)
        × (d'.status ≡ playing)
        × (d'.deadline_at ≡ some (add deadline (sub (floor_second t) since)))
  unfolding compute_valid
  resume_visible since deadline l k done =
      let a = resume-Added p.sqlite p.codec t db g pl done in
      let r = new_row p.sqlite db g (some pl) "resumed" (p.codec.format t) none in
      let (s, s', same, w, took, built) =
        effect p laws codec db (resume p.sqlite p.codec (ok t) db g pl).1 r t now d sound st refl
          (resuming refl) refl a up was now' in
      let (v, x, z) =
        resume_state s _ s' w took since deadline refl
          (ap (λ (y : SharedData). y.last_paused_at) (sym same) ∙ l)
          (ap (λ (y : SharedData). y.deadline_at) (sym same) ∙ k) in
      (compute_valid s' now', built, rw same v, x, z)
