-- ===== src/Http/Answers.antt =====
-- internal/infrastructure/driver/httpadapter/handlers.go: the answers of the three commands, by the
-- status of the game that `/shared` shows.
use keep_it_up.Prelude.{
  ℤ, pos, true, Option, none, some, List, String, ok, err, ltb_ℤ-false_iff, ◌≡◌, ◌≢◌, refl, sym,
  ◌∙◌, ap, arith, ◌≤ℤ◌,
}
use keep_it_up.Time.{Time}
use keep_it_up.Model.{playing, paused, SharedData}
use keep_it_up.Stamp.{IsCodec}
use keep_it_up.Db.{
  IsSqlite, Db, InteractionRow, empty_db, list_interactions_for_replay, save_game, pause_game,
  resume_game,
}
use keep_it_up.Usecase.{Action}
use keep_it_up.Usecase.AccessManagement.{check}
use keep_it_up.Usecase.DataFetching.{get_shared_data}
use keep_it_up.Usecase.GameCommands.{save, pause, resume}
use keep_it_up.Usecase.GameCommands.Refusals.{IsTimely, save_refused, pause_refused, resume_refused}
use keep_it_up.Usecase.GameCommands.Accepted.{
  IsAdmitted, save_accepted, pause_accepted, resume_accepted,
}
use keep_it_up.Requests.{Request, Platform, Faults, perform_all}
use keep_it_up.Db.Trigger.{latest}
use keep_it_up.History.Rows.{status_of}
use keep_it_up.History.Answers.{HaveClocks}
use keep_it_up.History.Effects.Decides.{
  shown-status_of, acted_paused, acted_not_paused, acted_playing, acted_not_playing,
}
use keep_it_up.Http.{User, HttpRequest, HttpAdapter, no_content, error_json, player_id}
use keep_it_up.Http.Query.{game_id_from_query}
use keep_it_up.Http.Handlers.{
  Answer, access_checked, commanded, denied, handle_save, handle_pause, handle_resume,
}

-- The request names the game, and the session's player has access to it.
pub record IsGranted (p : Platform) (db : Db) (user : User) (r : HttpRequest) (g pl : ℤ)
    : Type 0 where
  pub names : game_id_from_query r ≡ some g
  pub player : player_id user ≡ some pl
  pub access : check p.sqlite db g pl ≡ ok true

-- The queries of the commands run.
pub record AreUp (p : Platform) : Type 0 where
  pub save_up : p.sqlite.fault save_game ≡ none
  pub pause_up : p.sqlite.fault pause_game ≡ none
  pub resume_up : p.sqlite.fault resume_game ≡ none

commanded-ok :
    (p : Platform) (h : HttpAdapter) (t : Time) (db : Db) (msg : String) (a : Action Unit)
    → a.0 ≡ ok tt
    → commanded p h (ok t) db msg a ≡ (no_content (pos 204), a.1)
commanded-ok p h t db msg (ok u, db') e = refl
commanded-ok p h t db msg (err x, db') e = absurd (ground (arith, e))

module _ (p : Platform) (laws : IsSqlite p.sqlite) (codec : IsCodec p.sqlite p.codec)
    (history : List (Faults × Request)) (g pl : ℤ) (t now : Time) (d : SharedData)
    (clocks : HaveClocks history) (up : p.sqlite.fault list_interactions_for_replay ≡ none)
    (shown : get_shared_data p.sqlite p.codec (perform_all p history empty_db) (ok now) g ≡ ok d)
    (timely : IsTimely p.sqlite p.codec (perform_all p history empty_db) t g pl)
    (admitted : IsAdmitted p.sqlite p.codec (perform_all p history empty_db) t g pl) (up' : AreUp p)
    (h : HttpAdapter) (user : User) (r : HttpRequest)
    (granted : IsGranted p (perform_all p history empty_db) user r g pl) where
  abbrev pub db : Db
  db = perform_all p history empty_db

  behind_access :
      (rest : ℤ → ℤ → Answer)
      → access_checked p h (ok t) db user r (denied p h (ok t) db) rest ≡ rest g pl
  unfolding access_checked
  behind_access rest = rw (granted.names, granted.player, granted.access) refl

  abbrev last_row : Option InteractionRow
  last_row = latest p.sqlite db.interactions g

  last_status : d.status ≡ status_of last_row
  last_status = shown-status_of p laws codec history g now d clocks timely.game up shown

  abbrev pub Conflict : String → Answer → Type 0
  Conflict text answer = answer ≡ (error_json h (pos 409) text, db)

  abbrev pub Done : Action Unit → Answer → Type 0
  Done call answer = answer ≡ (no_content (pos 204), call.1)

  save-answers :
      (n : ℤ)
      → r.save_body ≡ ok n
      → pos 1 ≤ℤ n
      → (d.status ≢ paused
          → Done (save p.sqlite p.codec (ok t) db g pl n) (handle_save p h (ok t) db user r))
        × (d.status ≡ paused
            → Conflict "Game is not currently playing" (handle_save p h (ok t) db user r))
  unfolding handle_save
  save-answers n body long = (
    λ other.
        behind_access _
        ∙ rw (body, (ltb_ℤ-false_iff n (pos 1)).1 long)
            (commanded-ok p h t db "Game is not currently playing"
              (save p.sqlite p.codec (ok t) db g pl n)
              (save_accepted p.sqlite p.codec db t g pl timely admitted n long up'.save_up
                (acted_not_paused last_row (λ is. other (last_status ∙ is))))),
    λ is.
        behind_access _
        ∙ rw (body, (ltb_ℤ-false_iff n (pos 1)).1 long)
            (ap (commanded p h (ok t) db "Game is not currently playing") (
              save_refused p.sqlite laws p.codec db t g pl timely n long up'.save_up
                (acted_paused last_row (sym last_status ∙ is)))),
  )

  pause-answers :
      (d.status ≡ playing
        → Done (pause p.sqlite p.codec (ok t) db g pl) (handle_pause p h (ok t) db user r))
      × (d.status ≢ playing
          → Conflict "Game is not currently playing" (handle_pause p h (ok t) db user r))
  unfolding handle_pause
  pause-answers = (
    λ is.
        behind_access _
        ∙ commanded-ok p h t db "Game is not currently playing"
            (pause p.sqlite p.codec (ok t) db g pl)
            (pause_accepted p.sqlite p.codec db t g pl timely admitted up'.pause_up
              (acted_playing last_row (sym last_status ∙ is))),
    λ other.
        behind_access _
        ∙ ap (commanded p h (ok t) db "Game is not currently playing") (
            pause_refused p.sqlite laws p.codec db t g pl timely up'.pause_up
              (acted_not_playing last_row (λ is. other (last_status ∙ is)))),
  )

  resume-answers :
      (d.status ≡ paused
        → Done (resume p.sqlite p.codec (ok t) db g pl) (handle_resume p h (ok t) db user r))
      × (d.status ≢ paused
          → Conflict "Game is not currently paused" (handle_resume p h (ok t) db user r))
  unfolding handle_resume
  resume-answers = (
    λ is.
        behind_access _
        ∙ commanded-ok p h t db "Game is not currently paused"
            (resume p.sqlite p.codec (ok t) db g pl)
            (resume_accepted p.sqlite p.codec db t g pl timely admitted up'.resume_up
              (acted_paused last_row (sym last_status ∙ is))),
    λ other.
        behind_access _
        ∙ ap (commanded p h (ok t) db "Game is not currently paused") (
            resume_refused p.sqlite laws p.codec db t g pl timely up'.resume_up
              (acted_not_paused last_row (λ is. other (last_status ∙ is)))),
  )

  -- After any history of calls, the status that `GetSharedData` returns for a game decides the
  -- answers to a player who has access to it, if the queries run, no interaction of the game is
  -- later than the clock, the row keeps the constraints, and the body of a save asks for a second
  -- at least. `/save` is answered with 409 while the game is paused, `/pause` unless it is playing,
  -- `/play` unless it is paused, and the database is then as it was; otherwise the answer is 204,
  -- and the database is the one that the use case leaves.
  pub status-decides :
      (n : ℤ)
      → r.save_body ≡ ok n
      → pos 1 ≤ℤ n
      → ((d.status ≢ paused
            → Done (save p.sqlite p.codec (ok t) db g pl n) (handle_save p h (ok t) db user r))
          × (d.status ≡ paused
              → Conflict "Game is not currently playing" (handle_save p h (ok t) db user r)))
        × ((d.status ≡ playing
              → Done (pause p.sqlite p.codec (ok t) db g pl) (handle_pause p h (ok t) db user r))
            × (d.status ≢ playing
                → Conflict "Game is not currently playing" (handle_pause p h (ok t) db user r)))
        × ((d.status ≡ paused
              → Done (resume p.sqlite p.codec (ok t) db g pl) (handle_resume p h (ok t) db user r))
            × (d.status ≢ paused
                → Conflict "Game is not currently paused" (handle_resume p h (ok t) db user r)))
  status-decides n body long = (save-answers n body long, pause-answers, resume-answers)
