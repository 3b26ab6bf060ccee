-- ===== src/Http/Authorised.antt =====
-- internal/infrastructure/driver/httpadapter: which requests change the database.
use keep_it_up.Prelude.{String, Result, ok, err, ◌≡◌, refl, sym, subst, ◌⊎◌, inl, inr}
use keep_it_up.Db.{Db}
use keep_it_up.Usecase.{Clock}
use keep_it_up.Usecase.GameCommands.{pause, resume}
use keep_it_up.Requests.{resume_game, pause_game, Platform, Faults, faulty, perform}
use keep_it_up.Requests.Steady.{resume-Steady, pause-Steady}
use keep_it_up.Http.{User, no_token, HttpRequest, HttpAdapter}
use keep_it_up.Http.Handlers.{Answer, handle_login, handle_save, handle_resume, handle_pause}
use keep_it_up.Http.Serve.{
  Endpoint, post_login, get_test, get_games, get_shared, get_interactions, post_save, post_play,
  post_pause, Next, Middleware, Verify, authenticated, serve,
}
use keep_it_up.Http.Access.{
  IsAuthorised, without_store, IsTransparent, Allowed, commanded-Allowed,
  access_checked-IsAuthorised, save_for-Allowed,
}

module _ (p : Platform) (f : Faults) (h : HttpAdapter) (clock : Clock) (db : Db) where
  abbrev p' : Platform
  p' = faulty p f

  authenticated-IsAuthorised :
      {S : Type 0} (session : Result String User) (e : Endpoint) (r : HttpRequest)
      (next : User → Next S) (s : S)
      → ((user : User)
          → IsAuthorised p f clock (ok user) e r db (without_store (next user (s, db))))
      → IsAuthorised p f clock session e r db (without_store (authenticated session next (s, db)))
  authenticated-IsAuthorised (ok user) e r next s k = k user
  authenticated-IsAuthorised (err x) e r next s k = inl refl

  through-IsAuthorised :
      (session : Result String User) (e : Endpoint) (r : HttpRequest) (answer outer : Answer)
      → (outer.1 ≡ db) ⊎ (outer ≡ answer)
      → IsAuthorised p f clock session e r db answer
      → IsAuthorised p f clock session e r db outer
  through-IsAuthorised session e r answer outer (inl same) k = inl same
  through-IsAuthorised session e r answer outer (inr same) k =
      subst (IsAuthorised p f clock session e r db) (sym same) k

  handle_save-IsAuthorised :
      (user : User) (r : HttpRequest)
      → IsAuthorised p f clock (ok user) post_save r db (handle_save p' h clock db user r)
  unfolding handle_save
  handle_save-IsAuthorised user r =
      access_checked-IsAuthorised p f h clock db post_save r user _
        (λ g id. save_for-Allowed p f h clock db r g id r.save_body refl)

  handle_resume-IsAuthorised :
      (user : User) (r : HttpRequest)
      → IsAuthorised p f clock (ok user) post_play r db (handle_resume p' h clock db user r)
  unfolding handle_resume perform Allowed
  handle_resume-IsAuthorised user r =
      access_checked-IsAuthorised p f h clock db post_play r user _ λ g id.
        commanded-Allowed p f h clock db post_play r g id "Game is not currently paused"
          (resume_game clock g id) (resume p'.sqlite p'.codec clock db g id) refl
          (resume-Steady p'.sqlite p.codec clock db g id) refl

  handle_pause-IsAuthorised :
      (user : User) (r : HttpRequest)
      → IsAuthorised p f clock (ok user) post_pause r db (handle_pause p' h clock db user r)
  unfolding handle_pause perform Allowed
  handle_pause-IsAuthorised user r =
      access_checked-IsAuthorised p f h clock db post_pause r user _ λ g id.
        commanded-Allowed p f h clock db post_pause r g id "Game is not currently playing"
          (pause_game clock g id) (pause p'.sqlite p'.codec clock db g id) refl
          (pause-Steady p'.sqlite p.codec clock db g id) refl

  -- The routes behind a middleware that is transparent.
  pub serve-IsAuthorised_of :
      {S : Type 0} (verify : Verify) (idem : Middleware S) (e : Endpoint) (r : HttpRequest) (s : S)
      → IsTransparent idem
      → IsAuthorised p f clock
          (verify r.session)
          e
          r
          db
          (without_store (serve (faulty p f) h verify idem clock e r (s, db)))
  unfolding serve
  serve-IsAuthorised_of verify idem post_login r s clear =
      through-IsAuthorised (verify r.session) post_login r _ _
        (clear no_token r (λ (d : Db). (handle_login p' h clock d r, d)) s db) (inl refl)
  serve-IsAuthorised_of verify idem get_test r s clear =
      authenticated-IsAuthorised (verify r.session) get_test r _ s (λ user. inl refl)
  serve-IsAuthorised_of verify idem get_games r s clear =
      authenticated-IsAuthorised (verify r.session) get_games r _ s (λ user. inl refl)
  serve-IsAuthorised_of verify idem get_shared r s clear =
      authenticated-IsAuthorised (verify r.session) get_shared r _ s (λ user. inl refl)
  serve-IsAuthorised_of verify idem get_interactions r s clear =
      authenticated-IsAuthorised (verify r.session) get_interactions r _ s (λ user. inl refl)
  serve-IsAuthorised_of verify idem post_save r s clear =
      authenticated-IsAuthorised (verify r.session) post_save r _ s λ user.
        through-IsAuthorised (ok user) post_save r (handle_save p' h clock db user r) _
          (clear user r (λ (d : Db). handle_save p' h clock d user r) s db)
          (handle_save-IsAuthorised user r)
  serve-IsAuthorised_of verify idem post_play r s clear =
      authenticated-IsAuthorised (verify r.session) post_play r _ s λ user.
        through-IsAuthorised (ok user) post_play r (handle_resume p' h clock db user r) _
          (clear user r (λ (d : Db). handle_resume p' h clock d user r) s db)
          (handle_resume-IsAuthorised user r)
  serve-IsAuthorised_of verify idem post_pause r s clear =
      authenticated-IsAuthorised (verify r.session) post_pause r _ s λ user.
        through-IsAuthorised (ok user) post_pause r (handle_pause p' h clock db user r) _
          (clear user r (λ (d : Db). handle_pause p' h clock d user r) s db)
          (handle_pause-IsAuthorised user r)
