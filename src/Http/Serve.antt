-- ===== src/Http/Serve.antt =====
-- internal/infrastructure/driver/httpadapter/http.go: `routes`.
--
-- The router is Echo's: an endpoint is the method and the path that it has matched. The JWT
-- middleware of echo-jwt is the parameter `verify`: what it does with the session cookie. The
-- state `S` is the idempotency store's, and `idem` the middleware around the handlers that have it.
use keep_it_up.Prelude.{pos, Option, none, String, Result, ok, err}
use keep_it_up.Db.{Db}
use keep_it_up.Usecase.{Clock}
use keep_it_up.Requests.{Platform}
use keep_it_up.Http.{User, no_token, HttpRequest, HttpAdapter, Handled}
use keep_it_up.Http.Handlers.{
  Answer, handle_login, handle_list_games, handle_get_shared, handle_save, handle_resume,
  handle_pause, handle_list_interactions,
}

pub data Endpoint : Type 0 where
  post_login get_test get_games get_shared get_interactions post_save post_play post_pause :
      Endpoint

abbrev pub Verify : Type 0
Verify = Option String → Result String User

-- An Echo handler over the store and the database.
abbrev pub Next : Type 0 → Type 0
Next S = S × Db → Handled × S × Db

abbrev pub Middleware : Type 0 → Type 0
Middleware S = User → HttpRequest → Next S → Next S

-- Without an idempotency store.
abbrev pub no_idempotency : Middleware Unit
no_idempotency user r next = next

abbrev pub on_db : {S : Type 0} → (Db → Answer) → Next S
on_db f (s, db) = let (a, db') = f db in (a, s, db')

-- A handler that only reads.
abbrev pub reading : {S : Type 0} → (Db → Handled) → Next S
reading f = on_db (λ db. (f db, db))

-- `echojwt`
abbrev pub authenticated : {S : Type 0} → Result String User → (User → Next S) → Next S
authenticated (ok user) next w = next user w
authenticated (err e) next (s, db) = (err e, s, db)

module _ {S : Type 0} (p : Platform) (h : HttpAdapter) (verify : Verify) (idem : Middleware S)
    (clock : Clock) where
  -- `routes`
  unfoldable pub serve : Endpoint → HttpRequest → Next S
  unfolding handle_login handle_list_games handle_get_shared handle_save handle_resume handle_pause
      handle_list_interactions
  serve post_login r = idem no_token r (reading (λ db. handle_login p h clock db r))
  serve get_test r =
      authenticated (verify r.session)
        (λ user. reading (λ db. ok (record { status = pos 200; body = "Hello"; cookie = none })))
  serve get_games r =
      authenticated (verify r.session) (λ user. reading (λ db. handle_list_games p h clock db user))
  serve get_shared r =
      authenticated (verify r.session)
        (λ user. reading (λ db. handle_get_shared p h clock db user r))
  serve get_interactions r =
      authenticated (verify r.session)
        (λ user. reading (λ db. handle_list_interactions p h clock db user r))
  serve post_save r =
      authenticated (verify r.session)
        (λ user. idem user r (on_db (λ db. handle_save p h clock db user r)))
  serve post_play r =
      authenticated (verify r.session)
        (λ user. idem user r (on_db (λ db. handle_resume p h clock db user r)))
  serve post_pause r =
      authenticated (verify r.session)
        (λ user. idem user r (on_db (λ db. handle_pause p h clock db user r)))
