-- ===== src/Http/Session.antt =====
-- internal/infrastructure/driver/httpadapter/handlers.go: the session that a login opens.
use keep_it_up.Prelude.{
  ℤ, pos, true, Option, none, some, String, Result, ok, err, ok_inj, ◌≡◌, refl, sym, ◌∙◌, ap, arith,
  Bool-cases, inl, inr,
}
use mathlib.Core.Option.{none-ne-some, some-injective}
use keep_it_up.Time.{Time, add, before}
use keep_it_up.Model.{Player, AuthResult}
use keep_it_up.Mapping.{to_domain_player}
use keep_it_up.Db.{Db, PlayerRow}
use keep_it_up.Db.Players.{find_row}
use keep_it_up.Usecase.{Error, Clock}
use keep_it_up.Usecase.Authentication.{matches, login_player}
use keep_it_up.Usecase.Authentication.Login.{has_username, login_player_sound}
use keep_it_up.Requests.{Platform}
use keep_it_up.Http.{
  HttpRequest, HttpAdapter, Response, Cookie, Json, written, json, message, bad_request_with,
  is_bad_request, is_unauthorized,
}
use keep_it_up.Http.Handlers.{set_cookie, logged_in, handle_login}
use keep_it_up.Token.{Jwt, IsJwt, generate_token, parse_token, parse_token-generate_token}

written-ne-cookie :
    (status : ℤ) (text : Result String String) (r : Response) (c : Cookie)
    → written status text ≡ ok r
    → r.cookie ≡ some c
    → ⊥
written-ne-cookie status (ok s) r c e k = none-ne-some c (
    ap (λ (x : Response). x.cookie)
      (ok_inj (record { status = status; body = s; cookie = none }) r e)
    ∙ k)
written-ne-cookie status (err x) r c e k = ground (arith, e)

json-ne-cookie :
    (h : HttpAdapter) (status : ℤ) (j : Json) (r : Response) (c : Cookie)
    → json h status j ≡ ok r
    → r.cookie ≡ some c
    → ⊥
json-ne-cookie h status j r c e k = written-ne-cookie status (h.encode j) r c e k

module _ (p : Platform) (h : HttpAdapter) (clock : Clock) (db : Db) (r : Response) (c : Cookie)
    (k : r.cookie ≡ some c) where
  set_cookie-cookie :
      (res : AuthResult) (tp : Option Clock)
      → set_cookie p h clock db res tp ≡ ok r
      → (now : Time) × (tp ≡ some (ok now))
        × (r.status ≡ pos 204)
        × (c.value ≡ res.token)
        × (c.expires ≡ add now h.session_lifetime)
  set_cookie-cookie res none e =
      absurd (json-ne-cookie h (pos 500) (message "Something went wrong!") r c e k)
  set_cookie-cookie res (some (err x)) e =
      absurd (json-ne-cookie h (pos 500) (message "Something went wrong!") r c e k)
  set_cookie-cookie res (some (ok now)) e =
      let whole = ok_inj _ r e in
      let cookie_same = some-injective _ c (ap (λ (x : Response). x.cookie) whole ∙ k) in
      (
        now,
        refl,
        sym (ap (λ (x : Response). x.status) whole),
        sym (ap (λ (x : Cookie). x.value) cookie_same),
        sym (ap (λ (x : Cookie). x.expires) cookie_same),
      )

  logged_in-cookie :
      (l : Result Error AuthResult)
      → logged_in p h clock db l ≡ ok r
      → (res : AuthResult) × (now : Time) × (l ≡ ok res)
        × (h.tp ≡ some (ok now))
        × (r.status ≡ pos 204)
        × (c.value ≡ res.token)
        × (c.expires ≡ add now h.session_lifetime)
  logged_in-cookie (ok res) e =
      let (now, tp, status, value, expires) = set_cookie-cookie res h.tp e in
      (res, now, refl, tp, status, value, expires)
  logged_in-cookie (err x) e = elim (Bool-cases (is_bad_request x)) [
    | inl bad ↦
        absurd
          (json-ne-cookie h (pos 400) (message "Missing username or password") r c (rw bad at e) k)
    | inr fine ↦ elim (Bool-cases (is_unauthorized x)) [
      | inl unknown ↦ absurd (
          json-ne-cookie h (pos 401) (message "Incorrect username or password") r c
            (rw unknown at (rw fine at e)) k)
      | inr other ↦ absurd (
          json-ne-cookie h (pos 500) (message "Something went wrong!") r c
            (rw other at (rw fine at e)) k)
    ]
  ]

  login_body-cookie :
      (request : HttpRequest) (body : Result String (String × String))
      → (elim body [
        | err e ↦ bad_request_with h "Missing username or password"
        | ok (username, password) ↦
            logged_in p h clock db
              (login_player p.sqlite p.bcrypt db h.generate_token username password)
      ])
        ≡ ok r
      → (username : String) × (password : String) × (body ≡ ok (username, password))
        × (logged_in p h clock db
              (login_player p.sqlite p.bcrypt db h.generate_token username password)
            ≡ ok r)
  login_body-cookie request (err x) e =
      absurd (json-ne-cookie h (pos 400) (message "Missing username or password") r c e k)
  login_body-cookie request (ok (username, password)) e = (username, password, refl, e)

  -- If `/login` sets a cookie, and its `Auth` port generates tokens with a secret and the same
  -- lifetime: the status is 204, the body of the request gave the username of a player and a
  -- password that matches the hash stored for it, and until it expires the cookie's value is parsed
  -- with the secret as the claims of that player. The cookie and the token expire a lifetime after
  -- the readings of the two clocks.
  pub handle_login-opens_session :
      (request : HttpRequest) (j : Jwt) (secret : String) (t now : Time)
      → IsJwt j
      → h.generate_token ≡ generate_token j secret (some (ok t)) h.session_lifetime
      → before now (j.numeric_date (add t h.session_lifetime)) ≡ true
      → handle_login p h clock db request ≡ ok r
      → (username : String) × (password : String) × (row : PlayerRow) × (at : Time)
        × (request.login_body ≡ ok (username, password))
        × (find_row (has_username username) db.players ≡ ok row)
        × (p.bcrypt.compare row.hashed_password password ≡ matches)
        × (r.status ≡ pos 204)
        × (h.tp ≡ some (ok at))
        × (c.expires ≡ add at h.session_lifetime)
        × (parse_token j now c.value secret
            ≡ ok (record {
              expires_at = j.numeric_date (add t h.session_lifetime);
              user_id = row.id;
              username = row.username;
            }))
  unfolding handle_login
  handle_login-opens_session request j secret t now laws tokens early e =
      let (username, password, body, done) = login_body-cookie request request.login_body e in
      let (res, at, logged, tp, status, value, expires) =
        logged_in-cookie (login_player p.sqlite p.bcrypt db h.generate_token username password)
          done in
      let (row, found, _, same, _, generated) =
        login_player_sound p.sqlite p.bcrypt db username password h.generate_token res logged in
      (
        username,
        password,
        row,
        at,
        body,
        found,
        same,
        status,
        tp,
        expires,
        ap (λ (raw : String). parse_token j now raw secret) value
            ∙ parse_token-generate_token j laws secret t now h.session_lifetime
                (to_domain_player row) res.token
                (sym (ap (λ (g : Player → Result String String). g (to_domain_player row)) tokens)
                  ∙ generated)
                early,
      )
