-- ===== src/Cmd/Sessions.antt =====
-- cmd/server/main.go: the wiring of logins and sessions.
use keep_it_up.Prelude.{
  true, some, String, Result, ok, ◌≡◌, inl, inr, refl, ap, arith, subst, sym, ◌∙◌,
}
use keep_it_up.Time.{Time, add, before}
use keep_it_up.Db.{Db, PlayerRow}
use keep_it_up.Db.Players.{find_row}
use keep_it_up.Usecase.{Clock}
use keep_it_up.Usecase.Authentication.{matches}
use keep_it_up.Usecase.Authentication.Login.{has_username}
use keep_it_up.Requests.{Platform}
use keep_it_up.Config.{Config, load_env}
use keep_it_up.Config.Loaded.{IsLoaded, load-IsLoaded}
use keep_it_up.Token.{Jwt, IsJwt, parse_token}
use keep_it_up.Http.{Json, HttpRequest, Response, Cookie}
use keep_it_up.Http.Handlers.{handle_login}
use keep_it_up.Http.Session.{handle_login-opens_session}
use keep_it_up.Http.Adapter.{Adapter, handling}
use keep_it_up.Idempotency.Valkey.{Valkey, Base64}
use keep_it_up.Cmd.Defer.{Frame}
use keep_it_up.Cmd.Server.{adapter_of, start}
use keep_it_up.Cmd.Serves.{Starts, deps_of, start-IsStarted}
use keep_it_up.Cmd.{Outside}

module _ {S : Type 0} (v : Valkey S) (b : Base64) where
  -- The token that a login puts in the cookie is that of a player whose password was given, the
  -- adapter's own secret reads it until it expires, and the cookie expires with it.
  abbrev pub IsSession :
      Platform → Db → Jwt → Adapter String S → HttpRequest → Cookie → Time → Time → Type 0
  IsSession p db j a request c at now =
      (username : String) × (password : String) × (row : PlayerRow) × (request.login_body
        ≡ ok (username, password))
      × (find_row (has_username username) db.players ≡ ok row)
      × (p.bcrypt.compare row.hashed_password password ≡ matches)
      × (c.expires ≡ add at a.session_lifetime)
      × (parse_token j now c.value a.jwt_secret
          ≡ ok (record {
            expires_at = j.numeric_date (add at a.session_lifetime);
            user_id = row.id;
            username = row.username;
          }))

  started :
      (o : Outside) (f : Frame) (a : Adapter String S)
      → (start v b o f).0 ≡ ok a
      → (cfg : Config) × Starts o cfg × (adapter_of v b cfg (deps_of cfg) ≡ a)
  started o f a same = elim (start-IsStarted v b o f) [
    | inl (cfg, starts, done) ↦ (cfg, starts, ground (arith, done, same))
    | inr (e, failed, never) ↦ absurd (ground (arith, failed, same))
  ]

  login-IsSession :
      (p : Platform) (j : Jwt) (encode : Json → Result String String) (clock : Clock) (db : Db)
      (cfg : Config) (request : HttpRequest) (r : Response) (c : Cookie) (at now : Time)
      → IsJwt j
      → handle_login p (handling j encode at (adapter_of v b cfg (deps_of cfg))) clock db request
        ≡ ok r
      → r.cookie ≡ some c
      → before now (j.numeric_date (add at cfg.session_lifetime)) ≡ true
      → IsSession p db j (adapter_of v b cfg (deps_of cfg)) request c at now
  login-IsSession p j encode clock db cfg request r c at now laws done cookie early =
      let h = handling j encode at (adapter_of v b cfg (deps_of cfg)) in
      let (username, password, row, read, body, found, same, _, clocked, expires, parsed) =
        handle_login-opens_session p h clock db r c cookie request j cfg.jwt_secret at now laws refl
          early done in
      let read_same : at ≡ read = ground (arith, clocked) in
      (
        username,
        password,
        row,
        body,
        found,
        same,
        expires ∙ ap (λ (t : Time). add t cfg.session_lifetime) (sym read_same),
        parsed,
      )

  -- A server that has started is configured with a usable configuration, whose database and Valkey
  -- have answered, and it reads the tokens that it issues.
  pub start-opens_sessions :
      (o : Outside) (f : Frame) (a : Adapter String S) (p : Platform) (j : Jwt)
      (encode : Json → Result String String) (clock : Clock) (db : Db) (request : HttpRequest)
      (r : Response) (c : Cookie) (at now : Time)
      → (start v b o f).0 ≡ ok a
      → IsJwt j
      → handle_login p (handling j encode at a) clock db request ≡ ok r
      → r.cookie ≡ some c
      → before now (j.numeric_date (add at a.session_lifetime)) ≡ true
      → ((cfg : Config) × Starts o cfg
          × IsLoaded o.os (load_env o.os o.dotenv o.env) cfg
          × (a.jwt_secret ≡ cfg.jwt_secret))
        × IsSession p db j a request c at now
  start-opens_sessions o f a p j encode clock db request r c at now same laws done cookie early =
      let (cfg, starts, whole) = started o f a same in
      (
        (
          cfg,
          starts,
          load-IsLoaded o.os (load_env o.os o.dotenv o.env) cfg starts.0.0,
          ap (λ (x : Adapter String S). x.jwt_secret) (sym whole),
        ),
        subst
            (λ (x : Adapter String S).
              handle_login p (handling j encode at x) clock db request ≡ ok r
              → before now (j.numeric_date (add at x.session_lifetime)) ≡ true
              → IsSession p db j x request c at now)
            whole
            (λ done' early'.
              login-IsSession p j encode clock db cfg request r c at now laws done' cookie early')
            done early,
      )
