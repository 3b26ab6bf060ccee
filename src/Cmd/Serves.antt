-- ===== src/Cmd/Serves.antt =====
-- cmd/server/main.go: a server that serves is configured, and has reached its database and Valkey.
use mathlib.Core.List.{Memᴰ}
use keep_it_up.Prelude.{
  ℕ, some, List, String, Result, ok, err, Result-cases, ◌≡◌, ◌⊎◌, inl, inr, refl, sym, ◌∙◌, ap,
  arith,
}
use keep_it_up.Config.{Config}
use keep_it_up.Usecase.Constructors.{new_queries, default_time_provider}
use keep_it_up.Idempotency.Valkey.{Valkey, Base64}
use keep_it_up.Http.Adapter.{Deps, Adapter}
use keep_it_up.Cmd.Defer.{Effect, Failure, Frame, ◌>>=◌, entered, enter, effects_of}
use keep_it_up.Cmd.Nested.{IsNested}
use keep_it_up.Cmd.Server.{adapter_of, start, serve_with, exit, ended, server}
use keep_it_up.Cmd.Serving.{
  MainAt, exited, waiting, joining, Event, interrupt, listener_fails, starting, serving,
}
use keep_it_up.Cmd.Serving.Sound.{IsEnd}
use keep_it_up.Cmd.Serving.Exit.{serving-IsEnd}
use keep_it_up.Cmd.Starts.{Connects, connect-IsConnected, other_fails}
use keep_it_up.Cmd.Exits.{server_effects}
use keep_it_up.Cmd.{Outside, data_source}

-- The database and Valkey of the configuration answer.
abbrev pub Starts : Outside → Config → Type 0
Starts o cfg =
    Connects o cfg × (o.valkey_client cfg.valkey_address ≡ ok tt) × (o.valkey_ping ≡ ok tt)

-- The use cases of a configuration: over one connection, with one secret.
abbrev pub deps_of : Config → Deps String
deps_of cfg =
    let q = new_queries (data_source cfg) in
    record {
      auth = record {
        q = q;
        tg = record {
          jwt_secret = cfg.jwt_secret;
          time_provider = default_time_provider;
          session_lifetime = cfg.session_lifetime;
        };
      };
      fetch = record { q = q; tp = default_time_provider };
      commands = record { q = q; tp = default_time_provider };
      access = record { q = q };
    }

module _ {S : Type 0} (v : Valkey S) (b : Base64) where
  abbrev pub IsStarted : Outside → Result Failure (Adapter String S) → Type 0
  IsStarted o r =
      ((cfg : Config) × Starts o cfg × (r ≡ ok (adapter_of v b cfg (deps_of cfg))))
      ⊎ ((e : Failure) × (r ≡ err e) × ((cfg : Config) → ¬ Starts o cfg))

  pub start-IsStarted : (o : Outside) (f : Frame) → IsStarted o (start v b o f).0
  unfolding start ◌>>=◌
  start-IsStarted o f = elim (connect-IsConnected o f) [
    | inr (e, failed, never) ↦ rw failed (inr (e, refl, λ cfg (connects, _, _). never cfg connects))
    | inl (cfg, connects, done) ↦ elim (Result-cases (o.valkey_client cfg.valkey_address)) [
      | inr (e, bad) ↦
          rw (done, bad)
            (inr (
              _,
              refl,
              λ cfg' ((l, _, _), opens, _).
                  other_fails cfg cfg' (λ (c : Config). o.valkey_client c.valkey_address) e tt
                    (sym connects.0 ∙ l) bad opens,
            ))
      | inl (u, opens) ↦ elim (Result-cases o.valkey_ping) [
        | inr (e, bad) ↦
            rw (done, opens, bad) (inr (_, refl, λ cfg' (_, _, pings). ground (arith, pings, bad)))
        | inl (u', pings) ↦ rw (done, opens, pings) (inl (cfg, (connects, opens, refl), refl))
      ]
    ]
  ]

  serve_with-ok :
      (o : Outside) (a : Adapter String S)
      → (start v b o entered).0 ≡ ok a
      → (enter (serve_with v b o)).0 ≡ ok a
  unfolding serve_with ◌>>=◌
  serve_with-ok o a h = rw h refl

  serve_with-err :
      (o : Outside) (e : Failure)
      → (start v b o entered).0 ≡ err e
      → (enter (serve_with v b o)).0 ≡ err e
  unfolding serve_with ◌>>=◌
  serve_with-err o e h = rw h refl

  -- Why the program ends, and with which exit code.
  abbrev pub Ends : Outside → Result String Unit → List Event → ℕ → Type 0
  Ends o shutdown events code =
      (((cfg : Config) → ¬ Starts o cfg) × (code ≡ 1))
      ⊎ ((cfg : Config) × Starts o cfg
          × IsEnd shutdown (Memᴰ interrupt events) (λ e. Memᴰ (listener_fails e) events) code)

  exited-Ends :
      (o : Outside) (shutdown : Result String Unit) (events : List Event) (code : ℕ)
      (effects done : List Effect) (m : MainAt) (cfg : Config)
      → (serving shutdown events starting).main_at ≡ m
      → exit v b effects m ≡ some (code, done)
      → Starts o cfg
      → Ends o shutdown events code
  exited-Ends o shutdown events code effects done (exited c) cfg at same starts =
      let coded : c ≡ code = ground (arith, same) in
      inr (cfg, starts, (serving-IsEnd shutdown events code (at ∙ ap exited coded)).1)
  exited-Ends o shutdown events code effects done waiting cfg at same starts =
      absurd (ground (arith, same))
  exited-Ends o shutdown events code effects done joining cfg at same starts =
      absurd (ground (arith, same))

  ended-Ends :
      (o : Outside) (shutdown : Result String Unit) (events : List Event) (code : ℕ)
      (done : List Effect) (x : Result Failure (Adapter String S) × Frame)
      → IsStarted o x.0
      → ended v b shutdown events x ≡ some (code, done)
      → Ends o shutdown events code
  ended-Ends o shutdown events code done (err e, f) (inl (cfg, starts, same)) h =
      absurd (ground (arith, same))
  ended-Ends o shutdown events code done (err e, f) (inr (e', same, never)) h =
      inl (never, ground (arith, h))
  ended-Ends o shutdown events code done (ok a, f) (inr (e', same, never)) h =
      absurd (ground (arith, same))
  ended-Ends o shutdown events code done (ok a, f) (inl (cfg, starts, same)) h =
      exited-Ends o shutdown events code (effects_of f) done
        (serving shutdown events starting).main_at cfg refl h starts

  serve_with-IsStarted : (o : Outside) → IsStarted o (enter (serve_with v b o)).0
  serve_with-IsStarted o = elim (start-IsStarted o entered) [
    | inl (cfg, starts, same) ↦ inl (cfg, starts, serve_with-ok o _ same)
    | inr (e, same, never) ↦ inr (e, serve_with-err o e same, never)
  ]

  -- When the server returns, whatever the outside has answered and whatever has happened: what it
  -- opened is closed, each once and the latest first, and was used only while it was open. Either
  -- no configuration was loaded whose database and Valkey answer, and the exit code is 1; or one
  -- was, and then the exit code is 0, a signal has come and the shutdown had no error, or it is 1,
  -- and the listener has failed or the shutdown has.
  pub server_exits :
      (o : Outside) (shutdown : Result String Unit) (events : List Event) (code : ℕ)
      (done : List Effect)
      → server v b o shutdown events ≡ some (code, done)
      → IsNested done × Ends o shutdown events code
  unfolding server
  server_exits o shutdown events code done same = (
    server_effects v b o shutdown events code done same,
    ended-Ends o shutdown events code done (enter (serve_with v b o)) (serve_with-IsStarted o) same,
  )
