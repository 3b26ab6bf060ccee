-- ===== src/Cmd/Exits.antt =====
-- cmd: what the two entry points leave open.
use keep_it_up.Prelude.{
  ℕ, some, List, [], ◌∷◌, String, Result, ok, err, ◌≡◌, refl, arith, sym, subst,
}
use keep_it_up.Time.{Time}
use keep_it_up.Db.{Db}
use keep_it_up.Requests.{Platform}
use keep_it_up.Config.{Config}
use keep_it_up.Idempotency.Valkey.{Valkey, Base64}
use keep_it_up.Usecase.Constructors.{Queries}
use keep_it_up.Http.Adapter.{Adapter}
use keep_it_up.Cmd.Defer.{
  Resource, signals, database, valkey_client, Effect, Failure, Frame, effects_of, enter,
}
use keep_it_up.Cmd.Nested.{
  IsNested, Keeps, open_rules, >>=-Keeps, same-Keeps, use_of-Keeps, return-Keeps, enter-IsNested,
}
use keep_it_up.Cmd.Serving.{MainAt, waiting, joining, exited, Event, starting, serving}
use keep_it_up.Cmd.Manager.{cli_deps, manage, left, manager}
use keep_it_up.Cli.{Ran}
use keep_it_up.Cmd.Server.{start, serve_with, exit, ended, server}
use keep_it_up.Cmd.{Outside, connect}

abbrev with_database : List Resource
with_database = database ∷ signals ∷ []

abbrev with_both : List Resource
with_both = valkey_client ∷ database ∷ signals ∷ []

connect-Keeps : (o : Outside) → Keeps [] with_database (connect o)
unfolding connect
connect-Keeps o = search open_rules depth 16

cli_deps-Keeps :
    (cfg : Config) (q : Queries String) → Keeps with_database with_database (cli_deps cfg q)
unfolding cli_deps
cli_deps-Keeps cfg q = search open_rules depth 24

manage-Keeps :
    (p : Platform) (o : Outside) (now : Time) (args : List String) (db : Db)
    → Keeps [] with_database (manage p o now args db)
unfolding manage
manage-Keeps p o now args db = >>=-Keeps [] with_database with_database _ _ (connect-Keeps o) (λ c.
    same-Keeps with_database with_database _ _ (cli_deps-Keeps c.0 c.1) (λ deps.
      same-Keeps with_database with_database _ _ (use_of-Keeps with_database database refl)
        (λ _. return-Keeps with_database _)))

left-effects : (db : Db) (x : Result Failure Ran × Frame) → (left db x).2 ≡ effects_of x.1
left-effects db (err e, f) = refl
left-effects db (ok (err e, db'), f) = refl
left-effects db (ok (ok line, db'), f) = refl

pub manager_effects :
    (p : Platform) (o : Outside) (now : Time) (args : List String) (db : Db)
    → IsNested (manager p o now args db).2
unfolding manager
manager_effects p o now args db =
    subst IsNested (sym (left-effects db (enter (manage p o now args db))))
      (enter-IsNested with_database (manage p o now args db) (manage-Keeps p o now args db))

module _ {S : Type 0} (v : Valkey S) (b : Base64) where
  start-Keeps : (o : Outside) → Keeps [] with_both (start v b o)
  unfolding start
  start-Keeps o =
      >>=-Keeps [] with_database with_both _ _ (connect-Keeps o) (λ c. search open_rules depth 40)

  serve_with-Keeps : (o : Outside) → Keeps [] with_both (serve_with v b o)
  unfolding serve_with
  serve_with-Keeps o =
      >>=-Keeps [] with_both with_both _ _ (start-Keeps o) (λ a. search open_rules depth 16)

  exit-effects :
      (m : MainAt) (c : ℕ) (es done : List Effect) → exit v b es m ≡ some (c, done) → es ≡ done
  exit-effects (exited c') c es done same = ground (arith, same)
  exit-effects waiting c es done same = absurd (ground (arith, same))
  exit-effects joining c es done same = absurd (ground (arith, same))

  ended-IsNested :
      (shutdown : Result String Unit) (events : List Event)
      (x : Result Failure (Adapter String S) × Frame) (code : ℕ) (done : List Effect)
      → IsNested (effects_of x.1)
      → ended v b shutdown events x ≡ some (code, done)
      → IsNested done
  ended-IsNested shutdown events (err e, f) code done nested same =
      let path : effects_of f ≡ done = ground (arith, same) in subst IsNested path nested
  ended-IsNested shutdown events (ok a, f) code done nested same =
      subst IsNested
        (exit-effects (serving shutdown events starting).main_at code (effects_of f) done same)
        nested

  pub server_effects :
      (o : Outside) (shutdown : Result String Unit) (events : List Event) (code : ℕ)
      (done : List Effect)
      → server v b o shutdown events ≡ some (code, done)
      → IsNested done
  unfolding server
  server_effects o shutdown events code done same =
      ended-IsNested shutdown events (enter (serve_with v b o)) code done
        (enter-IsNested with_both (serve_with v b o) (serve_with-Keeps o)) same
