-- ===== src/Cmd/Starts.antt =====
-- cmd: when the two entry points start, and with what.
use keep_it_up.Prelude.{
  ℕ, List, String, Result, ok, err, Result-cases, ok_inj, ◌≡◌, ◌⊎◌, inl, inr, refl, sym, ◌∙◌, ap,
  arith,
}
use keep_it_up.Time.{Time}
use keep_it_up.Db.{Db}
use keep_it_up.Requests.{Platform}
use keep_it_up.Config.{Config, ConfigError, load, load_env}
use keep_it_up.Usecase.Constructors.{Queries, new_queries}
use keep_it_up.Cli.{Ran}
use keep_it_up.Cli.Run.{run}
use keep_it_up.Cmd.Defer.{Effect, Failure, Frame, ◌>>=◌, entered, enter}
use keep_it_up.Cmd.Nested.{IsNested}
use keep_it_up.Cmd.Exits.{manager_effects}
use keep_it_up.Cmd.Manager.{cli_deps, manage, left, manager}
use keep_it_up.Cmd.{Outside, data_source, connect}

-- The configuration is loaded, and its database opens and answers.
abbrev pub Connects : Outside → Config → Type 0
Connects o cfg =
    (load o.os (load_env o.os o.dotenv o.env) ≡ ok cfg)
    × (o.sql_open (data_source cfg) ≡ ok tt)
    × (o.sql_ping (data_source cfg) ≡ ok tt)

abbrev pub IsConnected : Outside → Result Failure (Config × Queries String) → Type 0
IsConnected o r =
    ((cfg : Config) × Connects o cfg × (r ≡ ok (cfg, new_queries (data_source cfg))))
    ⊎ ((e : Failure) × (r ≡ err e) × ((cfg : Config) → ¬ Connects o cfg))

-- A configuration is loaded that is the one given, so a call that fails for it fails.
pub other_fails :
    {A : Type 0} (cfg cfg' : Config) (call : Config → Result String A) (e : String) (a : A)
    → Path (Result ConfigError Config) (ok cfg) (ok cfg')
    → call cfg ≡ err e
    → ¬ (call cfg' ≡ ok a)
other_fails cfg cfg' call e a loaded bad good =
    let same : cfg ≡ cfg' = ok_inj cfg cfg' loaded in ground (arith, sym bad ∙ ap call same ∙ good)

pub connect-IsConnected : (o : Outside) (f : Frame) → IsConnected o (connect o f).0
unfolding connect ◌>>=◌
connect-IsConnected o f = elim (Result-cases (load o.os (load_env o.os o.dotenv o.env))) [
  | inr (e, bad) ↦ rw bad (inr (_, refl, λ cfg (l, _, _). ground (arith, l, bad)))
  | inl (cfg, loaded) ↦ elim (Result-cases (o.sql_open (data_source cfg))) [
    | inr (e, bad) ↦
        rw (loaded, bad)
          (inr (
            _,
            refl,
            λ cfg' (l, opens, _).
                other_fails cfg cfg' (λ (c : Config). o.sql_open (data_source c)) e tt l bad opens,
          ))
    | inl (u, opens) ↦ elim (Result-cases (o.sql_ping (data_source cfg))) [
      | inr (e, bad) ↦
          rw (loaded, opens, bad)
            (inr (
              _,
              refl,
              λ cfg' (l, _, pings).
                  other_fails cfg cfg' (λ (c : Config). o.sql_ping (data_source c)) e tt l bad
                    pings,
            ))
      | inl (u', pings) ↦ rw (loaded, opens, pings) (inl (cfg, (refl, opens, pings), refl))
    ]
  ]
]

-- The exit code of a run of the command line.
abbrev pub exit_code : {E A : Type 0} → Result E A → ℕ
exit_code (ok a) = 0
exit_code (err e) = 1

abbrev pub Runs : Platform → Outside → Time → List String → Db → ℕ → Db → Type 0
Runs p o now args db code db' =
    (cfg : Config) × Connects o cfg
    × (code ≡ exit_code (run p (ok now) db args).0)
    × (db' ≡ (run p (ok now) db args).1)

abbrev pub Refuses : Outside → Db → ℕ → Db → Type 0
Refuses o db code db' = ((cfg : Config) → ¬ Connects o cfg) × (code ≡ 1) × (db' ≡ db)

left-ok :
    (db : Db) (x : Ran) (f : Frame)
    → ((left db (ok x, f)).0 ≡ exit_code x.0) × ((left db (ok x, f)).1 ≡ x.1)
left-ok db (ok line, db') f = (refl, refl)
left-ok db (err e, db') f = (refl, refl)

manage-err :
    (p : Platform) (o : Outside) (now : Time) (args : List String) (db : Db) (e : Failure)
    → (connect o entered).0 ≡ err e
    → (enter (manage p o now args db)).0 ≡ err e
unfolding manage ◌>>=◌
manage-err p o now args db e h = rw h refl

manage-ok :
    (p : Platform) (o : Outside) (now : Time) (args : List String) (db : Db)
    (c : Config × Queries String)
    → (connect o entered).0 ≡ ok c
    → (enter (manage p o now args db)).0 ≡ ok (run p (ok now) db args)
unfolding manage ◌>>=◌ cli_deps
manage-ok p o now args db c h = rw h refl

by_result :
    (db : Db) (x : Result Failure Ran × Frame) (r : Result Failure Ran)
    → x.0 ≡ r
    → left db x ≡ left db (r, x.1)
by_result db x r h = ap (λ (y : Result Failure Ran). left db (y, x.1)) h

manager-Runs :
    (p : Platform) (o : Outside) (now : Time) (args : List String) (db : Db)
    → Runs p o now args db (manager p o now args db).0 (manager p o now args db).1
      ⊎ Refuses o db (manager p o now args db).0 (manager p o now args db).1
unfolding manager
manager-Runs p o now args db =
    let x = enter (manage p o now args db) in
    elim (connect-IsConnected o entered) [
      | inl (cfg, connects, done) ↦
          let (code, database) = left-ok db (run p (ok now) db args) x.1 in
          let path =
            by_result db x (ok (run p (ok now) db args)) (manage-ok p o now args db _ done) in
          inl (
            cfg,
            connects,
            ap (λ (y : ℕ × Db × List Effect). y.0) path ∙ code,
            ap (λ (y : ℕ × Db × List Effect). y.1) path ∙ database,
          )
      | inr (e, failed, never) ↦
          let path = by_result db x (err e) (manage-err p o now args db e failed) in
          inr (
            never,
            ap (λ (y : ℕ × Db × List Effect). y.0) path,
            ap (λ (y : ℕ × Db × List Effect). y.1) path,
          )
    ]

-- Whatever the outside answers and whatever the arguments are: what the manager opened is closed,
-- each once and the latest first, and was used only while it was open. Either a configuration is
-- loaded whose database opens and answers, and then the exit code and the database are those of the
-- run of the command line, 0 without an error and 1 with one; or none is, the exit code is 1, and
-- the database is as it was.
pub manager_exits :
    (p : Platform) (o : Outside) (now : Time) (args : List String) (db : Db)
    → IsNested (manager p o now args db).2
      × (Runs p o now args db (manager p o now args db).0 (manager p o now args db).1
          ⊎ Refuses o db (manager p o now args db).0 (manager p o now args db).1)
manager_exits p o now args db = (manager_effects p o now args db, manager-Runs p o now args db)
