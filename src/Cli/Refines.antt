-- ===== src/Cli/Refines.antt =====
-- internal/infrastructure/driver/cliadapter/cli.go: what a run does to the database.
pub mod Manage
pub mod Play
pub mod Run
use keep_it_up.Prelude.{
  ℤ, Bool, true, false, Option, none, some, List, [], ◌∷◌, String, str_eq, eq_iff, if◌then◌else◌,
  Result, ok, err, ◌≡◌, refl, sym, subst, ap, arith, ◌⊎◌, inl, inr, Bool-cases,
}
use keep_it_up.Number.{parse_int}
use keep_it_up.Db.{Db}
use keep_it_up.Usecase.{Error, Clock, Action}
use keep_it_up.Requests.{
  Request, save_game, resume_game, pause_game, add_game_named, update_game, delete_game,
  grant_access, revoke_access, add_player_named, rename_player, change_password, force_password,
  delete_player, Platform, Faults, faulty, perform,
}
use keep_it_up.Requests.Steady.{
  Steady, add_game-Steady, update-Steady, delete-Steady, grant-Steady, revoke-Steady, rename-Steady,
  remove_player-Steady, update_password-Steady, update_password_force-Steady, add_player-Steady,
  save-Steady, resume-Steady, pause-Steady,
}
use keep_it_up.Cli.{Output, CliError, invalid_id, Ran, with_id, with_number, done, answered}

-- The call reads the clock that is given.
abbrev pub Reads : Clock → Request → Type 0
Reads clock (save_game c _ _ _) = c ≡ clock
Reads clock (resume_game c _ _) = c ≡ clock
Reads clock (pause_game c _ _) = c ≡ clock
Reads clock _ = Unit

-- The arguments that say a call: the noun, the verb, and arguments that are read as its numbers.
unfoldable pub Says : List String → Request → Type 0
Says args (save_game _ g pl n) =
    (i : String) × (j : String) × (d : String) × (args ≡ "command" ∷ "save" ∷ i ∷ j ∷ d ∷ [])
    × (parse_int i ≡ some g)
    × (parse_int j ≡ some pl)
    × (parse_int d ≡ some n)
Says args (resume_game _ g pl) =
    (i : String) × (j : String) × (args ≡ "command" ∷ "resume" ∷ i ∷ j ∷ [])
    × (parse_int i ≡ some g)
    × (parse_int j ≡ some pl)
Says args (pause_game _ g pl) =
    (i : String) × (j : String) × (args ≡ "command" ∷ "pause" ∷ i ∷ j ∷ [])
    × (parse_int i ≡ some g)
    × (parse_int j ≡ some pl)
Says args (add_game_named name) = args ≡ "game" ∷ "add" ∷ name ∷ []
Says args (update_game g name) =
    (i : String) × (args ≡ "game" ∷ "update" ∷ i ∷ name ∷ []) × (parse_int i ≡ some g)
Says args (delete_game g) =
    (i : String) × (args ≡ "game" ∷ "delete" ∷ i ∷ []) × (parse_int i ≡ some g)
Says args (grant_access g pl) =
    (i : String) × (j : String) × (args ≡ "access" ∷ "grant" ∷ i ∷ j ∷ [])
    × (parse_int i ≡ some g)
    × (parse_int j ≡ some pl)
Says args (revoke_access g pl) =
    (i : String) × (j : String) × (args ≡ "access" ∷ "revoke" ∷ i ∷ j ∷ [])
    × (parse_int i ≡ some g)
    × (parse_int j ≡ some pl)
Says args (add_player_named name username password) =
    args ≡ "player" ∷ "add" ∷ name ∷ username ∷ password ∷ []
Says args (rename_player pl name) =
    (i : String) × (args ≡ "player" ∷ "rename" ∷ i ∷ name ∷ []) × (parse_int i ≡ some pl)
Says args (change_password username current new) =
    args ≡ "player" ∷ "passwd" ∷ username ∷ current ∷ new ∷ []
Says args (force_password username new) = args ≡ "player" ∷ "passwd-force" ∷ username ∷ new ∷ []
Says args (delete_player pl) =
    (i : String) × (args ≡ "player" ∷ "delete" ∷ i ∷ []) × (parse_int i ≡ some pl)

-- Nothing has changed, or the call that the arguments say was performed, with the clock, and has
-- succeeded.
abbrev pub Refines : Platform → Faults → Clock → Db → List String → Ran → Type 0
Refines p f clock db args ran =
    (ran.1 ≡ db)
    ⊎ ((r : Request) × (o : Output) × Reads clock r
        × Says args r
        × (ran ≡ (ok o, perform p f r db)))

module _ (p : Platform) (f : Faults) (clock : Clock) (db : Db) where
  pub refused-Refines : (args : List String) (e : CliError) → Refines p f clock db args (err e, db)
  refused-Refines args e = inl refl

  pub printed-Refines : (args : List String) (o : Output) → Refines p f clock db args (ok o, db)
  printed-Refines args o = inl refl

  pub if-Refines :
      (args : List String) (t : Bool) (x y : Ran)
      → Refines p f clock db args x
      → Refines p f clock db args y
      → Refines p f clock db args (if t then x else y)
  if-Refines args true x y h k = h
  if-Refines args false x y h k = k

  -- Behind the test of a noun or of a verb, it is the one that was tested for.
  word-Refines :
      (line : String → List String) (s w : String) (x y : Ran)
      → Refines p f clock db (line w) x
      → Refines p f clock db (line s) y
      → Refines p f clock db (line s) (if str_eq s w then x else y)
  word-Refines line s w x y h k = elim (Bool-cases (str_eq s w)) [
    | inl same ↦
        rw same
          (subst (λ (v : String). Refines p f clock db (line v) x) (sym ((eq_iff s w).0 same)) h)
    | inr other ↦ rw other k
  ]

  pub noun-Refines :
      (noun w : String) (rest : List String) (x y : Ran)
      → Refines p f clock db (w ∷ rest) x
      → Refines p f clock db (noun ∷ rest) y
      → Refines p f clock db (noun ∷ rest) (if str_eq noun w then x else y)
  noun-Refines noun w rest x y h k = word-Refines (λ v. v ∷ rest) noun w x y h k

  pub verb-Refines :
      (noun verb w : String) (rest : List String) (x y : Ran)
      → Refines p f clock db (noun ∷ w ∷ rest) x
      → Refines p f clock db (noun ∷ verb ∷ rest) y
      → Refines p f clock db (noun ∷ verb ∷ rest) (if str_eq verb w then x else y)
  verb-Refines noun verb w rest x y h k = word-Refines (λ v. noun ∷ v ∷ rest) verb w x y h k

  number-Refines :
      (args : List String) (e : CliError) (o : Option ℤ) (rest : ℤ → Ran)
      → ((n : ℤ) → o ≡ some n → Refines p f clock db args (rest n))
      → Refines p f clock db args (elim o [ none ↦ (err e, db) | some n ↦ rest n ])
  number-Refines args e none rest h = inl refl
  number-Refines args e (some n) rest h = h n refl

  pub with_id-Refines :
      (args : List String) (cmd s : String) (rest : ℤ → Ran)
      → ((id : ℤ) → parse_int s ≡ some id → Refines p f clock db args (rest id))
      → Refines p f clock db args (with_id cmd s db rest)
  with_id-Refines args cmd s rest h = number-Refines args (invalid_id cmd s) (parse_int s) rest h

  pub with_number-Refines :
      (args : List String) (e : CliError) (s : String) (rest : ℤ → Ran)
      → ((n : ℤ) → parse_int s ≡ some n → Refines p f clock db args (rest n))
      → Refines p f clock db args (with_number e s db rest)
  with_number-Refines args e s rest h = number-Refines args e (parse_int s) rest h

  pub answered-Refines :
      {A : Type 0} (args : List String) (cmd : String) (line : A → Output) (r : Result Error A)
      → Refines p f clock db args (answered cmd line db r)
  answered-Refines args cmd line (ok a) = inl refl
  answered-Refines args cmd line (err e) = inl refl

  -- A call that changes nothing unless it succeeds.
  pub done-Refines :
      {A : Type 0} (args : List String) (r : Request) (cmd : String) (line : A → Output)
      (a : Action A)
      → Reads clock r
      → Says args r
      → Steady db a
      → a.1 ≡ perform p f r db
      → Refines p f clock db args (done cmd line a)
  done-Refines args r cmd line (ok x, db') reads says h same =
      inr (r, line x, reads, says, ap (λ (d : Db). let ran : Ran = (ok (line x), d) in ran) same)
  done-Refines args r cmd line (err e, db') reads says h same = inl (ground (arith, h.steady))
