-- ===== src/Db.antt =====
-- The database: its tables (database/migrations/*.sql, internal/infrastructure/database/models.go),
-- what the SQLite engine and its driver are assumed to do, and the sqlc queries in the children.
--
-- A query that writes takes the database and returns it beside its result; one that only reads
-- returns its result. The engine is not part of the repository: it is the record `Sqlite`, whose
-- documented behaviour `IsSqlite` states.
pub mod Sort
pub mod Trigger
pub mod Commands
pub mod Fetching
pub mod Games
pub mod Players
pub mod Access
use text.Mathlib.Text.{find?}
use keep_it_up.Prelude.{
  ℤ, pos, ◌<ℤ◌, Bool, true, false, Option, none, some, List, String, ◌≡◌, All, Result, ok, err,
}

-- The rows of the four tables. `sql.NullInt64` is an `Option`.
pub record GameRow : Type 0 where
  pub id : ℤ
  pub name : String

pub record PlayerRow : Type 0 where
  pub id : ℤ
  pub name : String
  pub username : String
  pub hashed_password : String

pub record AccessRow : Type 0 where
  pub game_id : ℤ
  pub player_id : ℤ

pub record InteractionRow : Type 0 where
  pub id : ℤ
  pub game_id : ℤ
  pub player_id : Option ℤ
  pub action : String
  pub occurred_at : String
  pub saved_by : Option ℤ

pub record Db : Type 0 where
  pub games : List GameRow
  pub players : List PlayerRow
  pub access : List AccessRow
  pub interactions : List InteractionRow

abbrev pub empty_db : Db
empty_db = record { games = List.[]; players = List.[]; access = List.[]; interactions = List.[] }

-- The queries by name.
pub data Query : Type 0 where
  check_player_access grant_player_access revoke_player_access : Query
  pause_game resume_game save_game : Query
  first_interaction last_interaction list_interactions_for_replay : Query
  list_player_games list_player_interactions list_recent_interactions : Query
  create_game delete_game update_game : Query
  create_player delete_player get_player get_player_by_username : Query
  update_player_name update_player_password : Query

-- What the trigger raises.
pub data Abort : Type 0 where
  precedes save_while_paused pause_not_playing resume_not_paused : Abort

abbrev pub abort_text : Abort → String
abort_text precedes = "occurred_at precedes an existing interaction for this game"
abort_text save_while_paused = "cannot save while paused"
abort_text pause_not_playing = "cannot pause: game is not currently playing"
abort_text resume_not_paused = "cannot resume: game is not currently paused"

-- The constraints of the schema.
pub data Constraint : Type 0 where
  unique_username primary_key_access foreign_key : Constraint
  action_known occurred_at_iso saved_by_matches_action saved_by_positive : Constraint

-- `no_rows` is `sql.ErrNoRows`, `faulty` any failure of the engine or of the connection.
pub data DbError : Type 0 where
  no_rows : DbError
  raised : Abort → DbError
  violated : Constraint → DbError
  faulty : String → DbError

-- `strings.Contains(s, t)`
abbrev pub contains : String → String → Bool
contains s t = elim (find? s t) [ none ↦ false | some _ ↦ true ]

-- The engine and its driver during one request, which runs no query twice: whether the connection
-- enforces foreign keys, the id of a new row, `<` on texts under the BINARY collation, the CHECK of
-- `occurred_at` by `strftime`, `err.Error()`, and the failure of each query that fails. A query that
-- fails is assumed to have had no effect: an error that the driver reports for a statement that has
-- run (a context that is cancelled behind it) is not modelled.
pub record Sqlite : Type 0 where
  pub foreign_keys : Bool
  pub next_id : List ℤ → ℤ
  pub text_before : String → String → Bool
  pub iso_check : String → Bool
  pub error_text : DbError → String
  pub fault : Query → Option String

-- What is documented of the engine: a new row's id is positive and above those of its table, `<` on
-- texts is a strict order, and an error that the trigger raises has the trigger's text in its own.
pub record IsSqlite (q : Sqlite) : Type 0 where
  pub next_id_pos : (ids : List ℤ) → pos 0 <ℤ q.next_id ids
  pub next_id_above : (ids : List ℤ) → All (λ i. i <ℤ q.next_id ids) ids
  pub text_before_asym : (a b : String) → q.text_before a b ≡ true → q.text_before b a ≡ false
  pub save_text :
      (a : Abort)
      → contains (q.error_text (raised a)) "cannot save while paused"
        ≡ contains (abort_text a) "cannot save while paused"
  pub pause_text :
      (a : Abort)
      → contains (q.error_text (raised a)) "cannot pause" ≡ contains (abort_text a) "cannot pause"
  pub resume_text :
      (a : Abort)
      → contains (q.error_text (raised a)) "cannot resume" ≡ contains (abort_text a) "cannot resume"

-- A query fails if the engine does, and else does what its SQL says.
abbrev pub reading : {A : Type 0} → Sqlite → Query → Result DbError A → Result DbError A
reading q name r = elim (q.fault name) [ none ↦ r | some text ↦ err (faulty text) ]

abbrev pub writing :
    {A : Type 0} → Sqlite → Query → Db → Result DbError A × Db → Result DbError A × Db
writing q name db r = elim (q.fault name) [ none ↦ r | some text ↦ (err (faulty text), db) ]
