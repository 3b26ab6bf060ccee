-- ===== src/Requests.antt =====
-- The calls that change the database, as the adapters make them (`port/driver.go`), and a history
-- of such calls. The queries that fail are given call by call.
pub mod Steady
use keep_it_up.Prelude.{ℕ, ℤ, Bool, Option, List, [], ◌∷◌, String}
use keep_it_up.Stamp.{Codec}
use keep_it_up.Db.{Sqlite, Db, Query}
use keep_it_up.Usecase.{Clock}
use keep_it_up.Usecase.GameCommands.{save, pause, resume}
use keep_it_up.Usecase.GameManagement.{add_game, update, delete}
use keep_it_up.Usecase.AccessManagement.{grant, revoke}
use keep_it_up.Usecase.Authentication.{Bcrypt}
use keep_it_up.Usecase.PlayerManagement.{
  add_player, rename, update_password, update_password_force, remove_player,
}

pub data Request : Type 0 where
  save_game : Clock → ℤ → ℤ → ℤ → Request
  resume_game pause_game : Clock → ℤ → ℤ → Request
  add_game_named : String → Request
  update_game : ℤ → String → Request
  delete_game : ℤ → Request
  grant_access revoke_access : ℤ → ℤ → Request
  add_player_named : String → String → String → Request
  rename_player : ℤ → String → Request
  change_password : String → String → String → Request
  force_password : String → String → Request
  delete_player : ℤ → Request

-- What stands outside the program.
pub record Platform : Type 0 where
  pub sqlite : Sqlite
  pub codec : Codec
  pub bcrypt : Bcrypt
  pub is_letter : ℕ → Bool
  pub is_digit : ℕ → Bool

abbrev pub Faults : Type 0
Faults = Query → Option String

abbrev pub with_faults : Sqlite → Faults → Sqlite
with_faults q f = record q { fault = f }

-- The platform with the failures of one call.
abbrev pub faulty : Platform → Faults → Platform
faulty p f = record p { sqlite = with_faults p.sqlite f }

-- The database after a call.
unfoldable pub perform : Platform → Faults → Request → Db → Db
perform p f (save_game clock g pl n) db = (save (with_faults p.sqlite f) p.codec clock db g pl n).1
perform p f (resume_game clock g pl) db = (resume (with_faults p.sqlite f) p.codec clock db g pl).1
perform p f (pause_game clock g pl) db = (pause (with_faults p.sqlite f) p.codec clock db g pl).1
perform p f (add_game_named name) db = (add_game (with_faults p.sqlite f) db name).1
perform p f (update_game g name) db = (update (with_faults p.sqlite f) db g name).1
perform p f (delete_game g) db = (delete (with_faults p.sqlite f) db g).1
perform p f (grant_access g pl) db = (grant (with_faults p.sqlite f) db g pl).1
perform p f (revoke_access g pl) db = (revoke (with_faults p.sqlite f) db g pl).1
perform p f (add_player_named name username password) db =
    (add_player (with_faults p.sqlite f) p.bcrypt db p.is_letter p.is_digit name username
      password).1
perform p f (rename_player pl name) db = (rename (with_faults p.sqlite f) p.bcrypt db pl name).1
perform p f (change_password username current new) db =
    (update_password (with_faults p.sqlite f) p.bcrypt db username current new).1
perform p f (force_password username password) db =
    (update_password_force (with_faults p.sqlite f) p.bcrypt db username password).1
perform p f (delete_player pl) db = (remove_player (with_faults p.sqlite f) p.bcrypt db pl).1

-- The database after a history of calls.
unfoldable pub perform_all : Platform → List (Faults × Request) → Db → Db
perform_all p [] db = db
perform_all p ((f, r) ∷ rest) db = perform_all p rest (perform p f r db)
