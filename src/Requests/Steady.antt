-- ===== src/Requests/Steady.antt =====
-- internal/application/usecase: a call that returns an error leaves the database as it was.
use keep_it_up.Prelude.{
  ℕ, ℤ, pos, Bool, true, false, String, ◌≡◌, refl, ◌⊎◌, inl, inr, arith, ap, Result, ok, err,
  if◌then◌else◌,
}
use keep_it_up.Stamp.{Codec}
use keep_it_up.Db.{Sqlite, Db}
use keep_it_up.Db.Players.{query_create_player, query_delete_player}
use keep_it_up.Db.Access.{query_grant_access}
use keep_it_up.Usecase.{Error, Clock, Action}
use keep_it_up.Usecase.GameCommands.{save, pause, resume}
use keep_it_up.Usecase.GameCommands.Refusals.{IsAtomic, commands-IsAtomic}
use keep_it_up.Usecase.GameManagement.{add_game, update, delete}
use keep_it_up.Usecase.AccessManagement.{grant, revoke}
use keep_it_up.Usecase.Authentication.{Bcrypt}
use keep_it_up.Usecase.PlayerManagement.{
  after, created, base_update_password, add_player, rename, update_password, update_password_force,
  remove_player,
}

abbrev pub is_ok : {E A : Type 0} → Result E A → Bool
is_ok (ok a) = true
is_ok (err e) = false

-- The call has changed nothing, or has succeeded.
pub record Steady {A : Type 0} (db : Db) (r : Action A) : Type 0 where
  pub steady : (r.1 ≡ db) ⊎ (is_ok r.0 ≡ true)

module _ (q : Sqlite) (db : Db) where
  pub add_game-Steady : (name : String) → Steady db (add_game q db name)
  unfolding add_game
  add_game-Steady name = ground arith

  pub update-Steady : (id : ℤ) (name : String) → Steady db (update q db id name)
  unfolding update
  update-Steady id name = ground arith

  pub delete-Steady : (id : ℤ) → Steady db (delete q db id)
  unfolding delete
  delete-Steady id = ground arith

  pub grant-Steady : (g p : ℤ) → Steady db (grant q db g p)
  unfolding grant query_grant_access
  grant-Steady g p = ground arith

  pub revoke-Steady : (g p : ℤ) → Steady db (revoke q db g p)
  unfolding revoke
  revoke-Steady g p = ground arith

module _ {B : Type 0} {db : Db} where
  Steady-err : (e : Error) → Steady db (let r : Action B = (err e, db) in r)
  Steady-err e = record { steady = inl refl }

  Steady-after :
      {A : Type 0} (r : Result Error A) (rest : A → Action B)
      → ((a : A) → Steady db (rest a))
      → Steady db (after db r rest)
  Steady-after (ok a) rest h = h a
  Steady-after (err e) rest h = record { steady = inl refl }

  Steady-if :
      (t : Bool) (x y : Action B) → Steady db x → Steady db y → Steady db (if t then x else y)
  Steady-if true x y p p' = p
  Steady-if false x y p p' = p'

module _ (q : Sqlite) (b : Bcrypt) (db : Db) where
  pub rename-Steady : (p : ℤ) (name : String) → Steady db (rename q b db p name)
  unfolding rename
  rename-Steady p name = ground arith

  pub remove_player-Steady : (p : ℤ) → Steady db (remove_player q b db p)
  unfolding remove_player query_delete_player
  remove_player-Steady p = ground arith

  base_update_password-Steady :
      (id : ℤ) (password : String) → Steady db (base_update_password q b db id password)
  unfolding base_update_password
  base_update_password-Steady id password = ground arith

  created-Steady :
      (name username hashed : String)
      → Steady db (created (query_create_player q db name username hashed))
  unfolding query_create_player
  created-Steady name username hashed = ground arith

  ruleset steady_rules =
      (Steady-err, Steady-after, Steady-if, base_update_password-Steady, created-Steady)

  pub update_password_force-Steady :
      (username password : String) → Steady db (update_password_force q b db username password)
  unfolding update_password_force
  update_password_force-Steady username password = search steady_rules depth 9

  pub update_password-Steady :
      (username current new : String) → Steady db (update_password q b db username current new)
  unfolding update_password
  update_password-Steady username current new = search steady_rules depth 9

  pub add_player-Steady :
      (is_letter is_digit : ℕ → Bool) (name username password : String)
      → Steady db (add_player q b db is_letter is_digit name username password)
  unfolding add_player
  add_player-Steady is_letter is_digit name username password = search steady_rules depth 9

IsAtomic-Steady : (db : Db) (r : Action Unit) → IsAtomic db r → Steady db r
IsAtomic-Steady db r (inl (e, same)) = record { steady = inl (ap (λ (x : Action Unit). x.1) same) }
IsAtomic-Steady db r (inr (row, done)) = record {
  steady = inr (ap (λ (x : Action Unit). is_ok x.0) done);
}

module _ (q : Sqlite) (c : Codec) (clock : Clock) (db : Db) (g pl : ℤ) where
  pub save-Steady : (n : ℤ) → Steady db (save q c clock db g pl n)
  save-Steady n = IsAtomic-Steady db _ (commands-IsAtomic q c clock db g pl n).0

  pub resume-Steady : Steady db (resume q c clock db g pl)
  resume-Steady = IsAtomic-Steady db _ (commands-IsAtomic q c clock db g pl (pos 0)).1

  pub pause-Steady : Steady db (pause q c clock db g pl)
  pause-Steady = IsAtomic-Steady db _ (commands-IsAtomic q c clock db g pl (pos 0)).2
