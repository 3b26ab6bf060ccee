-- ===== src/History/Others.antt =====
-- internal/application/usecase: what the calls other than the three commands do to the rows, and
-- the engine with other failures.
use keep_it_up.Prelude.{
  ℕ, ℤ, Bool, true, false, not, List, [], ◌∷◌, String, ◌≡◌, refl, ◌⊎◌, inl, inr, arith, filter,
  ◌==ℤ◌, if◌then◌else◌, Result, ok, err, Bool-cases,
}
use keep_it_up.Stamp.{Codec, IsCodec}
use keep_it_up.Db.{Sqlite, IsSqlite, Db, InteractionRow}
use keep_it_up.Db.Trigger.{of_game}
use keep_it_up.Db.Players.{query_create_player}
use keep_it_up.Usecase.{Error, Action}
use keep_it_up.Usecase.GameManagement.{add_game, update, delete}
use keep_it_up.Usecase.AccessManagement.{grant, revoke}
use keep_it_up.Usecase.Authentication.{Bcrypt}
use keep_it_up.Usecase.PlayerManagement.{
  after, created, base_update_password, add_player, rename, update_password, update_password_force,
  remove_player,
}
use keep_it_up.Requests.{Faults, with_faults}
use keep_it_up.History.Rows.{IsConsistent, IsConsistent-nil}
use keep_it_up.History.Run.{IsSound}

-- The calls that do not touch the interactions.
module _ (q : Sqlite) (db : Db) where
  pub add_game_keeps : (name : String) → (add_game q db name).1.interactions ≡ db.interactions
  unfolding add_game
  add_game_keeps name = ground arith

  pub update_keeps :
      (id : ℤ) (name : String) → (update q db id name).1.interactions ≡ db.interactions
  unfolding update
  update_keeps id name = ground arith

  pub grant_keeps : (g p : ℤ) → (grant q db g p).1.interactions ≡ db.interactions
  unfolding grant
  grant_keeps g p = ground arith

  pub revoke_keeps : (g p : ℤ) → (revoke q db g p).1.interactions ≡ db.interactions
  unfolding revoke
  revoke_keeps g p = ground arith

module _ (q : Sqlite) (b : Bcrypt) (db : Db) where
  pub rename_keeps :
      (p : ℤ) (name : String) → (rename q b db p name).1.interactions ≡ db.interactions
  unfolding rename
  rename_keeps p name = ground arith

  pub remove_player_keeps : (p : ℤ) → (remove_player q b db p).1.interactions ≡ db.interactions
  unfolding remove_player
  remove_player_keeps p = ground arith

  base_update_password_keeps :
      (id : ℤ) (password : String)
      → (base_update_password q b db id password).1.interactions ≡ db.interactions
  unfolding base_update_password
  base_update_password_keeps id password = ground arith

-- The interactions are those of `db`.
pub record Keeps {A : Type 0} (db : Db) (r : Action A) : Type 0 where
  pub kept : r.1.interactions ≡ db.interactions

module _ {B : Type 0} {db : Db} where
  Keeps-err : (e : Error) → Keeps db (let r : Action B = (err e, db) in r)
  Keeps-err e = record { kept = refl }

  Keeps-after :
      {A : Type 0} (r : Result Error A) (rest : A → Action B)
      → ((a : A) → Keeps db (rest a))
      → Keeps db (after db r rest)
  Keeps-after (ok a) rest h = h a
  Keeps-after (err e) rest h = record { kept = refl }

  Keeps-if : (t : Bool) (x y : Action B) → Keeps db x → Keeps db y → Keeps db (if t then x else y)
  Keeps-if true x y p p' = p
  Keeps-if false x y p p' = p'

module _ (q : Sqlite) (b : Bcrypt) (db : Db) where
  Keeps-base : (id : ℤ) (password : String) → Keeps db (base_update_password q b db id password)
  Keeps-base id password = record { kept = base_update_password_keeps q b db id password }

  Keeps-created :
      (name username hashed : String)
      → Keeps db (created (query_create_player q db name username hashed))
  unfolding query_create_player
  Keeps-created name username hashed = record { kept = ground arith }

  ruleset keeps_rules = (Keeps-err, Keeps-after, Keeps-if, Keeps-base, Keeps-created)

  pub update_password_force-Keeps :
      (username password : String) → Keeps db (update_password_force q b db username password)
  unfolding update_password_force
  update_password_force-Keeps username password = search keeps_rules depth 9

  pub update_password-Keeps :
      (username current new : String) → Keeps db (update_password q b db username current new)
  unfolding update_password
  update_password-Keeps username current new = search keeps_rules depth 9

  pub add_player-Keeps :
      (is_letter is_digit : ℕ → Bool) (name username password : String)
      → Keeps db (add_player q b db is_letter is_digit name username password)
  unfolding add_player
  add_player-Keeps is_letter is_digit name username password = search keeps_rules depth 9

-- The rows of a game, once those of game `id` are deleted.
filter-filter :
    (g id : ℤ) (rows : List InteractionRow)
    → filter (of_game g) (filter (λ (r : InteractionRow). not (r.game_id ==ℤ id)) rows)
      ≡ (if g ==ℤ id then [] else filter (of_game g) rows)
unfolding filter
filter-filter g id [] = ground arith
filter-filter g id (r ∷ rows) = ground (arith, filter-filter g id rows)

delete_leaves :
    (q : Sqlite) (db : Db) (id : ℤ)
    → ((delete q db id).1.interactions ≡ db.interactions)
      ⊎ ((delete q db id).1.interactions
          ≡ filter (λ (r : InteractionRow). not (r.game_id ==ℤ id)) db.interactions)
unfolding delete
delete_leaves q db id = ground arith

module _ (q : Sqlite) (c : Codec) (laws : IsSqlite q) (codec : IsCodec q c) where
  pub delete-IsSound :
      (db : Db) (id : ℤ) → IsSound q c db.interactions → IsSound q c (delete q db id).1.interactions
  delete-IsSound db id s = elim (delete_leaves q db id) [
    | inl e ↦ rw e s
    | inr e ↦ rw e (record {
      at_game = λ g. rw (filter-filter g id db.interactions) (elim (Bool-cases (g ==ℤ id)) [
        | inl h ↦ rw h (IsConsistent-nil q c g)
        | inr h ↦ rw h (s.at_game g)
      ]);
    })
  ]

-- Which queries fail does not matter to what is documented of the engine.
module _ (q : Sqlite) (f : Faults) where
  pub IsSqlite-with_faults : IsSqlite q → IsSqlite (with_faults q f)
  IsSqlite-with_faults l = record {
    next_id_pos = l.next_id_pos;
    next_id_above = l.next_id_above;
    text_before_asym = l.text_before_asym;
    save_text = l.save_text;
    pause_text = l.pause_text;
    resume_text = l.resume_text;
  }

  pub IsCodec-with_faults : (c : Codec) → IsCodec q c → IsCodec (with_faults q f) c
  IsCodec-with_faults c l = record {
    parse-format = l.parse-format;
    before-format = l.before-format;
  }

  pub IsConsistent-with_faults :
      (c : Codec) (g : ℤ) (rows : List InteractionRow)
      → IsConsistent q c g rows
      → IsConsistent (with_faults q f) c g rows
  IsConsistent-with_faults c g rows h = record {
    written = h.written;
    sorted = h.sorted;
    log = h.log;
    mapped = h.mapped;
    state = h.state;
    replays = h.replays;
    status = h.status;
  }

  pub IsConsistent-without_faults :
      (c : Codec) (g : ℤ) (rows : List InteractionRow)
      → IsConsistent (with_faults q f) c g rows
      → IsConsistent q c g rows
  IsConsistent-without_faults c g rows h = record {
    written = h.written;
    sorted = h.sorted;
    log = h.log;
    mapped = h.mapped;
    state = h.state;
    replays = h.replays;
    status = h.status;
  }
