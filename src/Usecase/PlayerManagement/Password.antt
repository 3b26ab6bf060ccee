-- ===== src/Usecase/PlayerManagement/Password.antt =====
-- internal/application/usecase/player_management.go: `UpdatePlayerPassword` against
-- `CheckPlayerPassword`.
use keep_it_up.Prelude.{
  ℤ, pos, false, none, List, [], ◌∷◌, map, String, ltb, ◌==ℤ◌, ==ℤ_iff, if◌then◌else◌, Result, ok,
  err, ◌≡◌, ◌≢◌, inl, inr, arith, Bool-cases, Result-cases, refl, sym, ◌∙◌, ap,
}
use keep_it_up.Model.{Player}
use keep_it_up.Text.{byte_len, trim_space, is_password_valid}
use keep_it_up.Text.Trim.{trim_space_idem}
use keep_it_up.Mapping.{to_domain_player}
use keep_it_up.Db.{Sqlite, Db, PlayerRow, get_player_by_username}
use keep_it_up.Db.Players.{find_row, query_player_by_username, query_update_player_password}
use keep_it_up.Usecase.{Error, Action}
use keep_it_up.Usecase.Authentication.{
  Bcrypt, matches, check_player_password, generate_password_hash,
}
use keep_it_up.Usecase.Authentication.Login.{has_username, check_player_password-ok}
use keep_it_up.Usecase.PlayerManagement.{after, base_update_password, update_password}

-- What bcrypt documents: a hash that it generated matches the password.
pub record IsBcrypt (b : Bcrypt) : Type 0 where
  pub compare-generate :
      (password hash : String) → b.generate password ≡ ok hash → b.compare hash password ≡ matches

after-ok :
    {A B : Type 0} (db : Db) (r : Result Error A) (rest : A → Action B) {x : B}
    → (after db r rest).0 ≡ ok x
    → (a : A) × (r ≡ ok a) × (after db r rest ≡ rest a)
after-ok db (ok a) rest h = (a, refl, refl)
after-ok db (err e) rest h = absurd (ground arith)

-- `UPDATE players SET hashed_password = ? WHERE id = ?`
abbrev with_hash : ℤ → String → PlayerRow → PlayerRow
with_hash id hash p = if p.id ==ℤ id then record p { hashed_password = hash } else p

find_row-with_hash :
    (username : String) (id : ℤ) (hash : String) (rows : List PlayerRow) (r : PlayerRow)
    → find_row (has_username username) rows ≡ ok r
    → r.id ≡ id
    → find_row (has_username username) (map (with_hash id hash) rows)
      ≡ ok (record r { hashed_password = hash })
find_row-with_hash username id hash [] r h e = cc
find_row-with_hash username id hash (x ∷ rows) r h e =
    ground (arith, find_row-with_hash username id hash rows r, ==ℤ_iff x.id id)

module _ (q : Sqlite) (b : Bcrypt) (db : Db) where
  base_update_password-ok :
      (id : ℤ) (password : String)
      → (base_update_password q b db id password).0 ≡ ok tt
      → (hash : String) × (b.generate (trim_space password) ≡ ok hash)
        × (is_password_valid (trim_space password) ≡ ok tt)
        × ((base_update_password q b db id password).1.players ≡ map (with_hash id hash) db.players)
  unfolding base_update_password query_update_player_password generate_password_hash
  base_update_password-ok id password h = ground arith

  check-with_hash :
      (db' : Db) (username password hash : String) (r : PlayerRow)
      → q.fault get_player_by_username ≡ none
      → ltb (byte_len username) 3 ≡ false
      → is_password_valid password ≡ ok tt
      → find_row (has_username username) db'.players ≡ ok (record r { hashed_password = hash })
      → b.compare hash password ≡ matches
      → check_player_password q b db' username password ≡ ok (to_domain_player r)
  unfolding check_player_password query_player_by_username
  check-with_hash db' username password hash r up long valid found m = ground arith

  check-long :
      (username password : String) (p : Player)
      → check_player_password q b db username password ≡ ok p
      → ltb (byte_len username) 3 ≡ false
  unfolding check_player_password
  check-long username password p h = ground arith

  update_password-steps :
      (username current new : String)
      → (update_password q b db username current new).0 ≡ ok tt
      → (p : Player) × (check_player_password q b db username (trim_space current) ≡ ok p)
        × (p.id ≢ pos 0)
        × (update_password q b db username current new
            ≡ base_update_password q b db p.id (trim_space new))
  unfolding update_password
  update_password-steps username current new h =
      elim (Result-cases (check_player_password q b db username (trim_space current))) [
        | inr (x, e) ↦ absurd (ground arith)
        | inl (p, e) ↦ elim (Bool-cases (p.id ==ℤ pos 0)) [
          | inl z ↦ absurd (ground arith)
          | inr z ↦ (p, e, λ zero. ground (arith, ==ℤ_iff p.id (pos 0)), ground arith)
        ]
      ]

  -- Where bcrypt matches the hashes that it generates: after `UpdatePlayerPassword` succeeded,
  -- `CheckPlayerPassword`, if its query runs, accepts the new password (trimmed) for the
  -- username, and the player that it returns is the one whose current password had been accepted.
  pub check-update_password :
      (laws : IsBcrypt b) (username current new : String)
      → (update_password q b db username current new).0 ≡ ok tt
      → q.fault get_player_by_username ≡ none
      → (p : Player) × (check_player_password q b db username (trim_space current) ≡ ok p)
        × (p.id ≢ pos 0)
        × (check_player_password q b
              (update_password q b db username current new).1
              username
              (trim_space new)
            ≡ ok p)
  check-update_password laws username current new h up =
      let (p, checked, n, same) = update_password-steps username current new h in
      let (hash, made, valid, rows) =
        base_update_password-ok p.id (trim_space new)
          (sym (ap (λ (x : Action Unit). x.0) same) ∙ h) in
      let (r, found, m, is_p) =
        check_player_password-ok q b db username (trim_space current) p checked n in
      (
        p,
        checked,
        n,
        rw is_p (
            check-with_hash (update_password q b db username current new).1 username
              (trim_space new) hash r up (check-long username (trim_space current) p checked)
              (rw (trim_space_idem new) at valid)
              (ap (λ (x : Action Unit). find_row (has_username username) x.1.players) same
                ∙ ap (find_row (has_username username)) rows
                ∙ find_row-with_hash username p.id hash db.players r found
                    (sym (ap (λ (x : Player). x.id) is_p)))
              (laws.compare-generate (trim_space new) hash (rw (trim_space_idem new) at made))),
      )
