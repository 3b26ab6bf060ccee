-- ===== src/Usecase/PlayerManagement.antt =====
-- internal/application/usecase/player_management.go
pub mod Password
use keep_it_up.Prelude.{
  ℕ, ℤ, pos, Bool, not, String, str_eq, ltb, ltb_ℤ, ◌==ℤ◌, if◌then◌else◌, Result, ok, err, map_err,
}
use keep_it_up.Model.{Player}
use keep_it_up.Text.{
  byte_len, trim_space, is_empty, is_alphanumeric, is_password_valid, PasswordError,
}
use keep_it_up.Mapping.{to_domain_player}
use keep_it_up.Db.{
  Sqlite, Db, PlayerRow, DbError, create_player, update_player_name, update_player_password,
  delete_player, get_player_by_username,
}
use keep_it_up.Db.Players.{
  query_create_player, query_update_player_name, query_update_player_password, query_delete_player,
  query_player_by_username,
}
use keep_it_up.Usecase.{
  Error, invalid_player_id, short_player_name, short_username, not_alphanumeric,
  password_is_username, bad_password, query_failed, empty_username, incorrect_current_password,
  player_does_not_exist, Action,
}
use keep_it_up.Usecase.Authentication.{Bcrypt, generate_password_hash, check_player_password}

-- `if err != nil { return err }` in front of the rest of a use case.
abbrev pub after : {A B : Type 0} → Db → Result Error A → (A → Action B) → Action B
after db (ok a) rest = rest a
after db (err e) rest = (err e, db)

abbrev pub created : Result DbError PlayerRow × Db → Action Player
created (ok p, db) = (ok (to_domain_player p), db)
created (err e, db) = (err (query_failed create_player e), db)

module _ (q : Sqlite) (b : Bcrypt) (db : Db) where
  -- `AddPlayer`, over the tables of `unicode.IsLetter` and `unicode.IsDigit`
  unfoldable pub add_player : (ℕ → Bool) → (ℕ → Bool) → String → String → String → Action Player
  add_player is_letter is_digit untrimmed_name untrimmed_username untrimmed_password =
      let name = trim_space untrimmed_name in
      let username = trim_space untrimmed_username in
      let password = trim_space untrimmed_password in
      if ltb (byte_len name) 2
      then (err (short_player_name name), db)
      else if ltb (byte_len username) 3
      then (err (short_username username), db)
      else if not (is_alphanumeric is_letter is_digit username)
      then (err (not_alphanumeric username), db)
      else if str_eq password username
      then (err password_is_username, db)
      else after db (map_err bad_password (is_password_valid password)) λ _.
        after db (generate_password_hash b password)
          λ hashed. created (query_create_player q db name username hashed)

  -- `UpdatePlayerName`
  unfoldable pub rename : ℤ → String → Action Unit
  unfolding query_update_player_name
  rename player_id untrimmed =
      if ltb_ℤ player_id (pos 1)
      then (err (invalid_player_id player_id), db)
      else let name = trim_space untrimmed in
        if ltb (byte_len name) 2
        then (err (short_player_name name), db)
        else let (r, db') = query_update_player_name q db player_id name in
          (map_err (query_failed update_player_name) r, db')

  -- `BaseUpdatePlayerPassword`
  unfoldable pub base_update_password : ℤ → String → Action Unit
  unfolding query_update_player_password
  base_update_password id untrimmed =
      if ltb_ℤ id (pos 1)
      then (err (invalid_player_id id), db)
      else let password = trim_space untrimmed in
        after db (map_err bad_password (is_password_valid password)) λ _.
          after db (generate_password_hash b password) λ hashed.
            let (r, db') = query_update_player_password q db id hashed in
            (map_err (query_failed update_player_password) r, db')

  -- `UpdatePlayerPassword`
  unfoldable pub update_password : String → String → String → Action Unit
  update_password username untrimmed_current untrimmed_new =
      if is_empty (trim_space username)
      then (err empty_username, db)
      else let current = trim_space untrimmed_current in
        let new = trim_space untrimmed_new in
        after db (map_err bad_password (is_password_valid current)) λ _.
          after db (map_err bad_password (is_password_valid new)) λ _.
            after db (check_player_password q b db username current) λ player.
              if player.id ==ℤ pos 0
              then (err incorrect_current_password, db)
              else if str_eq new player.username
              then (err password_is_username, db)
              else base_update_password player.id new

  -- `UpdatePlayerPasswordForce`
  unfoldable pub update_password_force : String → String → Action Unit
  update_password_force username password =
      if is_empty (trim_space username)
      then (err empty_username, db)
      else after db (map_err bad_password (is_password_valid password)) λ _.
        after db
          (map_err (query_failed get_player_by_username) (query_player_by_username q db username))
          λ player.
            if player.id ==ℤ pos 0
            then (err player_does_not_exist, db)
            else base_update_password player.id password

  -- `DeletePlayer`
  unfoldable pub remove_player : ℤ → Action Unit
  unfolding query_delete_player
  remove_player player_id =
      if ltb_ℤ player_id (pos 1)
      then (err (invalid_player_id player_id), db)
      else let (r, db') = query_delete_player q db player_id in
        (map_err (query_failed delete_player) r, db')
