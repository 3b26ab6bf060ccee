-- ===== src/Usecase/Authentication.antt =====
-- internal/application/usecase/authentication.go, and `GeneratePasswordHash` of
-- internal/core/service/authentication.go.
--
-- bcrypt and the token generator are parameters.
pub mod Login
use keep_it_up.Prelude.{
  ℤ, pos, Bool, true, false, ◌||◌, Option, none, some, String, ltb, ◌==ℤ◌, if◌then◌else◌, Result,
  ok, err, ◌>>=◌, map_err, ◌≡◌,
}
use keep_it_up.Model.{Player, AuthResult}
use keep_it_up.Text.{byte_len, trim_space, is_empty, is_password_valid, PasswordError}
use keep_it_up.Mapping.{to_domain_player}
use keep_it_up.Db.{Sqlite, Db, PlayerRow, get_player_by_username}
use keep_it_up.Db.Players.{query_player_by_username}
use keep_it_up.Usecase.{
  Error, short_username, bad_password, query_failed, compare_failed, hash_failed, token_failed,
  unauthorized, bad_request, check_failed,
}

-- What `bcrypt.CompareHashAndPassword` answers: nil, `ErrMismatchedHashAndPassword`, another error.
pub data Comparison : Type 0 where
  matches mismatch : Comparison
  failed : String → Comparison

-- `bcrypt.GenerateFromPassword` at the default cost, and `CompareHashAndPassword`.
pub record Bcrypt : Type 0 where
  pub generate : String → Result String String
  pub compare : String → String → Comparison

-- `GeneratePasswordHash`
unfoldable pub generate_password_hash : Bcrypt → String → Result Error String
generate_password_hash b password = do
  _ ← map_err bad_password (is_password_valid password)
  map_err hash_failed (b.generate password)

abbrev pub no_player : Player
no_player = record { id = pos 0; name = ""; username = "" }

abbrev pub compared : PlayerRow → Comparison → Result Error Player
compared player matches = ok (to_domain_player player)
compared player mismatch = ok no_player
compared player (failed e) = err (compare_failed e)

module _ (q : Sqlite) (b : Bcrypt) (db : Db) where
  -- `CheckPlayerPassword`: a player with id 0 stands for a wrong password.
  unfoldable pub check_player_password : String → String → Result Error Player
  check_player_password username password =
      if ltb (byte_len username) 3 then err (short_username username) else do
        _ ← map_err bad_password (is_password_valid password)
        player ←
            map_err (query_failed get_player_by_username) (query_player_by_username q db username)
        compared player (b.compare player.hashed_password password)

  -- `LoginPlayer`, over `port.TokenGenerator`
  unfoldable pub login_player :
      (Player → Result String String) → String → String → Result Error AuthResult
  login_player generate_token username password =
      if is_empty (trim_space username) || is_empty (trim_space password)
      then err bad_request
      else do
        player ← map_err check_failed (check_player_password username password)
        if player.id ==ℤ pos 0 then err unauthorized else do
          token ← map_err token_failed (generate_token player)
          ok (record { token = token; player = player })
