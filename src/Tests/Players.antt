-- ===== src/Tests/Players.antt =====
-- One player, who logs in and changes the password.
use keep_it_up.Prelude.{pos, ◌≢◌, [], ◌∷◌, String, ◌≡◌, refl, arith, eq_iff, Result, ok, err}
use keep_it_up.Model.{Player, AuthResult}
use keep_it_up.Text.{byte_len, trim_space, trim_left, trim_right, every, is_password_valid}
use keep_it_up.Mapping.{to_domain_player}
use keep_it_up.Db.{Db, PlayerRow, no_rows, get_player_by_username}
use keep_it_up.Db.Players.{find_row, query_player_by_username, query_update_player_password}
use keep_it_up.Usecase.{unauthorized, check_failed, query_failed}
use keep_it_up.Usecase.Authentication.{
  matches, check_player_password, login_player, generate_password_hash,
}
use keep_it_up.Usecase.Authentication.Login.{
  has_username, IsAttempt, login_player_sound, login_player-mismatch, login_player-unknown,
}
use keep_it_up.Usecase.PlayerManagement.{update_password, base_update_password}
use keep_it_up.Usecase.PlayerManagement.Password.{IsBcrypt, check-update_password}
use keep_it_up.Tests.Engine.{engine}
use keep_it_up.Tests.Commands.{bcrypt}

abbrev ana : PlayerRow
ana = record { id = pos 3; name = "Ana"; username = "ana"; hashed_password = "secret1" }

abbrev pub db : Db
db = record { games = []; players = ana ∷ []; access = []; interactions = [] }

abbrev token : Player → Result String String
token p = ok "t"

abbrev answer : AuthResult
answer = record { token = "t"; player = to_domain_player ana }

logged_in : login_player engine bcrypt db token "ana" "secret1" ≡ ok answer
unfolding login_player check_player_password query_player_by_username is_password_valid every
    byte_len trim_space trim_left trim_right
logged_in = refl

login_player_sound_example :
    (r : PlayerRow) × (find_row (has_username "ana") db.players ≡ ok r)
    × (r.username ≡ "ana")
    × (bcrypt.compare r.hashed_password "secret1" ≡ matches)
    × (answer.player ≡ to_domain_player r)
    × (token (to_domain_player r) ≡ ok answer.token)
login_player_sound_example =
    login_player_sound engine bcrypt db "ana" "secret1" token answer logged_in

ana_attempt : IsAttempt engine bcrypt db "ana" "secret2"
unfolding is_password_valid every byte_len trim_space trim_left trim_right
ana_attempt = record { has_name = refl; has_password = refl; long = refl; valid = refl; up = refl }

bob_attempt : IsAttempt engine bcrypt db "bob" "secret2"
unfolding is_password_valid every byte_len trim_space trim_left trim_right
bob_attempt = record { has_name = refl; has_password = refl; long = refl; valid = refl; up = refl }

login_player-mismatch_example :
    login_player engine bcrypt db token "ana" "secret2" ≡ err unauthorized
login_player-mismatch_example =
    login_player-mismatch engine bcrypt db "ana" "secret2" token ana ana_attempt refl refl

login_player-unknown_example :
    login_player engine bcrypt db token "bob" "secret2"
    ≡ err (check_failed (query_failed get_player_by_username no_rows))
login_player-unknown_example =
    login_player-unknown engine bcrypt db "bob" "secret2" token bob_attempt refl

bcrypt-IsBcrypt : IsBcrypt bcrypt
bcrypt-IsBcrypt = record { compare-generate = λ p h e. ground (arith, eq_iff h p) }

changed : (update_password engine bcrypt db "ana" "secret1" " secret2 ").0 ≡ ok tt
unfolding update_password base_update_password generate_password_hash query_update_player_password
    check_player_password query_player_by_username is_password_valid every byte_len trim_space
    trim_left trim_right
changed = refl

check-update_password_example :
    (p : Player) × (check_player_password engine bcrypt db "ana" (trim_space "secret1") ≡ ok p)
    × (p.id ≢ pos 0)
    × (check_player_password engine bcrypt
          (update_password engine bcrypt db "ana" "secret1" " secret2 ").1
          "ana"
          (trim_space " secret2 ")
        ≡ ok p)
check-update_password_example =
    check-update_password engine bcrypt db bcrypt-IsBcrypt "ana" "secret1" " secret2 " changed refl
