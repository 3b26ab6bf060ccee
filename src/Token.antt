-- ===== src/Token.antt =====
-- internal/infrastructure/driven/jwt_token_generator.go, and `JwtPlayerClaims` of
-- internal/application/model/authentication.go.
--
-- The JWT library is a parameter: the signing of claims with HS256 and a secret, and the parsing of
-- a token at a time with a function that gives the key for its method. `IsJwt` states that a token
-- that was signed is parsed with the key until it expires.
use keep_it_up.Prelude.{
  ℤ, Bool, true, false, Option, none, some, String, if◌then◌else◌, Result, ok, err, ◌>>=◌, ◌≡◌,
  refl, arith, Bool-cases, inl, inr,
}
use keep_it_up.Time.{Time, Duration, add, before, zero_time}
use keep_it_up.Model.{Player}
use keep_it_up.Text.{is_empty, trim_space}
use keep_it_up.Usecase.{Clock}
use keep_it_up.Http.{JwtClaims}

pub record JwtPlayerClaims : Type 0 where
  pub expires_at : Time
  pub user_id : ℤ
  pub username : String

pub data Method : Type 0 where
  hs256 other_method : Method

pub record Jwt : Type 0 where
  pub numeric_date : Time → Time
  pub sign : String → JwtClaims → Result String String
  pub parse_with_claims :
      Time → String → (Method → Result String String) → Result String (JwtClaims × Bool)

pub record IsJwt (j : Jwt) : Type 0 where
  pub parse-sign :
      (secret : String) (claims : JwtClaims) (raw : String) (expiry now : Time)
      (key : Method → Result String String)
      → j.sign secret claims ≡ ok raw
      → claims.expires_at ≡ some expiry
      → before now expiry ≡ true
      → key hs256 ≡ ok secret
      → j.parse_with_claims now raw key ≡ ok (claims, true)

-- The claims of a player.
abbrev pub claims_of : Jwt → Duration → Player → Time → JwtClaims
claims_of j lifetime player t = record {
  expires_at = some (j.numeric_date (add t lifetime));
  user_id = player.id;
  username = player.username;
}

abbrev current_time : Option Clock → Result String Time
current_time none = err "time provider is not initialized"
current_time (some clock) = clock

-- `GenerateToken`
unfoldable pub generate_token :
    Jwt → String → Option Clock → Duration → Player → Result String String
generate_token j secret tp lifetime player =
    if is_empty (trim_space secret)
    then err "jwt secret cannot be empty string"
    else do t ← current_time tp; j.sign secret (claims_of j lifetime player t)

-- The function that gives the key.
abbrev key_for : String → Method → Result String String
key_for secret hs256 = ok secret
key_for secret other_method = err "unexpected signing method"

abbrev expiry_of : Option Time → Time
expiry_of none = zero_time
expiry_of (some t) = t

abbrev player_claims : JwtClaims × Bool → Result String JwtPlayerClaims
player_claims (claims, true) = ok (record {
  expires_at = expiry_of claims.expires_at;
  user_id = claims.user_id;
  username = claims.username;
})
player_claims (claims, false) = err "token is not valid"

-- `ParseToken`
unfoldable pub parse_token : Jwt → Time → String → String → Result String JwtPlayerClaims
parse_token j now raw secret = do
  parsed ← j.parse_with_claims now raw (key_for secret)
  player_claims parsed

-- A token that was generated is parsed with the secret until it expires.
pub parse_token-generate_token :
    (j : Jwt) (laws : IsJwt j) (secret : String) (t now : Time) (lifetime : Duration)
    (player : Player) (raw : String)
    → generate_token j secret (some (ok t)) lifetime player ≡ ok raw
    → before now (j.numeric_date (add t lifetime)) ≡ true
    → parse_token j now raw secret
      ≡ ok (record {
        expires_at = j.numeric_date (add t lifetime);
        user_id = player.id;
        username = player.username;
      })
unfolding generate_token parse_token
parse_token-generate_token j laws secret t now lifetime player raw h early =
    elim (Bool-cases (is_empty (trim_space secret))) [
      | inl blank ↦ absurd (ground (arith, h, blank))
      | inr given ↦
          rw
            (laws.parse-sign secret (claims_of j lifetime player t) raw
              (j.numeric_date (add t lifetime)) now (key_for secret) (rw given at h) refl early
              refl)
            refl
    ]
