-- ===== src/Tests/Logins.antt =====
-- A login whose token can be parsed, and a configuration.
use keep_it_up.Prelude.{
  ◌↔◌, ℤ, ◌+ℤ◌, ◌==ℤ◌, ==ℤ_iff, false, ◌&&◌, ◌||◌, str_eq, eq_iff, ◌∙◌, Bool-cases, inl, inr,
  if◌then◌else◌, pos, ◌*◌, Bool, true, none, some, Option, String, Result, ok, err, ◌≡◌, refl, sym,
  ap, arith,
}
use keep_it_up.Time.{Time, second, add, before}
use keep_it_up.Text.{byte_len, trim_space, trim_left, trim_right, every, is_password_valid}
use keep_it_up.Db.{PlayerRow}
use keep_it_up.Db.Players.{find_row, query_player_by_username}
use keep_it_up.Usecase.Authentication.{matches, check_player_password, login_player}
use keep_it_up.Usecase.Authentication.Login.{has_username}
use keep_it_up.Http.{JwtClaims, HttpRequest, HttpAdapter, Response, Cookie}
use keep_it_up.Http.Handlers.{handle_login}
use keep_it_up.Http.Session.{handle_login-opens_session}
use keep_it_up.Token.{Method, hs256, Jwt, IsJwt, generate_token, parse_token}
use keep_it_up.Config.{Config, Os, Env, load}
use keep_it_up.Config.Loaded.{IsLoaded, load_iff}
use keep_it_up.Tests.Games.{at}
use keep_it_up.Tests.Commands.{platform}
use keep_it_up.Tests.Players.{db}
use keep_it_up.Tests.Server.{adapter, save_request}

abbrev claims : Option Time → ℤ → String → JwtClaims
claims e i u = record { expires_at = e; user_id = i; username = u }

abbrev ana_claims : JwtClaims
ana_claims = claims (some (at 61)) (pos 3) "ana"

abbrev ends_at_61 : Option Time → Bool
ends_at_61 none = false
ends_at_61 (some t) = t ==ℤ at 61

abbrev are_ana : JwtClaims → Bool
are_ana c = ends_at_61 c.expires_at && c.user_id ==ℤ pos 3 && str_eq c.username "ana"

ends_at_61-eq : (e : Option Time) → ends_at_61 e ≡ true → e ≡ some (at 61)
ends_at_61-eq none h = absurd (ground (arith, h))
ends_at_61-eq (some t) h = ap some ((==ℤ_iff t (at 61)).0 h)

are_ana-eq :
    (e : Option Time) (i : ℤ) (u : String)
    → are_ana (claims e i u) ≡ true
    → claims e i u ≡ ana_claims
are_ana-eq e i u h =
    let ends : ends_at_61 e ≡ true = ground (arith, h) in
    let id : (i ==ℤ pos 3) ≡ true = ground (arith, h) in
    let name : str_eq u "ana" ≡ true = ground (arith, h) in
    ap (λ (x : Option Time). claims x i u) (ends_at_61-eq e ends)
    ∙ ap (λ (x : ℤ). claims (some (at 61)) x u) ((==ℤ_iff i (pos 3)).0 id)
    ∙ ap (λ (x : String). claims (some (at 61)) (pos 3) x) ((eq_iff u "ana").0 name)

abbrev parsed : Result String String → Result String (JwtClaims × Bool)
parsed (ok secret) = ok (ana_claims, true)
parsed (err e) = err e

-- It signs the claims of one player only.
abbrev jwt : Jwt
jwt = record {
  numeric_date = λ t. t;
  sign = λ secret c. if are_ana c then ok "header.claims.signature" else err "unknown player";
  parse_with_claims = λ now raw key. parsed (key hs256);
}

signed :
    (secret : String) (c : JwtClaims) (raw : String) (expiry now : Time)
    (key : Method → Result String String)
    → jwt.sign secret c ≡ ok raw
    → c.expires_at ≡ some expiry
    → before now expiry ≡ true
    → key hs256 ≡ ok secret
    → jwt.parse_with_claims now raw key ≡ ok (c, true)
signed secret c raw expiry now key made ends early known = elim (Bool-cases (are_ana c)) [
  | inl same ↦
      ap parsed known
      ∙ ap (λ (x : JwtClaims). let r : Result String (JwtClaims × Bool) = ok (x, true) in r)
          (sym (are_ana-eq c.expires_at c.user_id c.username same))
  | inr other ↦ absurd (ground (arith, made, other))
]

jwt-IsJwt : IsJwt jwt
jwt-IsJwt = record { parse-sign = signed }

abbrev login_request : HttpRequest
login_request = record save_request { login_body = ok ("ana", "secret1") }

abbrev login_adapter : HttpAdapter
login_adapter = record adapter {
  generate_token = generate_token jwt "key" (some (ok (at 1))) (pos (60 * second));
}

abbrev session_cookie : Cookie
session_cookie = record { value = "header.claims.signature"; expires = at 62 }

abbrev opened : Response
opened = record { status = pos 204; body = ""; cookie = some session_cookie }

logs_in : handle_login platform login_adapter (ok (at 1)) db login_request ≡ ok opened
unfolding handle_login login_player check_player_password query_player_by_username is_password_valid
    every byte_len trim_space trim_left trim_right generate_token ◌+ℤ◌
logs_in = refl

expires_later : before (at 2) (jwt.numeric_date (add (at 1) login_adapter.session_lifetime)) ≡ true
unfolding ◌+ℤ◌
expires_later = refl

handle_login-opens_session_example :
    (username : String) × (password : String) × (row : PlayerRow) × (read : Time)
    × (login_request.login_body ≡ ok (username, password))
    × (find_row (has_username username) db.players ≡ ok row)
    × (platform.bcrypt.compare row.hashed_password password ≡ matches)
    × (opened.status ≡ pos 204)
    × (login_adapter.tp ≡ some (ok read))
    × (session_cookie.expires ≡ add read login_adapter.session_lifetime)
    × (parse_token jwt (at 2) session_cookie.value "key"
        ≡ ok (record {
          expires_at = jwt.numeric_date (add (at 1) login_adapter.session_lifetime);
          user_id = row.id;
          username = row.username;
        }))
handle_login-opens_session_example =
    handle_login-opens_session platform login_adapter (ok (at 1)) db opened session_cookie refl
      login_request jwt "key" (at 1) (at 2) jwt-IsJwt refl expires_later logs_in

-- The variables of a server that keeps its defaults.
abbrev pub variable : Env
variable name =
    if str_eq name "SESSION_LIFETIME" || str_eq name "INTERACTIONS_LIMIT" then "" else "1s"

abbrev pub os : Os
os = record {
  parse_duration = λ s. some (pos second);
  absolute = λ s. ok s;
  setenv_accepts = λ name value. true;
}

abbrev defaults : Config
defaults = record {
  jwt_secret = "1s";
  server_address = "1s";
  db_string = "1s";
  valkey_address = "1s";
  idempotency_ttl = pos second;
  idempotency_header = "1s";
  session_lifetime = pos (72 * 3600 * second);
  interactions_limit = pos 20;
}

load_iff_example : (load os variable ≡ ok defaults) ↔ IsLoaded os variable defaults
load_iff_example = load_iff os variable defaults

loads : IsLoaded os variable defaults
unfolding load
loads = load_iff_example.0 refl
