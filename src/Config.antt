-- ===== src/Config.antt =====
-- internal/infrastructure/config/config.go, and `LoadEnv` of internal/infrastructure/util/env.go.
--
-- The environment is what `os.Getenv` answers, "" for a variable that is not set. The lines are
-- those of the file .env; `time.ParseDuration`, `filepath.Abs` and the names and values that
-- `os.Setenv` accepts are parameters.
pub mod Loaded
pub mod Print
pub mod DotEnv
use Prim.Native.Char.{code}
use Prim.Native.String.{String}
use keep_it_up.Prelude.{
  ℕ, ℤ, pos, ◌*◌, Bool, true, false, ◌||◌, Option, none, some, List, [], ◌∷◌, str_eq, ltb_ℤ, ◌==◌,
  if◌then◌else◌, Result, ok, err, ◌>>=◌,
}
use keep_it_up.Number.{parse_int}
use keep_it_up.Time.{Duration, second}
use keep_it_up.Text.{is_empty, trim_space}
use keep_it_up.Text.Cut.{cut}

pub record Config : Type 0 where
  pub jwt_secret : String
  pub server_address : String
  pub db_string : String
  pub valkey_address : String
  pub idempotency_ttl : Duration
  pub idempotency_header : String
  pub session_lifetime : Duration
  pub interactions_limit : ℤ

pub data ConfigError : Type 0 where
  missing : String → ConfigError
  bad_path : String → ConfigError
  invalid : String → ConfigError
  too_small : String → ℤ → ConfigError

pub record Os : Type 0 where
  pub parse_duration : String → Option Duration
  pub absolute : String → Result String String
  pub setenv_accepts : String → String → Bool

abbrev pub Env : Type 0
Env = String → String

abbrev pub set_env : String → String → Env → Env
set_env key value env name = if str_eq name key then value else env name

abbrev pub is_quote : ℕ → Bool
is_quote c = c == b'"' || c == b'\''

-- `strings.TrimLeft` and `strings.TrimRight` with the two quotes
unfoldable pub trim_left_quotes : String → String
trim_left_quotes String.[] = String.[]
trim_left_quotes (String.◌∷◌ c s) = if is_quote (code c) then trim_left_quotes s else String.◌∷◌ c s

unfoldable pub trim_right_quotes : String → String
trim_right_quotes String.[] = String.[]
trim_right_quotes (String.◌∷◌ c s) =
    let rest = trim_right_quotes s in
    if (if is_empty rest then is_quote (code c) else false) then String.[] else String.◌∷◌ c rest

-- `strings.Trim` with the two quotes
abbrev pub trim_quotes : String → String
trim_quotes s = trim_right_quotes (trim_left_quotes s)

abbrev pub starts_comment : String → Bool
starts_comment String.[] = true
starts_comment (String.◌∷◌ c s) = code c == b'#'

abbrev pub assigned : Os → String × Option String → Env → Env
assigned o (key, none) env = env
assigned o (key, some value) env =
    let name = trim_space key in
    let text = trim_quotes (trim_space value) in
    if o.setenv_accepts name text then set_env name text env else env

-- A line of the file: an empty one and a comment are left out.
unfoldable pub load_line : Os → String → Env → Env
unfolding trim_left_quotes trim_right_quotes
load_line o line env =
    if starts_comment (trim_space line) then env else assigned o (cut b'=' (trim_space line)) env

-- `LoadEnv`, of a file that may be missing.
unfoldable pub load_env : Os → List String → Env → Env
unfolding load_line
load_env o [] env = env
load_env o (line ∷ lines) env = load_env o lines (load_line o line env)

abbrev required : Env → String → Result ConfigError String
required env name = if is_empty (env name) then err (missing name) else ok (env name)

abbrev valid : {A : Type 0} → String → Option A → Result ConfigError A
valid name none = err (invalid name)
valid name (some a) = ok a

abbrev at_least : String → ℤ → ℤ → Result ConfigError ℤ
at_least name low n = if ltb_ℤ n low then err (too_small name n) else ok n

abbrev resolved : Result String String → Result ConfigError String
resolved (ok path) = ok path
resolved (err e) = err (bad_path e)

-- A variable with a default: what it is parsed as, and its least value.
abbrev optional : Env → String → ℤ → (String → Option ℤ) → ℤ → Result ConfigError ℤ
optional env name default parse low =
    if is_empty (env name)
    then ok default
    else do n ← valid name (parse (env name)); at_least name low n

-- `Load`, behind `LoadEnv`
unfoldable pub load : Os → Env → Result ConfigError Config
load o env = do
  jwt_secret ← required env "JWT_SECRET"
  server_address ← required env "SERVER_ADDRESS"
  db_string ← resolved (o.absolute (env "GOOSE_DBSTRING"))
  valkey_address ← required env "VALKEY_ADDRESS"
  ttl ← valid "IDEMPOTENCY_TTL" (o.parse_duration (env "IDEMPOTENCY_TTL"))
  idempotency_ttl ← at_least "IDEMPOTENCY_TTL" (pos second) ttl
  idempotency_header ← required env "IDEMPOTENCY_HEADER"
  session_lifetime ←
      optional env "SESSION_LIFETIME" (pos (72 * 3600 * second)) o.parse_duration (pos 1)
  interactions_limit ← optional env "INTERACTIONS_LIMIT" (pos 20) parse_int (pos 1)
  ok (record {
    jwt_secret = jwt_secret;
    server_address = server_address;
    db_string = db_string;
    valkey_address = valkey_address;
    idempotency_ttl = idempotency_ttl;
    idempotency_header = idempotency_header;
    session_lifetime = session_lifetime;
    interactions_limit = interactions_limit;
  })
