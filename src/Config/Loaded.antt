-- ===== src/Config/Loaded.antt =====
-- internal/infrastructure/config/config.go: when a configuration is loaded, and what it holds.
use keep_it_up.Prelude.{
  ℤ, pos, ◌*◌, true, false, Option, none, some, String, ltb_ℤ, ltb_ℤ-false_iff, Result, ok, err,
  >>=-eq-ok, ◌≡◌, ◌↔◌, refl, sym, subst, ok_inj, ◌∙◌, ap, arith, ◌≤ℤ◌, ◌⊎◌, inl, inr, Bool-cases,
}
use keep_it_up.Number.{parse_int}
use keep_it_up.Time.{second}
use keep_it_up.Text.{is_empty}
use keep_it_up.Config.{Config, Os, Env, required, valid, at_least, resolved, optional, load}

-- The variable is set, and its text is the value.
abbrev pub IsGiven : Env → String → String → Type 0
IsGiven env name value = (value ≡ env name) × (is_empty (env name) ≡ false)

-- The default, if the variable is not set, or what it is parsed as; at least the lowest value.
abbrev pub IsOptional : Env → String → ℤ → (String → Option ℤ) → ℤ → ℤ → Type 0
IsOptional env name default parse low n =
    ((is_empty (env name) ≡ true) × (n ≡ default))
    ⊎ ((is_empty (env name) ≡ false) × (parse (env name) ≡ some n) × (low ≤ℤ n))

required-ok :
    (env : Env) (name value : String) → required env name ≡ ok value → IsGiven env name value
required-ok env name value h = ground (arith, h)

valid-ok : {A : Type 0} (name : String) (o : Option A) (a : A) → valid name o ≡ ok a → o ≡ some a
valid-ok name none a h = absurd (ground (arith, h))
valid-ok name (some b) a h = ground (arith, h)

at_least-ok : (name : String) (low n m : ℤ) → at_least name low n ≡ ok m → (n ≡ m) × (low ≤ℤ n)
at_least-ok name low n m h = elim (Bool-cases (ltb_ℤ n low)) [
  | inl below ↦ absurd (ground (arith, h, below))
  | inr above ↦ (ground (arith, h, above), (ltb_ℤ-false_iff n low).0 above)
]

optional-ok :
    (env : Env) (name : String) (default : ℤ) (parse : String → Option ℤ) (low n : ℤ)
    → optional env name default parse low ≡ ok n
    → IsOptional env name default parse low n
optional-ok env name default parse low n h = elim (Bool-cases (is_empty (env name))) [
  | inl unset ↦ inl (unset, ground (arith, h, unset))
  | inr given ↦
      let (m, parsed, rest) =
        >>=-eq-ok (valid name (parse (env name))) (at_least name low) (rw given at h) in
      let (same, above) = at_least-ok name low m n rest in
      inr (
        given,
        valid-ok name (parse (env name)) m parsed ∙ ap some same,
        subst (λ (x : ℤ). low ≤ℤ x) same above,
      )
]

resolved-ok : (r : Result String String) (path : String) → resolved r ≡ ok path → r ≡ ok path
resolved-ok (ok p) path h = ground (arith, h)
resolved-ok (err e) path h = absurd (ground (arith, h))

-- What `Load` asks of the environment. The path of the database is not asked to be given.
abbrev pub IsLoaded : Os → Env → Config → Type 0
IsLoaded o env c =
    IsGiven env "JWT_SECRET" c.jwt_secret
    × IsGiven env "SERVER_ADDRESS" c.server_address
    × (o.absolute (env "GOOSE_DBSTRING") ≡ ok c.db_string)
    × IsGiven env "VALKEY_ADDRESS" c.valkey_address
    × (o.parse_duration (env "IDEMPOTENCY_TTL") ≡ some c.idempotency_ttl)
    × (pos second ≤ℤ c.idempotency_ttl)
    × IsGiven env "IDEMPOTENCY_HEADER" c.idempotency_header
    × IsOptional env "SESSION_LIFETIME" (pos (72 * 3600 * second)) o.parse_duration (pos 1)
        c.session_lifetime
    × IsOptional env "INTERACTIONS_LIMIT" (pos 20) parse_int (pos 1) c.interactions_limit

pub load-IsLoaded : (o : Os) (env : Env) (c : Config) → load o env ≡ ok c → IsLoaded o env c
unfolding load
load-IsLoaded o env c h =
    let (secret, e1, h1) = >>=-eq-ok (required env "JWT_SECRET") _ h in
    let (address, e2, h2) = >>=-eq-ok (required env "SERVER_ADDRESS") _ h1 in
    let (path, e3, h3) = >>=-eq-ok (resolved (o.absolute (env "GOOSE_DBSTRING"))) _ h2 in
    let (valkey, e4, h4) = >>=-eq-ok (required env "VALKEY_ADDRESS") _ h3 in
    let (parsed, e5, h5) =
      >>=-eq-ok (valid "IDEMPOTENCY_TTL" (o.parse_duration (env "IDEMPOTENCY_TTL"))) _ h4 in
    let (ttl, e6, h6) = >>=-eq-ok (at_least "IDEMPOTENCY_TTL" (pos second) parsed) _ h5 in
    let (header, e7, h7) = >>=-eq-ok (required env "IDEMPOTENCY_HEADER") _ h6 in
    let (lifetime, e8, h8) =
      >>=-eq-ok
        (optional env "SESSION_LIFETIME" (pos (72 * 3600 * second)) o.parse_duration (pos 1)) _
        h7 in
    let (limit, e9, h9) =
      >>=-eq-ok (optional env "INTERACTIONS_LIMIT" (pos 20) parse_int (pos 1)) _ h8 in
    let (same, above) = at_least-ok "IDEMPOTENCY_TTL" (pos second) parsed ttl e6 in
    subst (IsLoaded o env) (ok_inj _ _ h9) (
      required-ok env "JWT_SECRET" secret e1,
      required-ok env "SERVER_ADDRESS" address e2,
      resolved-ok (o.absolute (env "GOOSE_DBSTRING")) path e3,
      required-ok env "VALKEY_ADDRESS" valkey e4,
      valid-ok "IDEMPOTENCY_TTL" (o.parse_duration (env "IDEMPOTENCY_TTL")) parsed e5
          ∙ ap some same,
      subst (λ (x : ℤ). pos second ≤ℤ x) same above,
      required-ok env "IDEMPOTENCY_HEADER" header e7,
      optional-ok env "SESSION_LIFETIME" (pos (72 * 3600 * second)) o.parse_duration (pos 1)
          lifetime e8,
      optional-ok env "INTERACTIONS_LIMIT" (pos 20) parse_int (pos 1) limit e9,
    )

required-given :
    (env : Env) (name value : String) → IsGiven env name value → required env name ≡ ok value
required-given env name value (same, given) = rw given (ap ok (sym same))

at_least-above : (name : String) (low n : ℤ) → low ≤ℤ n → at_least name low n ≡ ok n
at_least-above name low n above = rw ((ltb_ℤ-false_iff n low).1 above) refl

optional-IsOptional :
    (env : Env) (name : String) (default : ℤ) (parse : String → Option ℤ) (low n : ℤ)
    → IsOptional env name default parse low n
    → optional env name default parse low ≡ ok n
optional-IsOptional env name default parse low n (inl (unset, same)) = rw unset (ap ok (sym same))
optional-IsOptional env name default parse low n (inr (given, parsed, above)) =
    rw (given, parsed) (at_least-above name low n above)

load-of_IsLoaded : (o : Os) (env : Env) (c : Config) → IsLoaded o env c → load o env ≡ ok c
unfolding load
load-of_IsLoaded o env c (secret, address, path, valkey, ttl, long, header, lifetime, limit) =
    rw
      (
        required-given env "JWT_SECRET" c.jwt_secret secret,
        required-given env "SERVER_ADDRESS" c.server_address address,
        path,
        required-given env "VALKEY_ADDRESS" c.valkey_address valkey,
        ttl,
        at_least-above "IDEMPOTENCY_TTL" (pos second) c.idempotency_ttl long,
        required-given env "IDEMPOTENCY_HEADER" c.idempotency_header header,
        optional-IsOptional env "SESSION_LIFETIME" (pos (72 * 3600 * second)) o.parse_duration
            (pos 1) c.session_lifetime lifetime,
        optional-IsOptional env "INTERACTIONS_LIMIT" (pos 20) parse_int (pos 1) c.interactions_limit
            limit,
      )
      refl

-- `Load` returns a configuration exactly if: the secret, the address, the address of Valkey and
-- the header are their variables, and not empty; the database's path is what its variable is
-- resolved to, also if that is empty; an idempotency key is kept for the parsed time, of at least a
-- second; the session's lifetime is 72 hours or a parsed positive time, and the limit of
-- interactions 20 or a parsed number of at least 1, as their variables are empty or not.
pub load_iff : (o : Os) (env : Env) (c : Config) → (load o env ≡ ok c) ↔ IsLoaded o env c
load_iff o env c = (load-IsLoaded o env c, load-of_IsLoaded o env c)
