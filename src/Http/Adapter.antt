-- ===== src/Http/Adapter.antt =====
-- internal/infrastructure/driver/httpadapter/http.go: `New`, `WithIdempotency` and the fields that
-- they set, with the structs of internal/infrastructure/driven/jwt_token_generator.go that the
-- adapter's `Auth` port holds.
use keep_it_up.Prelude.{ℤ, Option, none, some, List, [], ◌∷◌, String, Result}
use keep_it_up.Time.{Time, Duration}
use keep_it_up.Usecase.Constructors.{
  Queries, DefaultTimeProvider, time, GameCommands, DataFetching, AccessManagement, Authentication,
}
use keep_it_up.Http.{Json, HttpAdapter}
use keep_it_up.Token.{Jwt, generate_token}
use keep_it_up.Idempotency.{IdempotencyStore, Idempotency}

-- `JwtTokenGenerator`
pub record JwtTokenGenerator : Type 0 where
  pub jwt_secret : String
  pub time_provider : DefaultTimeProvider
  pub session_lifetime : Duration

-- `Deps`, over the connection of the queries
pub record Deps (D : Type 0) : Type 0 where
  pub auth : Authentication (Queries D) JwtTokenGenerator
  pub fetch : DataFetching (Queries D) DefaultTimeProvider
  pub commands : GameCommands (Queries D) DefaultTimeProvider
  pub access : AccessManagement (Queries D)

-- The fields of `HTTPAdapter`: its store, with the time to live and the header, is optional.
pub record Adapter (D S : Type 0) : Type 0 where
  pub addr : String
  pub jwt_secret : String
  pub tp : DefaultTimeProvider
  pub d : Deps D
  pub idem : Option (Idempotency S)
  pub session_lifetime : Duration
  pub default_interactions_limit : ℤ

module _ {D S : Type 0} where
  -- `WithIdempotency`
  abbrev pub with_idempotency : IdempotencyStore S → Duration → String → Adapter D S → Adapter D S
  with_idempotency store ttl header a = record a {
    idem = some (record { store = store; ttl = ttl; header = header });
  }

  -- The loop of `New` over its options.
  abbrev pub apply_options : List (Adapter D S → Adapter D S) → Adapter D S → Adapter D S
  apply_options [] a = a
  apply_options (opt ∷ opts) a = apply_options opts (opt a)

  -- `New`
  abbrev pub new_adapter :
      String
      → String
      → DefaultTimeProvider
      → Deps D
      → Duration
      → ℤ
      → List (Adapter D S → Adapter D S)
      → Adapter D S
  new_adapter addr jwt_secret tp d session_lifetime interactions_limit opts =
      apply_options opts (record {
        addr = addr;
        jwt_secret = jwt_secret;
        tp = tp;
        d = d;
        idem = none;
        session_lifetime = session_lifetime;
        default_interactions_limit = interactions_limit;
      })

  -- What the handlers read of an adapter at an instant.
  abbrev pub handling : Jwt → (Json → Result String String) → Time → Adapter D S → HttpAdapter
  handling j encode now a = record {
    generate_token =
        generate_token j a.d.auth.tg.jwt_secret (some (time a.d.auth.tg.time_provider now))
          a.d.auth.tg.session_lifetime;
    tp = some (time a.tp now);
    session_lifetime = a.session_lifetime;
    default_interactions_limit = a.default_interactions_limit;
    encode = encode;
  }
