-- ===== src/Usecase/Constructors.antt =====
-- internal/application/usecase: the constructors, with `New` of
-- internal/infrastructure/database/db.go and internal/infrastructure/driven/default_time_provider.go.
--
-- A pointer or an interface that may be nil is an `Option`. `D` is the connection that the queries
-- hold, and a use case holds what its methods take.
use keep_it_up.Prelude.{Option, none, some, Result, ok, err}
use keep_it_up.Time.{Time}
use keep_it_up.Usecase.{Clock}

-- `Queries`
pub record Queries (D : Type 0) : Type 0 where
  pub db : D

-- `New` of the queries
abbrev pub new_queries : {D : Type 0} → D → Queries D
new_queries db = record { db = db }

pub data DefaultTimeProvider : Type 0 where
  default_time_provider : DefaultTimeProvider

-- `Time`, at an instant
abbrev pub time : DefaultTimeProvider → Time → Clock
time default_time_provider now = ok now

pub data NotInitialized : Type 0 where
  database_queries time_provider authentication : NotInitialized

pub record GameCommands (Q T : Type 0) : Type 0 where
  pub q : Q
  pub tp : T

pub record DataFetching (Q T : Type 0) : Type 0 where
  pub q : Q
  pub tp : T

pub record GameManagement (Q : Type 0) : Type 0 where
  pub q : Q

pub record AccessManagement (Q : Type 0) : Type 0 where
  pub q : Q

pub record Authentication (Q G : Type 0) : Type 0 where
  pub q : Q
  pub tg : G

pub record PlayerManagement (Q A : Type 0) : Type 0 where
  pub q : Q
  pub auth : A

-- `NewGameCommands`
abbrev pub new_game_commands :
    {Q T : Type 0} → Option Q → Option T → Result NotInitialized (GameCommands Q T)
new_game_commands none tp = err database_queries
new_game_commands (some q) none = err time_provider
new_game_commands (some q) (some tp) = ok (record { q = q; tp = tp })

-- `NewDataFetching`
abbrev pub new_data_fetching :
    {Q T : Type 0} → Option Q → Option T → Result NotInitialized (DataFetching Q T)
new_data_fetching none tp = err database_queries
new_data_fetching (some q) none = err time_provider
new_data_fetching (some q) (some tp) = ok (record { q = q; tp = tp })

-- `NewGameManagement`
abbrev pub new_game_management : {Q : Type 0} → Option Q → Result NotInitialized (GameManagement Q)
new_game_management none = err database_queries
new_game_management (some q) = ok (record { q = q })

-- `NewAccessManagement`
abbrev pub new_access_management :
    {Q : Type 0} → Option Q → Result NotInitialized (AccessManagement Q)
new_access_management none = err database_queries
new_access_management (some q) = ok (record { q = q })

-- `NewAuthentication`, whose error for a missing token generator names the time provider.
abbrev pub new_authentication :
    {Q G : Type 0} → Option Q → Option G → Result NotInitialized (Authentication Q G)
new_authentication none tg = err database_queries
new_authentication (some q) none = err time_provider
new_authentication (some q) (some tg) = ok (record { q = q; tg = tg })

-- `NewPlayerManagement`
abbrev pub new_player_management :
    {Q A : Type 0} → Option Q → Option A → Result NotInitialized (PlayerManagement Q A)
new_player_management none auth = err database_queries
new_player_management (some q) none = err authentication
new_player_management (some q) (some auth) = ok (record { q = q; auth = auth })
