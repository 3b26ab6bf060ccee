-- ===== src/Lib.antt =====
-- A model of keep-it-up: games that are kept running by saving them before a deadline, and that can
-- be paused and resumed. Players who have access to a game append interactions to its log; the
-- state of the game is never stored, it is replayed from the log.
--
-- The parts, bottom up:
-- - Prelude: the shared names, integers, lists and the (value, error) pair of Go.
-- - Time: what the code uses of Go's time package; int64 durations wrap around and saturate.
-- - Model: internal/core/model/model.go.
-- - SharedData: internal/core/service/shared_data.go. BuildSharedData is build_shared_data, its
--   loop replay_from, a round of it step, ComputeValid compute_valid. The children: Shape (which
--   fields are set), Moves and Language (the state machine as a relation), Append, Deadline,
--   Overflow and Validity.
-- - Text: len, TrimSpace, internal/infrastructure/util/util.go and the password rules of
--   internal/core/service/authentication.go.
-- - Db: the tables (database/migrations), the trigger that guards the insertions (Db.Trigger), and
--   the queries of internal/infrastructure/database/*.sql.go, one file each.
-- - Stamp and Mapping: RFC 3339 times, and internal/infrastructure/database/mapping.
-- - Usecase: internal/application/usecase, one file each, with the laws of a part in its children.
-- - Requests and History: the calls that change the database (internal/core/port/driver.go), in any
--   order, with any failures, and what holds after them.
-- - Number: strconv.ParseInt and Itoa.
-- - Cli: internal/infrastructure/driver/cliadapter/cli.go. Cli.Run is Run, Cli.Manage and Cli.Play
--   the nouns; Cli.Refines and Cli.Lines relate a run to the calls of the ports.
-- - Http: internal/infrastructure/driver/httpadapter/handlers.go, http.go and models.go. Http.Query
--   parses the parameters, Http.Handlers holds the handlers, Http.Serve the routes; Http.Access and
--   Http.Authorised are about who may change what, Http.Session about logins, Http.Shown about
--   what is shown.
-- - Idempotency: the middleware of internal/infrastructure/driver/httpadapter/idempotency.go over
--   the port IdempotencyStore (Idempotency.Contract), and Idempotency.Valkey its implementation,
--   internal/infrastructure/driven/valkey_idempotency_store.go. Idempotency.Steps cuts the
--   middleware at its calls, for requests that are served at once.
-- - Adapters: requests and command lines that arrive one after another, at the server (with an
--   idempotency store or without) and at the command line; Adapters.Retries is about commands that
--   are sent again with one key.
-- - Token: internal/infrastructure/driven/jwt_token_generator.go.
-- - Config: internal/infrastructure/config/config.go and internal/infrastructure/util/env.go;
--   Config.Print writes the lines of a file .env.
-- - Usecase.Constructors and Http.Adapter: the constructors of the use cases and of the HTTP adapter.
-- - Cmd: cmd/manager/main.go (Cmd.Manager) and cmd/server/main.go (Cmd.Server). Cmd.Defer runs a Go
--   function with its deferred calls, Cmd.Serving is Run of the HTTP adapter with the two goroutines
--   of the server; the other children are about what is closed, and about starts and exits.
-- - Tests: runs on concrete data.
--
-- A use case takes the database and returns it beside its value or error. What is not in the
-- repository is a parameter: the SQLite engine and driver (Db.Sqlite, with the documented behaviour
-- in Db.IsSqlite), time.Parse and Format of RFC 3339 times (Stamp.Codec, Stamp.IsCodec), bcrypt
-- (Usecase.Authentication.Bcrypt, Usecase.PlayerManagement.Password.IsBcrypt), the JWT library
-- (Token.Jwt, Token.IsJwt), the Valkey server (Idempotency.Valkey.Valkey,
-- Idempotency.Valkey.Contract.IsValkey) and base64, Echo with its JWT middleware (Http.HttpRequest,
-- Http.Serve.Verify), encoding/json, the clock, and the tables of unicode.IsLetter and IsDigit.
-- Any query can fail at any call (Sqlite.fault), and so can any call of the store. Whether the
-- connection enforces foreign keys is a field of the engine; the connection strings of cmd/server
-- and cmd/manager leave the default, which is off.
--
-- A query that fails is assumed to have had no effect: an error that the driver reports for a
-- statement that has run (a context that is cancelled behind it) is not modelled.
--
-- Every loop of the modelled code runs over a list or a text and is structural recursion; the only
-- fuel is that of printing a number, which is one more than the number. An int64 is a mathematical
-- integer, except where the code computes with it: the seconds of a save, which wrap around, and
-- the difference of two times, which saturates; a number that is parsed is bounded. Adding to a
-- time is not bounded (Go's range of times is far larger than the stored one). The calls of the
-- ports run one after another, as each is one SQL statement; requests with idempotency keys are
-- interleaved, with a handler as one step. A key that expires is a step in Idempotency.Expiry only.
-- The goroutines of the server and its shutdown are steps of a schedule, which names the case that
-- a `select` takes.
--
-- Not modelled: what answers on the other side (the engine, Valkey, the listener, the signals), the
-- texts of errors and the log, and the helpers of the tests.
pub mod Prelude
pub mod Time
pub mod Model
pub mod SharedData
pub mod Db
pub mod Text
pub mod Number
pub mod Stamp
pub mod Mapping
pub mod Usecase
pub mod Requests
pub mod History
pub mod Cli
pub mod Http
pub mod Idempotency
pub mod Adapters
pub mod Token
pub mod Config
pub mod Cmd
pub mod Tests
