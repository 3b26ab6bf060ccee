-- ===== src/Idempotency.antt =====
-- internal/infrastructure/driver/httpadapter/idempotency.go: the middleware, over the port that it
-- requires of a store, whose state is `S`.
--
-- A response reaches the writer as Echo writes it: the status, and then a body that is not empty.
pub mod Contract
pub mod Valkey
pub mod Keys
pub mod Replay
pub mod Spent
pub mod Steps
pub mod Held
pub mod Once
pub mod Expiry
pub mod Transparent
use Prim.Native.Char.{code}
use Prim.Native.String.{[], ◌∷◌, ◌++◌}
use keep_it_up.Prelude.{
  ℕ, ℤ, pos, Bool, true, false, ◌&&◌, ◌||◌, not, Option, none, some, String, ltb, leb, ◌==◌, ◌==ℤ◌,
  if◌then◌else◌, Result, ok, err,
}
use keep_it_up.Number.{itoa}
use keep_it_up.Text.{byte_len, is_empty, every}
use keep_it_up.Db.{Db}
use keep_it_up.Http.{
  User, HttpRequest, HttpAdapter, Response, Handled, no_content, error_json, bad_request_with,
  internal, player_id,
}
use keep_it_up.Http.Serve.{Next, Middleware}

-- What `State` finds: the empty status, IN_PROGRESS, or COMPLETED with the response.
pub data Found : Type 0 where
  absent in_progress : Found
  completed : ℤ → String → Found

pub data StoreError : Type 0 where
  store_failed unexpected_record invalid_code invalid_body : String → StoreError

-- `IdempotencyStore`
pub record IdempotencyStore (S : Type 0) : Type 0 where
  pub acquire : S → String → ℤ → Result StoreError Bool × S
  pub state : S → String → Result StoreError Found
  pub complete : S → String → ℤ → String → ℤ → Result StoreError Unit × S

-- `WithIdempotency`
pub record Idempotency (S : Type 0) : Type 0 where
  pub store : IdempotencyStore S
  pub ttl : ℤ
  pub header : String

-- `recordingWriter`, without the writer that it wraps
pub record RecordingWriter : Type 0 where
  pub status : ℤ
  pub buf : String

abbrev pub fresh_writer : RecordingWriter
fresh_writer = record { status = pos 0; buf = "" }

-- `WriteHeader`
abbrev pub write_header : RecordingWriter → ℤ → RecordingWriter
write_header w code = record w { status = if w.status ==ℤ pos 0 then code else w.status }

-- `Write`
abbrev pub write : RecordingWriter → String → RecordingWriter
write w b = record w { status = if w.status ==ℤ pos 0 then pos 200 else w.status; buf = w.buf ++ b }

-- `statusCode`
abbrev pub status_code : RecordingWriter → ℤ
status_code w = if w.status ==ℤ pos 0 then pos 200 else w.status

-- What the writer has recorded of a response.
abbrev pub recorded : Response → RecordingWriter
recorded r =
    let w : RecordingWriter = write_header fresh_writer r.status in
    if is_empty r.body then w else write w r.body

abbrev pub is_key_char : ℕ → Bool
is_key_char r =
    (leb b'a' r && leb r b'z')
    || (leb b'A' r && leb r b'Z')
    || (leb b'0' r && leb r b'9')
    || r == b'-'
    || r == b'_'
    || r == b'.'
    || r == b':'

-- `validIdempotencyKey`
unfoldable pub valid_idempotency_key : String → Bool
unfolding every
valid_idempotency_key key =
    if is_empty key || ltb 128 (byte_len key) then false else every is_key_char key

-- `idempotencyStoreKey`
abbrev pub scoped : Option ℤ → String → String
scoped (some id) raw = "idempotency:user:" ++ (itoa id ++ (":" ++ raw))
scoped none raw = "idempotency:anon:" ++ raw

unfoldable pub idempotency_store_key : User → String → String
idempotency_store_key user raw = scoped (player_id user) raw

-- `replayIdempotentResponse`
abbrev pub replay_idempotent_response : ℤ → String → Handled
replay_idempotent_response code body =
    if is_empty body
    then no_content code
    else ok (record { status = code; body = body; cookie = none })

-- A request that has lost the key.
abbrev pub found_before : HttpAdapter → Result StoreError Found → Handled
found_before h (err e) = internal h
found_before h (ok absent) = internal h
found_before h (ok in_progress) =
    error_json h (pos 409) "A request with this Idempotency-Key is already in progress"
found_before h (ok (completed code body)) = replay_idempotent_response code body

module _ {S : Type 0} (h : HttpAdapter) (i : Idempotency S) where
  -- The call of `Complete`, whose error is only logged.
  abbrev pub complete_key : String → S → Response → S
  complete_key key s r =
      (i.store.complete s key (status_code (recorded r)) (recorded r).buf i.ttl).1

  -- After the handler has returned.
  abbrev pub after_next : String → Handled × S × Db → Handled × S × Db
  after_next key (err e, s, db) = (err e, s, db)
  after_next key (ok r, s, db) = (ok r, complete_key key s r, db)

  -- After `Acquire` has returned.
  abbrev pub after_acquire : String → Next S → Db → Result StoreError Bool × S → Handled × S × Db
  after_acquire key next db (err e, s) = (internal h, s, db)
  after_acquire key next db (ok false, s) = (found_before h (i.store.state s key), s, db)
  after_acquire key next db (ok true, s) = after_next key (next (s, db))

  -- `idempotency`
  unfoldable pub idempotency : Middleware S
  idempotency user r next (s, db) =
      if is_empty (r.header i.header)
      then next (s, db)
      else if not (valid_idempotency_key (r.header i.header))
      then (bad_request_with h "Invalid Idempotency-Key", s, db)
      else (let key = idempotency_store_key user (r.header i.header) in
          after_acquire key next db (i.store.acquire s key i.ttl))

-- `idempotency` with its test for a store, which is optional.
abbrev pub idempotency_of : {S : Type 0} → HttpAdapter → Option (Idempotency S) → Middleware S
idempotency_of h none user r next w = next w
idempotency_of h (some i) user r next w = idempotency h i user r next w
