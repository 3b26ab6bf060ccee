-- ===== src/Idempotency/Valkey.antt =====
-- internal/infrastructure/driven/valkey_idempotency_store.go
--
-- The Valkey client is a parameter over the server's state `S`, and so is base64url; `IsValkey`
-- states what the commands SET NX EX, GET and SET EX do to the value that the server holds for a
-- key. A key that expires is a change of the server's state from outside.
pub mod Records
pub mod Contract
use Prim.Native.String.{◌++◌}
use keep_it_up.Prelude.{
  ℤ, Bool, true, false, Option, none, some, String, str_eq, if◌then◌else◌, Result, ok, err, ◌≡◌,
  ◌≢◌, ◌⊎◌,
}
use keep_it_up.Number.{parse_int, itoa}
use keep_it_up.Text.Cut.{cut}
use keep_it_up.Idempotency.{
  Found, absent, in_progress, completed, StoreError, store_failed, unexpected_record, invalid_code,
  invalid_body, IdempotencyStore,
}

-- The nil reply, which `IsValkeyNil` tells from the other errors.
pub data ValkeyError : Type 0 where
  valkey_nil : ValkeyError
  failed : String → ValkeyError

pub record Valkey (S : Type 0) : Type 0 where
  pub set_nx_ex : S → String → String → ℤ → Result ValkeyError Unit × S
  pub get : S → String → Result ValkeyError String
  pub set_ex : S → String → String → ℤ → Result ValkeyError Unit × S

-- `base64.RawURLEncoding`
pub record Base64 : Type 0 where
  pub encode_to_string : String → String
  pub decode_string : String → Option String

abbrev pub acquired : {S : Type 0} → Result ValkeyError Unit × S → Result StoreError Bool × S
acquired (ok _, s) = (ok true, s)
acquired (err valkey_nil, s) = (ok false, s)
acquired (err (failed e), s) = (err (store_failed e), s)

abbrev pub done : {S : Type 0} → Result ValkeyError Unit × S → Result StoreError Unit × S
done (ok _, s) = (ok tt, s)
done (err valkey_nil, s) = (err (store_failed "valkey nil message"), s)
done (err (failed e), s) = (err (store_failed e), s)

module _ (b : Base64) where
  abbrev pub completed_body : ℤ → String → Option String → Result StoreError Found
  completed_body code body none = err (invalid_body body)
  completed_body code body (some text) = ok (completed code text)

  abbrev pub completed_code : String → String → Option ℤ → Result StoreError Found
  completed_code digits body none = err (invalid_code digits)
  completed_code digits body (some code) = completed_body code body (b.decode_string body)

  -- The second and the third part.
  abbrev pub after_status : String → String × Option String → Result StoreError Found
  after_status val (digits, none) = err (unexpected_record val)
  after_status val (digits, some body) = completed_code digits body (parse_int digits)

  -- The first part.
  abbrev pub parts : String → String × Option String → Result StoreError Found
  parts val (status, none) = err (unexpected_record val)
  parts val (status, some rest) =
      if str_eq status "COMPLETED"
      then after_status val (cut b'|' rest)
      else err (unexpected_record val)

  -- `State` behind the reply
  unfoldable pub parse_record : String → Result StoreError Found
  parse_record val = if str_eq val "IN_PROGRESS" then ok in_progress else parts val (cut b'|' val)

  -- The value that `Complete` stores
  unfoldable pub record_value : ℤ → String → String
  record_value code body = "COMPLETED" ++ ("|" ++ (itoa code ++ ("|" ++ b.encode_to_string body)))

  abbrev pub stated : Result ValkeyError String → Result StoreError Found
  stated (ok val) = parse_record val
  stated (err valkey_nil) = ok absent
  stated (err (failed e)) = err (store_failed e)

module _ {S : Type 0} (v : Valkey S) (b : Base64) where
  -- `Acquire`
  abbrev pub acquire : S → String → ℤ → Result StoreError Bool × S
  acquire s key ttl = acquired (v.set_nx_ex s key "IN_PROGRESS" ttl)

  -- `State`
  abbrev pub state : S → String → Result StoreError Found
  state s key = stated b (v.get s key)

  -- `Complete`
  abbrev pub complete : S → String → ℤ → String → ℤ → Result StoreError Unit × S
  complete s key code body ttl = done (v.set_ex s key (record_value b code body) ttl)

  -- `NewValkeyIdempotencyStore`
  unfoldable pub valkey_store : IdempotencyStore S
  unfolding parse_record record_value
  valkey_store = record { acquire = acquire; state = state; complete = complete }
