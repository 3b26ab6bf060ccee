-- ===== src/Idempotency/Contract.antt =====
-- internal/infrastructure/driver/httpadapter/idempotency.go: what `IdempotencyStore` promises.
use keep_it_up.Prelude.{ℤ, true, false, String, Result, ok, err, ◌≡◌, ◌≢◌, ◌⊎◌}
use keep_it_up.Number.RoundTrip.{FitsInt64}
use keep_it_up.Idempotency.{Found, absent, in_progress, completed, StoreError, IdempotencyStore}

-- What a store holds for each key, or the error of a record that cannot be read.
abbrev pub View : Type 0 → Type 0
View S = S → String → Result StoreError Found

-- A call that touches no key but one.
abbrev pub TouchesOnly : {S : Type 0} → View S → S → S → String → Type 0
TouchesOnly held s s' key = (other : String) → other ≢ key → held s' other ≡ held s other

-- The contract of the three methods, as long as no key expires: a method that fails may have done
-- its work or not.
pub record IsIdempotencyStore {S : Type 0} (store : IdempotencyStore S) (held : View S)
    : Type 0 where
  pub acquire_other :
      (s : S) (key : String) (ttl : ℤ) → TouchesOnly held s (store.acquire s key ttl).1 key
  pub acquire_won :
      (s : S) (key : String) (ttl : ℤ)
      → (store.acquire s key ttl).0 ≡ ok true
      → (held s key ≡ ok absent) × (held (store.acquire s key ttl).1 key ≡ ok in_progress)
  pub acquire_lost :
      (s : S) (key : String) (ttl : ℤ)
      → (store.acquire s key ttl).0 ≡ ok false
      → (held s key ≢ ok absent) × (held (store.acquire s key ttl).1 key ≡ held s key)
  pub acquire_failed :
      (s : S) (key : String) (ttl : ℤ) (e : StoreError)
      → (store.acquire s key ttl).0 ≡ err e
      → (held (store.acquire s key ttl).1 key ≡ held s key)
        ⊎ (held (store.acquire s key ttl).1 key ≡ ok in_progress)
  pub state_held :
      (s : S) (key : String) (found : Found) → store.state s key ≡ ok found → held s key ≡ ok found
  pub complete_other :
      (s : S) (key : String) (code : ℤ) (body : String) (ttl : ℤ)
      → TouchesOnly held s (store.complete s key code body ttl).1 key
  pub complete_kept :
      (s : S) (key : String) (code : ℤ) (body : String) (ttl : ℤ)
      → held s key ≢ ok absent
      → held (store.complete s key code body ttl).1 key ≢ ok absent
  pub complete_ok :
      (s : S) (key : String) (code : ℤ) (body : String) (ttl : ℤ)
      → FitsInt64 code
      → (store.complete s key code body ttl).0 ≡ ok tt
      → held (store.complete s key code body ttl).1 key ≡ ok (completed code body)
  pub complete_failed :
      (s : S) (key : String) (code : ℤ) (body : String) (ttl : ℤ) (e : StoreError)
      → FitsInt64 code
      → (store.complete s key code body ttl).0 ≡ err e
      → (held (store.complete s key code body ttl).1 key ≡ held s key)
        ⊎ (held (store.complete s key code body ttl).1 key ≡ ok (completed code body))
