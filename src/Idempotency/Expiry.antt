-- ===== src/Idempotency/Expiry.antt =====
-- internal/infrastructure/driver/httpadapter/idempotency.go: requests that are served at once, by
-- a store whose keys expire (the `ttl` of `Acquire` and `Complete`).
--
-- When a key expires is the store's business: a schedule names the calls, as in Idempotency.Steps,
-- and between them the keys that expire.
use keep_it_up.Prelude.{
  All, ℕ, suc, ◌+◌, ◌≤◌, Bool-cases, List, [], ◌∷◌, String, str_eq, eq_iff, if◌then◌else◌, ok, ◌≡◌,
  ◌≢◌, sym, ◌∙◌, ap, arith, inl, inr,
}
use mathlib.Core.Bool.{true≢false}
use keep_it_up.Http.{HttpAdapter}
use keep_it_up.Idempotency.{absent, Idempotency}
use keep_it_up.Idempotency.Contract.{View, TouchesOnly, IsIdempotencyStore}
use keep_it_up.Idempotency.Steps.{arrived, Flight, World, step_flight}
use keep_it_up.Idempotency.Once.{runs, wins, step_flight-Moves, wins-arrived}

pub data Event : Type 0 where
  call : ℕ → Event
  expiry : String → Event

-- A key that expires is gone, and no other is.
pub record IsExpiry {S : Type 0} (held : View S) (expire : String → S → S) : Type 0 where
  pub expire_own : (key : String) (s : S) → held (expire key s) key ≡ ok absent
  pub expire_other : (key : String) (s : S) → TouchesOnly held s (expire key s) key

-- How often a key expires.
abbrev pub expiries : String → List Event → ℕ
expiries key [] = 0
expiries key (call n ∷ events) = expiries key events
expiries key (expiry k ∷ events) = (if str_eq k key then 1 else 0) + expiries key events

module _ {S : Type 0} (h : HttpAdapter) (i : Idempotency S) (expire : String → S → S) where
  abbrev pub happen : Event → List Flight × World S → List Flight × World S
  happen (call n) (fs, w) = step_flight h i n fs w
  happen (expiry key) (fs, w) = (fs, record w { store = expire key w.store })

  -- The flights make their calls, and keys expire.
  unfoldable pub fly_expiring : List Event → List Flight × World S → List Flight × World S
  unfolding step_flight
  fly_expiring [] x = x
  fly_expiring (e ∷ events) x = fly_expiring events (happen e x)

module _ {S : Type 0} (h : HttpAdapter) (i : Idempotency S) (held : View S)
    (laws : IsIdempotencyStore i.store held) (expire : String → S → S)
    (expires : IsExpiry held expire) (key : String) where
  abbrev used : List Flight × World S → ℕ
  used (fs, w) = wins h i held laws key fs + runs key w.ran

  -- `n` flights have won the key or run with it at most, and if it is `n` the store holds the key.
  abbrev IsWithin : ℕ → List Flight × World S → Type 0
  IsWithin n x = (used x ≤ n) × ((used x ≡ n) → held x.1.store key ≢ ok absent)

  one_more : {m k : ℕ} (n : ℕ) → k ≤ n → k ≢ n → m ≡ suc k → m ≤ n
  one_more n few ne more = ground (arith, few, ne, more)

  call-IsWithin :
      (m n : ℕ) (fs : List Flight) (w : World S)
      → IsWithin m (fs, w)
      → IsWithin m (step_flight h i n fs w)
  call-IsWithin m n fs w (few, present) = elim (step_flight-Moves h i held laws key n fs w) [
    | inl (keeps, same) ↦ (omega (arith, same, few), λ all. keeps (present (sym same ∙ all)))
    | inr (was, is, more) ↦ (one_more m few (λ all. present all was) more, λ all. is)
  ]

  not_yet : {k m : ℕ} → k ≤ m → k ≢ 1 + m
  not_yet few all = omega (arith, few, all)

  expiry-IsWithin :
      (m : ℕ) (k : String) (fs : List Flight) (w : World S)
      → IsWithin m (fs, w)
      → IsWithin ((if str_eq k key then 1 else 0) + m) (happen h i expire (expiry k) (fs, w))
  expiry-IsWithin m k fs w (few, present) = elim (Bool-cases (str_eq k key)) [
    | inl same ↦ rw same (omega (arith, few), λ all. absurd (not_yet few all))
    | inr other ↦ rw other (
      omega (arith, few),
      λ all gone. present (omega (arith, all)) (
          sym (
            expires.expire_other k w.store key
              (λ e. true≢false (sym ((eq_iff k key).1 (sym e)) ∙ other)))
          ∙ gone),
    )
  ]

  fly_expiring-IsWithin :
      (m : ℕ) (events : List Event) (x : List Flight × World S)
      → IsWithin m x
      → used (fly_expiring h i expire events x) ≤ m + expiries key events
  unfolding fly_expiring
  fly_expiring-IsWithin m [] x (few, present) = omega (arith, few)
  fly_expiring-IsWithin m (call n ∷ events) (fs, w) within =
      fly_expiring-IsWithin m events (step_flight h i n fs w) (call-IsWithin m n fs w within)
  fly_expiring-IsWithin m (expiry k ∷ events) (fs, w) within =
      let rest =
        fly_expiring-IsWithin ((if str_eq k key then 1 else 0) + m) events
          (happen h i expire (expiry k) (fs, w)) (expiry-IsWithin m k fs w within) in
      omega (arith, rest)

  -- With a store that keeps its contract between the expiries of its keys: from requests that have
  -- just arrived, whatever the order of the calls of the store, of the handlers and of the
  -- expiries, the handlers with one store key run once, and once more for each time that the key
  -- has expired, at most.
  pub fly_expiring-bounded :
      (events : List Event) (fs : List Flight) (w : World S)
      → All (λ f. f.phase ≡ arrived) fs
      → w.ran ≡ []
      → runs key (fly_expiring h i expire events (fs, w)).1.ran ≤ suc (expiries key events)
  fly_expiring-bounded events fs w new none_ran =
      let before : used (fs, w) ≡ 0 =
        omega (arith, wins-arrived h i held laws key fs new, ap (runs key) none_ran) in
      let within : IsWithin 1 (fs, w) =
        (omega (arith, before), λ one. absurd (omega (arith, before, one))) in
      omega (arith, fly_expiring-IsWithin 1 events (fs, w) within)
