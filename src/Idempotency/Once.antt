-- ===== src/Idempotency/Once.antt =====
-- internal/infrastructure/driver/httpadapter/idempotency.go: at most one handler runs for a key.
use keep_it_up.Prelude.{
  All, ℕ, zero, suc, ◌+◌, ◌≤◌, Bool, true, false, List, [], ◌∷◌, String, str_eq, if◌then◌else◌,
  Result, ok, err, ◌≡◌, ◌≢◌, refl, sym, ◌∙◌, ap, arith, ◌⊎◌, inl, inr, Bool-cases,
}
use keep_it_up.Text.{is_empty}
use keep_it_up.Http.{HttpAdapter}
use keep_it_up.Http.Handlers.{Answer}
use keep_it_up.Idempotency.{absent, StoreError, Idempotency, valid_idempotency_key}
use keep_it_up.Idempotency.Contract.{View, IsIdempotencyStore}
use keep_it_up.Idempotency.Steps.{
  Phase, arrived, won, lost, served, answered, Flight, World, key_of, unkeyed, keyed, acquiring,
  advance, step_flight, fly,
}
use keep_it_up.Idempotency.Held.{acquire_keeps, acquire_wins, complete_keeps}

-- How often a key has been run.
abbrev pub runs : String → List String → ℕ
runs key [] = 0
runs key (k ∷ ks) = (if str_eq k key then 1 else 0) + runs key ks

module _ {S : Type 0} (h : HttpAdapter) (i : Idempotency S) (held : View S)
    (laws : IsIdempotencyStore i.store held) (key : String) where
  abbrev pub wins_as : Flight → Phase → ℕ
  wins_as f won = if str_eq (key_of h i f) key then 1 else 0
  wins_as f _ = 0

  -- The flights that have won the key, and have not run yet.
  abbrev pub wins : List Flight → ℕ
  wins [] = 0
  wins (f ∷ fs) = wins_as f f.phase + wins fs

  -- The key is still held, and the wins and runs are as many as before; or one has won it.
  abbrev pub Moves : World S → World S → ℕ → ℕ → Type 0
  Moves w w' n n' =
      ((held w.store key ≢ ok absent → held w'.store key ≢ ok absent) × (n' ≡ n))
      ⊎ ((held w.store key ≡ ok absent) × (held w'.store key ≢ ok absent) × (n' ≡ suc n))

  acquiring-Moves :
      (f : Flight) (w : World S) (r : Result StoreError Bool × S)
      → i.store.acquire w.store (key_of h i f) i.ttl ≡ r
      → Moves w
          (acquiring h i w r).1
          (wins_as f arrived + runs key w.ran)
          (wins_as f (acquiring h i w r).0 + runs key (acquiring h i w r).1.ran)
  acquiring-Moves f w (err e, s) same =
      inl (acquire_keeps h i held laws key w.store (key_of h i f) (err e, s) same, omega arith)
  acquiring-Moves f w (ok false, s) same =
      inl (acquire_keeps h i held laws key w.store (key_of h i f) (ok false, s) same, omega arith)
  acquiring-Moves f w (ok true, s) same = elim (Bool-cases (str_eq (key_of h i f) key)) [
    | inl equal ↦
        let (was, is) = acquire_wins h i held laws key w.store s (key_of h i f) same equal in
        inr (was, is, rw equal (omega arith))
    | inr other ↦ inl (
      acquire_keeps h i held laws key w.store (key_of h i f) (ok true, s) same,
      rw other (omega arith),
    )
  ]

  keyed-Moves :
      (f : Flight) (w : World S) (a : Answer)
      → Moves w (keyed h i (key_of h i f) w a).1 (wins_as f won + runs key w.ran) (
          wins_as f (keyed h i (key_of h i f) w a).0
          + runs key (keyed h i (key_of h i f) w a).1.ran)
  keyed-Moves f w (ok r, db) = inl (λ k. k, omega arith)
  keyed-Moves f w (err e, db) = inl (λ k. k, omega arith)

  unkeyed-Moves :
      (f : Flight) (w : World S) (a : Answer)
      → Moves w
          (unkeyed h i w a).1
          (wins_as f arrived + runs key w.ran)
          (wins_as f (unkeyed h i w a).0 + runs key (unkeyed h i w a).1.ran)
  unkeyed-Moves f w (a, db) = inl (λ k. k, omega arith)

  advance-Moves :
      (f : Flight) (phase : Phase) (w : World S)
      → Moves w
          (advance h i f phase w).1
          (wins_as f phase + runs key w.ran)
          (wins_as f (advance h i f phase w).0 + runs key (advance h i f phase w).1.ran)
  unfolding advance
  advance-Moves f arrived w = elim (Bool-cases (is_empty (f.request.header i.header))) [
    | inl empty ↦ rw empty (unkeyed-Moves f w (f.handler w.db))
    | inr given ↦ elim (Bool-cases (valid_idempotency_key (f.request.header i.header))) [
      | inl valid ↦
          rw (given, valid)
            (acquiring-Moves f w (i.store.acquire w.store (key_of h i f) i.ttl) refl)
      | inr invalid ↦ rw (given, invalid) (inl (λ k. k, refl))
    ]
  ]
  advance-Moves f won w = keyed-Moves f w (f.handler w.db)
  advance-Moves f lost w = inl (λ k. k, refl)
  advance-Moves f (served r) w =
      inl (complete_keeps h i held laws key w.store (key_of h i f) r, refl)
  advance-Moves f (answered a) w = inl (λ k. k, refl)

  pub step_flight-Moves :
      (n : ℕ) (fs : List Flight) (w : World S)
      → Moves w
          (step_flight h i n fs w).1
          (wins fs + runs key w.ran)
          (wins (step_flight h i n fs w).0 + runs key (step_flight h i n fs w).1.ran)
  unfolding step_flight
  step_flight-Moves n [] w = inl (λ k. k, refl)
  step_flight-Moves zero (f ∷ fs) w = elim (advance-Moves f f.phase w) [
    | inl (keeps, same) ↦ inl (keeps, omega (arith, same))
    | inr (was, is, more) ↦ inr (was, is, omega (arith, more))
  ]
  step_flight-Moves (suc n) (f ∷ fs) w = elim (step_flight-Moves n fs w) [
    | inl (keeps, same) ↦ inl (keeps, omega (arith, same))
    | inr (was, is, more) ↦ inr (was, is, omega (arith, more))
  ]

  -- One flight at most has won the key or run with it, and only while the store holds it.
  abbrev IsOnce : List Flight → World S → Type 0
  IsOnce fs w =
      (wins fs + runs key w.ran ≤ 1)
      × (((wins fs + runs key w.ran) ≡ 1) → held w.store key ≢ ok absent)

  none_before : {m : ℕ} (k : ℕ) → k ≤ 1 → k ≢ 1 → m ≡ suc k → m ≤ 1
  none_before k few ne more = ground (arith, few, ne, more)

  step_flight-IsOnce :
      (n : ℕ) (fs : List Flight) (w : World S)
      → IsOnce fs w
      → IsOnce (step_flight h i n fs w).0 (step_flight h i n fs w).1
  step_flight-IsOnce n fs w (few, present) = elim (step_flight-Moves n fs w) [
    | inl (keeps, same) ↦ (omega (arith, same), λ one. keeps (present (sym same ∙ one)))
    | inr (was, is, more) ↦
        (none_before (wins fs + runs key w.ran) few (λ one. present one was) more, λ one. is)
  ]

  fly-IsOnce :
      (ns : List ℕ) (fs : List Flight) (w : World S)
      → IsOnce fs w
      → IsOnce (fly h i ns fs w).0 (fly h i ns fs w).1
  unfolding fly
  fly-IsOnce [] fs w once = once
  fly-IsOnce (n ∷ ns) fs w once =
      fly-IsOnce ns (step_flight h i n fs w).0 (step_flight h i n fs w).1
        (step_flight-IsOnce n fs w once)

  pub wins-arrived : (fs : List Flight) → All (λ f. f.phase ≡ arrived) fs → wins fs ≡ 0
  wins-arrived [] h = refl
  wins-arrived (f ∷ fs) (new, rest) = omega (arith, ap (wins_as f) new, wins-arrived fs rest)

  start-IsOnce :
      (fs : List Flight) (w : World S) → All (λ f. f.phase ≡ arrived) fs → w.ran ≡ [] → IsOnce fs w
  start-IsOnce fs w new none_ran =
      let zero_before : wins fs + runs key w.ran ≡ 0 =
        omega (arith, wins-arrived fs new, ap (runs key) none_ran) in
      (omega (arith, zero_before), λ one. absurd (omega (arith, zero_before, one)))

  -- With a store that keeps its contract, and while no key expires: from requests that have just
  -- arrived, whatever the order of the calls of the store and of the handlers, at most one of the
  -- handlers with one store key runs.
  pub fly-once :
      (ns : List ℕ) (fs : List Flight) (w : World S)
      → All (λ f. f.phase ≡ arrived) fs
      → w.ran ≡ []
      → runs key (fly h i ns fs w).1.ran ≤ 1
  fly-once ns fs w new none_ran =
      omega (arith, (fly-IsOnce ns fs w (start-IsOnce fs w new none_ran)).0)
