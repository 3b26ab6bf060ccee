-- ===== src/Idempotency/Held.antt =====
-- internal/infrastructure/driver/httpadapter/idempotency.go: what the calls of the store do to a
-- key that is held.
use mathlib.Core.Bool.{true≢false}
use keep_it_up.Prelude.{
  subst, Bool, true, false, String, str_eq, eq_iff, Result, ok, err, ◌≡◌, ◌≢◌, sym, ◌∙◌, ap, arith,
  inl, inr, Bool-cases,
}
use keep_it_up.Http.{HttpAdapter, Response}
use keep_it_up.Idempotency.{
  Found, absent, in_progress, StoreError, Idempotency, complete_key, status_code, recorded,
}
use keep_it_up.Idempotency.Contract.{View, IsIdempotencyStore}

abbrev held_progress : Result StoreError Found
held_progress = ok in_progress

in_progress-ne-absent : held_progress ≢ ok absent
in_progress-ne-absent h = ground (arith, h)

module _ {S : Type 0} (h : HttpAdapter) (i : Idempotency S) (held : View S)
    (laws : IsIdempotencyStore i.store held) (key : String) where
  apart : (k : String) → str_eq k key ≡ false → key ≢ k
  apart k other same = true≢false (sym ((eq_iff k key).1 (sym same)) ∙ other)

  acquire_keeps_own :
      (s : S) (k : String) (r : Result StoreError Bool × S)
      → i.store.acquire s k i.ttl ≡ r
      → held s k ≢ ok absent
      → held r.1 k ≢ ok absent
  acquire_keeps_own s k (ok true, s') same present gone =
      present (laws.acquire_won s k i.ttl (ap (λ (x : Result StoreError Bool × S). x.0) same)).0
  acquire_keeps_own s k (ok false, s') same present gone = present (
      sym (laws.acquire_lost s k i.ttl (ap (λ (x : Result StoreError Bool × S). x.0) same)).1
      ∙ ap (λ (x : Result StoreError Bool × S). held x.1 k) same
      ∙ gone)
  acquire_keeps_own s k (err e, s') same present gone =
      elim (laws.acquire_failed s k i.ttl e (ap (λ (x : Result StoreError Bool × S). x.0) same)) [
        | inl kept ↦
            present (sym kept ∙ ap (λ (x : Result StoreError Bool × S). held x.1 k) same ∙ gone)
        | inr new ↦
            in_progress-ne-absent
              (sym new ∙ ap (λ (x : Result StoreError Bool × S). held x.1 k) same ∙ gone)
      ]

  pub acquire_keeps :
      (s : S) (k : String) (r : Result StoreError Bool × S)
      → i.store.acquire s k i.ttl ≡ r
      → held s key ≢ ok absent
      → held r.1 key ≢ ok absent
  acquire_keeps s k r same present = elim (Bool-cases (str_eq k key)) [
    | inl equal ↦
        subst (λ (x : String). held s x ≢ ok absent → held r.1 x ≢ ok absent)
          ((eq_iff k key).0 equal) (acquire_keeps_own s k r same) present
    | inr other ↦ λ gone. present (
        sym (laws.acquire_other s k i.ttl key (apart k other))
        ∙ ap (λ (x : Result StoreError Bool × S). held x.1 key) same
        ∙ gone)
  ]

  pub acquire_wins :
      (s s' : S) (k : String)
      → i.store.acquire s k i.ttl ≡ (ok true, s')
      → str_eq k key ≡ true
      → (held s key ≡ ok absent) × (held s' key ≢ ok absent)
  acquire_wins s s' k same equal =
      let (was, is) =
        laws.acquire_won s k i.ttl (ap (λ (x : Result StoreError Bool × S). x.0) same) in
      subst (λ (x : String). (held s x ≡ ok absent) × (held s' x ≢ ok absent))
        ((eq_iff k key).0 equal)
        (
          was,
          λ gone.
              in_progress-ne-absent
                (sym is ∙ ap (λ (x : Result StoreError Bool × S). held x.1 k) same ∙ gone),
        )

  pub complete_keeps :
      (s : S) (k : String) (r : Response)
      → held s key ≢ ok absent
      → held (complete_key h i k s r) key ≢ ok absent
  complete_keeps s k r present = elim (Bool-cases (str_eq k key)) [
    | inl equal ↦
        subst (λ (x : String). held s x ≢ ok absent → held (complete_key h i k s r) x ≢ ok absent)
          ((eq_iff k key).0 equal)
          (laws.complete_kept s k (status_code (recorded r)) (recorded r).buf i.ttl) present
    | inr other ↦ λ gone. present (
        sym (
          laws.complete_other s k (status_code (recorded r)) (recorded r).buf i.ttl key
            (apart k other))
        ∙ gone)
  ]
