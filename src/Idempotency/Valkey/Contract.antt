-- ===== src/Idempotency/Valkey/Contract.antt =====
-- internal/infrastructure/driven/valkey_idempotency_store.go: the store keeps the contract.
use keep_it_up.Prelude.{
  ℤ, true, false, Option, none, some, String, Result, ok, err, ◌≡◌, ◌≢◌, ◌⊎◌, inl, inr, refl, sym,
  subst, ◌∙◌, ap, arith,
}
use keep_it_up.Idempotency.{Found, absent, in_progress, completed, StoreError}
use keep_it_up.Idempotency.Contract.{View, IsIdempotencyStore}
use keep_it_up.Idempotency.Valkey.{
  ValkeyError, valkey_nil, failed, Valkey, Base64, acquired, done, stated, parse_record,
  record_value, valkey_store,
}
use keep_it_up.Idempotency.Valkey.Records.{IsBase64, parse_record-record_value}

-- A write to one key that has put a value, or left the server as it was.
pub record Writes {S : Type 0} (holds : S → String → Option String) (s s' : S) (key value : String)
    (r : Result ValkeyError Unit) : Type 0 where
  pub others : (other : String) → other ≢ key → holds s' other ≡ holds s other
  pub written : r ≡ ok tt → holds s' key ≡ some value
  pub in_doubt :
      (e : String) → r ≡ err (failed e) → (holds s' key ≡ holds s key) ⊎ (holds s' key ≡ some value)

-- What the commands do, where `holds` is the value that the server holds for a key.
pub record IsValkey {S : Type 0} (v : Valkey S) (holds : S → String → Option String) : Type 0 where
  -- SET NX EX
  pub set_nx_writes :
      (s : S) (key value : String) (ttl : ℤ)
      → Writes holds s (v.set_nx_ex s key value ttl).1 key value (v.set_nx_ex s key value ttl).0
  pub set_nx_new :
      (s : S) (key value : String) (ttl : ℤ)
      → (v.set_nx_ex s key value ttl).0 ≡ ok tt
      → holds s key ≡ none
  pub set_nx_nil :
      (s : S) (key value : String) (ttl : ℤ)
      → (v.set_nx_ex s key value ttl).0 ≡ err valkey_nil
      → (old : String) × (holds s key ≡ some old)
        × (holds (v.set_nx_ex s key value ttl).1 key ≡ some old)
  -- GET
  pub get_value : (s : S) (key value : String) → v.get s key ≡ ok value → holds s key ≡ some value
  pub get_nil : (s : S) (key : String) → v.get s key ≡ err valkey_nil → holds s key ≡ none
  -- SET EX
  pub set_writes :
      (s : S) (key value : String) (ttl : ℤ)
      → Writes holds s (v.set_ex s key value ttl).1 key value (v.set_ex s key value ttl).0
  pub set_never_nil :
      (s : S) (key value : String) (ttl : ℤ) → (v.set_ex s key value ttl).0 ≢ err valkey_nil

abbrev value_found : Base64 → Option String → Result StoreError Found
value_found b none = ok absent
value_found b (some val) = parse_record b val

-- What the store holds for a key.
abbrev pub held_by : {S : Type 0} → Base64 → (S → String → Option String) → View S
held_by b holds s key = value_found b (holds s key)

parse_record-ne-absent : (b : Base64) (val : String) → parse_record b val ≢ ok absent
unfolding parse_record
parse_record-ne-absent b val h = ground (arith, h)

module _ {S : Type 0} where
  acquired_state : (r : Result ValkeyError Unit × S) → (acquired r).1 ≡ r.1
  acquired_state (ok _, s) = refl
  acquired_state (err valkey_nil, s) = refl
  acquired_state (err (failed e), s) = refl

  acquired-true : (r : Result ValkeyError Unit × S) → (acquired r).0 ≡ ok true → r.0 ≡ ok tt
  acquired-true (ok _, s) h = refl
  acquired-true (err valkey_nil, s) h = ground (arith, h)
  acquired-true (err (failed e), s) h = ground (arith, h)

  acquired-false :
      (r : Result ValkeyError Unit × S) → (acquired r).0 ≡ ok false → r.0 ≡ err valkey_nil
  acquired-false (ok _, s) h = ground (arith, h)
  acquired-false (err valkey_nil, s) h = refl
  acquired-false (err (failed e), s) h = ground (arith, h)

  acquired_err :
      (r : Result ValkeyError Unit × S) (e : StoreError)
      → (acquired r).0 ≡ err e
      → (x : String) × (r.0 ≡ err (failed x))
  acquired_err (ok _, s) e h = absurd (ground (arith, h))
  acquired_err (err valkey_nil, s) e h = absurd (ground (arith, h))
  acquired_err (err (failed x), s) e h = (x, refl)

  done_state : (r : Result ValkeyError Unit × S) → (done r).1 ≡ r.1
  done_state (ok _, s) = refl
  done_state (err valkey_nil, s) = refl
  done_state (err (failed e), s) = refl

  done_ok : (r : Result ValkeyError Unit × S) → (done r).0 ≡ ok tt → r.0 ≡ ok tt
  done_ok (ok _, s) h = refl
  done_ok (err valkey_nil, s) h = ground (arith, h)
  done_ok (err (failed e), s) h = ground (arith, h)

  done_err :
      (r : Result ValkeyError Unit × S) (e : StoreError)
      → r.0 ≢ err valkey_nil
      → (done r).0 ≡ err e
      → (x : String) × (r.0 ≡ err (failed x))
  done_err (ok _, s) e n h = absurd (ground (arith, h))
  done_err (err valkey_nil, s) e n h = absurd (n refl)
  done_err (err (failed x), s) e n h = (x, refl)

module _ {S : Type 0} (v : Valkey S) (b : Base64) (holds : S → String → Option String)
    (laws : IsValkey v holds) (codec : IsBase64 b) where
  -- The record that the server holds after a write, or the one that it held.
  in_doubt_found :
      (s s' : S) (key value : String) (r : Result ValkeyError Unit) (x : String)
      (f : Result StoreError Found)
      → Writes holds s s' key value r
      → r ≡ err (failed x)
      → value_found b (some value) ≡ f
      → (held_by b holds s' key ≡ held_by b holds s key) ⊎ (held_by b holds s' key ≡ f)
  in_doubt_found s s' key value r x f w e means = elim (w.in_doubt x e) [
    | inl same ↦ inl (ap (value_found b) same)
    | inr new ↦ inr (ap (value_found b) new ∙ means)
  ]

  kept :
      (s s' : S) (key value : String) (r r' : Result ValkeyError Unit)
      → r ≡ r'
      → Writes holds s s' key value r
      → r ≢ err valkey_nil
      → held_by b holds s key ≢ ok absent
      → held_by b holds s' key ≢ ok absent
  kept s s' key value r (ok _) e w n present gone =
      parse_record-ne-absent b value (sym (ap (value_found b) (w.written e)) ∙ gone)
  kept s s' key value r (err valkey_nil) e w n present gone = n e
  kept s s' key value r (err (failed x)) e w n present gone = elim (w.in_doubt x e) [
    | inl same ↦ present (sym (ap (value_found b) same) ∙ gone)
    | inr new ↦ parse_record-ne-absent b value (sym (ap (value_found b) new) ∙ gone)
  ]

  found_state :
      (r : Result ValkeyError String) (s : S) (key : String) (found : Found)
      → v.get s key ≡ r
      → stated b r ≡ ok found
      → held_by b holds s key ≡ ok found
  found_state (ok val) s key found e h = ap (value_found b) (laws.get_value s key val e) ∙ h
  found_state (err valkey_nil) s key found e h = ap (value_found b) (laws.get_nil s key e) ∙ h
  found_state (err (failed x)) s key found e h = absurd (ground (arith, h))

  in_progress_parsed : parse_record b "IN_PROGRESS" ≡ ok in_progress
  unfolding parse_record
  in_progress_parsed = refl

  -- The store over Valkey keeps the contract of the port.
  pub valkey_store-IsIdempotencyStore : IsIdempotencyStore (valkey_store v b) (held_by b holds)
  unfolding valkey_store
  valkey_store-IsIdempotencyStore = record {
    acquire_other = λ s key ttl other ne.
        ap (λ (t : S). held_by b holds t other)
          (acquired_state (v.set_nx_ex s key "IN_PROGRESS" ttl))
        ∙ ap (value_found b) ((laws.set_nx_writes s key "IN_PROGRESS" ttl).others other ne);
    acquire_won = λ s key ttl won.
        let r = v.set_nx_ex s key "IN_PROGRESS" ttl in
        let new = acquired-true r won in
        (
          ap (value_found b) (laws.set_nx_new s key "IN_PROGRESS" ttl new),
          ap (λ (t : S). held_by b holds t key) (acquired_state r)
              ∙ ap (value_found b) ((laws.set_nx_writes s key "IN_PROGRESS" ttl).written new)
              ∙ in_progress_parsed,
        );
    acquire_lost = λ s key ttl lost.
        let r = v.set_nx_ex s key "IN_PROGRESS" ttl in
        let (old, before, after) =
          laws.set_nx_nil s key "IN_PROGRESS" ttl (acquired-false r lost) in
        (
          λ gone. parse_record-ne-absent b old (sym (ap (value_found b) before) ∙ gone),
          ap (λ (t : S). held_by b holds t key) (acquired_state r)
              ∙ ap (value_found b) (after ∙ sym before),
        );
    acquire_failed = λ s key ttl e broke.
        let r = v.set_nx_ex s key "IN_PROGRESS" ttl in
        let (x, same) = acquired_err r e broke in
        subst
          (λ (t : S).
            (held_by b holds t key ≡ held_by b holds s key)
            ⊎ (held_by b holds t key ≡ ok in_progress))
          (sym (acquired_state r))
          (in_doubt_found s r.1 key "IN_PROGRESS" r.0 x (ok in_progress)
            (laws.set_nx_writes s key "IN_PROGRESS" ttl) same in_progress_parsed);
    state_held = λ s key found. found_state (v.get s key) s key found refl;
    complete_other = λ s key code body ttl other ne.
        ap (λ (t : S). held_by b holds t other)
          (done_state (v.set_ex s key (record_value b code body) ttl))
        ∙ ap (value_found b)
            ((laws.set_writes s key (record_value b code body) ttl).others other ne);
    complete_kept = λ s key code body ttl present gone.
        let r = v.set_ex s key (record_value b code body) ttl in
        kept s r.1 key (record_value b code body) r.0 r.0 refl
          (laws.set_writes s key (record_value b code body) ttl)
          (laws.set_never_nil s key (record_value b code body) ttl) present
          (ap (λ (t : S). held_by b holds t key) (sym (done_state r)) ∙ gone);
    complete_ok = λ s key code body ttl fits won.
        let r = v.set_ex s key (record_value b code body) ttl in
        ap (λ (t : S). held_by b holds t key) (done_state r)
        ∙ ap (value_found b)
            ((laws.set_writes s key (record_value b code body) ttl).written (done_ok r won))
        ∙ parse_record-record_value b codec code body fits;
    complete_failed = λ s key code body ttl e fits broke.
        let r = v.set_ex s key (record_value b code body) ttl in
        let (x, same) =
          done_err r e (laws.set_never_nil s key (record_value b code body) ttl) broke in
        subst
          (λ (t : S).
            (held_by b holds t key ≡ held_by b holds s key)
            ⊎ (held_by b holds t key ≡ ok (completed code body)))
          (sym (done_state r))
          (in_doubt_found s r.1 key (record_value b code body) r.0 x (ok (completed code body))
            (laws.set_writes s key (record_value b code body) ttl) same
            (parse_record-record_value b codec code body fits));
  }
