-- ===== src/Idempotency/Valkey/Records.antt =====
-- internal/infrastructure/driven/valkey_idempotency_store.go: the value that is stored for a
-- response.
use Prim.Native.String.{[], ◌∷◌, ◌++◌}
use Prim.Native.String.append
use mathlib.Core.Option.{some-ne-none}
use keep_it_up.Prelude.{
  ℤ, false, Option, some, String, str_eq, eq_iff, ok, ◌≡◌, refl, sym, ◌∙◌, ap, arith, Bool-cases,
  inl, inr,
}
use keep_it_up.Number.{itoa}
use keep_it_up.Number.RoundTrip.{FitsInt64, parse_int-itoa}
use keep_it_up.Number.Free.{is_free-itoa}
use keep_it_up.Text.{every}
use keep_it_up.Text.Cut.{cut, is_free, cut-append}
use keep_it_up.Idempotency.{completed}
use keep_it_up.Idempotency.Valkey.{
  Base64, parts, after_status, completed_code, completed_body, parse_record, record_value,
}

-- What is encoded is decoded.
pub record IsBase64 (b : Base64) : Type 0 where
  pub decode-encode : (s : String) → b.decode_string (b.encode_to_string s) ≡ some s

bar-append : (s : String) → "|" ++ s ≡ "|" ∷ s
bar-append s = append.cons "|" [] s ∙ ap (λ (t : String). "|" ∷ t) (append.nil s)

module _ (b : Base64) (laws : IsBase64 b) where
  cut-record :
      (code : ℤ) (body : String)
      → cut b'|' (record_value b code body)
        ≡ ("COMPLETED", some (itoa code ++ ("|" ∷ b.encode_to_string body)))
  unfolding record_value is_free every
  cut-record code body =
      rw
        (
          bar-append (b.encode_to_string body),
          bar-append (itoa code ++ ("|" ∷ b.encode_to_string body)),
        )
        (cut-append b'|' "COMPLETED" "|" (itoa code ++ ("|" ∷ b.encode_to_string body)) refl refl)

  other : (code : ℤ) (body : String) → str_eq (record_value b code body) "IN_PROGRESS" ≡ false
  unfolding cut
  other code body = elim (Bool-cases (str_eq (record_value b code body) "IN_PROGRESS")) [
    | inr e ↦ e
    | inl e ↦ absurd (
        some-ne-none _ (
          ap (λ (q : String × Option String). q.1)
            (sym (cut-record code body)
              ∙ ap (cut b'|') ((eq_iff (record_value b code body) "IN_PROGRESS").0 e))))
  ]

  -- The record of a response is parsed as that response, if the status fits in an int.
  pub parse_record-record_value :
      (code : ℤ) (body : String)
      → FitsInt64 code
      → parse_record b (record_value b code body) ≡ ok (completed code body)
  unfolding parse_record
  parse_record-record_value code body h =
      let val : String = record_value b code body in
      let enc : String = b.encode_to_string body in
      rw (other code body) (
        ap (parts b val) (cut-record code body)
        ∙ ap (after_status b val)
            (cut-append b'|' (itoa code) "|" enc (is_free-itoa b'|' (ground arith) code) refl)
        ∙ ap (completed_code b (itoa code) enc) (parse_int-itoa code h)
        ∙ ap (completed_body b code enc) (laws.decode-encode body))
