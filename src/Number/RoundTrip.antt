-- ===== src/Number/RoundTrip.antt =====
-- Printed numbers are read back.
use Prim.Native.Char.{code}
use Prim.Native.String.{[], ◌∷◌}
use keep_it_up.Prelude.{
  ℕ, zero, suc, ◌+◌, ◌-◌, ◌*◌, ◌/◌, ◌%◌, ◌≤◌, ◌<◌, ℤ, pos, negsuc, some, String, ltb, ◌≡◌, refl,
  sym, ◌∙◌, ap, arith, Bool-cases, inl, inr,
}
use keep_it_up.Number.{
  digits, unsigned, max_int64, positive_int, negative_int, parse_int, digit, decimal, itoa,
}

pub code-digit : (d : ℕ) → d < 10 → code (digit d) ≡ d + b'0'
code-digit zero h = refl
code-digit (suc zero) h = refl
code-digit (suc (suc zero)) h = refl
code-digit (suc (suc (suc zero))) h = refl
code-digit (suc (suc (suc (suc zero)))) h = refl
code-digit (suc (suc (suc (suc (suc zero))))) h = refl
code-digit (suc (suc (suc (suc (suc (suc zero)))))) h = refl
code-digit (suc (suc (suc (suc (suc (suc (suc zero))))))) h = refl
code-digit (suc (suc (suc (suc (suc (suc (suc (suc zero)))))))) h = refl
code-digit (suc (suc (suc (suc (suc (suc (suc (suc (suc zero))))))))) h = refl
code-digit (suc (suc (suc (suc (suc (suc (suc (suc (suc (suc d)))))))))) h = absurd (omega arith)

digit_value : (d : ℕ) → d < 10 → code (digit d) - b'0' ≡ d
digit_value d h = omega (arith, code-digit d h)

digits-digit : (n d : ℕ) (s : String) → d < 10 → digits n (digit d ∷ s) ≡ digits (n * 10 + d) s
unfolding digits
digits-digit n d s h =
    ground (arith, code-digit d h, ap (λ (k : ℕ). digits (n * 10 + k) s) (digit_value d h))

pub digits-decimal :
    (fuel n : ℕ) (rest : String) → n < fuel → digits 0 (decimal fuel n rest) ≡ digits n rest
unfolding decimal
digits-decimal zero n rest h = absurd (omega arith)
digits-decimal (suc fuel) n rest h = elim (Bool-cases (ltb n 10)) [
  | inl e ↦
      rw e (digits-digit 0 n rest (ground arith) ∙ ap (λ (k : ℕ). digits k rest) (omega arith))
  | inr e ↦ rw e (
      digits-decimal fuel (n / 10) (digit (n % 10) ∷ rest) (ground arith)
      ∙ digits-digit (n / 10) (n % 10) rest (omega arith)
      ∙ ap (λ (k : ℕ). digits k rest) (omega arith))
]

-- The first character is a digit.
pub decimal-cons :
    (fuel n : ℕ) (rest : String)
    → n < fuel
    → (d : ℕ) × (s : String) × (d < 10) × (decimal fuel n rest ≡ digit d ∷ s)
unfolding decimal
decimal-cons zero n rest h = absurd (omega arith)
decimal-cons (suc fuel) n rest h = elim (Bool-cases (ltb n 10)) [
  | inl e ↦ (n, rest, ground arith, rw e refl)
  | inr e ↦
      let (d, s, lt, shape) = decimal-cons fuel (n / 10) (digit (n % 10) ∷ rest) (ground arith) in
      (d, s, lt, rw e shape)
]

abbrev pub FitsInt64 : ℤ → Type 0
FitsInt64 (pos n) = n ≤ max_int64
FitsInt64 (negsuc n) = n ≤ max_int64

unsigned-decimal : (fuel n : ℕ) → n < fuel → unsigned (decimal fuel n []) ≡ some n
unfolding digits
unsigned-decimal fuel n h =
    let (d, s, lt, shape) = decimal-cons fuel n [] h in
    ap unsigned shape ∙ sym (ap (digits 0) shape) ∙ digits-decimal fuel n [] h

parse_int-digit :
    (d : ℕ) (s : String) → d < 10 → parse_int (digit d ∷ s) ≡ positive_int (unsigned (digit d ∷ s))
unfolding parse_int
parse_int-digit d s h = ground (arith, code-digit d h)

parse_int_minus : (s : String) → parse_int ("-" ∷ s) ≡ negative_int (unsigned s)
unfolding parse_int
parse_int_minus s = refl

-- A number that fits an int64 is read back from its digits.
pub parse_int-itoa : (z : ℤ) → FitsInt64 z → parse_int (itoa z) ≡ some z
unfolding itoa
parse_int-itoa (pos n) h =
    let (d, s, lt, shape) = decimal-cons (suc n) n [] (omega arith) in
    ap parse_int shape
    ∙ parse_int-digit d s lt
    ∙ ap positive_int (ap unsigned (sym shape) ∙ unsigned-decimal (suc n) n (omega arith))
    ∙ ground arith
parse_int-itoa (negsuc n) h =
    parse_int_minus (decimal (suc (suc n)) (suc n) [])
    ∙ ap negative_int (unsigned-decimal (suc (suc n)) (suc n) (omega arith))
    ∙ ground arith
