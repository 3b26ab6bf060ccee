-- ===== src/Number/Free.antt =====
-- A printed number has digits and a sign only.
use Prim.Native.String.{[], ◌∷◌}
use keep_it_up.Prelude.{
  ℕ, zero, suc, ◌/◌, ◌%◌, ◌<◌, ℤ, pos, negsuc, true, String, ltb, ◌≡◌, refl, arith, Bool-cases, inl,
  inr,
}
use keep_it_up.Text.{every}
use keep_it_up.Text.Cut.{is_free}
use keep_it_up.Number.{digit, decimal, itoa}
use keep_it_up.Number.RoundTrip.{code-digit}

module _ (sep : ℕ) (above : b'9' < sep) where
  is_free-digit :
      (d : ℕ) (s : String) → d < 10 → is_free sep s ≡ true → is_free sep (digit d ∷ s) ≡ true
  unfolding is_free every
  is_free-digit d s h k = ground (arith, above, code-digit d h, k)

  is_free-decimal :
      (fuel n : ℕ) (rest : String)
      → is_free sep rest ≡ true
      → is_free sep (decimal fuel n rest) ≡ true
  unfolding decimal
  is_free-decimal zero n rest h = h
  is_free-decimal (suc fuel) n rest h = elim (Bool-cases (ltb n 10)) [
    | inl small ↦ rw small (is_free-digit n rest (ground arith) h)
    | inr large ↦ rw large (
        is_free-decimal fuel (n / 10) (digit (n % 10) ∷ rest)
          (is_free-digit (n % 10) rest (omega arith) h))
  ]

  is_free-minus : (s : String) → is_free sep s ≡ true → is_free sep ("-" ∷ s) ≡ true
  unfolding is_free every
  is_free-minus s h = ground (arith, above, h)

  pub is_free-itoa : (z : ℤ) → is_free sep (itoa z) ≡ true
  unfolding itoa is_free every
  is_free-itoa (pos n) = is_free-decimal (suc n) n [] refl
  is_free-itoa (negsuc n) =
      is_free-minus (decimal (suc (suc n)) (suc n) [])
        (is_free-decimal (suc (suc n)) (suc n) [] refl)
