-- ===== src/Text/Trim.antt =====
-- `strings.TrimSpace`, which the use cases apply to names and passwords.
use Prim.Native.Char.{code}
use Prim.Native.String.{[], ◌∷◌}
use keep_it_up.Prelude.{false, ◌&&◌, String, ◌≡◌, refl, ◌∙◌, ap, Bool-cases, inl, inr}
use keep_it_up.Text.{is_space, is_empty, trim_left, trim_right, trim_space}

-- No white space first; none last.
abbrev pub StartsDark : String → Type 0
StartsDark [] = Unit
StartsDark (c ∷ s) = is_space (code c) ≡ false

trim_left-StartsDark : (s : String) → StartsDark (trim_left s)
unfolding trim_left
trim_left-StartsDark [] = tt
trim_left-StartsDark (c ∷ s) = elim (Bool-cases (is_space (code c))) [
  | inl w ↦ rw w (trim_left-StartsDark s)
  | inr d ↦ rw d d
]

trim_left_of_StartsDark : (s : String) → StartsDark s → trim_left s ≡ s
unfolding trim_left
trim_left_of_StartsDark [] h = refl
trim_left_of_StartsDark (c ∷ s) h = rw h

trim_right-StartsDark : (s : String) → StartsDark s → StartsDark (trim_right s)
unfolding trim_right
trim_right-StartsDark [] h = tt
trim_right-StartsDark (c ∷ s) h = elim (Bool-cases (is_empty (trim_right s))) [
  | inl e ↦ rw (e, h) h
  | inr e ↦ rw e h
]

trim_right-trim_right : (s : String) → trim_right (trim_right s) ≡ trim_right s
unfolding trim_right
trim_right-trim_right [] = refl
trim_right-trim_right (c ∷ s) = elim (Bool-cases (is_empty (trim_right s) && is_space (code c))) [
  | inl t ↦ rw t
  | inr t ↦ rw t (rw (trim_right-trim_right s) (rw t))
]

-- A trimmed text is not trimmed further.
pub trim_space_idem : (s : String) → trim_space (trim_space s) ≡ trim_space s
unfolding trim_space
trim_space_idem s =
    ap trim_right (
      trim_left_of_StartsDark (trim_right (trim_left s))
        (trim_right-StartsDark (trim_left s) (trim_left-StartsDark s)))
    ∙ trim_right-trim_right (trim_left s)
