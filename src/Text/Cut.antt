-- ===== src/Text/Cut.antt =====
-- `strings.SplitN` with a separator of one character, one part at a time.
use Prim.Native.Char.{Char, code}
use Prim.Native.String.{[], ◌∷◌, ◌++◌}
use Prim.Native.String.append
use mathlib.Core.Bool.{true≢false}
use mathlib.Core.Option.{some-injective}
use keep_it_up.Prelude.{
  ℕ, Bool, true, ◌&&◌, not, Option, none, some, String, ◌==◌, if◌then◌else◌, ◌≡◌, sym, ◌∙◌, ap,
  arith, Bool-cases, inl, inr,
}
use keep_it_up.Text.{every}

-- What stands before the first separator, and what stands after it.
unfoldable pub cut : ℕ → String → String × Option String
cut sep [] = ([], none)
cut sep (c ∷ s) =
    let (before, after) = cut sep s in if code c == sep then ([], some s) else (c ∷ before, after)

-- The text has no separator.
unfoldable pub is_free : ℕ → String → Bool
unfolding every
is_free sep s = every (λ r. not (r == sep)) s

free_parts : (x y : Bool) → (x && y) ≡ true → (x ≡ true) × (y ≡ true)
free_parts x y h = ground (arith, h)

pub cut-append :
    (sep : ℕ) (a : String) (c : Char) (b : String)
    → is_free sep a ≡ true
    → code c ≡ sep
    → cut sep (a ++ (c ∷ b)) ≡ (a, some b)
unfolding cut is_free every
cut-append sep [] c b h e = rw (append.nil (c ∷ b)) (ground (arith, e))
cut-append sep (x ∷ a) c b h e =
    let (here, later) = free_parts (not (code x == sep)) (every (λ r. not (r == sep)) a) h in
    rw (append.cons x a (c ∷ b)) (elim (Bool-cases (code x == sep)) [
      | inl is_sep ↦ absurd (true≢false (sym here ∙ ap not is_sep))
      | inr other ↦ rw other (
          ap (λ (q : String × Option String). let r : String × Option String = (x ∷ q.0, q.1) in r)
            (cut-append sep a c b later e))
    ])

-- Two texts that are equal have equal parts.
pub cut_unique :
    (sep : ℕ) (a a' : String) (c : Char) (b b' : String)
    → is_free sep a ≡ true
    → is_free sep a' ≡ true
    → code c ≡ sep
    → a ++ (c ∷ b) ≡ a' ++ (c ∷ b')
    → (a ≡ a') × (b ≡ b')
cut_unique sep a a' c b b' h h' e same =
    let both = sym (cut-append sep a c b h e) ∙ ap (cut sep) same ∙ cut-append sep a' c b' h' e in
    (
      ap (λ (x : String × Option String). x.0) both,
      some-injective b b' (ap (λ (x : String × Option String). x.1) both),
    )
