-- ===== src/Text.antt =====
-- Texts as the code uses them: Go's `len`, `strings.TrimSpace` and `range` over a string,
-- internal/infrastructure/util/util.go and `IsPasswordValid` of
-- internal/core/service/authentication.go.
--
-- A string is its list of characters; one that is not valid UTF-8 has no counterpart.
pub mod Trim
pub mod Cut
use Prim.Native.Char.{Char, code}
use Prim.Native.String.{[], ◌∷◌}
use keep_it_up.Prelude.{
  ℕ, ◌+◌, Bool, true, false, ◌&&◌, ◌||◌, not, String, ltb, leb, ◌==◌, if◌then◌else◌, Result, ok,
  err,
}

-- The bytes of a character in UTF-8.
abbrev pub rune_len : ℕ → ℕ
rune_len c = if ltb c 128 then 1 else if ltb c 2048 then 2 else if ltb c 65536 then 3 else 4

-- `len(s)`
unfoldable pub byte_len : String → ℕ
byte_len [] = 0
byte_len (c ∷ s) = rune_len (code c) + byte_len s

-- `unicode.IsSpace`
abbrev pub is_space : ℕ → Bool
is_space c =
    (leb 9 c && leb c 13)
    || c == 32
    || c == 0x85
    || c == 0xa0
    || c == 0x1680
    || (leb 0x2000 c && leb c 0x200a)
    || c == 0x2028
    || c == 0x2029
    || c == 0x202f
    || c == 0x205f
    || c == 0x3000

abbrev pub is_empty : String → Bool
is_empty [] = true
is_empty (c ∷ s) = false

-- `strings.TrimLeftFunc(s, unicode.IsSpace)`
unfoldable pub trim_left : String → String
trim_left [] = []
trim_left (c ∷ s) = if is_space (code c) then trim_left s else c ∷ s

-- `strings.TrimRightFunc(s, unicode.IsSpace)`
unfoldable pub trim_right : String → String
trim_right [] = []
trim_right (c ∷ s) =
    let rest = trim_right s in if is_empty rest && is_space (code c) then [] else c ∷ rest

-- `strings.TrimSpace`
unfoldable pub trim_space : String → String
unfolding trim_left trim_right
trim_space s = trim_right (trim_left s)

-- A loop that returns at the first character which fails a test.
unfoldable pub every : (ℕ → Bool) → String → Bool
every p [] = true
every p (c ∷ s) = p (code c) && every p s

-- `IsAlphanumeric`, over `unicode.IsLetter` and `unicode.IsDigit`, whose tables are parameters.
unfoldable pub is_alphanumeric : (ℕ → Bool) → (ℕ → Bool) → String → Bool
unfolding byte_len every
is_alphanumeric is_letter is_digit s =
    if byte_len s == 0 then false else every (λ r. is_letter r || is_digit r) s

pub data PasswordError : Type 0 where
  not_letters_and_digits too_short : PasswordError

-- The characters that a password may have.
abbrev pub is_password_rune : ℕ → Bool
is_password_rune r =
    (leb b'A' r && leb r b'Z') || (leb b'a' r && leb r b'z') || (leb b'0' r && leb r b'9')

-- `IsPasswordValid`
unfoldable pub is_password_valid : String → Result PasswordError Unit
unfolding every byte_len
is_password_valid password =
    if not (every is_password_rune password)
    then err not_letters_and_digits
    else if ltb (byte_len password) 6
    then err too_short
    else ok tt
