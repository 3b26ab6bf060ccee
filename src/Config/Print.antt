-- ===== src/Config/Print.antt =====
-- The lines of .env.example, which `LoadEnv` of internal/infrastructure/util/env.go reads, printed.
use Prim.Native.Char.{Char, code}
use Prim.Native.String.{[], ◌∷◌, ◌++◌}
use Prim.Native.String.append
use keep_it_up.Prelude.{
  ℕ, Bool, true, false, ◌&&◌, not, Option, none, some, List, String, ◌==◌, str_eq, if◌then◌else◌,
  ◌≡◌, refl, sym, ◌∙◌, ap, arith,
}
use keep_it_up.Text.{every, is_empty, is_space, trim_right}
use keep_it_up.Config.{Os, is_quote, trim_left_quotes, trim_right_quotes}

abbrev pub equals : Char
equals = "="

abbrev pub hash : Char
hash = "#"

abbrev quote : Char
quote = "\""

-- A line of the file: a variable with its value in quotes, a comment, or nothing.
pub data Line : Type 0 where
  assignment : String → String → Line
  comment : String → Line
  blank : Line

abbrev pub quoted : String → String
quoted value = quote ∷ (value ++ (quote ∷ []))

abbrev pub print_line : Line → String
print_line (assignment name value) = name ++ (equals ∷ quoted value)
print_line (comment text) = hash ∷ text
print_line blank = ""

abbrev pub is_name_char : ℕ → Bool
is_name_char r = not (is_space r) && not (r == b'=')

abbrev pub starts_name : String → Bool
starts_name [] = false
starts_name (c ∷ s) = not (code c == b'#')

abbrev starts_plain : String → Bool
starts_plain [] = true
starts_plain (c ∷ s) = not (is_quote (code c))

-- A name without white space and `=` that does not begin a comment, and a value without quotes at
-- its ends, which the environment accepts.
abbrev pub IsPrintable : Os → Line → Type 0
IsPrintable o (assignment name value) =
    (every is_name_char name ≡ true)
    × (starts_name name ≡ true)
    × (starts_plain value ≡ true)
    × (trim_right_quotes value ≡ value)
    × (o.setenv_accepts name value ≡ true)
IsPrintable o (comment text) = Unit
IsPrintable o blank = Unit

-- What the last assignment to a name gives it.
abbrev pub given : Option String → String → String → String → Option String
given (some later) name' value name = some later
given none name' value name = if str_eq name name' then some value else none

abbrev pub last_value : String → List Line → Option String
last_value name List.[] = none
last_value name (List.◌∷◌ (assignment name' value) lines) =
    given (last_value name lines) name' value name
last_value name (List.◌∷◌ (comment text) lines) = last_value name lines
last_value name (List.◌∷◌ blank lines) = last_value name lines

abbrev pub or_else : Option String → String → String
or_else none default = default
or_else (some value) default = value

nonempty-append : (s t : String) → is_empty t ≡ false → is_empty (s ++ t) ≡ false
nonempty-append [] t h = ap is_empty (append.nil t) ∙ h
nonempty-append (x ∷ s) t h = ap is_empty (append.cons x s t)

-- A text that ends in no white space.
abbrev IsEnded : String → Type 0
IsEnded s = (trim_right s ≡ s) × (is_empty s ≡ false)

pub IsEnded-cons : (c : Char) (s : String) → IsEnded s → IsEnded (c ∷ s)
unfolding trim_right
IsEnded-cons c s (same, full) = (rw (same, full) refl, refl)

pub IsEnded-append : (s t : String) → IsEnded t → IsEnded (s ++ t)
IsEnded-append [] t h = rw (append.nil t) h
IsEnded-append (x ∷ s) t h = rw (append.cons x s t) (IsEnded-cons x (s ++ t) (IsEnded-append s t h))

pub quoted-IsEnded : (value : String) → IsEnded (quoted value)
unfolding trim_right
quoted-IsEnded value =
    IsEnded-cons quote (value ++ (quote ∷ [])) (IsEnded-append value (quote ∷ []) (refl, refl))

trim_right_quotes-append :
    (s : String) → trim_right_quotes (s ++ (quote ∷ [])) ≡ trim_right_quotes s
unfolding trim_right_quotes
trim_right_quotes-append [] = refl
trim_right_quotes-append (x ∷ s) =
    ap trim_right_quotes (append.cons x s (quote ∷ [])) ∙ rw (trim_right_quotes-append s) refl

both : (x y : Bool) → (x && y) ≡ true → (x ≡ true) × (y ≡ true)
both x y h = ground (arith, h)

pub is_not : (x : Bool) → not x ≡ true → x ≡ false
is_not x h = ground (arith, h)

-- A quoted value without its quotes.
pub trim_quotes-quoted :
    (value : String)
    → starts_plain value ≡ true
    → trim_right_quotes value ≡ value
    → trim_right_quotes (trim_left_quotes (quoted value)) ≡ value
unfolding trim_left_quotes trim_right_quotes
trim_quotes-quoted [] left right = refl
trim_quotes-quoted (x ∷ s) plain right =
    ap (λ (t : String). trim_right_quotes (trim_left_quotes t)) (append.cons x s (quote ∷ []))
    ∙ rw (is_not (is_quote (code x)) plain) (
        ap trim_right_quotes (sym (append.cons x s (quote ∷ [])))
        ∙ trim_right_quotes-append (x ∷ s)
        ∙ right)

pub never_both : (b : Bool) (x y : String) → (if b && false then x else y) ≡ y
never_both b x y = ground arith

pub name_parts :
    (c : Char) (s : String)
    → every is_name_char (c ∷ s) ≡ true
    → (is_space (code c) ≡ false) × ((code c == b'=') ≡ false) × (every is_name_char s ≡ true)
unfolding every
name_parts c s h =
    let (here, later) = both (is_name_char (code c)) (every is_name_char s) h in
    let (dark, other) = both (not (is_space (code c))) (not (code c == b'=')) here in
    (is_not _ dark, is_not _ other, later)
