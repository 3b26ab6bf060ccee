-- ===== src/Number.antt =====
-- Decimal numbers in texts, as the code uses them: `strconv.ParseInt(s, 10, 64)` and `strconv.Atoi`,
-- `strconv.Itoa` and `%d`. Which error a text is refused with is left out.
pub mod RoundTrip
pub mod Free
use Prim.Native.Char.{Char, code}
use Prim.Native.String.{[], ◌∷◌}
use keep_it_up.Prelude.{
  ℕ, zero, suc, ◌+◌, ◌-◌, ◌*◌, ◌/◌, ◌%◌, ◌^◌, ℤ, pos, negsuc, Bool, ◌&&◌, Option, none, some,
  String, ltb, leb, ◌==◌, if◌then◌else◌,
}

-- The digits of `s`, behind digits whose value is `n`.
unfoldable pub digits : ℕ → String → Option ℕ
digits n [] = some n
digits n (c ∷ s) =
    let rest = digits (n * 10 + (code c - b'0')) s in
    if leb b'0' (code c) && leb (code c) b'9' then rest else none

abbrev pub unsigned : String → Option ℕ
unsigned [] = none
unsigned (c ∷ s) = digits 0 (c ∷ s)

abbrev pub max_int64 : ℕ
max_int64 = 2 ^ 63 - 1

abbrev pub positive_int : Option ℕ → Option ℤ
positive_int none = none
positive_int (some n) = if ltb max_int64 n then none else some (pos n)

abbrev pub negative_int : Option ℕ → Option ℤ
negative_int none = none
negative_int (some zero) = some (pos 0)
negative_int (some (suc n)) = if ltb max_int64 n then none else some (negsuc n)

unfoldable pub parse_int : String → Option ℤ
unfolding digits
parse_int [] = none
parse_int (c ∷ s) =
    if code c == b'-'
    then negative_int (unsigned s)
    else if code c == b'+'
    then positive_int (unsigned s)
    else positive_int (unsigned (c ∷ s))

abbrev pub digit : ℕ → Char
digit d =
    if d == 0
    then "0"
    else if d == 1
    then "1"
    else if d == 2
    then "2"
    else if d == 3
    then "3"
    else if d == 4
    then "4"
    else if d == 5
    then "5"
    else if d == 6
    then "6"
    else if d == 7
    then "7"
    else if d == 8
    then "8"
    else "9"

-- The digits of `n` in front of `rest`. The fuel is more than `n`.
unfoldable pub decimal : ℕ → ℕ → String → String
decimal zero n rest = rest
decimal (suc fuel) n rest =
    let more = decimal fuel (n / 10) (digit (n % 10) ∷ rest) in
    if ltb n 10 then digit n ∷ rest else more

unfoldable pub itoa : ℤ → String
unfolding decimal
itoa (pos n) = decimal (suc n) n []
itoa (negsuc n) = "-" ∷ decimal (suc (suc n)) (suc n) []
