-- ===== src/Time.antt =====
-- What the code uses of Go's `time` package and of int64 arithmetic (core/service/shared_data.go).
--
-- A `time.Time` is its instant, in nanoseconds since the zero time (January 1, year 1, UTC), so
-- `IsZero` is a comparison with 0. Its location only matters to `Format`, which is a parameter
-- (`Stamp.Codec`). A `time.Duration` is an int64 number of nanoseconds.
pub mod Range
use keep_it_up.Prelude.{
  ℕ, suc, ◌-◌, ◌*◌, ◌%◌, ◌^◌, Bool, ltb, if◌then◌else◌, ℤ, pos, negsuc, ◌+ℤ◌, ◌-ℤ◌, ltb_ℤ, ◌==ℤ◌,
}

abbrev pub Time : Type 0
Time = ℤ

abbrev pub Duration : Type 0
Duration = ℤ

-- `var t time.Time`
abbrev pub zero_time : Time
zero_time = pos 0

abbrev pub is_zero : Time → Bool
is_zero t = t ==ℤ pos 0

-- `t.Before(u)`
abbrev pub before : Time → Time → Bool
before t u = ltb_ℤ t u

-- `t.After(u)`
abbrev pub after : Time → Time → Bool
after t u = ltb_ℤ u t

-- `time.Second`, in nanoseconds
abbrev pub second : ℕ
second = 1_000_000_000

-- The int64 that a 64-bit pattern stands for, in two's complement.
abbrev pub signed64 : ℕ → ℤ
signed64 w = if ltb w (2 ^ 63) then pos w else negsuc (2 ^ 64 - w - 1)

-- An int64 result wraps around.
unfoldable pub wrap64 : ℤ → ℤ
wrap64 (pos n) = signed64 (n % 2 ^ 64)
wrap64 (negsuc n) = signed64 (2 ^ 64 - 1 - n % 2 ^ 64)

-- `n * 10^9` over the integers
abbrev pub scale : ℤ → ℤ
scale (pos n) = pos (n * second)
scale (negsuc n) = negsuc (suc n * second - 1)

-- `time.Duration(s) * time.Second`
unfoldable pub seconds : ℤ → Duration
unfolding wrap64
seconds s = wrap64 (scale s)

abbrev pub max_duration : Duration
max_duration = pos (2 ^ 63 - 1)

abbrev pub min_duration : Duration
min_duration = negsuc (2 ^ 63 - 1)

-- `t.Add(d)`
abbrev pub add : Time → Duration → Time
add t d = t +ℤ d

-- `t.Sub(u)`: the difference, or the nearest Duration if it does not fit one
unfoldable pub sub : Time → Time → Duration
sub t u =
    let d = t -ℤ u in
    if ltb_ℤ max_duration d then max_duration else if ltb_ℤ d min_duration then min_duration else d
