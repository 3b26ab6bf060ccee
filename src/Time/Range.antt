-- ===== src/Time/Range.antt =====
-- When a number of seconds fits a Duration, and what is left of it when it does not.
use keep_it_up.Prelude.{ℕ, ◌+◌, ◌*◌, ◌≤◌, ◌<◌, ◌≡◌, arith, pos, ◌-ℤ◌, ◌≤ℤ◌, ◌<ℤ◌}
use keep_it_up.Time.{Time, second, seconds, sub, max_duration, min_duration}

-- The largest number of seconds that a Duration holds, some 292 years.
abbrev pub max_seconds : ℕ
max_seconds = 9_223_372_036

pub seconds-exact : (n : ℕ) → n ≤ max_seconds → seconds (pos n) ≡ pos (n * second)
unfolding seconds
seconds-exact n h = ground arith

-- From the next second on, and for as long again, the product wraps to a negative Duration.
pub seconds-negative :
    (n : ℕ) → max_seconds < n → n ≤ 2 * max_seconds + 1 → seconds (pos n) <ℤ pos 0
unfolding seconds
seconds-negative n lo hi = ground arith

pub sub-exact : (t u : Time) → t -ℤ u ≤ℤ max_duration → min_duration ≤ℤ t -ℤ u → sub t u ≡ t -ℤ u
unfolding sub
sub-exact t u hi lo = ground arith
