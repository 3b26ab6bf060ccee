-- ===== src/Stamp.antt =====
-- Times as the database stores them: `t.Format(time.RFC3339)` and `time.Parse(time.RFC3339, s)`.
--
-- The two belong to Go's `time` package and depend on the server's time zone: they are the record
-- `Codec`, with what the code relies on in `IsCodec`. RFC 3339 keeps the seconds of a time.
use keep_it_up.Prelude.{
  ◌+◌, ◌*◌, ◌/◌, ◌-◌, Option, some, String, ◌≡◌, pos, negsuc, ◌≤ℤ◌, ◌<ℤ◌, ltb_ℤ,
}
use keep_it_up.Time.{Time, second}
use keep_it_up.Db.{Sqlite}

pub record Codec : Type 0 where
  pub format : Time → String
  pub parse : String → Option Time

-- A time without its fraction of a second.
abbrev pub floor_second : Time → Time
floor_second (pos n) = pos (n / second * second)
floor_second (negsuc n) = negsuc (n / second * second + (second - 1))

-- From the zero time up to the year 10000, which RFC 3339 cannot write.
abbrev pub IsStorable : Time → Type 0
IsStorable t = (pos 0 ≤ℤ t) × (t <ℤ pos (315_537_897_600 * second))

-- `Parse` reads back what `Format` wrote. The texts compare as the times do, which holds where the
-- server writes all of them with one offset from UTC.
pub record IsCodec (q : Sqlite) (c : Codec) : Type 0 where
  pub parse-format : (t : Time) → IsStorable t → c.parse (c.format t) ≡ some (floor_second t)
  pub before-format :
      (t u : Time)
      → IsStorable t
      → IsStorable u
      → q.text_before (c.format t) (c.format u) ≡ ltb_ℤ (floor_second t) (floor_second u)
