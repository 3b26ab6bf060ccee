-- ===== src/Tests/Engine.antt =====
-- A small engine and codec that have the documented behaviour: a time is written as one letter for
-- each of its seconds, and texts compare by their lengths.
use Prim.Native.String.{[], ◌∷◌}
use keep_it_up.Prelude.{
  ℕ, zero, suc, ◌*◌, ◌/◌, ℤ, pos, negsuc, pos_part, ◌<ℤ◌, ltb, ltb_ℤ, if◌then◌else◌, true, false,
  none, some, List, String, ◌≡◌, refl, arith, All, All-map,
}
use keep_it_up.Time.{Time, second}
use keep_it_up.Text.{byte_len}
use keep_it_up.Stamp.{Codec, IsCodec, IsStorable, floor_second}
use keep_it_up.Db.{Sqlite, IsSqlite, DbError, raised, abort_text}

abbrev letters : ℕ → String
letters zero = []
letters (suc n) = "a" ∷ letters n

byte_len-letters : (n : ℕ) → byte_len (letters n) ≡ n
unfolding byte_len
byte_len-letters zero = refl
byte_len-letters (suc n) = ground (arith, byte_len-letters n)

abbrev largest : List ℤ → ℕ
largest List.[] = 0
largest (List.◌∷◌ i ids) = if ltb (largest ids) (pos_part i) then pos_part i else largest ids

abbrev error_text : DbError → String
error_text (raised a) = abort_text a
error_text _ = ""

abbrev pub engine : Sqlite
engine = record {
  foreign_keys = false;
  next_id = λ ids. pos (suc (largest ids));
  text_before = λ a b. ltb (byte_len a) (byte_len b);
  iso_check = λ s. true;
  error_text = error_text;
  fault = λ name. none;
}

next_id_above : (ids : List ℤ) → All (λ i. i <ℤ pos (suc (largest ids))) ids
next_id_above List.[] = tt
next_id_above (List.◌∷◌ i ids) = (
  ground arith,
  All-map (λ j. j <ℤ pos (suc (largest ids))) (λ j. j <ℤ pos (suc (largest (List.◌∷◌ i ids)))) ids
      (λ j h. ground arith) (next_id_above ids),
)

pub engine-IsSqlite : IsSqlite engine
engine-IsSqlite = record {
  next_id_pos = λ ids. ground arith;
  next_id_above = next_id_above;
  text_before_asym = λ a b h. ground arith;
  save_text = λ a. refl;
  pause_text = λ a. refl;
  resume_text = λ a. refl;
}

abbrev whole_seconds : Time → ℕ
whole_seconds (pos n) = n / second
whole_seconds (negsuc n) = 0

abbrev pub codec : Codec
codec = record {
  format = λ t. letters (whole_seconds t);
  parse = λ s. some (pos (byte_len s * second));
}

parse-format : (t : Time) → IsStorable t → codec.parse (codec.format t) ≡ some (floor_second t)
parse-format (pos n) h = ground (arith, byte_len-letters (n / second))
parse-format (negsuc n) h = absurd (ground arith)

before-format :
    (t u : Time)
    → IsStorable t
    → IsStorable u
    → engine.text_before (codec.format t) (codec.format u) ≡ ltb_ℤ (floor_second t) (floor_second u)
before-format (pos n) (pos m) h k =
    ground (arith, byte_len-letters (n / second), byte_len-letters (m / second))
before-format (pos n) (negsuc m) h k = absurd (ground arith)
before-format (negsuc n) u h k = absurd (ground arith)

pub codec-IsCodec : IsCodec engine codec
codec-IsCodec = record { parse-format = parse-format; before-format = before-format }
