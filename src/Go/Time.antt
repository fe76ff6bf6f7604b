-- ===== src/Go/Time.antt =====
-- Package time: an instant is the number of nanoseconds since the zero Time, which is the instant 0
-- and the only one with IsZero; earlier instants are not represented. A Duration is a signed number
-- of nanoseconds in 64 bits.
use phala_inference_guard.Base.{
  ℕ, ◌+◌, ◌*◌, ◌/◌, sub_ℕ, ◌-◌, Bool, ℤ, pos, negsuc, pos_part, neg_part, ltb, leb, ◌==◌,
  if◌then◌else◌,
}
use phala_inference_guard.Go.Words.{max_int64}

abbrev pub Time : Type 0
Time = ℕ

abbrev pub Duration : Type 0
Duration = ℤ

abbrev pub second : ℕ
second = 1_000_000_000

abbrev pub millisecond : ℕ
millisecond = 1_000_000

abbrev pub is_zero : Time → Bool
is_zero t = t == 0

abbrev pub before : Time → Time → Bool
before a b = ltb a b

-- `a.Sub(b)`: the difference, held to the range of a Duration.
abbrev pub sub_time : Time → Time → Duration
sub_time a b =
    if leb b a
    then pos (if leb (a - b) max_int64 then a - b else max_int64)
    else negsuc (if leb (b - a - 1) max_int64 then b - a - 1 else max_int64)

-- `t.Add(d)`.
abbrev pub add_time : Time → Duration → Time
add_time t d = t + pos_part d - neg_part d

-- The seconds from the zero Time to the Unix epoch.
abbrev pub unix_epoch : ℕ
unix_epoch = 62_135_596_800

-- `t.Unix()`.
abbrev pub unix : Time → ℤ
unix t = sub_ℕ (t / second) unix_epoch

-- `time.Unix(s, 0)`.
abbrev pub of_unix : ℤ → Time
of_unix s = (unix_epoch + pos_part s - neg_part s) * second
