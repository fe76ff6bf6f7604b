-- ===== src/Admission/Exposure/Wide.antt =====
-- 128-bit sequence time: the two-word arithmetic of sequence_exposure.go is that of the naturals.
use phala_inference_guard.Base.{
  ℕ, ◌+◌, ◌*◌, ◌≤◌, ◌<◌, ◌≡◌, true, Option, none, some, arith, pos, leb_ℤ,
}
use phala_inference_guard.Go.Words.{word}
use phala_inference_guard.Admission.Exposure.{
  SequenceNanoseconds, add_duration, subtract, compare_nanoseconds,
}

-- The number that two words stand for.
abbrev pub nanoseconds : SequenceNanoseconds → ℕ
nanoseconds n = n.high * word + n.low

pub record IsWide (n : SequenceNanoseconds) : Type 0 where
  pub high_lt : n.high < word
  pub low_lt : n.low < word

-- What an addition of `k` to `n` may give.
abbrev pub Adds : SequenceNanoseconds → ℕ → Option SequenceNanoseconds → Type 0
Adds n k none = word * word ≤ nanoseconds n + k
Adds n k (some m) = (nanoseconds m ≡ nanoseconds n + k) × IsWide m

abbrev pub Takes : SequenceNanoseconds → SequenceNanoseconds → Option SequenceNanoseconds → Type 0
Takes n p none = nanoseconds n < nanoseconds p
Takes n p (some m) = (nanoseconds m + nanoseconds p ≡ nanoseconds n) × IsWide m

product-lt : (d s : ℕ) → d < word → s < word → d * s < word * word
product-lt d s hd hs = grind arith

-- Adding a duration for some sequences is exact, and fails only above 2 ^ 128.
pub add_duration-Adds :
    (n : SequenceNanoseconds) (d s : ℕ)
    → IsWide n
    → d < word
    → s < word
    → Adds n (d * s) (add_duration n (pos d) (pos s))
unfolding add_duration
add_duration-Adds n d s w hd hs = ground (arith, product-lt d s hd hs)

pub subtract-Takes : (n p : SequenceNanoseconds) → IsWide n → IsWide p → Takes n p (subtract n p)
unfolding subtract
subtract-Takes n p hn hp = ground arith

pub compare_nanoseconds-le :
    (n m : SequenceNanoseconds)
    → IsWide n
    → IsWide m
    → nanoseconds n ≤ nanoseconds m
    → leb_ℤ (compare_nanoseconds n m) (pos 0) ≡ true
unfolding compare_nanoseconds
compare_nanoseconds-le n m hn hm h = ground arith

pub le-compare_nanoseconds :
    (n m : SequenceNanoseconds)
    → IsWide n
    → IsWide m
    → leb_ℤ (compare_nanoseconds n m) (pos 0) ≡ true
    → nanoseconds n ≤ nanoseconds m
unfolding compare_nanoseconds
le-compare_nanoseconds n m hn hm h = ground arith
