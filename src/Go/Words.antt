-- ===== src/Go/Words.antt =====
-- int64 and uint64: an int64 is the integer it stands for, a uint64 a native number below 2 ^ 64.
-- Package math/bits: Mul64, Add64 and Sub64.
use phala_inference_guard.Base.{ℕ, ◌+◌, ◌-◌, ◌*◌, ◌/◌, ◌%◌, ◌^◌, ltb, if◌then◌else◌}

abbrev pub max_int64 : ℕ
max_int64 = 2 ^ 63 - 1

abbrev pub word : ℕ
word = 2 ^ 64

abbrev pub max_uint64 : ℕ
max_uint64 = 2 ^ 64 - 1

-- The high and low words of a product.
abbrev pub mul64 : ℕ → ℕ → ℕ × ℕ
mul64 a b = (a * b / word, a * b % word)

-- The sum and the carry out.
abbrev pub add64 : ℕ → ℕ → ℕ → ℕ × ℕ
add64 a b carry = ((a + b + carry) % word, (a + b + carry) / word)

-- The difference and the borrow out.
abbrev pub sub64 : ℕ → ℕ → ℕ → ℕ × ℕ
sub64 a b borrow = ((a + word - b - borrow) % word, if ltb a (b + borrow) then 1 else 0)
