-- ===== src/Admission/Numeric.antt =====
-- internal/admission/numeric.go: addition of int64 values that refuses negatives and overflow.
use phala_inference_guard.Base.{
  ℕ, ◌+◌, ◌≤◌, ◌<◌, ◌≡◌, ◌||◌, Option, none, some, arith, ℤ, pos, negsuc, ltb_ℤ, ◌-ℤ◌, ◌+ℤ◌,
  if◌then◌else◌,
}
use phala_inference_guard.Go.Words.{max_int64}

-- `none` is the false flag.
unfoldable pub add_nonnegative_int64 : ℤ → ℤ → Option ℤ
add_nonnegative_int64 left right =
    if ltb_ℤ left (pos 0) || (ltb_ℤ right (pos 0) || ltb_ℤ (pos max_int64 -ℤ right) left)
    then none
    else some (left +ℤ right)

pub add_fits :
    (a b : ℕ) → a + b ≤ max_int64 → add_nonnegative_int64 (pos a) (pos b) ≡ some (pos (a + b))
unfolding add_nonnegative_int64
add_fits a b h = ground arith

pub add_overflows : (a b : ℕ) → max_int64 < a + b → add_nonnegative_int64 (pos a) (pos b) ≡ none
unfolding add_nonnegative_int64
add_overflows a b h = ground arith

-- A sum that is given is the exact sum of two naturals.
pub add_some :
    (a b c : ℤ)
    → add_nonnegative_int64 a b ≡ some c
    → (m n : ℕ) × (a ≡ pos m) × (b ≡ pos n) × (c ≡ pos (m + n)) × (m + n ≤ max_int64)
unfolding add_nonnegative_int64
add_some (pos a) (pos b) c h = (a, b, ground arith, ground arith, ground arith, ground arith)
add_some (pos a) (negsuc b) c h = absurd (ground arith)
add_some (negsuc a) (pos b) c h = absurd (ground arith)
add_some (negsuc a) (negsuc b) c h = absurd (ground arith)
