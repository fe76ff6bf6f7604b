-- ===== src/Request/Numbers/Decimal.antt =====
-- `parseNonnegativeInt64` against the number that a decimal text denotes.
use native.Mathlib.Nat.{add-mul, mul_assoc, add_assoc, mul-le-mul_left}
use phala_inference_guard.Base.{
  ℕ, ◌+◌, ◌-◌, ◌*◌, ◌≤◌, ◌<◌, ◌≡◌, refl, ◌∙◌, Bool, true, false, ◌&&◌, leb, if◌then◌else◌, Option,
  none, some, List, [], ◌∷◌, arith, leb→le, Bool-cases, inl, inr,
}
use phala_inference_guard.Go.Words.{max_int64}
use phala_inference_guard.Request.Bytes.{is_json_digit}
use phala_inference_guard.Request.Numbers.{add_digit, digits_value, parse_nonnegative_int64}

-- The weight of the digit before a text.
abbrev pub weight : List ℕ → ℕ
weight [] = 1
weight (c ∷ cs) = 10 * weight cs

-- The number that digits denote, each by its place.
abbrev pub denotes : List ℕ → ℕ
denotes [] = 0
denotes (c ∷ cs) = (c - 48) * weight cs + denotes cs

abbrev pub all_digits : List ℕ → Bool
all_digits [] = true
all_digits (c ∷ cs) = is_json_digit c && all_digits cs

-- A number if it is an int64.
abbrev pub if_int64 : ℕ → Option ℕ
if_int64 n = if leb n max_int64 then some n else none

weight-pos : (cs : List ℕ) → 1 ≤ weight cs
weight-pos [] = omega arith
weight-pos (c ∷ cs) = omega (arith, weight-pos cs)

carry : (r d w v : ℕ) → r * (10 * w) + (d * w + v) ≡ (r * 10 + d) * w + v
carry r d w v = simp (add-mul, mul_assoc, add_assoc) refl

add_digit-fits : (r c : ℕ) → is_json_digit c ≡ true → add_digit r c ≡ if_int64 (r * 10 + (c - 48))
unfolding add_digit
add_digit-fits r c h = ground arith

large : (k w v : ℕ) → 1 ≤ w → leb k max_int64 ≡ false → leb (k * w + v) max_int64 ≡ false
large k w v h over =
    let more : k * 1 ≤ k * w = mul-le-mul_left k h in
    let above : max_int64 < k = ground arith in ground arith

none_large : (b : Bool) (n : ℕ) → leb n max_int64 ≡ false → none ≡ (if b then if_int64 n else none)
none_large true n h = rw h refl
none_large false n h = refl

digits_value-denotes :
    (cs : List ℕ) (r : ℕ)
    → r ≤ max_int64
    → digits_value r cs ≡ (if all_digits cs then if_int64 (r * weight cs + denotes cs) else none)
unfolding digits_value
digits_value-denotes [] r h = ground arith
digits_value-denotes (c ∷ cs) r h = elim (Bool-cases (is_json_digit c)) [
  | inr other ↦ rw (digits_value, other) refl
  | inl digit ↦
      let k = r * 10 + (c - 48) in
      let total = carry r (c - 48) (weight cs) (denotes cs) in
      elim (Bool-cases (leb k max_int64)) [
        | inl fits ↦
            let e : add_digit r c ≡ some k = add_digit-fits r c digit ∙ rw fits refl in
            rw (digits_value, digit, e, total) (digits_value-denotes cs k (leb→le k max_int64 fits))
        | inr over ↦
            let e : add_digit r c ≡ none = add_digit-fits r c digit ∙ rw over refl in
            rw (digits_value, digit, e, total)
              (none_large (all_digits cs) _ (large k (weight cs) (denotes cs) (weight-pos cs) over))
      ]
]

both_tests :
    (b : Bool) (m n : ℕ)
    → m ≡ n
    → (if b then if_int64 m else none) ≡ (if b && leb n max_int64 then some n else none)
both_tests true m n e = rw e refl
both_tests false m n e = refl

-- A decimal number: at least one byte, and digits only.
abbrev pub is_decimal : List ℕ → Bool
is_decimal [] = false
is_decimal (c ∷ cs) = all_digits (c ∷ cs)

-- A text of at least one byte that are all digits is read as what it denotes if that is an int64, and
-- no other text is read.
pub parse_nonnegative_int64-denotes :
    (cs : List ℕ)
    → parse_nonnegative_int64 cs
      ≡ (if is_decimal cs && leb (denotes cs) max_int64 then some (denotes cs) else none)
unfolding parse_nonnegative_int64
parse_nonnegative_int64-denotes [] = refl
parse_nonnegative_int64-denotes (c ∷ cs) =
    digits_value-denotes (c ∷ cs) 0 (omega arith)
    ∙ both_tests (all_digits (c ∷ cs)) _ _ (omega arith)
