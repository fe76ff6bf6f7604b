-- ===== src/Request/Values/NumberText.antt =====
-- The texts of JSON numbers, and how `parseNumber` reads them.
use phala_inference_guard.Admission.Overlay.{◌>>=◌}
use phala_inference_guard.Base.{
  ℕ, suc, ◌≤◌, ◌≡◌, refl, ◌∙◌, ap, Bool, true, false, not, ◌||◌, ltb, ◌==◌, none, some, List, [],
  ◌∷◌, ◌++◌, arith, length, length-append, lt→ltb,
}
use phala_inference_guard.Request.Bytes.{between, is_json_digit}
use phala_inference_guard.Request.Scanner.{
  scanned, from_option, skip_digits, skip_spaces, after_byte, number_end, number_sign,
  number_integer, number_fraction, exponent_sign, number_exponent, starts_digit, if_shorter,
  parse_number, moved,
}
use phala_inference_guard.Request.Values.{value_kind, number_value, closes_early}
use phala_inference_guard.Request.Numbers.Decimal.{all_digits}

-- The parts of a number. Digits are given by the first and the others.
pub data Whole : Type 0 where
  zero_whole : Whole
  digits_whole : ℕ → List ℕ → Whole

pub data Fraction : Type 0 where
  no_fraction : Fraction
  digits_fraction : ℕ → List ℕ → Fraction

pub data ExponentSign : Type 0 where
  unsigned plus minus : ExponentSign

pub data Exponent : Type 0 where
  no_exponent : Exponent
  lower_exponent upper_exponent : ExponentSign → ℕ → List ℕ → Exponent

pub record Number : Type 0 where
  pub negative : Bool
  pub whole : Whole
  pub fraction : Fraction
  pub exponent : Exponent

abbrev pub digits_text : ℕ → List ℕ → List ℕ → List ℕ
digits_text c cs tail = c ∷ (cs ++ tail)

abbrev whole_text : Whole → List ℕ → List ℕ
whole_text zero_whole tail = 48 ∷ tail
whole_text (digits_whole c cs) tail = digits_text c cs tail

abbrev fraction_text : Fraction → List ℕ → List ℕ
fraction_text no_fraction tail = tail
fraction_text (digits_fraction c cs) tail = 46 ∷ digits_text c cs tail

abbrev sign_text : ExponentSign → List ℕ → List ℕ
sign_text unsigned tail = tail
sign_text plus tail = 43 ∷ tail
sign_text minus tail = 45 ∷ tail

abbrev exponent_text : Exponent → List ℕ → List ℕ
exponent_text no_exponent tail = tail
exponent_text (lower_exponent s c cs) tail = 101 ∷ sign_text s (digits_text c cs tail)
exponent_text (upper_exponent s c cs) tail = 69 ∷ sign_text s (digits_text c cs tail)

abbrev minus_text : Bool → List ℕ → List ℕ
minus_text true tail = 45 ∷ tail
minus_text false tail = tail

abbrev unsigned_text : Number → List ℕ → List ℕ
unsigned_text n tail = whole_text n.whole (fraction_text n.fraction (exponent_text n.exponent tail))

-- The text of a number, before what follows it.
abbrev pub number_text : Number → List ℕ → List ℕ
number_text n tail = minus_text n.negative (unsigned_text n tail)

abbrev AreDigits : ℕ → List ℕ → Type 0
AreDigits c cs = (between 48 57 c ≡ true) × (all_digits cs ≡ true)

abbrev IsWhole : Whole → Type 0
IsWhole zero_whole = Unit
IsWhole (digits_whole c cs) = (between 49 57 c ≡ true) × (all_digits cs ≡ true)

abbrev IsFraction : Fraction → Type 0
IsFraction no_fraction = Unit
IsFraction (digits_fraction c cs) = AreDigits c cs

abbrev IsExponent : Exponent → Type 0
IsExponent no_exponent = Unit
IsExponent (lower_exponent s c cs) = AreDigits c cs
IsExponent (upper_exponent s c cs) = AreDigits c cs

-- The digits are digits, and the whole part begins with none that is 0 but the number 0.
abbrev pub IsNumber : Number → Type 0
IsNumber n = IsWhole n.whole × IsFraction n.fraction × IsExponent n.exponent

-- What may follow a number: no digit, '.', 'e' or 'E'.
abbrev pub ends_number : List ℕ → Bool
ends_number [] = true
ends_number (c ∷ cs) = not (is_json_digit c || (c == 46 || (c == 101 || c == 69)))

skip_digits-all :
    (cs tail : List ℕ)
    → all_digits cs ≡ true
    → starts_digit tail ≡ false
    → skip_digits (cs ++ tail) ≡ tail
skip_digits-all [] [] h e = refl
skip_digits-all [] (t ∷ ts) h e = ground arith
skip_digits-all (c ∷ cs) tail h e = ground (arith, skip_digits-all cs tail)

starts_digit-ends : (tail : List ℕ) → ends_number tail ≡ true → starts_digit tail ≡ false
starts_digit-ends [] e = refl
starts_digit-ends (t ∷ ts) e = ground arith

-- What comes behind the whole part, and behind the fraction.
exponent_text-starts :
    (e : Exponent) (tail : List ℕ)
    → ends_number tail ≡ true
    → (starts_digit (exponent_text e tail) ≡ false) × (after_byte 46 (exponent_text e tail) ≡ none)
exponent_text-starts no_exponent [] h = (refl, refl)
exponent_text-starts no_exponent (t ∷ ts) h = ground arith
exponent_text-starts (lower_exponent s c cs) tail h = (refl, refl)
exponent_text-starts (upper_exponent s c cs) tail h = (refl, refl)

fraction_text-starts :
    (f : Fraction) (tail : List ℕ)
    → starts_digit tail ≡ false
    → starts_digit (fraction_text f tail) ≡ false
fraction_text-starts no_fraction tail h = h
fraction_text-starts (digits_fraction c cs) tail h = refl

number_sign-text :
    (negative : Bool) (w : Whole) (tail : List ℕ)
    → IsWhole w
    → number_sign (minus_text negative (whole_text w tail)) ≡ some (whole_text w tail)
number_sign-text true zero_whole tail h = refl
number_sign-text true (digits_whole c cs) tail h = refl
number_sign-text false zero_whole tail h = refl
number_sign-text false (digits_whole c cs) tail h = ground arith

number_integer-text :
    (w : Whole) (tail : List ℕ)
    → IsWhole w
    → starts_digit tail ≡ false
    → number_integer (whole_text w tail) ≡ some tail
number_integer-text zero_whole tail h s = rw s refl
number_integer-text (digits_whole c cs) tail h s =
    let skipped = skip_digits-all cs tail h.1 s in ground (arith, skipped)

number_fraction-text :
    (f : Fraction) (tail : List ℕ)
    → IsFraction f
    → starts_digit tail ≡ false
    → after_byte 46 tail ≡ none
    → number_fraction (fraction_text f tail) ≡ some tail
number_fraction-text no_fraction [] h s p = refl
number_fraction-text no_fraction (t ∷ ts) h s p = ground arith
number_fraction-text (digits_fraction c cs) tail h s p =
    let skipped = skip_digits-all cs tail h.1 s in ground (arith, skipped)

exponent_sign-text :
    (s : ExponentSign) (c : ℕ) (rest : List ℕ)
    → between 48 57 c ≡ true
    → exponent_sign (sign_text s (c ∷ rest)) ≡ c ∷ rest
exponent_sign-text unsigned c rest h = ground arith
exponent_sign-text plus c rest h = refl
exponent_sign-text minus c rest h = refl

number_exponent-text :
    (e : Exponent) (tail : List ℕ)
    → IsExponent e
    → ends_number tail ≡ true
    → number_exponent (exponent_text e tail) ≡ some tail
number_exponent-text no_exponent [] h k = refl
number_exponent-text no_exponent (t ∷ ts) h k = ground arith
number_exponent-text (lower_exponent s c cs) tail h k =
    let signed = exponent_sign-text s c (cs ++ tail) h.0 in
    let skipped = skip_digits-all cs tail h.1 (starts_digit-ends tail k) in
    rw signed (ground (arith, skipped))
number_exponent-text (upper_exponent s c cs) tail h k =
    let signed = exponent_sign-text s c (cs ++ tail) h.0 in
    let skipped = skip_digits-all cs tail h.1 (starts_digit-ends tail k) in
    rw signed (ground (arith, skipped))

number_end-text :
    (n : Number) (tail : List ℕ)
    → IsNumber n
    → ends_number tail ≡ true
    → number_end (number_text n tail) ≡ some tail
unfolding number_end
number_end-text n tail h e =
    let ends = exponent_text-starts n.exponent tail e in
    let after = exponent_text n.exponent tail in
    let behind = fraction_text-starts n.fraction after ends.0 in
    ap (λ o. o >>= λ u. number_integer u >>= λ w. number_fraction w >>= λ f. number_exponent f)
      (number_sign-text n.negative n.whole (fraction_text n.fraction after) h.0)
    ∙ ap (λ o. o >>= λ w. number_fraction w >>= λ f. number_exponent f)
        (number_integer-text n.whole (fraction_text n.fraction after) h.0 behind)
    ∙ ap (λ o. o >>= λ f. number_exponent f)
        (number_fraction-text n.fraction after h.1 ends.0 ends.1)
    ∙ number_exponent-text n.exponent tail h.2 e

length-sign_text : (s : ExponentSign) (tail : List ℕ) → length tail ≤ length (sign_text s tail)
length-sign_text unsigned tail = omega arith
length-sign_text plus tail = omega arith
length-sign_text minus tail = omega arith

length-exponent_text : (e : Exponent) (tail : List ℕ) → length tail ≤ length (exponent_text e tail)
length-exponent_text no_exponent tail = omega arith
length-exponent_text (lower_exponent s c cs) tail =
    omega (arith, length-sign_text s (c ∷ (cs ++ tail)), length-append cs tail)
length-exponent_text (upper_exponent s c cs) tail =
    omega (arith, length-sign_text s (c ∷ (cs ++ tail)), length-append cs tail)

length-fraction_text : (f : Fraction) (tail : List ℕ) → length tail ≤ length (fraction_text f tail)
length-fraction_text no_fraction tail = omega arith
length-fraction_text (digits_fraction c cs) tail = omega (arith, length-append cs tail)

length-whole_text : (w : Whole) (tail : List ℕ) → suc (length tail) ≤ length (whole_text w tail)
length-whole_text zero_whole tail = omega arith
length-whole_text (digits_whole c cs) tail = omega (arith, length-append cs tail)

length-minus_text : (b : Bool) (tail : List ℕ) → length tail ≤ length (minus_text b tail)
length-minus_text true tail = omega arith
length-minus_text false tail = omega arith

-- A number is not empty.
pub length-number_text :
    (n : Number) (tail : List ℕ) → suc (length tail) ≤ length (number_text n tail)
length-number_text n tail =
    let after = exponent_text n.exponent tail in
    omega (
      arith,
      length-exponent_text n.exponent tail,
      length-fraction_text n.fraction after,
      length-whole_text n.whole (fraction_text n.fraction after),
      length-minus_text n.negative (unsigned_text n tail),
    )

-- A number is scanned to its end.
pub parse_number-text :
    (n : Number) (tail : List ℕ) (d : ℕ)
    → IsNumber n
    → ends_number tail ≡ true
    → parse_number (record { rest = number_text n tail; depth = d })
      ≡ scanned (record { rest = tail; depth = d })
unfolding parse_number
parse_number-text n tail d h e =
    let start = number_text n tail in
    let short : ltb (length tail) (length start) ≡ true = lt→ltb _ _ (length-number_text n tail) in
    ap
      (λ o.
        from_option
          (moved (record { rest = start; depth = d }) (o >>= λ rest. if_shorter start rest)))
      (number_end-text n tail h e)
    ∙ rw short refl

-- A minus or a digit.
abbrev starts_number : List ℕ → Bool
starts_number [] = false
starts_number (c ∷ cs) = c == 45 || between 48 57 c

minus_text-starts :
    (b : Bool) (w : Whole) (tail : List ℕ)
    → IsWhole w
    → starts_number (minus_text b (whole_text w tail)) ≡ true
minus_text-starts true w tail h = refl
minus_text-starts false zero_whole tail h = refl
minus_text-starts false (digits_whole c cs) tail h = ground arith

-- What is read off the byte in front of a number.
pub record NumberFront (l : List ℕ) : Type 0 where
  pub no_space : skip_spaces l ≡ l
  pub no_bracket : after_byte 93 l ≡ none
  pub no_closing : closes_early 93 l ≡ false
  pub of_number : value_kind l ≡ number_value

starts_number-NumberFront : (l : List ℕ) → starts_number l ≡ true → NumberFront l
starts_number-NumberFront [] h = absurd (ground arith)
starts_number-NumberFront (c ∷ cs) h = record {
  no_space = ground arith;
  no_bracket = ground arith;
  no_closing = ground arith;
  of_number = ground arith;
}

pub number_text-NumberFront :
    (n : Number) (tail : List ℕ) → IsNumber n → NumberFront (number_text n tail)
number_text-NumberFront n tail h = starts_number-NumberFront (number_text n tail) (
    minus_text-starts n.negative n.whole (fraction_text n.fraction (exponent_text n.exponent tail))
      h.0)
