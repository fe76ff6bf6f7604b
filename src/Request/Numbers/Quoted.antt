-- ===== src/Request/Numbers/Quoted.antt =====
-- The loop over a quoted number ends before its fuel does.
use phala_inference_guard.Admission.Overlay.{◌>>=◌}
use phala_inference_guard.Base.{
  ℕ, zero, suc, ◌+◌, ◌*◌, ◌≤◌, ◌≡◌, refl, ltb, ◌==◌, if-both, Option, none, some, List, [], ◌∷◌,
  arith, length,
}
use phala_inference_guard.Request.Bytes.{
  backslash, json_hex_value, simple_escape, with_rest, unicode_escape,
  next_escaped_json_string_ascii,
}
use phala_inference_guard.Request.Numbers.{QuotedNumber, quoted_character, quoted_rounds}

-- What is left after a character is at most a given number of bytes.
abbrev LeavesAtMost : ℕ → Option (ℕ × List ℕ) → Type 0
LeavesAtMost n none = Unit
LeavesAtMost n (some (v, rest)) = length rest ≤ n

LeavesAtMost-then :
    (n : ℕ) (o : Option ℕ) (f : ℕ → Option (ℕ × List ℕ))
    → ((h : ℕ) → LeavesAtMost n (f h))
    → LeavesAtMost n (o >>= f)
LeavesAtMost-then n none f k = tt
LeavesAtMost-then n (some h) f k = k h

LeavesAtMost-with_rest :
    (n : ℕ) (o : Option ℕ) (rest : List ℕ) → length rest ≤ n → LeavesAtMost n (with_rest o rest)
LeavesAtMost-with_rest n none rest h = tt
LeavesAtMost-with_rest n (some c) rest h = h

unicode_escape-LeavesAtMost :
    (n : ℕ) (raw : List ℕ) → length raw ≤ n → LeavesAtMost n (unicode_escape raw)
unfolding unicode_escape
unicode_escape-LeavesAtMost n [] l = tt
unicode_escape-LeavesAtMost n (a ∷ []) l = tt
unicode_escape-LeavesAtMost n (a ∷ b ∷ []) l = tt
unicode_escape-LeavesAtMost n (a ∷ b ∷ c ∷ []) l = tt
unicode_escape-LeavesAtMost n (a ∷ b ∷ c ∷ d ∷ rest) l =
    LeavesAtMost-then n (json_hex_value a) _ λ h1. LeavesAtMost-then n (json_hex_value b) _ λ h2.
      LeavesAtMost-then n (json_hex_value c) _ λ h3. LeavesAtMost-then n (json_hex_value d) _ λ h4.
        if-both (LeavesAtMost n) (ltb 127 (((h1 * 16 + h2) * 16 + h3) * 16 + h4)) tt (omega arith)

next-LeavesAtMost :
    (c : ℕ) (cs : List ℕ) → LeavesAtMost (length cs) (next_escaped_json_string_ascii (c ∷ cs))
unfolding next_escaped_json_string_ascii
next-LeavesAtMost c [] =
    if-both (LeavesAtMost 0) (c == backslash) tt
      (if-both (LeavesAtMost 0) (ltb c 128) (omega arith) tt)
next-LeavesAtMost c (e ∷ rest) =
    let P = LeavesAtMost (suc (length rest)) in
    if-both P (c == backslash)
      (if-both P (e == 117) (unicode_escape-LeavesAtMost _ rest (omega arith))
        (LeavesAtMost-with_rest _ (simple_escape e) rest (omega arith)))
      (if-both P (ltb c 128) (omega arith) tt)

-- From one unit for each byte on, more fuel makes no difference to the reading of a quoted number.
pub quoted_rounds_enough :
    (m n : ℕ) (q : QuotedNumber) (raw : List ℕ)
    → length raw ≤ m
    → length raw ≤ n
    → quoted_rounds m q raw ≡ quoted_rounds n q raw
unfolding quoted_rounds
quoted_rounds_enough zero zero q raw h k = refl
quoted_rounds_enough zero (suc n) q [] h k = refl
quoted_rounds_enough zero (suc n) q (c ∷ cs) h k = absurd (omega arith)
quoted_rounds_enough (suc m) zero q [] h k = refl
quoted_rounds_enough (suc m) zero q (c ∷ cs) h k = absurd (omega arith)
quoted_rounds_enough (suc m) (suc n) q [] h k = refl
quoted_rounds_enough (suc m) (suc n) q (c ∷ cs) h k =
    character (λ r rest l. quoted_rounds_enough m n r rest (omega arith) (omega arith))
      (next_escaped_json_string_ascii (c ∷ cs)) (next-LeavesAtMost c cs)
  where
    after :
        ((r : QuotedNumber) (rest : List ℕ)
          → length rest ≤ length cs
          → quoted_rounds m r rest ≡ quoted_rounds n r rest)
        → (rest : List ℕ) → length rest ≤ length cs
        → (o : Option QuotedNumber)
        → (elim o as (λ x. Option QuotedNumber) [ none ↦ none | some r ↦ quoted_rounds m r rest ])
          ≡ (elim o as (λ x. Option QuotedNumber) [ none ↦ none | some r ↦ quoted_rounds n r rest ])
    after again rest l none = refl
    after again rest l (some r) = again r rest l

    character :
        ((r : QuotedNumber) (rest : List ℕ)
          → length rest ≤ length cs
          → quoted_rounds m r rest ≡ quoted_rounds n r rest)
        → (o : Option (ℕ × List ℕ)) → LeavesAtMost (length cs) o
        → (elim o as (λ x. Option QuotedNumber) [
          | none ↦ none
          | some (v, rest) ↦ elim (quoted_character q v) as (λ x. Option QuotedNumber) [
            | none ↦ none
            | some r ↦ quoted_rounds m r rest
          ]
        ])
          ≡ (elim o as (λ x. Option QuotedNumber) [
            | none ↦ none
            | some (v, rest) ↦ elim (quoted_character q v) as (λ x. Option QuotedNumber) [
              | none ↦ none
              | some r ↦ quoted_rounds n r rest
            ]
          ])
    character again none l = refl
    character again (some (v, rest)) l = after again rest l (quoted_character q v)
