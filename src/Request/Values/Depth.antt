-- ===== src/Request/Values/Depth.antt =====
-- The depth limit of the scanner.
use phala_inference_guard.Base.{
  ℕ, zero, suc, ◌+◌, ◌*◌, ◌≤◌, ◌<◌, ◌≡◌, refl, ◌∙◌, ap, true, leb, Bool-cases, inl, inr, List, ◌∷◌,
  length, arith,
}
use phala_inference_guard.Request.Scanner.{JsonShapeParser, rejected, ◌>>>◌, enter}
use phala_inference_guard.Request.Values.{
  separator, parse_value, parse_array, parse_elements, parse_json_value, value_fuel,
}
use phala_inference_guard.Request.Values.RoundTrip.{at, Solid, array_opens, element_ends}

-- A number of opening brackets, before what follows them.
abbrev pub brackets : ℕ → List ℕ → List ℕ
brackets zero tail = tail
brackets (suc n) tail = 91 ∷ brackets n tail

length-brackets : (n : ℕ) (tail : List ℕ) → n ≤ length (brackets n tail)
length-brackets zero tail = omega arith
length-brackets (suc n) tail = omega (arith, length-brackets n tail)

brackets-Solid : (n : ℕ) (tail : List ℕ) → Solid (brackets (suc n) tail)
brackets-Solid n tail = record { skips = refl; opens = refl; stays = refl }

parse_array_limit :
    (f : ℕ) (l : List ℕ) (d : ℕ)
    → leb 128 d ≡ true
    → parse_array (suc f) (at (91 ∷ l) d) ≡ rejected true
unfolding parse_array enter
parse_array_limit f l d h = rw (parse_array, enter, h) refl

elements_rejected :
    (f : ℕ) (p : JsonShapeParser)
    → parse_value f p ≡ rejected true
    → parse_elements (suc f) p ≡ rejected true
unfolding parse_elements
elements_rejected f p e = ap (λ o. o >>> λ q. element_ends f (separator 93 q)) e

value_opens :
    (f : ℕ) (l : List ℕ) (d : ℕ)
    → parse_value (suc f) (at (91 ∷ l) d) ≡ parse_array f (at (91 ∷ l) d)
unfolding parse_value
value_opens f l d = refl

brackets-rejected :
    (f n : ℕ) (tail : List ℕ) (d : ℕ)
    → 128 < suc n + d
    → d ≤ 128
    → 3 * suc n + 3 ≤ f
    → parse_value f (at (brackets (suc n) tail) d) ≡ rejected true
brackets-rejected zero n tail d h b k = absurd (omega arith)
brackets-rejected (suc zero) n tail d h b k = absurd (omega arith)
brackets-rejected (suc (suc zero)) n tail d h b k = absurd (omega arith)
brackets-rejected (suc (suc (suc f))) zero tail d h b k =
    value_opens (suc (suc f)) tail d ∙ parse_array_limit (suc f) tail d (ground arith)
brackets-rejected (suc (suc (suc f))) (suc n) tail d h b k = elim (Bool-cases (leb 128 d)) [
  | inl limit ↦
      value_opens (suc (suc f)) (brackets (suc n) tail) d
      ∙ parse_array_limit (suc f) (brackets (suc n) tail) d limit
  | inr room ↦
      value_opens (suc (suc f)) (brackets (suc n) tail) d
      ∙ array_opens (suc f) (brackets (suc n) tail) d 0 (ground arith) (brackets-Solid n tail)
      ∙ elements_rejected f (at (brackets (suc n) tail) (suc d))
          (brackets-rejected f n tail (suc d) (omega arith) (ground arith) (omega arith))
]

-- A value that opens more arrays than the depth limit leaves room for is rejected, whatever follows,
-- and the limit is reported as the reason.
pub parse_json_value-brackets :
    (n : ℕ) (tail : List ℕ) (d : ℕ)
    → 128 < suc n + d
    → d ≤ 128
    → parse_json_value (record { rest = brackets (suc n) tail; depth = d }) ≡ rejected true
unfolding parse_json_value
parse_json_value-brackets n tail d h b =
    brackets-rejected (value_fuel (at (brackets (suc n) tail) d)) n tail d h b
      (let le = length-brackets (suc n) tail in omega arith)
