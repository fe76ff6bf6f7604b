-- ===== src/Request/Values.antt =====
-- tps_shape.go: `parseValue`, `parseObject` and `parseArray`, which recurse into what nests.
pub mod Fuel
pub mod NumberText
pub mod StringText
pub mod Text
pub mod RoundTrip
pub mod Depth
use phala_inference_guard.Base.{
  ℕ, zero, suc, ◌+◌, ◌-◌, ◌*◌, Bool, true, false, ◌||◌, ◌==◌, if◌then◌else◌, Option, none, some,
  List, [], ◌∷◌, length,
}
use phala_inference_guard.Request.Bytes.{quote}
use phala_inference_guard.Request.Scanner.{
  JsonShapeParser, Scan, scanned, rejected, spent, ◌>>>◌, from_option, skip_space, consume, enter,
  leave_nesting, consume_literal, parse_string, parse_number,
}

pub data ValueKind : Type 0 where
  no_value object_value array_value string_value number_value : ValueKind
  literal_value : List ℕ → ValueKind

abbrev pub true_literal : List ℕ
true_literal = 116 ∷ 114 ∷ 117 ∷ 101 ∷ []

abbrev pub false_literal : List ℕ
false_literal = 102 ∷ 97 ∷ 108 ∷ 115 ∷ 101 ∷ []

abbrev pub null_literal : List ℕ
null_literal = 110 ∷ 117 ∷ 108 ∷ 108 ∷ []

-- The switch of `parseValue` on the byte in front.
abbrev pub value_kind : List ℕ → ValueKind
value_kind [] = no_value
value_kind (c ∷ cs) =
    if c == 123
    then object_value
    else if c == 91
    then array_value
    else if c == quote
    then string_value
    else if c == 116
    then literal_value true_literal
    else if c == 102
    then literal_value false_literal
    else if c == 110
    then literal_value null_literal
    else number_value

-- Nothing follows, or the closing byte: what must not come after a comma.
abbrev pub closes_early : ℕ → List ℕ → Bool
closes_early closing [] = true
closes_early closing (c ∷ cs) = c == closing

-- What follows an element: the closing byte, or a comma with more.
pub data Separator : Type 0 where
  closing_found : JsonShapeParser → Separator
  comma_found : JsonShapeParser → Separator
  neither_found : Separator

abbrev pub after_comma : ℕ → Option JsonShapeParser → Separator
after_comma closing none = neither_found
after_comma closing (some q) =
    if closes_early closing (skip_space q).rest then neither_found else comma_found (skip_space q)

abbrev pub closing_or_comma : ℕ → JsonShapeParser → Option JsonShapeParser → Separator
closing_or_comma closing p (some q) = closing_found q
closing_or_comma closing p none = after_comma closing (consume 44 p)

-- The switch that ends a round of a loop over elements, at what follows the element.
unfoldable pub separator : ℕ → JsonShapeParser → Separator
separator closing p = closing_or_comma closing (skip_space p) (consume closing (skip_space p))

-- A key and its colon.
unfoldable pub parse_key : JsonShapeParser → Scan JsonShapeParser
parse_key p = parse_string p >>> λ (key, q). from_option (consume 58 (skip_space q))

-- Each call costs a unit of fuel. A parser stands at the opening byte in `parse_object` and
-- `parse_array`, at a key in `parse_members`, at a value in `parse_elements`.
unfoldable mutual
  pub parse_value : ℕ → JsonShapeParser → Scan JsonShapeParser
  parse_value zero p = spent
  parse_value (suc f) p = elim (value_kind (skip_space p).rest) [
    | no_value ↦ rejected false
    | object_value ↦ parse_object f (skip_space p)
    | array_value ↦ parse_array f (skip_space p)
    | string_value ↦ parse_string (skip_space p) >>> λ (span, q). scanned q
    | literal_value word ↦ consume_literal word (skip_space p)
    | number_value ↦ parse_number (skip_space p)
  ]

  pub parse_object : ℕ → JsonShapeParser → Scan JsonShapeParser
  parse_object zero p = spent
  parse_object (suc f) p = enter 123 p >>> λ q. elim (consume 125 (skip_space q)) [
    | some r ↦ scanned (leave_nesting r)
    | none ↦ parse_members f (skip_space q)
  ]

  pub parse_members : ℕ → JsonShapeParser → Scan JsonShapeParser
  parse_members zero p = spent
  parse_members (suc f) p = (parse_key p >>> λ q. parse_value f q) >>> λ q. elim (separator 125 q) [
    | closing_found r ↦ scanned (leave_nesting r)
    | comma_found r ↦ parse_members f r
    | neither_found ↦ rejected false
  ]

  pub parse_array : ℕ → JsonShapeParser → Scan JsonShapeParser
  parse_array zero p = spent
  parse_array (suc f) p = enter 91 p >>> λ q. elim (consume 93 (skip_space q)) [
    | some r ↦ scanned (leave_nesting r)
    | none ↦ parse_elements f (skip_space q)
  ]

  pub parse_elements : ℕ → JsonShapeParser → Scan JsonShapeParser
  parse_elements zero p = spent
  parse_elements (suc f) p = parse_value f p >>> λ q. elim (separator 93 q) [
    | closing_found r ↦ scanned (leave_nesting r)
    | comma_found r ↦ parse_elements f r
    | neither_found ↦ rejected false
  ]

-- Fuel for a value of a body.
abbrev pub value_fuel : JsonShapeParser → ℕ
value_fuel p = 3 * length p.rest + 3

unfoldable pub parse_json_value : JsonShapeParser → Scan JsonShapeParser
unfolding parse_value
parse_json_value p = parse_value (value_fuel p) p
