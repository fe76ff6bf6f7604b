-- ===== src/Request/Numbers.antt =====
-- tps_shape.go: positive numbers in a body, and the fields that hold them.
pub mod Decimal
pub mod Quoted
use phala_inference_guard.Base.{
  ℕ, zero, suc, ◌+◌, ◌-◌, ◌*◌, ◌/◌, Bool, true, false, not, ◌&&◌, ◌||◌, ltb, ◌==◌, if◌then◌else◌,
  Option, none, some, List, [], ◌∷◌, length,
}
use phala_inference_guard.Go.Words.{max_int64}
use phala_inference_guard.Request.Bytes.{
  quote, is_json_digit, is_ascii_string_space, bytes_equal, next_escaped_json_string_ascii,
}
use phala_inference_guard.Request.Values.{true_literal, false_literal, null_literal}

-- One more digit, unless the result passes an int64.
unfoldable pub add_digit : ℕ → ℕ → Option ℕ
add_digit result c =
    let digit = c - 48 in
    if ltb ((max_int64 - digit) / 10) result then none else some (result * 10 + digit)

unfoldable pub digits_value : ℕ → List ℕ → Option ℕ
unfolding add_digit
digits_value result [] = some result
digits_value result (c ∷ cs) =
    if not (is_json_digit c)
    then none
    else elim (add_digit result c) [ none ↦ none | some more ↦ digits_value more cs ]

unfoldable pub parse_nonnegative_int64 : List ℕ → Option ℕ
unfolding digits_value
parse_nonnegative_int64 [] = none
parse_nonnegative_int64 (c ∷ cs) = digits_value 0 (c ∷ cs)

abbrev pub if_positive : Option ℕ → Option ℕ
if_positive none = none
if_positive (some n) = if ltb 0 n then some n else none

-- What the loop over a quoted number holds.
pub record QuotedNumber : Type 0 where
  pub result : ℕ
  pub digits : Bool
  pub trailing_space : Bool

abbrev pub no_digits : QuotedNumber
no_digits = record { result = 0; digits = false; trailing_space = false }

-- A character of a quoted number: space around the digits only.
unfoldable pub quoted_character : QuotedNumber → ℕ → Option QuotedNumber
unfolding add_digit
quoted_character q c =
    if is_ascii_string_space c
    then some (record q { trailing_space = q.digits })
    else if q.trailing_space || not (is_json_digit c)
    then none
    else elim (add_digit q.result c) [
      | none ↦ none
      | some more ↦ some (record q { result = more; digits = true })
    ]

-- The loop over the raw bytes; each round takes at least one, so their count is fuel enough.
unfoldable pub quoted_rounds : ℕ → QuotedNumber → List ℕ → Option QuotedNumber
unfolding quoted_character
quoted_rounds n q [] = some q
quoted_rounds zero q (c ∷ cs) = none
quoted_rounds (suc n) q (c ∷ cs) = elim (next_escaped_json_string_ascii (c ∷ cs)) [
  | none ↦ none
  | some (v, rest) ↦ elim (quoted_character q v) [ none ↦ none | some r ↦ quoted_rounds n r rest ]
]

abbrev pub quoted_result : Option QuotedNumber → Option ℕ
quoted_result none = none
quoted_result (some q) = if q.digits && ltb 0 q.result then some q.result else none

-- The bytes before a closing quote that ends the value.
abbrev pub before_quote : List ℕ → Option (List ℕ)
before_quote [] = none
before_quote (c ∷ []) = if c == quote then some [] else none
before_quote (c ∷ d ∷ cs) = elim (before_quote (d ∷ cs)) [ none ↦ none | some raw ↦ some (c ∷ raw) ]

abbrev pub quoted_value : Option (List ℕ) → Option ℕ
quoted_value none = none
quoted_value (some raw) = quoted_result (quoted_rounds (length raw) no_digits raw)

unfoldable pub parse_positive_int64_json : List ℕ → Option ℕ
unfolding parse_nonnegative_int64 quoted_rounds
parse_positive_int64_json [] = none
parse_positive_int64_json (c ∷ cs) =
    if c == quote
    then quoted_value (before_quote cs)
    else if_positive (parse_nonnegative_int64 (c ∷ cs))

-- The value of a Boolean literal.
unfoldable pub parse_json_boolean : List ℕ → Option Bool
unfolding bytes_equal
parse_json_boolean value =
    if bytes_equal value true_literal
    then some true
    else if bytes_equal value false_literal
    then some false
    else none

pub record FanoutFieldState : Type 0 where
  pub seen : Bool
  pub valid : Bool
  pub is_null : Bool
  pub value : ℕ

-- `fanoutFieldState{valid: true, value: 1}`.
abbrev pub unseen_fanout : FanoutFieldState
unseen_fanout = record { seen = false; valid = true; is_null = false; value = 1 }

abbrev pub invalid_fanout : FanoutFieldState → FanoutFieldState × Bool
invalid_fanout s = (record s { valid = false }, false)

abbrev pub take_fanout : FanoutFieldState → Option ℕ → FanoutFieldState × Bool
take_fanout s none = invalid_fanout s
take_fanout s (some parsed) =
    if s.seen && not (s.value == parsed)
    then invalid_fanout s
    else (record s { seen = true; valid = true; value = parsed }, true)

unfoldable pub update_positive_fanout : FanoutFieldState → List ℕ → FanoutFieldState × Bool
unfolding parse_positive_int64_json
update_positive_fanout s text = take_fanout s (parse_positive_int64_json text)

unfoldable pub update_optional_positive_fanout : FanoutFieldState → List ℕ → FanoutFieldState × Bool
unfolding update_positive_fanout
update_optional_positive_fanout s text =
    if bytes_equal text null_literal
    then if s.seen && not s.is_null
      then invalid_fanout s
      else (record { seen = true; valid = true; is_null = true; value = 1 }, true)
    else if s.seen && s.is_null
    then invalid_fanout s
    else update_positive_fanout s text
