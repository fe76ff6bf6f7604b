-- ===== src/Request/Scanner.antt =====
-- tps_shape.go: the parser's state, and the scanning of what does not nest.
pub mod Progress
use phala_inference_guard.Admission.Overlay.{◌>>=◌}
use phala_inference_guard.Base.{
  ℕ, zero, suc, ◌+◌, ◌-◌, Bool, true, false, not, ◌&&◌, ◌||◌, ltb, leb, ◌==◌, if◌then◌else◌, Option,
  none, some, List, [], ◌∷◌, ◌++◌, length,
}
use phala_inference_guard.Request.Bytes.{
  quote, backslash, between, is_json_space, is_json_digit, is_json_hex, is_json_simple_escape,
  JsonStringSpan,
}

abbrev pub maximum_json_shape_scan_depth : ℕ
maximum_json_shape_scan_depth = 128

-- `rest` is the body from the index on.
pub record JsonShapeParser : Type 0 where
  pub rest : List ℕ
  pub depth : ℕ

-- `rejected` tells whether the depth limit is exceeded, the one part of a failed parser that is read;
-- `spent`, that the model's fuel ran out, has no counterpart in the code.
pub data Scan {ℓ} (A : Type ℓ) : Type ℓ where
  scanned : A → Scan A
  rejected : Bool → Scan A
  spent : Scan A

module _ {ℓ κ} {A : Type ℓ} {B : Type κ} where
  infixl 1 ◌>>>◌
  abbrev pub ◌>>>◌ : Scan A → (A → Scan B) → Scan B
  scanned a >>> f = f a
  rejected limit >>> f = rejected limit
  spent >>> f = spent

abbrev pub from_option {ℓ} : {A : Type ℓ} → Option A → Scan A
from_option none = rejected false
from_option (some a) = scanned a

abbrev pub skip_spaces : List ℕ → List ℕ
skip_spaces [] = []
skip_spaces (c ∷ cs) = if is_json_space c then skip_spaces cs else c ∷ cs

abbrev pub skip_space : JsonShapeParser → JsonShapeParser
skip_space p = record p { rest = skip_spaces p.rest }

abbrev pub skip_digits : List ℕ → List ℕ
skip_digits [] = []
skip_digits (c ∷ cs) = if is_json_digit c then skip_digits cs else c ∷ cs

-- The bytes after a given one, if it stands in front.
abbrev pub after_byte : ℕ → List ℕ → Option (List ℕ)
after_byte v [] = none
after_byte v (c ∷ cs) = if c == v then some cs else none

abbrev pub moved : JsonShapeParser → Option (List ℕ) → Option JsonShapeParser
moved p none = none
moved p (some rest) = some (record p { rest = rest })

abbrev pub consume : ℕ → JsonShapeParser → Option JsonShapeParser
consume v p = moved p (after_byte v p.rest)

unfoldable pub enter : ℕ → JsonShapeParser → Scan JsonShapeParser
enter opening p =
    if leb maximum_json_shape_scan_depth p.depth
    then rejected true
    else (from_option (consume opening p) >>> λ q. scanned (record q { depth = suc q.depth }))

-- `depth - 1`, which stops at 0 as the code does.
abbrev pub leave_nesting : JsonShapeParser → JsonShapeParser
leave_nesting p = record p { depth = p.depth - 1 }

abbrev pub after_all : List ℕ → List ℕ → Option (List ℕ)
after_all [] rest = some rest
after_all (v ∷ vs) [] = none
after_all (v ∷ vs) (c ∷ cs) = if c == v then after_all vs cs else none

unfoldable pub consume_literal : List ℕ → JsonShapeParser → Scan JsonShapeParser
consume_literal word p = from_option (moved p (after_all word p.rest))

-- One round of the loop of `parseString`.
pub data StringRound : Type 0 where
  ends : List ℕ → StringRound
  continues : List ℕ → Bool → List ℕ → StringRound
  fails : StringRound

abbrev pub escape_round : List ℕ → StringRound
escape_round [] = fails
escape_round (e ∷ rest) =
    if e == 117
    then elim rest [
      | a ∷ b ∷ c ∷ d ∷ more ↦
          if is_json_hex a && (is_json_hex b && (is_json_hex c && is_json_hex d))
          then continues (backslash ∷ e ∷ a ∷ b ∷ c ∷ d ∷ []) true more
          else fails
      | _ ↦ fails
    ]
    else if is_json_simple_escape e
    then continues (backslash ∷ e ∷ []) true rest
    else fails

unfoldable pub string_round : List ℕ → StringRound
string_round [] = fails
string_round (c ∷ rest) =
    if c == quote
    then ends rest
    else if c == backslash
    then escape_round rest
    else if ltb c 32
    then fails
    else continues (c ∷ []) false rest

abbrev pub prepend : List ℕ → Bool → JsonStringSpan × List ℕ → JsonStringSpan × List ℕ
prepend chunk escaped (span, rest) =
    (record { raw = chunk ++ span.raw; escaped = escaped || span.escaped }, rest)

unfoldable pub string_rounds : ℕ → List ℕ → Scan (JsonStringSpan × List ℕ)
unfolding string_round
string_rounds zero rest = spent
string_rounds (suc n) rest = elim (string_round rest) [
  | ends more ↦ scanned (record { raw = []; escaped = false }, more)
  | fails ↦ rejected false
  | continues chunk escaped more ↦
      string_rounds n more >>> λ found. scanned (prepend chunk escaped found)
]

-- A round shortens what is left, so the length is fuel enough.
unfoldable pub parse_string : JsonShapeParser → Scan (JsonStringSpan × JsonShapeParser)
unfolding string_rounds
parse_string p = from_option (after_byte quote p.rest) >>> λ body.
    string_rounds (suc (length body)) body >>> λ (span, rest).
    scanned (span, record p { rest = rest })

abbrev pub starts_digit : List ℕ → Bool
starts_digit [] = false
starts_digit (c ∷ cs) = is_json_digit c

-- A minus, unless nothing follows it.
abbrev pub number_sign : List ℕ → Option (List ℕ)
number_sign rest = elim (after_byte 45 rest) [
  | none ↦ some rest
  | some [] ↦ none
  | some (c ∷ cs) ↦ some (c ∷ cs)
]

abbrev pub number_integer : List ℕ → Option (List ℕ)
number_integer [] = none
number_integer (c ∷ cs) =
    if c == 48
    then if starts_digit cs then none else some cs
    else if between 49 57 c
    then some (skip_digits cs)
    else none

abbrev pub some_digits : List ℕ → Option (List ℕ)
some_digits rest = if starts_digit rest then some (skip_digits rest) else none

abbrev pub number_fraction : List ℕ → Option (List ℕ)
number_fraction rest = elim (after_byte 46 rest) [ none ↦ some rest | some more ↦ some_digits more ]

-- A plus or a minus is skipped.
abbrev pub exponent_sign : List ℕ → List ℕ
exponent_sign [] = []
exponent_sign (c ∷ cs) = if c == 43 || c == 45 then cs else c ∷ cs

abbrev pub number_exponent : List ℕ → Option (List ℕ)
number_exponent [] = some []
number_exponent (c ∷ cs) =
    if c == 101 || c == 69 then some_digits (exponent_sign cs) else some (c ∷ cs)

unfoldable pub number_end : List ℕ → Option (List ℕ)
number_end rest = do
  unsigned ← number_sign rest
  whole ← number_integer unsigned
  fraction ← number_fraction whole
  number_exponent fraction

abbrev pub if_shorter : List ℕ → List ℕ → Option (List ℕ)
if_shorter start rest = if ltb (length rest) (length start) then some rest else none

unfoldable pub parse_number : JsonShapeParser → Scan JsonShapeParser
unfolding number_end
parse_number p = from_option (moved p (do rest ← number_end p.rest; if_shorter p.rest rest))
