-- ===== src/Request/Bytes.antt =====
-- internal/domain/request/tps_shape.go: bytes, their classes, and strings of a JSON text.
use phala_inference_guard.Admission.Overlay.{◌>>=◌}
use phala_inference_guard.Base.{
  ℕ, ◌+◌, ◌-◌, ◌*◌, Bool, true, false, ◌&&◌, ◌||◌, ltb, leb, ◌==◌, if◌then◌else◌, Option, none,
  some, List, [], ◌∷◌,
}

abbrev pub quote : ℕ
quote = 34

abbrev pub backslash : ℕ
backslash = 92

abbrev pub between : ℕ → ℕ → ℕ → Bool
between low high c = leb low c && leb c high

-- ' ', '\n', '\r' or '\t'.
abbrev pub is_json_space : ℕ → Bool
is_json_space c = c == 32 || (c == 10 || (c == 13 || c == 9))

-- These, '\v' or '\f'.
abbrev pub is_ascii_string_space : ℕ → Bool
is_ascii_string_space c = is_json_space c || (c == 11 || c == 12)

-- '0' to '9'.
abbrev pub is_json_digit : ℕ → Bool
is_json_digit c = between 48 57 c

-- A digit, 'a' to 'f' or 'A' to 'F'.
abbrev pub is_json_hex : ℕ → Bool
is_json_hex c = is_json_digit c || (between 97 102 c || between 65 70 c)

unfoldable pub json_hex_value : ℕ → Option ℕ
json_hex_value c =
    if between 48 57 c
    then some (c - 48)
    else if between 97 102 c
    then some (c - 97 + 10)
    else if between 65 70 c
    then some (c - 65 + 10)
    else none

-- What a backslash and this byte stand for: '"', '\\', '/', 'b', 'f', 'n', 'r' or 't'.
abbrev pub simple_escape : ℕ → Option ℕ
simple_escape c =
    if c == 34 || (c == 92 || c == 47)
    then some c
    else if c == 98
    then some 8
    else if c == 102
    then some 12
    else if c == 110
    then some 10
    else if c == 114
    then some 13
    else if c == 116
    then some 9
    else none

-- '"', '\\', '/', 'b', 'f', 'n', 'r' or 't'.
abbrev pub is_json_simple_escape : ℕ → Bool
is_json_simple_escape c =
    c == 34
    || (c == 92 || (c == 47 || (c == 98 || (c == 102 || (c == 110 || (c == 114 || c == 116))))))

unfoldable pub bytes_equal : List ℕ → List ℕ → Bool
bytes_equal [] [] = true
bytes_equal (c ∷ cs) (d ∷ ds) = (c == d) && bytes_equal cs ds
bytes_equal _ _ = false

-- The code unit of four hexadecimal digits, with the bytes after them.
unfoldable pub unicode_escape : List ℕ → Option (ℕ × List ℕ)
unfolding json_hex_value
unicode_escape (a ∷ b ∷ c ∷ d ∷ rest) = do
  h1 ← json_hex_value a
  h2 ← json_hex_value b
  h3 ← json_hex_value c
  h4 ← json_hex_value d
  let unit = ((h1 * 16 + h2) * 16 + h3) * 16 + h4
  if ltb 127 unit then none else some (unit, rest)
unicode_escape _ = none

abbrev pub with_rest : Option ℕ → List ℕ → Option (ℕ × List ℕ)
with_rest none rest = none
with_rest (some c) rest = some (c, rest)

-- The ASCII character at the front of a string's raw bytes, with the bytes after it.
unfoldable pub next_escaped_json_string_ascii : List ℕ → Option (ℕ × List ℕ)
unfolding unicode_escape
next_escaped_json_string_ascii [] = none
next_escaped_json_string_ascii (c ∷ []) =
    if c == backslash then none else if ltb c 128 then some (c, []) else none
next_escaped_json_string_ascii (c ∷ e ∷ rest) =
    if c == backslash
    then if e == 117 then unicode_escape rest else with_rest (simple_escape e) rest
    else if ltb c 128
    then some (c, e ∷ rest)
    else none

unfoldable pub escaped_json_string_equals_ascii : List ℕ → List ℕ → Bool
unfolding next_escaped_json_string_ascii
escaped_json_string_equals_ascii [] [] = true
escaped_json_string_equals_ascii (r ∷ raw) [] = false
escaped_json_string_equals_ascii [] (c ∷ candidate) = false
escaped_json_string_equals_ascii (r ∷ raw) (c ∷ candidate) =
    elim (next_escaped_json_string_ascii (r ∷ raw)) [
      | none ↦ false
      | some (v, rest) ↦ (c == v) && escaped_json_string_equals_ascii rest candidate
    ]

pub record JsonStringSpan : Type 0 where
  pub raw : List ℕ
  pub escaped : Bool

unfoldable pub json_string_span_equals : JsonStringSpan → List ℕ → Bool
unfolding escaped_json_string_equals_ascii bytes_equal
json_string_span_equals span candidate =
    if span.escaped
    then escaped_json_string_equals_ascii span.raw candidate
    else bytes_equal span.raw candidate
