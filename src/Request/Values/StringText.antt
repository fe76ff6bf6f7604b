-- ===== src/Request/Values/StringText.antt =====
-- The texts of JSON strings, and how `parseString` reads them.
use phala_inference_guard.Base.{
  ℕ, zero, suc, ◌+◌, ◌≤◌, ◌≡◌, refl, Bool, true, false, not, ◌&&◌, ◌||◌, leb, ◌==◌, List, [], ◌∷◌,
  ◌++◌, arith, length,
}
use phala_inference_guard.Request.Bytes.{quote, between, JsonStringSpan}
use phala_inference_guard.Request.Scanner.{
  scanned, string_rounds, string_round, continues, parse_string,
}

-- What a string is made of: bytes that stand for themselves, and escapes of one byte or of four
-- hexadecimal digits.
pub data Piece : Type 0 where
  plain_piece simple_piece : ℕ → Piece
  unicode_piece : ℕ → ℕ → ℕ → ℕ → Piece

-- The bytes of a piece.
abbrev bytes : Piece → List ℕ
bytes (plain_piece c) = c ∷ []
bytes (simple_piece c) = 92 ∷ c ∷ []
bytes (unicode_piece a b c d) = 92 ∷ 117 ∷ a ∷ b ∷ c ∷ d ∷ []

abbrev escapes : Piece → Bool
escapes (plain_piece c) = false
escapes _ = true

abbrev is_hex : ℕ → Bool
is_hex c = between 48 57 c || (between 97 102 c || between 65 70 c)

-- A plain byte is no control character, no quote and no backslash; a byte after a backslash is one of
-- '"', '\\', '/', 'b', 'f', 'n', 'r', 't'.
abbrev is_piece : Piece → Bool
is_piece (plain_piece c) = leb 32 c && (not (c == 34) && not (c == 92))
is_piece (simple_piece c) =
    c == 34
    || (c == 92 || (c == 47 || (c == 98 || (c == 102 || (c == 110 || (c == 114 || c == 116))))))
is_piece (unicode_piece a b c d) = is_hex a && (is_hex b && (is_hex c && is_hex d))

-- The text of a string and its closing quote, before what follows.
abbrev pub string_text : List Piece → List ℕ → List ℕ
string_text [] tail = quote ∷ tail
string_text (p ∷ ps) tail = bytes p ++ string_text ps tail

abbrev pub ArePieces : List Piece → Type 0
ArePieces [] = Unit
ArePieces (p ∷ ps) = (is_piece p ≡ true) × ArePieces ps

-- The span of a string: all its bytes, and whether any is an escape.
abbrev pub span_of : List Piece → JsonStringSpan
span_of [] = record { raw = []; escaped = false }
span_of (p ∷ ps) = record {
  raw = bytes p ++ (span_of ps).raw;
  escaped = escapes p || (span_of ps).escaped;
}

string_round-piece :
    (p : Piece) (rest : List ℕ)
    → is_piece p ≡ true
    → string_round (bytes p ++ rest) ≡ continues (bytes p) (escapes p) rest
unfolding string_round
string_round-piece (plain_piece c) rest h = ground arith
string_round-piece (simple_piece c) rest h = ground arith
string_round-piece (unicode_piece a b c d) rest h = ground arith

bytes-pos : (p : Piece) (rest : List ℕ) → suc (length rest) ≤ length (bytes p ++ rest)
bytes-pos (plain_piece c) rest = omega arith
bytes-pos (simple_piece c) rest = omega arith
bytes-pos (unicode_piece a b c d) rest = omega arith

-- A string has at least a byte for each piece, and a quote.
pub length-string_text :
    (s : List Piece) (tail : List ℕ) → suc (length s + length tail) ≤ length (string_text s tail)
length-string_text [] tail = omega arith
length-string_text (p ∷ s) tail =
    omega (arith, length-string_text s tail, bytes-pos p (string_text s tail))

string_rounds-text :
    (n : ℕ) (s : List Piece) (tail : List ℕ)
    → ArePieces s
    → suc (length s) ≤ n
    → string_rounds n (string_text s tail) ≡ scanned (span_of s, tail)
unfolding string_rounds
string_rounds-text zero s tail h k = absurd (omega arith)
string_rounds-text (suc n) [] tail h k = refl
string_rounds-text (suc n) (p ∷ s) tail h k =
    let round = string_round-piece p (string_text s tail) h.0 in
    let ih = string_rounds-text n s tail h.1 (omega arith) in rw (string_rounds, round, ih) refl

-- A string is scanned to its end, with its bytes and whether it has an escape.
pub parse_string-text :
    (s : List Piece) (tail : List ℕ) (d : ℕ)
    → ArePieces s
    → parse_string (record { rest = quote ∷ string_text s tail; depth = d })
      ≡ scanned (span_of s, record { rest = tail; depth = d })
unfolding parse_string
parse_string-text s tail d h =
    rw
      (string_rounds-text (suc (length (string_text s tail))) s tail h
        (omega (arith, length-string_text s tail)))
      refl
