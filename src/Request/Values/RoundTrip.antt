-- ===== src/Request/Values/RoundTrip.antt =====
-- The text of a JSON value is scanned as a value, up to what follows it.
use phala_inference_guard.Base.{
  ℕ, zero, suc, ◌+◌, ◌-◌, ◌*◌, ◌≤◌, ◌≡◌, refl, ◌∙◌, ap, subst, true, false, leb, ◌==◌, none, some,
  List, ◌∷◌, arith, length,
}
use phala_inference_guard.Request.Bytes.{quote}
use phala_inference_guard.Request.Scanner.{
  JsonShapeParser, Scan, scanned, rejected, ◌>>>◌, skip_spaces, skip_space, after_byte, moved,
  consume, enter, leave_nesting, consume_literal, parse_number,
}
use phala_inference_guard.Request.Scanner.Progress.{Yields, gives, Shorter}
use phala_inference_guard.Request.Values.{
  Separator, value_kind, number_value, closes_early, closing_found, comma_found, neither_found,
  separator, parse_key, parse_value, parse_object, parse_members, parse_array, parse_elements,
  parse_json_value,
}
use phala_inference_guard.Request.Values.Fuel.{parse_value_enough}
use phala_inference_guard.Request.Values.NumberText.{
  Number, number_text, IsNumber, ends_number, parse_number-text, number_text-NumberFront,
}
use phala_inference_guard.Request.Values.StringText.{
  Piece, string_text, ArePieces, parse_string-text, length-string_text,
}
use phala_inference_guard.Request.Values.Text.{
  Json, null_json, true_json, false_json, number_json, string_json, empty_array, empty_object,
  array_json, object_json, Items, last_item, item, Fields, last_field, field, text, items_text,
  fields_text, Nests, NestsItems, NestsFields,
}

abbrev pub at : List ℕ → ℕ → JsonShapeParser
at rest d = record { rest = rest; depth = d }

-- A text that begins with neither a space nor a closing bracket.
pub record Solid (l : List ℕ) : Type 0 where
  pub skips : skip_spaces l ≡ l
  pub opens : after_byte 93 l ≡ none
  pub stays : closes_early 93 l ≡ false

text-Solid : (n : ℕ) (v : Json) (tail : List ℕ) → Nests n v → Solid (text v tail)
unfolding text Nests
text-Solid n (number_json m) tail h =
    let front = number_text-NumberFront m tail h in
    record { skips = front.no_space; opens = front.no_bracket; stays = front.no_closing }
text-Solid n null_json tail h = record { skips = refl; opens = refl; stays = refl }
text-Solid n true_json tail h = record { skips = refl; opens = refl; stays = refl }
text-Solid n false_json tail h = record { skips = refl; opens = refl; stays = refl }
text-Solid n (string_json s) tail h = record { skips = refl; opens = refl; stays = refl }
text-Solid n empty_array tail h = record { skips = refl; opens = refl; stays = refl }
text-Solid n empty_object tail h = record { skips = refl; opens = refl; stays = refl }
text-Solid n (array_json is) tail h = record { skips = refl; opens = refl; stays = refl }
text-Solid n (object_json fs) tail h = record { skips = refl; opens = refl; stays = refl }

items_text-Solid :
    (n : ℕ) (is : Items) (tail : List ℕ) → NestsItems n is → Solid (items_text is tail)
unfolding items_text NestsItems
items_text-Solid n (last_item v) tail h = text-Solid n v (93 ∷ tail) h
items_text-Solid n (item v is) tail h = text-Solid n v (44 ∷ items_text is tail) h.0

separator-comma :
    (l : List ℕ) (d : ℕ) → Solid l → separator 93 (at (44 ∷ l) d) ≡ comma_found (at l d)
unfolding separator
separator-comma l d s = rw (s.skips, s.stays) refl

-- A closing bracket of the depth that stands open.
enter-text :
    (c : ℕ) (l : List ℕ) (d n : ℕ)
    → suc n + d ≤ 128
    → enter c (at (c ∷ l) d) ≡ scanned (at l (suc d))
unfolding enter
enter-text c l d n h =
    let room : leb 128 d ≡ false = ground arith in
    let same : (c == c) ≡ true = ground arith in rw (enter, room, same) refl

-- A value that is scanned is not empty.
scanned-length :
    (f : ℕ) (p q : JsonShapeParser)
    → 3 * length p.rest + 3 ≤ f
    → parse_value f p ≡ scanned q
    → suc (length q.rest) ≤ length p.rest
scanned-length f p q h e = from_Yields q (subst (Yields (Shorter p)) e (parse_value_enough f p h))
  where
    from_Yields :
        (q : JsonShapeParser) → Yields (Shorter p) (scanned q) → suc (length q.rest) ≤ length p.rest
    from_Yields q (gives k) = k.1

number_step :
    (f : ℕ) (m : Number) (tail : List ℕ) (d : ℕ)
    → IsNumber m
    → ends_number tail ≡ true
    → parse_value (suc f) (at (number_text m tail) d) ≡ scanned (at tail d)
unfolding parse_value
number_step f m tail d h e =
    let front = number_text-NumberFront m tail h in
    let start = number_text m tail in
    let skips : skip_spaces start ≡ start = front.no_space in
    let kind : value_kind start ≡ number_value = front.of_number in
    let whole : skip_space (at start d) ≡ at start d = ap (λ l. at l d) skips in
    rw (parse_value, skips, kind) (ap parse_number whole ∙ parse_number-text m tail d h e)

closed_depth : (l : List ℕ) (d : ℕ) → scanned (at l (suc d - 1)) ≡ scanned (at l d)
closed_depth l d = let e : suc d - 1 ≡ d = omega arith in ap (λ k. scanned (at l k)) e

-- An array that is not empty.
pub array_opens :
    (f : ℕ) (l : List ℕ) (d n : ℕ)
    → suc n + d ≤ 128
    → Solid l
    → parse_array (suc f) (at (91 ∷ l) d) ≡ parse_elements f (at l (suc d))
unfolding parse_array
array_opens f l d n h s =
    let inside : JsonShapeParser → Scan JsonShapeParser =
      λ q. elim (consume 93 q) [ some r ↦ scanned (leave_nesting r) | none ↦ parse_elements f q ] in
    rw (enter-text 91 l d n h) (
      ap (λ m. inside (at m (suc d))) s.skips
      ∙ ap
          (λ o. elim (moved (at l (suc d)) o) [
            | some r ↦ scanned (leave_nesting r)
            | none ↦ parse_elements f (at l (suc d))
          ])
          s.opens)

fields_text-comma :
    (fs : Fields) (tail : List ℕ) (d : ℕ)
    → separator 125 (at (44 ∷ fields_text fs tail) d) ≡ comma_found (at (fields_text fs tail) d)
unfolding separator fields_text
fields_text-comma (last_field k v) tail d = refl
fields_text-comma (field k v fs) tail d = refl

object_opens :
    (f : ℕ) (fs : Fields) (tail : List ℕ) (d n : ℕ)
    → suc n + d ≤ 128
    → parse_object (suc f) (at (123 ∷ fields_text fs tail) d)
      ≡ parse_members f (at (fields_text fs tail) (suc d))
unfolding parse_object fields_text
object_opens f (last_field k v) tail d n h =
    rw (enter-text 123 (fields_text (last_field k v) tail) d n h) refl
object_opens f (field k v fs) tail d n h =
    rw (enter-text 123 (fields_text (field k v fs) tail) d n h) refl

parse_key-text :
    (k : List Piece) (l : List ℕ) (d : ℕ)
    → ArePieces k
    → parse_key (at (quote ∷ string_text k (58 ∷ l)) d) ≡ scanned (at l d)
unfolding parse_key
parse_key-text k l d h = rw (parse_string-text k (58 ∷ l) d h) refl

bracket_closes :
    (tail : List ℕ) (d : ℕ) → separator 93 (at (93 ∷ tail) d) ≡ closing_found (at tail d)
unfolding separator
bracket_closes tail d = refl

brace_closes :
    (tail : List ℕ) (d : ℕ) → separator 125 (at (125 ∷ tail) d) ≡ closing_found (at tail d)
unfolding separator
brace_closes tail d = refl

-- What follows an element, and what follows a field.
abbrev pub element_ends : ℕ → Separator → Scan JsonShapeParser
element_ends f s = elim s [
  | closing_found r ↦ scanned (leave_nesting r)
  | comma_found r ↦ parse_elements f r
  | neither_found ↦ rejected false
]

abbrev member_ends : ℕ → Separator → Scan JsonShapeParser
member_ends f s = elim s [
  | closing_found r ↦ scanned (leave_nesting r)
  | comma_found r ↦ parse_members f r
  | neither_found ↦ rejected false
]

elements_after :
    (f : ℕ) (p q : JsonShapeParser) (s : Separator)
    → parse_value f p ≡ scanned q
    → separator 93 q ≡ s
    → parse_elements (suc f) p ≡ element_ends f s
unfolding parse_elements
elements_after f p q s run e =
    ap (λ o. o >>> λ r. element_ends f (separator 93 r)) run ∙ ap (element_ends f) e

members_after :
    (f : ℕ) (p key q : JsonShapeParser) (s : Separator)
    → parse_key p ≡ scanned key
    → parse_value f key ≡ scanned q
    → separator 125 q ≡ s
    → parse_members (suc f) p ≡ member_ends f s
unfolding parse_members
members_after f p key q s found run e =
    ap (λ o. (o >>> λ r. parse_value f r) >>> λ r. member_ends f (separator 125 r)) found
    ∙ ap (λ o. o >>> λ r. member_ends f (separator 125 r)) run
    ∙ ap (member_ends f) e

mutual
  unfolding text Nests parse_value consume_literal

  value_reads :
      (f : ℕ) (v : Json) (tail : List ℕ) (d n : ℕ)
      → Nests n v
      → n + d ≤ 128
      → ends_number tail ≡ true
      → 3 * length (text v tail) + 3 ≤ f
      → parse_value f (at (text v tail) d) ≡ scanned (at tail d)
  value_reads zero v tail d n w b e h = absurd (omega arith)
  value_reads (suc f) null_json tail d n w b e h = refl
  value_reads (suc f) true_json tail d n w b e h = refl
  value_reads (suc f) false_json tail d n w b e h = refl
  value_reads (suc f) (number_json m) tail d n w b e h = number_step f m tail d w e
  value_reads (suc f) (string_json s) tail d n w b e h = rw (parse_string-text s tail d w) refl
  value_reads (suc zero) empty_array tail d n w b e h = absurd (omega arith)
  value_reads (suc (suc f)) empty_array tail d n w b e h =
      rw (enter-text 91 (93 ∷ tail) d 0 (omega arith)) (closed_depth tail d)
  value_reads (suc zero) empty_object tail d n w b e h = absurd (omega arith)
  value_reads (suc (suc f)) empty_object tail d n w b e h =
      rw (enter-text 123 (125 ∷ tail) d 0 (omega arith)) (closed_depth tail d)
  value_reads (suc f) (array_json is) tail d zero w b e h = absurd w
  value_reads (suc zero) (array_json is) tail d (suc n) w b e h = absurd (omega arith)
  value_reads (suc (suc f)) (array_json is) tail d (suc n) w b e h =
      array_opens f (items_text is tail) d n b (items_text-Solid n is tail w)
      ∙ items_read f is tail (suc d) n w (omega arith) (omega arith)
      ∙ closed_depth tail d
  value_reads (suc f) (object_json fs) tail d zero w b e h = absurd w
  value_reads (suc zero) (object_json fs) tail d (suc n) w b e h = absurd (omega arith)
  value_reads (suc (suc f)) (object_json fs) tail d (suc n) w b e h =
      object_opens f fs tail d n b
      ∙ fields_read f fs tail (suc d) n w (omega arith) (omega arith)
      ∙ closed_depth tail d

  items_read :
      (f : ℕ) (is : Items) (tail : List ℕ) (d n : ℕ)
      → NestsItems n is
      → n + d ≤ 128
      → 3 * length (items_text is tail) + 4 ≤ f
      → parse_elements f (at (items_text is tail) d) ≡ scanned (at tail (d - 1))
  items_read zero is tail d n w b h = absurd (omega arith)
  items_read (suc f) (last_item v) tail d n w b h =
      elements_after f _ _ _ (value_reads f v (93 ∷ tail) d n w b refl (omega arith))
        (bracket_closes tail d)
  items_read (suc f) (item v is) tail d n w b h =
      let run = value_reads f v (44 ∷ items_text is tail) d n w.0 b refl (omega arith) in
      let less = scanned-length f _ _ (omega arith) run in
      elements_after f _ _ _ run
        (separator-comma (items_text is tail) d (items_text-Solid n is tail w.1))
      ∙ items_read f is tail d n w.1 b (omega arith)

  fields_read :
      (f : ℕ) (fs : Fields) (tail : List ℕ) (d n : ℕ)
      → NestsFields n fs
      → n + d ≤ 128
      → 3 * length (fields_text fs tail) + 1 ≤ f
      → parse_members f (at (fields_text fs tail) d) ≡ scanned (at tail (d - 1))
  fields_read zero fs tail d n w b h = absurd (omega arith)
  fields_read (suc f) (last_field k v) tail d n w b h =
      let l = text v (125 ∷ tail) in
      members_after f _ _ _ _ (parse_key-text k l d w.0)
        (value_reads f v (125 ∷ tail) d n w.1 b refl (omega (arith, length-string_text k (58 ∷ l))))
        (brace_closes tail d)
  fields_read (suc f) (field k v fs) tail d n w b h =
      let l = text v (44 ∷ fields_text fs tail) in
      let run =
        value_reads f v (44 ∷ fields_text fs tail) d n w.1 b refl
          (omega (arith, length-string_text k (58 ∷ l))) in
      let less = scanned-length f _ _ (omega (arith, length-string_text k (58 ∷ l))) run in
      members_after f _ _ _ _ (parse_key-text k l d w.0) run (fields_text-comma fs tail d)
      ∙ fields_read f fs tail d n w.2 b (omega (arith, length-string_text k (58 ∷ l)))

-- The text without spaces of any JSON value that is nested within the limit is scanned as a value,
-- and exactly what follows it is left, where neither a digit nor '.', 'e' or 'E' follows. A value is
-- null, a Boolean, a number with any sign, fraction and exponent, a string with any escapes, an array
-- or an object.
pub parse_json_value-text :
    (v : Json) (tail : List ℕ) (d n : ℕ)
    → Nests n v
    → n + d ≤ 128
    → ends_number tail ≡ true
    → parse_json_value (record { rest = text v tail; depth = d })
      ≡ scanned (record { rest = tail; depth = d })
unfolding parse_json_value
parse_json_value-text v tail d n w b e = value_reads _ v tail d n w b e (omega arith)
