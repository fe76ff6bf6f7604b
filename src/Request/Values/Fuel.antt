-- ===== src/Request/Values/Fuel.antt =====
-- The recursion of `parseValue` ends, and what it leaves.
use phala_inference_guard.Base.{
  ℕ, zero, suc, ◌+◌, ◌-◌, ◌*◌, ◌≤◌, ◌≡◌, refl, ◌∙◌, ap, false, if-both, none, some, List, [], ◌∷◌,
  arith, length,
}
use phala_inference_guard.Request.Scanner.{
  JsonShapeParser, scanned, rejected, ◌>>>◌, skip_space, leave_nesting, consume_literal,
  parse_string, parse_number,
}
use phala_inference_guard.Request.Scanner.Progress.{
  Yields, gives, refuses, Yields-then, Yields-weaken, Shorter, length-skip_spaces, consume-split,
  consume-Yields, parse_string-Yields, parse_number-Yields, consume_literal-Yields, enter-Yields,
}
use phala_inference_guard.Request.Values.{
  ValueKind, no_value, object_value, array_value, string_value, number_value, literal_value,
  value_kind, closes_early, Separator, closing_found, comma_found, neither_found, after_comma,
  closing_or_comma, separator, parse_key, parse_value, parse_object, parse_members, parse_array,
  parse_elements, value_fuel, parse_json_value,
}

-- What a separator leaves.
abbrev pub Separates : JsonShapeParser → Separator → Type 0
Separates p (closing_found q) = Shorter p q
Separates p (comma_found q) = Shorter p q
Separates p neither_found = Unit

Shorter-skip : (p q : JsonShapeParser) → Shorter (skip_space p) q → Shorter p q
Shorter-skip p q h = let le = length-skip_spaces p.rest in (h.0, omega arith)

skip-Shorter : (p q : JsonShapeParser) → Shorter p q → Shorter p (skip_space q)
skip-Shorter p q h = let le = length-skip_spaces q.rest in (h.0, omega arith)

pub separator-Separates : (v : ℕ) (p : JsonShapeParser) → Separates p (separator v p)
unfolding separator
separator-Separates v p =
    consume-split (λ o. Separates p (closing_or_comma v (skip_space p) o)) v (skip_space p)
      (consume-split (λ o. Separates p (after_comma v o)) 44 (skip_space p) tt
        λ q h.
          if-both (Separates p) (closes_early v (skip_space q).rest) tt
            (skip-Shorter p q (Shorter-skip p q h)))
      (λ q h. Shorter-skip p q h)

parse_key-Yields : (p : JsonShapeParser) → Yields (Shorter p) (parse_key p)
unfolding parse_key
parse_key-Yields p = Yields-then (parse_string-Yields p) λ (key, q) h.
    Yields-weaken (consume-Yields 58 (skip_space q))
      λ r k. (k.0 ∙ h.0, let le = length-skip_spaces q.rest in omega arith)

-- Of a given depth, with less of the body left.
abbrev Within : ℕ → JsonShapeParser → JsonShapeParser → Type 0
Within d p q = (q.depth ≡ d) × (suc (length q.rest) ≤ length p.rest)

value_kind-length : (cs word : List ℕ) → value_kind cs ≡ literal_value word → 1 ≤ length word
value_kind-length [] word e = cc
value_kind-length (c ∷ cs) word e = ground arith

-- Enough fuel for the five functions.
record Runs (f : ℕ) : Type 0 where
  value_runs :
      (p : JsonShapeParser) → 3 * length p.rest + 3 ≤ f → Yields (Shorter p) (parse_value f p)
  object_runs :
      (p : JsonShapeParser) → 3 * length p.rest + 2 ≤ f → Yields (Shorter p) (parse_object f p)
  members_run :
      (p : JsonShapeParser) (d : ℕ)
      → p.depth ≡ suc d
      → 3 * length p.rest + 1 ≤ f
      → Yields (Within d p) (parse_members f p)
  array_runs :
      (p : JsonShapeParser) → 3 * length p.rest + 2 ≤ f → Yields (Shorter p) (parse_array f p)
  elements_run :
      (p : JsonShapeParser) (d : ℕ)
      → p.depth ≡ suc d
      → 3 * length p.rest + 4 ≤ f
      → Yields (Within d p) (parse_elements f p)

Runs-none : Runs zero
Runs-none = record {
  value_runs = λ p h. absurd (omega arith);
  object_runs = λ p h. absurd (omega arith);
  members_run = λ p d e h. absurd (omega arith);
  array_runs = λ p h. absurd (omega arith);
  elements_run = λ p d e h. absurd (omega arith);
}

module _ (f : ℕ) (runs : Runs f) where
  -- The switch of `parseValue`.
  kind_runs :
      (p : JsonShapeParser) (k : ValueKind)
      → ((word : List ℕ) → k ≡ literal_value word → 1 ≤ length word)
      → 3 * length p.rest + 2 ≤ f
      → Yields (Shorter p) (elim k [
        | no_value ↦ rejected false
        | object_value ↦ parse_object f p
        | array_value ↦ parse_array f p
        | string_value ↦ parse_string p >>> λ (span, q). scanned q
        | literal_value word ↦ consume_literal word p
        | number_value ↦ parse_number p
      ])
  kind_runs p no_value w h = refuses false
  kind_runs p object_value w h = runs.object_runs p h
  kind_runs p array_value w h = runs.array_runs p h
  kind_runs p string_value w h = Yields-then (parse_string-Yields p) λ (span, q) k. gives k
  kind_runs p (literal_value word) w h = consume_literal-Yields word p (w word refl)
  kind_runs p number_value w h = parse_number-Yields p

  value_step :
      (p : JsonShapeParser)
      → 3 * length p.rest + 3 ≤ suc f
      → Yields (Shorter p) (parse_value (suc f) p)
  unfolding parse_value
  value_step p h =
      let le = length-skip_spaces p.rest in
      let run =
        kind_runs (skip_space p) (value_kind (skip_space p).rest)
          (λ word e. value_kind-length (skip_space p).rest word e) (omega arith) in
      Yields-weaken run λ q k. (k.0, omega arith)

  members_end :
      (p q : JsonShapeParser) (d : ℕ) (s : Separator)
      → q.depth ≡ suc d
      → suc (length q.rest) ≤ length p.rest
      → 3 * length p.rest ≤ f
      → Separates q s
      → Yields (Within d p) (elim s [
        | closing_found r ↦ scanned (leave_nesting r)
        | comma_found r ↦ parse_members f r
        | neither_found ↦ rejected false
      ])
  members_end p q d (closing_found r) e l h k =
      gives (ap (λ n. n - 1) (k.0 ∙ e) ∙ omega arith, omega arith)
  members_end p q d (comma_found r) e l h k =
      Yields-weaken (runs.members_run r d (k.0 ∙ e) (omega arith)) λ t w. (w.0, omega arith)
  members_end p q d neither_found e l h k = refuses false

  members_step :
      (p : JsonShapeParser) (d : ℕ)
      → p.depth ≡ suc d
      → 3 * length p.rest + 1 ≤ suc f
      → Yields (Within d p) (parse_members (suc f) p)
  unfolding parse_members
  members_step p d e h =
      Yields-then {P = Within (suc d) p}
        (Yields-then (parse_key-Yields p) λ q k.
          Yields-weaken (runs.value_runs q (omega arith)) λ r m. (m.0 ∙ k.0 ∙ e, omega arith))
        λ q k. members_end p q d (separator 125 q) k.0 k.1 (omega arith) (separator-Separates 125 q)

  elements_end :
      (p q : JsonShapeParser) (d : ℕ) (s : Separator)
      → q.depth ≡ suc d
      → suc (length q.rest) ≤ length p.rest
      → 3 * length p.rest ≤ f
      → Separates q s
      → Yields (Within d p) (elim s [
        | closing_found r ↦ scanned (leave_nesting r)
        | comma_found r ↦ parse_elements f r
        | neither_found ↦ rejected false
      ])
  elements_end p q d (closing_found r) e l h k =
      gives (ap (λ n. n - 1) (k.0 ∙ e) ∙ omega arith, omega arith)
  elements_end p q d (comma_found r) e l h k =
      Yields-weaken (runs.elements_run r d (k.0 ∙ e) (omega arith)) λ t w. (w.0, omega arith)
  elements_end p q d neither_found e l h k = refuses false

  elements_step :
      (p : JsonShapeParser) (d : ℕ)
      → p.depth ≡ suc d
      → 3 * length p.rest + 4 ≤ suc f
      → Yields (Within d p) (parse_elements (suc f) p)
  unfolding parse_elements
  elements_step p d e h = Yields-then (runs.value_runs p (omega arith)) λ q k.
      elements_end p q d (separator 93 q) (k.0 ∙ e) k.1 (omega arith) (separator-Separates 93 q)

  object_step :
      (p : JsonShapeParser)
      → 3 * length p.rest + 2 ≤ suc f
      → Yields (Shorter p) (parse_object (suc f) p)
  unfolding parse_object
  object_step p h = Yields-then (enter-Yields 123 p) λ q k.
      let le = length-skip_spaces q.rest in
      consume-split
        (λ o.
          Yields (Shorter p)
            (elim o [ some r ↦ scanned (leave_nesting r) | none ↦ parse_members f (skip_space q) ]))
        125 (skip_space q)
        (Yields-weaken (runs.members_run (skip_space q) p.depth k.0 (omega arith))
          λ t w. (w.0, omega arith))
        λ r m. gives (ap (λ n. n - 1) (m.0 ∙ k.0) ∙ omega arith, omega arith)

  array_step :
      (p : JsonShapeParser)
      → 3 * length p.rest + 2 ≤ suc f
      → Yields (Shorter p) (parse_array (suc f) p)
  unfolding parse_array
  array_step p h = Yields-then (enter-Yields 91 p) λ q k.
      let le = length-skip_spaces q.rest in
      consume-split
        (λ o.
          Yields (Shorter p) (elim o [
            | some r ↦ scanned (leave_nesting r)
            | none ↦ parse_elements f (skip_space q)
          ]))
        93 (skip_space q)
        (Yields-weaken (runs.elements_run (skip_space q) p.depth k.0 (omega arith))
          λ t w. (w.0, omega arith))
        λ r m. gives (ap (λ n. n - 1) (m.0 ∙ k.0) ∙ omega arith, omega arith)

all_run : (f : ℕ) → Runs f
all_run zero = Runs-none
all_run (suc f) = record {
  value_runs = value_step f (all_run f);
  object_runs = object_step f (all_run f);
  members_run = members_step f (all_run f);
  array_runs = array_step f (all_run f);
  elements_run = elements_step f (all_run f);
}

-- Any fuel from three units for each byte and three more is enough to scan a value; a value that is
-- scanned leaves the depth as it was, and takes at least one byte.
pub parse_value_enough :
    (f : ℕ) (p : JsonShapeParser) → 3 * length p.rest + 3 ≤ f → Yields (Shorter p) (parse_value f p)
parse_value_enough f p h = (all_run f).value_runs p h

pub parse_json_value-Yields : (p : JsonShapeParser) → Yields (Shorter p) (parse_json_value p)
unfolding parse_json_value
parse_json_value-Yields p = parse_value_enough (value_fuel p) p (omega arith)
