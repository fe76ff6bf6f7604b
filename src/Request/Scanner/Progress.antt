-- ===== src/Request/Scanner/Progress.antt =====
-- What the scanning functions take from the body: each ends, and leaves less than it was given.
use phala_inference_guard.Admission.Overlay.{◌>>=◌}
use phala_inference_guard.Base.{
  ℕ, zero, suc, ◌+◌, ◌≤◌, ◌≡◌, ◌≢◌, refl, ap, subst, ltb→lt, Bool-cases, inl, inr, Bool, true,
  false, ◌&&◌, ltb, leb, ◌==◌, if-both, Option, none, some, List, [], ◌∷◌, arith, length,
}
use phala_inference_guard.Request.Bytes.{
  quote, backslash, is_json_hex, is_json_space, is_json_simple_escape, JsonStringSpan,
}
use phala_inference_guard.Request.Scanner.{
  JsonShapeParser, Scan, scanned, rejected, spent, ◌>>>◌, from_option, skip_spaces, after_byte,
  moved, consume, enter, after_all, consume_literal, StringRound, ends, continues, fails,
  escape_round, string_round, prepend, string_rounds, parse_string, if_shorter, number_end,
  parse_number, maximum_json_shape_scan_depth,
}

-- The scan keeps within its fuel, and `P` holds of what it yields, if it does.
pub data Yields {ℓ κ} {A : Type ℓ} (P : A → Type κ) : Scan A → Type (ℓ ⊔ κ) where
  gives : {a : A} → P a → Yields P (scanned a)
  refuses : (limit : Bool) → Yields P (rejected limit)

module _ {ℓ κ} {A : Type ℓ} {P : A → Type κ} where
  pub Yields-spent : {s : Scan A} → Yields P s → s ≢ spent
  Yields-spent (gives h) = cc
  Yields-spent (refuses limit) = cc

  pub Yields-then {ℓ' κ'} :
      {B : Type ℓ'} {Q : B → Type κ'} {s : Scan A} {f : A → Scan B}
      → Yields P s
      → ((a : A) → P a → Yields Q (f a))
      → Yields Q (s >>> f)
  Yields-then (gives {a} h) k = k a h
  Yields-then (refuses limit) k = refuses limit

pub Yields-weaken {ℓ κ ℓ'} :
    {A : Type ℓ} {P : A → Type κ} {Q : A → Type ℓ'} {s : Scan A}
    → Yields P s
    → ((a : A) → P a → Q a)
    → Yields Q s
Yields-weaken (gives {a} h) k = gives (k a h)
Yields-weaken (refuses limit) k = refuses limit

-- Of the same depth, with less of the body left.
abbrev pub Shorter : JsonShapeParser → JsonShapeParser → Type 0
Shorter p q = (q.depth ≡ p.depth) × (suc (length q.rest) ≤ length p.rest)

pub length-skip_spaces : (cs : List ℕ) → length (skip_spaces cs) ≤ length cs
length-skip_spaces [] = omega arith
length-skip_spaces (c ∷ cs) =
    if-both (λ l. length l ≤ suc (length cs)) (is_json_space c)
      (omega (arith, length-skip_spaces cs)) (omega arith)

moved-split {κ} :
    (P : Option JsonShapeParser → Type κ) (v : ℕ) (p : JsonShapeParser) (cs : List ℕ)
    → P none
    → ((ds : List ℕ) → suc (length ds) ≤ length cs → P (some (record p { rest = ds })))
    → P (moved p (after_byte v cs))
moved-split P v p [] n s = n
moved-split P v p (c ∷ cs) n s = if-both (λ o. P (moved p o)) (c == v) (s cs (omega arith)) n

-- To split on whether a byte is consumed.
pub consume-split {κ} :
    (P : Option JsonShapeParser → Type κ) (v : ℕ) (p : JsonShapeParser)
    → P none
    → ((q : JsonShapeParser) → Shorter p q → P (some q))
    → P (consume v p)
consume-split P v p n s = moved-split P v p p.rest n λ ds h. s (record p { rest = ds }) (refl, h)

after-Yields :
    (v : ℕ) (cs : List ℕ)
    → Yields (λ ds. suc (length ds) ≤ length cs) (from_option (after_byte v cs))
after-Yields v [] = refuses false
after-Yields v (c ∷ cs) =
    if-both (λ o. Yields (λ (ds : List ℕ). suc (length ds) ≤ suc (length cs)) (from_option o))
      (c == v) (gives (omega arith)) (refuses false)

pub consume-Yields : (v : ℕ) (p : JsonShapeParser) → Yields (Shorter p) (from_option (consume v p))
consume-Yields v p =
    consume-split (λ o. Yields (Shorter p) (from_option o)) v p (refuses false) λ q h. gives h

-- What a round of `parseString` leaves.
abbrev Leaves : List ℕ → StringRound → Type 0
Leaves rest fails = Unit
Leaves rest (ends more) = suc (length more) ≤ length rest
Leaves rest (continues chunk escaped more) = suc (length more) ≤ length rest

escape_round-Leaves : (rest : List ℕ) → Leaves rest (escape_round rest)
escape_round-Leaves [] = tt
escape_round-Leaves (e ∷ []) =
    if-both (Leaves (e ∷ [])) (e == 117) tt
      (if-both (Leaves (e ∷ [])) (is_json_simple_escape e) (omega arith) tt)
escape_round-Leaves (e ∷ a ∷ []) =
    if-both (Leaves (e ∷ a ∷ [])) (e == 117) tt
      (if-both (Leaves (e ∷ a ∷ [])) (is_json_simple_escape e) (omega arith) tt)
escape_round-Leaves (e ∷ a ∷ b ∷ []) =
    if-both (Leaves (e ∷ a ∷ b ∷ [])) (e == 117) tt
      (if-both (Leaves (e ∷ a ∷ b ∷ [])) (is_json_simple_escape e) (omega arith) tt)
escape_round-Leaves (e ∷ a ∷ b ∷ c ∷ []) =
    if-both (Leaves (e ∷ a ∷ b ∷ c ∷ [])) (e == 117) tt
      (if-both (Leaves (e ∷ a ∷ b ∷ c ∷ [])) (is_json_simple_escape e) (omega arith) tt)
escape_round-Leaves (e ∷ a ∷ b ∷ c ∷ d ∷ more) =
    let P = Leaves (e ∷ a ∷ b ∷ c ∷ d ∷ more) in
    if-both P (e == 117)
      (if-both P (is_json_hex a && (is_json_hex b && (is_json_hex c && is_json_hex d)))
        (omega arith) tt)
      (if-both P (is_json_simple_escape e) (omega arith) tt)

Leaves-more : (c : ℕ) (rest : List ℕ) (r : StringRound) → Leaves rest r → Leaves (c ∷ rest) r
Leaves-more c rest fails h = tt
Leaves-more c rest (ends more) h = omega arith
Leaves-more c rest (continues chunk escaped more) h = omega arith

string_round-Leaves : (rest : List ℕ) → Leaves rest (string_round rest)
unfolding string_round
string_round-Leaves [] = tt
string_round-Leaves (c ∷ rest) =
    let P = Leaves (c ∷ rest) in
    if-both P (c == quote) (omega arith) (
      if-both P (c == backslash) (Leaves-more c rest _ (escape_round-Leaves rest))
        (if-both P (ltb c 32) tt (omega arith)))

-- The result of the rounds of `parseString`.
abbrev Cut : List ℕ → JsonStringSpan × List ℕ → Type 0
Cut rest (span, more) = suc (length more) ≤ length rest

string_rounds-Yields :
    (n : ℕ) (rest : List ℕ) → suc (length rest) ≤ n → Yields (Cut rest) (string_rounds n rest)
unfolding string_rounds
string_rounds-Yields zero rest h = absurd (omega arith)
string_rounds-Yields (suc n) rest h =
    round (λ more g. string_rounds-Yields n more g) (string_round rest) (string_round-Leaves rest)
  where
    round :
        ((more : List ℕ) → suc (length more) ≤ n → Yields (Cut more) (string_rounds n more))
        → (r : StringRound) → Leaves rest r
        → Yields (Cut rest) (elim r [
          | ends more ↦ scanned (record { raw = []; escaped = false }, more)
          | fails ↦ rejected false
          | continues chunk escaped more ↦
              string_rounds n more >>> λ found. scanned (prepend chunk escaped found)
        ])
    round again (ends more) l = gives l
    round again fails l = refuses false
    round again (continues chunk escaped more) l =
        Yields-then (again more (omega arith)) λ (span, left) m. gives (omega arith)

pub parse_string-Yields : (p : JsonShapeParser) → Yields (λ a. Shorter p a.1) (parse_string p)
unfolding parse_string
parse_string-Yields p = Yields-then (after-Yields quote p.rest) λ body h.
    Yields-then (string_rounds-Yields (suc (length body)) body (omega arith))
      λ (span, rest) k. gives (refl, omega arith)

moved-Yields :
    (p : JsonShapeParser) (o : Option (List ℕ))
    → ((ds : List ℕ) → o ≡ some ds → suc (length ds) ≤ length p.rest)
    → Yields (Shorter p) (from_option (moved p o))
moved-Yields p none h = refuses false
moved-Yields p (some ds) h = gives (refl, h ds refl)

if_shorter-length :
    (start ds : List ℕ) (o : Option (List ℕ))
    → (o >>= λ rest. if_shorter start rest) ≡ some ds
    → suc (length ds) ≤ length start
if_shorter-length start ds none e = cc
if_shorter-length start ds (some rest) e = elim (Bool-cases (ltb (length rest) (length start))) [
  | inl less ↦
      let same : some rest ≡ some ds = rw less at e in
      subst (λ l. suc (length l) ≤ length start) (cc) (ltb→lt (length rest) (length start) less)
  | inr more ↦ absurd (let wrong : none ≡ some ds = rw more at e in cc)
]

pub parse_number-Yields : (p : JsonShapeParser) → Yields (Shorter p) (parse_number p)
unfolding parse_number
parse_number-Yields p = moved-Yields p _ λ ds e. if_shorter-length p.rest ds (number_end p.rest) e

after_all-length :
    (word cs ds : List ℕ) → after_all word cs ≡ some ds → length ds + length word ≡ length cs
after_all-length [] cs ds e = let l : length ds ≡ length cs = ap length (cc) in omega arith
after_all-length (v ∷ vs) [] ds e = cc
after_all-length (v ∷ vs) (c ∷ cs) ds e = ground (arith, after_all-length vs cs ds)

pub consume_literal-Yields :
    (word : List ℕ) (p : JsonShapeParser)
    → 1 ≤ length word
    → Yields (Shorter p) (consume_literal word p)
unfolding consume_literal
consume_literal-Yields word p h =
    moved-Yields p _ λ ds e. let n = after_all-length word p.rest ds e in omega arith

pub enter-Yields :
    (opening : ℕ) (p : JsonShapeParser)
    → Yields
        (λ q. (q.depth ≡ suc p.depth) × (suc (length q.rest) ≤ length p.rest))
        (enter opening p)
unfolding enter
enter-Yields opening p =
    if-both (Yields _) (leb maximum_json_shape_scan_depth p.depth) (refuses true)
      (Yields-then (consume-Yields opening p) λ q h. gives (ap suc h.0, h.1))
