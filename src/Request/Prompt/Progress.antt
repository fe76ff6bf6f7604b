-- ===== src/Request/Prompt/Progress.antt =====
-- The scan of a prompt ends, and takes at least one byte.
use phala_inference_guard.Base.{
  ℕ, zero, suc, ◌-◌, ◌≤◌, ◌≡◌, ◌∙◌, ap, Bool, true, false, not, ◌&&◌, ◌==◌, if-both, none, some,
  List, [], ◌∷◌, arith, length,
}
use phala_inference_guard.Go.Words.{max_int64}
use phala_inference_guard.Request.Bytes.{quote}
use phala_inference_guard.Request.Scanner.{
  JsonShapeParser, Scan, scanned, rejected, ◌>>>◌, skip_space, consume, enter, leave_nesting,
}
use phala_inference_guard.Request.Scanner.Progress.{
  Yields, gives, refuses, Yields-then, Yields-weaken, length-skip_spaces, consume-split,
  parse_string-Yields, enter-Yields,
}
use phala_inference_guard.Request.Values.{
  Separator, closing_found, comma_found, neither_found, separator,
}
use phala_inference_guard.Request.Values.Fuel.{
  Separates, separator-Separates, parse_json_value-Yields,
}
use phala_inference_guard.Request.Numbers.{parse_nonnegative_int64}
use phala_inference_guard.Request.Prompt.{
  text_between, is_number, token_elements, parse_token_array, prompt_element_at,
  parse_prompt_element, PromptElements, no_elements, add_element, prompt_count, prompt_elements,
  prompt_at, parse_completion_prompt,
}

-- A loop over elements in brackets ends with the depth before them.
abbrev pub Leaves {ℓ} : {A : Type ℓ} → ℕ → JsonShapeParser → A × JsonShapeParser → Type 0
Leaves d p a = (a.1.depth ≡ d) × (suc (length a.1.rest) ≤ length p.rest)

-- The end of a round of a loop, from the element's end `q` on.
pub Yields-separator {ℓ} :
    {A : Type ℓ} (v f d : ℕ) (p q : JsonShapeParser) (found : A)
    (again : JsonShapeParser → Scan (A × JsonShapeParser))
    → q.depth ≡ suc d
    → suc (length q.rest) ≤ length p.rest
    → suc (length p.rest) ≤ suc f
    → ((r : JsonShapeParser)
        → r.depth ≡ suc d
        → suc (length r.rest) ≤ f
        → Yields (Leaves d r) (again r))
    → (s : Separator) → Separates q s
    → Yields (Leaves d p) (elim s [
      | closing_found r ↦ scanned (found, leave_nesting r)
      | comma_found r ↦ again r
      | neither_found ↦ rejected false
    ])
Yields-separator v f d p q found again e l h rec (closing_found r) k =
    gives (ap (λ n. n - 1) (k.0 ∙ e) ∙ omega arith, omega arith)
Yields-separator v f d p q found again e l h rec (comma_found r) k =
    Yields-weaken (rec r (k.0 ∙ e) (omega arith)) λ t w. (w.0, omega arith)
Yields-separator v f d p q found again e l h rec neither_found k = refuses false

token_elements-Yields :
    (f : ℕ) (supported : Bool) (p : JsonShapeParser) (d : ℕ)
    → p.depth ≡ suc d
    → suc (length p.rest) ≤ f
    → Yields (Leaves d p) (token_elements f supported p)
unfolding token_elements
token_elements-Yields zero supported p d e h = absurd (omega arith)
token_elements-Yields (suc f) supported p d e h = Yields-then (parse_json_value-Yields p) λ q k.
    let now = supported && is_number (parse_nonnegative_int64 (text_between p q)) in
    Yields-separator 93 f d p q now (token_elements f now) (k.0 ∙ e) k.1 h
      (λ r e' h'. token_elements-Yields f now r d e' h') (separator 93 q) (separator-Separates 93 q)

-- An array whose opening bracket stands in front.
Yields-array {ℓ} :
    {A : Type ℓ} (p : JsonShapeParser) (empty : A)
    (loop : JsonShapeParser → ℕ → Scan (A × JsonShapeParser))
    → ((q : JsonShapeParser) (f d : ℕ)
        → q.depth ≡ suc d
        → suc (length q.rest) ≤ f
        → Yields (Leaves d q) (loop q f))
    → Yields (Leaves p.depth p) (
        enter 91 p >>> λ q. elim (consume 93 (skip_space q)) [
          | some r ↦ scanned (empty, leave_nesting r)
          | none ↦ loop (skip_space q) (suc (length q.rest))
        ])
Yields-array p empty loop runs = Yields-then (enter-Yields 91 p) λ q k.
    let le = length-skip_spaces q.rest in
    consume-split
      (λ o. Yields (Leaves p.depth p) (elim o [
        | some r ↦ scanned (empty, leave_nesting r)
        | none ↦ loop (skip_space q) (suc (length q.rest))
      ]))
      93 (skip_space q)
      (Yields-weaken (runs (skip_space q) (suc (length q.rest)) p.depth k.0 (omega arith))
        λ t w. (w.0, omega arith))
      λ r m. gives (ap (λ n. n - 1) (m.0 ∙ k.0) ∙ omega arith, omega arith)

parse_token_array-Yields : (p : JsonShapeParser) → Yields (Leaves p.depth p) (parse_token_array p)
unfolding parse_token_array
parse_token_array-Yields p =
    Yields-array p true (λ q f. token_elements f true q)
      λ q f d e h. token_elements-Yields f true q d e h

prompt_element_at-Yields :
    (p : JsonShapeParser) (cs : List ℕ) → Yields (Leaves p.depth p) (prompt_element_at p cs)
unfolding prompt_element_at
prompt_element_at-Yields p [] = refuses false
prompt_element_at-Yields p (c ∷ cs) =
    if-both (Yields (Leaves p.depth p)) (c == quote)
      (Yields-then (parse_string-Yields p) λ (span, q) k. gives k)
      (if-both (Yields (Leaves p.depth p)) (c == 91)
        (Yields-then (parse_token_array-Yields p) λ (supported, q) k. gives k)
        (Yields-then (parse_json_value-Yields p) λ q k. gives k))

parse_prompt_element-Yields :
    (p : JsonShapeParser) → Yields (Leaves p.depth p) (parse_prompt_element p)
unfolding parse_prompt_element
parse_prompt_element-Yields p =
    let le = length-skip_spaces p.rest in
    Yields-weaken (prompt_element_at-Yields (skip_space p) (skip_space p).rest)
      λ t w. (w.0, omega arith)

Yields-choice {ℓ κ} :
    {A : Type ℓ} {P : A → Type κ} (b : Bool) {x y : Scan A}
    → Yields P x
    → Yields P y
    → Yields P (elim b [ true ↦ x | false ↦ y ])
Yields-choice true p q = p
Yields-choice false p q = q

prompt_elements-Yields :
    (f : ℕ) (s : PromptElements) (p : JsonShapeParser) (d : ℕ)
    → p.depth ≡ suc d
    → suc (length p.rest) ≤ f
    → Yields (Leaves d p) (prompt_elements f s p)
unfolding prompt_elements
prompt_elements-Yields zero s p d e h = absurd (omega arith)
prompt_elements-Yields (suc f) s p d e h = Yields-then (parse_prompt_element-Yields p) λ (k, q) w.
    let t = add_element s k in
    Yields-choice (s.count == max_int64)
      (gives (ap (λ n. n - 1) (w.0 ∙ e) ∙ omega arith, omega arith))
      (Yields-separator 93 f d p q (prompt_count t.kind t.count t.supported) (prompt_elements f t)
        (w.0 ∙ e) w.1 h (λ r e' h'. prompt_elements-Yields f t r d e' h') (separator 93 q)
        (separator-Separates 93 q))

prompt_at-Yields : (p : JsonShapeParser) (cs : List ℕ) → Yields (Leaves p.depth p) (prompt_at p cs)
unfolding prompt_at
prompt_at-Yields p [] = refuses false
prompt_at-Yields p (c ∷ cs) =
    if-both (Yields (Leaves p.depth p)) (c == quote)
      (Yields-then (parse_string-Yields p) λ (span, q) k. gives k)
      (if-both (Yields (Leaves p.depth p)) (not (c == 91))
        (Yields-then (parse_json_value-Yields p) λ q k. gives k)
        (Yields-array p (1, true) (λ q f. prompt_elements f no_elements q)
          λ q f d e h. prompt_elements-Yields f no_elements q d e h))

pub parse_completion_prompt-Yields :
    (p : JsonShapeParser) → Yields (Leaves p.depth p) (parse_completion_prompt p)
unfolding parse_completion_prompt
parse_completion_prompt-Yields p =
    let le = length-skip_spaces p.rest in
    Yields-weaken (prompt_at-Yields (skip_space p) (skip_space p).rest) λ t w. (w.0, omega arith)
