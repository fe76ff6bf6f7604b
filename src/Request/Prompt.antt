-- ===== src/Request/Prompt.antt =====
-- tps_shape.go: `parseCompletionPrompt`, how many prompts a completion request holds.
pub mod Progress
use phala_inference_guard.Base.{
  ℕ, zero, suc, ◌+◌, ◌-◌, Bool, true, false, not, ◌&&◌, ◌==◌, if◌then◌else◌, Option, none, some,
  List, [], ◌∷◌, length, take,
}
use phala_inference_guard.Go.Words.{max_int64}
use phala_inference_guard.Request.Bytes.{quote}
use phala_inference_guard.Request.Scanner.{
  JsonShapeParser, Scan, scanned, rejected, spent, ◌>>>◌, skip_space, consume, enter, leave_nesting,
  parse_string,
}
use phala_inference_guard.Request.Values.{
  separator, closing_found, comma_found, neither_found, parse_json_value,
}
use phala_inference_guard.Request.Numbers.{parse_nonnegative_int64}

pub data PromptElementKind : Type 0 where
  prompt_element_unsupported prompt_element_string : PromptElementKind
  prompt_element_token prompt_element_token_array : PromptElementKind

abbrev pub same_kind : PromptElementKind → PromptElementKind → Bool
same_kind prompt_element_unsupported prompt_element_unsupported = true
same_kind prompt_element_string prompt_element_string = true
same_kind prompt_element_token prompt_element_token = true
same_kind prompt_element_token_array prompt_element_token_array = true
same_kind _ _ = false

abbrev pub is_supported_kind : PromptElementKind → Bool
is_supported_kind prompt_element_unsupported = false
is_supported_kind _ = true

-- `body[start:index]`, of the parser at the start and the parser now.
abbrev pub text_between : JsonShapeParser → JsonShapeParser → List ℕ
text_between start now = take (length start.rest - length now.rest) start.rest

abbrev pub is_number : Option ℕ → Bool
is_number none = false
is_number (some n) = true

-- The loop of `parseTokenArray`, at an element; each round takes at least one byte.
unfoldable pub token_elements : ℕ → Bool → JsonShapeParser → Scan (Bool × JsonShapeParser)
token_elements zero supported p = spent
token_elements (suc f) supported p = parse_json_value p >>> λ q.
    let now = supported && is_number (parse_nonnegative_int64 (text_between p q)) in
    elim (separator 93 q) [
      | closing_found r ↦ scanned (now, leave_nesting r)
      | comma_found r ↦ token_elements f now r
      | neither_found ↦ rejected false
    ]

unfoldable pub parse_token_array : JsonShapeParser → Scan (Bool × JsonShapeParser)
unfolding token_elements
parse_token_array p = enter 91 p >>> λ q. elim (consume 93 (skip_space q)) [
  | some r ↦ scanned (true, leave_nesting r)
  | none ↦ token_elements (suc (length q.rest)) true (skip_space q)
]

abbrev pub token_kind : Option ℕ → PromptElementKind
token_kind none = prompt_element_unsupported
token_kind (some n) = prompt_element_token

abbrev pub array_kind : Bool → PromptElementKind
array_kind true = prompt_element_token_array
array_kind false = prompt_element_unsupported

-- `parsePromptElement`, after its skip of space.
unfoldable pub prompt_element_at :
    JsonShapeParser → List ℕ → Scan (PromptElementKind × JsonShapeParser)
unfolding parse_token_array
prompt_element_at p [] = rejected false
prompt_element_at p (c ∷ cs) =
    if c == quote
    then parse_string p >>> (λ (span, q). scanned (prompt_element_string, q))
    else if c == 91
    then parse_token_array p >>> (λ (supported, q). scanned (array_kind supported, q))
    else (parse_json_value p >>> λ q.
        scanned (token_kind (parse_nonnegative_int64 (text_between p q)), q))

unfoldable pub parse_prompt_element : JsonShapeParser → Scan (PromptElementKind × JsonShapeParser)
unfolding prompt_element_at
parse_prompt_element p = prompt_element_at (skip_space p) (skip_space p).rest

-- What the loop of `parseCompletionPrompt` holds: no kind before the first element, and none while
-- the elements are of no supported kind.
pub record PromptElements : Type 0 where
  pub count : ℕ
  pub kind : PromptElementKind
  pub supported : Bool

abbrev pub no_elements : PromptElements
no_elements = record { count = 0; kind = prompt_element_unsupported; supported = true }

unfoldable pub add_element : PromptElements → PromptElementKind → PromptElements
add_element s k = record {
  count = s.count + 1;
  kind = if is_supported_kind s.kind then s.kind else k;
  supported =
      s.supported
      && ((if is_supported_kind s.kind then same_kind s.kind k else true) && is_supported_kind k);
}

-- The number of prompts, and whether it is supported.
abbrev pub prompt_count : PromptElementKind → ℕ → Bool → ℕ × Bool
prompt_count prompt_element_string count supported = (count, supported)
prompt_count prompt_element_token_array count supported = (count, supported)
prompt_count prompt_element_token count supported = (1, supported)
prompt_count prompt_element_unsupported count supported = (1, false)

unfoldable pub prompt_elements :
    ℕ → PromptElements → JsonShapeParser → Scan ((ℕ × Bool) × JsonShapeParser)
unfolding parse_prompt_element add_element
prompt_elements zero s p = spent
prompt_elements (suc f) s p = parse_prompt_element p >>> λ (k, q). elim (s.count == max_int64) [
  | true ↦ scanned ((0, false), leave_nesting q)
  | false ↦ elim (separator 93 q) [
    | closing_found r ↦
        let t = add_element s k in
        scanned (prompt_count t.kind t.count t.supported, leave_nesting r)
    | comma_found r ↦ prompt_elements f (add_element s k) r
    | neither_found ↦ rejected false
  ]
]

unfoldable pub prompt_at : JsonShapeParser → List ℕ → Scan ((ℕ × Bool) × JsonShapeParser)
unfolding prompt_elements
prompt_at p [] = rejected false
prompt_at p (c ∷ cs) =
    if c == quote
    then parse_string p >>> (λ (span, q). scanned ((1, true), q))
    else if not (c == 91)
    then (parse_json_value p >>> λ q. scanned ((1, false), q))
    else (enter 91 p >>> λ q. elim (consume 93 (skip_space q)) [
      | some r ↦ scanned ((1, true), leave_nesting r)
      | none ↦ prompt_elements (suc (length q.rest)) no_elements (skip_space q)
    ])

unfoldable pub parse_completion_prompt : JsonShapeParser → Scan ((ℕ × Bool) × JsonShapeParser)
unfolding prompt_at
parse_completion_prompt p = prompt_at (skip_space p) (skip_space p).rest
