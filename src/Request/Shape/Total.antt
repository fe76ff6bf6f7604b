-- ===== src/Request/Shape/Total.antt =====
-- The scan of any body ends with a result.
use phala_inference_guard.Base.{
  ℕ, zero, suc, ◌-◌, ◌≤◌, ◌≡◌, refl, ◌∙◌, ap, Bool, true, false, ◌&&◌, if-both, Option, none, some,
  List, arith, length,
}
use phala_inference_guard.Request.Bytes.{JsonStringSpan, json_string_span_equals}
use phala_inference_guard.Request.Scanner.{
  JsonShapeParser, Scan, scanned, skip_space, skip_spaces, leave_nesting,
}
use phala_inference_guard.Request.Scanner.Progress.{
  Yields, gives, refuses, Yields-then, Yields-weaken, length-skip_spaces, consume-split,
  consume-Yields, parse_string-Yields, enter-Yields,
}
use phala_inference_guard.Request.Values.{separator}
use phala_inference_guard.Request.Values.Fuel.{separator-Separates, parse_json_value-Yields}
use phala_inference_guard.Request.Prompt.Progress.{
  Leaves, Yields-separator, parse_completion_prompt-Yields,
}
use phala_inference_guard.Request.Shape.{
  EndpointKind, TpsRequestShape, RootState, prompt_key, is_completions, parse_field, parse_root_key,
  parse_root_field, root_fields, finalized, initial_root, parse_root_object, shape_result,
  empty_shape, scannable, parse_tps_request_shape,
}

parse_root_key-Yields : (p : JsonShapeParser) → Yields (Leaves p.depth p) (parse_root_key p)
unfolding parse_root_key
parse_root_key-Yields p = Yields-then (parse_string-Yields p) λ (key, q) h.
    Yields-then (consume-Yields 58 (skip_space q)) λ r k. gives (
      k.0 ∙ h.0,
      let le = length-skip_spaces q.rest in let le' = length-skip_spaces r.rest in omega arith,
    )

parse_field-Yields :
    (endpoint : EndpointKind) (key : JsonStringSpan) (s : RootState) (p : JsonShapeParser)
    → Yields (Leaves p.depth p) (parse_field endpoint key s p)
unfolding parse_field
parse_field-Yields endpoint key s p =
    if-both (Yields (Leaves p.depth p))
      (is_completions endpoint && json_string_span_equals key prompt_key)
      (Yields-then (parse_completion_prompt-Yields p) λ (found, q) k. gives k)
      (Yields-then (parse_json_value-Yields p) λ q k. gives k)

parse_root_field-Yields :
    (endpoint : EndpointKind) (s : RootState) (p : JsonShapeParser)
    → Yields (Leaves p.depth p) (parse_root_field endpoint s p)
unfolding parse_root_field
parse_root_field-Yields endpoint s p = Yields-then (parse_root_key-Yields p) λ (key, r) h.
    Yields-then (parse_field-Yields endpoint key s r) λ (t, q) k. gives (k.0 ∙ h.0, omega arith)

root_fields-Yields :
    (f : ℕ) (endpoint : EndpointKind) (s : RootState) (p : JsonShapeParser) (d : ℕ)
    → p.depth ≡ suc d
    → suc (length p.rest) ≤ f
    → Yields (Leaves d p) (root_fields f endpoint s p)
unfolding root_fields
root_fields-Yields zero endpoint s p d e h = absurd (omega arith)
root_fields-Yields (suc f) endpoint s p d e h =
    Yields-then (parse_root_field-Yields endpoint s p) λ (t, q) k.
      Yields-separator 125 f d p q (finalized endpoint t) (root_fields f endpoint t) (k.0 ∙ e) k.1 h
        (λ r e' h'. root_fields-Yields f endpoint t r d e' h') (separator 125 q)
        (separator-Separates 125 q)

pub parse_root_object-Yields :
    (endpoint : EndpointKind) (p : JsonShapeParser)
    → Yields (Leaves p.depth p) (parse_root_object endpoint p)
unfolding parse_root_object
parse_root_object-Yields endpoint p = Yields-then (enter-Yields 123 p) λ q k.
    let le = length-skip_spaces q.rest in
    consume-split
      (λ o. Yields (Leaves p.depth p) (elim o [
        | some r ↦ scanned (finalized endpoint initial_root, leave_nesting r)
        | none ↦ root_fields (suc (length q.rest)) endpoint initial_root (skip_space q)
      ]))
      125 (skip_space q)
      (Yields-weaken
        (root_fields-Yields (suc (length q.rest)) endpoint initial_root (skip_space q) p.depth k.0
          (omega arith))
        λ t w. (w.0, omega arith))
      λ r m. gives (ap (λ n. n - 1) (m.0 ∙ k.0) ∙ omega arith, omega arith)

HasResult : Option (TpsRequestShape × Bool) → Type 0
HasResult o = (r : TpsRequestShape × Bool) × (o ≡ some r)

shape_result-HasResult {κ} :
    {P : TpsRequestShape × JsonShapeParser → Type κ} (s : Scan (TpsRequestShape × JsonShapeParser))
    → Yields P s
    → HasResult (shape_result s)
unfolding shape_result HasResult
shape_result-HasResult s (gives h) = (_, refl)
shape_result-HasResult s (refuses true) = (_, refl)
shape_result-HasResult s (refuses false) = (_, refl)

-- The scan of any body, for any endpoint, ends with a shape and a flag.
pub parse_tps_request_shape-ends :
    (body : List ℕ) (endpoint : EndpointKind)
    → (r : TpsRequestShape × Bool) × (parse_tps_request_shape body endpoint ≡ some r)
unfolding parse_tps_request_shape HasResult
parse_tps_request_shape-ends body endpoint =
    let start : JsonShapeParser = record { rest = skip_spaces body; depth = 0 } in
    if-both HasResult (scannable endpoint (skip_spaces body))
      (shape_result-HasResult _ (parse_root_object-Yields endpoint start))
      ((empty_shape, false), refl)
