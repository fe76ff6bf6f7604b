-- ===== src/Request/Shape/Sequences.antt =====
-- The number of sequences of a shape: within an int64, and the product of what was read.
use mathlib.Core.Bool.{true≢false}
use native.Mathlib.Nat.{le-div_iff_mul-le, mul-pos}
use phala_inference_guard.Base.{
  ℕ, zero, suc, ◌*◌, ◌/◌, ◌≤◌, ◌<◌, ◌≡◌, refl, sym, ◌∙◌, subst, Bool, true, false, not, ◌&&◌,
  &&-true, ltb, ltb→lt, if-cases, if-both, Option, none, some, List, arith, length,
}
use phala_inference_guard.Go.Words.{max_int64}
use phala_inference_guard.Request.Numbers.{FanoutFieldState}
use phala_inference_guard.Request.Scanner.{
  JsonShapeParser, Scan, scanned, rejected, spent, ◌>>>◌, skip_space, skip_spaces, consume, enter,
  leave_nesting,
}
use phala_inference_guard.Request.Values.{
  Separator, closing_found, comma_found, neither_found, separator,
}
use phala_inference_guard.Request.Shape.{
  EndpointKind, TpsRequestShape, RootState, candidates, countable, finalize_tps_request_shape,
  finalized, initial_root, parse_root_field, root_fields, parse_root_object, shape_result,
  empty_shape, scannable, parse_tps_request_shape,
}

-- A shape's number of sequences is a positive int64 if the shape is supported, and else 0.
abbrev pub Counted : TpsRequestShape → Type 0
Counted shape =
    (shape.is_supported ≡ true → (1 ≤ shape.decode_count) × (shape.decode_count ≤ max_int64))
    × (shape.is_supported ≡ false → shape.decode_count ≡ 0)

product-le : (a b m : ℕ) → 0 < a → 0 < b → not (ltb (m / b) a) ≡ true → (1 ≤ a * b) × (a * b ≤ m)
product-le a b m ha hb h =
    let le : a ≤ m / b = ground arith in
    let p : 0 < a * b = mul-pos ha hb in (omega arith, (le-div_iff_mul-le hb).0 le)

countable-le :
    (shape : TpsRequestShape) (endpoint : EndpointKind) (n best_of : FanoutFieldState)
    → countable shape endpoint n best_of ≡ true
    → (1 ≤ shape.base_prompt_count * candidates endpoint n best_of)
      × (shape.base_prompt_count * candidates endpoint n best_of ≤ max_int64)
unfolding countable
countable-le shape endpoint n best_of h =
    let h1 = (&&-true n.valid _ h).1 in
    let h2 = (&&-true best_of.valid _ h1).1 in
    let h3 = &&-true (ltb 0 shape.base_prompt_count) _ h2 in
    let h4 = &&-true (ltb 0 (candidates endpoint n best_of)) _ h3.1 in
    product-le shape.base_prompt_count (candidates endpoint n best_of) max_int64 (ltb→lt 0 _ h3.0)
      (ltb→lt 0 _ h4.0) h4.1

-- Whatever the fields held, the finished shape is the product of the prompts and the candidates of
-- each, when it is supported and that is an int64, and else no shape at all.
finalize_tps_request_shape-Counted :
    (shape : TpsRequestShape) (endpoint : EndpointKind) (n best_of : FanoutFieldState)
    → Counted (finalize_tps_request_shape shape endpoint n best_of)
unfolding finalize_tps_request_shape
finalize_tps_request_shape-Counted shape endpoint n best_of =
    if-cases Counted (shape.is_supported && countable shape endpoint n best_of)
      (λ h.
        let s = &&-true shape.is_supported _ h in
        (λ _. countable-le shape endpoint n best_of s.1, λ e. absurd (true≢false (sym s.0 ∙ e))))
      λ h. (λ e. cc, λ e. refl)

-- `P` holds of what is yielded, if anything is.
data Allows {ℓ κ} {A : Type ℓ} (P : A → Type κ) : Scan A → Type (ℓ ⊔ κ) where
  allows : {a : A} → P a → Allows P (scanned a)
  rejects : (limit : Bool) → Allows P (rejected limit)
  exhausts : Allows P spent

Allows-then {ℓ κ ℓ'} :
    {A : Type ℓ} {B : Type κ} {Q : B → Type ℓ'} (s : Scan A) {f : A → Scan B}
    → ((a : A) → Allows Q (f a))
    → Allows Q (s >>> f)
Allows-then (scanned a) k = k a
Allows-then (rejected limit) k = rejects limit
Allows-then spent k = exhausts

abbrev CountedShape : TpsRequestShape × JsonShapeParser → Type 0
CountedShape a = Counted a.0

root_fields-Counted :
    (f : ℕ) (endpoint : EndpointKind) (s : RootState) (p : JsonShapeParser)
    → Allows CountedShape (root_fields f endpoint s p)
unfolding root_fields finalized
root_fields-Counted zero endpoint s p = exhausts
root_fields-Counted (suc f) endpoint s p =
    Allows-then (parse_root_field endpoint s p)
      λ (t, q). separated t (λ r. root_fields-Counted f endpoint t r) (separator 125 q)
  where
    separated :
        (t : RootState)
        → ((r : JsonShapeParser) → Allows CountedShape (root_fields f endpoint t r))
        → (o : Separator)
        → Allows CountedShape (elim o [
          | closing_found r ↦ scanned (finalized endpoint t, leave_nesting r)
          | comma_found r ↦ root_fields f endpoint t r
          | neither_found ↦ rejected false
        ])
    separated t again (closing_found r) =
        allows (finalize_tps_request_shape-Counted t.shape endpoint t.fanout t.best_of)
    separated t again (comma_found r) = again r
    separated t again neither_found = rejects false

enter-split {κ} :
    (P : Scan (TpsRequestShape × JsonShapeParser) → Type κ) (o : Option JsonShapeParser)
    (some_case : JsonShapeParser → Scan (TpsRequestShape × JsonShapeParser))
    (none_case : Scan (TpsRequestShape × JsonShapeParser))
    → ((r : JsonShapeParser) → P (some_case r))
    → P none_case
    → P (elim o [ some r ↦ some_case r | none ↦ none_case ])
enter-split P none f n s k = k
enter-split P (some r) f n s k = s r

parse_root_object-Counted :
    (endpoint : EndpointKind) (p : JsonShapeParser)
    → Allows CountedShape (parse_root_object endpoint p)
unfolding parse_root_object finalized
parse_root_object-Counted endpoint p = Allows-then (enter 123 p) λ q.
    enter-split (Allows CountedShape) (consume 125 (skip_space q))
      (λ r. scanned (finalized endpoint initial_root, leave_nesting r))
      (root_fields (suc (length q.rest)) endpoint initial_root (skip_space q))
      (λ r. allows (
        finalize_tps_request_shape-Counted initial_root.shape endpoint initial_root.fanout
          initial_root.best_of))
      (root_fields-Counted (suc (length q.rest)) endpoint initial_root (skip_space q))

CountedResult : Option (TpsRequestShape × Bool) → Type 0
CountedResult o = (r : TpsRequestShape × Bool) → o ≡ some r → Counted r.0

CountedResult-some : (q : TpsRequestShape × Bool) → Counted q.0 → CountedResult (some q)
unfolding CountedResult
CountedResult-some q h r e =
    let same : q ≡ r = cc in subst (λ (o : TpsRequestShape × Bool). Counted o.0) same h

shape_result-Counted :
    (s : Scan (TpsRequestShape × JsonShapeParser))
    → Allows CountedShape s
    → CountedResult (shape_result s)
unfolding shape_result CountedResult
shape_result-Counted s (allows h) = CountedResult-some _ h
shape_result-Counted s (rejects true) =
    CountedResult-some _ (λ e. absurd (true≢false (sym e)), λ e. refl)
shape_result-Counted s (rejects false) =
    CountedResult-some _ (λ e. absurd (true≢false (sym e)), λ e. refl)
shape_result-Counted s exhausts = λ r e. cc

-- Of any body, the shape that is returned has a positive int64 of sequences if it is supported, and
-- none if it is not.
pub parse_tps_request_shape-Counted :
    (body : List ℕ) (endpoint : EndpointKind) (r : TpsRequestShape × Bool)
    → parse_tps_request_shape body endpoint ≡ some r
    → (r.0.is_supported ≡ true → (1 ≤ r.0.decode_count) × (r.0.decode_count ≤ max_int64))
      × (r.0.is_supported ≡ false → r.0.decode_count ≡ 0)
unfolding parse_tps_request_shape CountedResult
parse_tps_request_shape-Counted body endpoint =
    let start : JsonShapeParser = record { rest = skip_spaces body; depth = 0 } in
    if-both CountedResult (scannable endpoint (skip_spaces body))
      (shape_result-Counted _ (parse_root_object-Counted endpoint start))
      (CountedResult-some (empty_shape, false) (λ e. absurd (true≢false (sym e)), λ e. refl))
