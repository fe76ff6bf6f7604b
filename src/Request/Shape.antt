-- ===== src/Request/Shape.antt =====
-- tps_shape.go: `ParseTPSRequestShape`, and endpoint.go.
pub mod Total
pub mod Sequences
use Prim.Native.String.{String}
use text.Mathlib.Text.{◌==◌ as str_eq}
use phala_inference_guard.Base.{
  ℕ, zero, suc, ◌+◌, ◌-◌, ◌*◌, ◌/◌, Bool, true, false, not, ◌&&◌, ◌||◌, ltb, leb, ◌==◌,
  if◌then◌else◌, Option, none, some, List, [], ◌∷◌, length,
}
use phala_inference_guard.Go.Words.{max_int64}
use phala_inference_guard.Request.Bytes.{JsonStringSpan, json_string_span_equals}
use phala_inference_guard.Request.Scanner.{
  JsonShapeParser, Scan, scanned, rejected, spent, ◌>>>◌, from_option, skip_space, skip_spaces,
  consume, enter, leave_nesting, parse_string,
}
use phala_inference_guard.Request.Values.{
  separator, closing_found, comma_found, neither_found, parse_json_value,
}
use phala_inference_guard.Request.Numbers.{
  FanoutFieldState, unseen_fanout, update_positive_fanout, update_optional_positive_fanout,
  parse_json_boolean,
}
use phala_inference_guard.Request.Prompt.{parse_completion_prompt, text_between}

pub data EndpointKind : Type 0 where
  endpoint_unknown endpoint_chat_completions endpoint_completions endpoint_responses : EndpointKind

unfoldable pub endpoint_for_path : String → EndpointKind
endpoint_for_path path =
    if str_eq path "/v1/chat/completions"
    then endpoint_chat_completions
    else if str_eq path "/v1/completions"
    then endpoint_completions
    else if str_eq path "/v1/responses"
    then endpoint_responses
    else endpoint_unknown

abbrev pub is_completions : EndpointKind → Bool
is_completions endpoint_completions = true
is_completions _ = false

abbrev pub endpoint_uses_decode_fanout : EndpointKind → Bool
endpoint_uses_decode_fanout endpoint_chat_completions = true
endpoint_uses_decode_fanout endpoint_completions = true
endpoint_uses_decode_fanout _ = false

pub data UnsupportedReason : Type 0 where
  supported_shape unsupported_request_shape shape_scan_limit : UnsupportedReason

-- The counts are int64 values that are never negative.
pub record TpsRequestShape : Type 0 where
  pub base_prompt_count : ℕ
  pub decode_count : ℕ
  pub is_supported : Bool
  pub unsupported_reason : UnsupportedReason
  pub streaming_present : Bool
  pub streaming_known : Bool
  pub streaming : Bool

-- `TPSRequestShape{}`.
abbrev pub empty_shape : TpsRequestShape
empty_shape = record {
  base_prompt_count = 0;
  decode_count = 0;
  is_supported = false;
  unsupported_reason = supported_shape;
  streaming_present = false;
  streaming_known = false;
  streaming = false;
}

-- What the loop over the root's fields holds.
pub record RootState : Type 0 where
  pub shape : TpsRequestShape
  pub fanout : FanoutFieldState
  pub best_of : FanoutFieldState
  pub prompt_seen : Bool

abbrev pub initial_root : RootState
initial_root = record {
  shape = record {
    base_prompt_count = 1;
    decode_count = 1;
    is_supported = true;
    unsupported_reason = supported_shape;
    streaming_present = false;
    streaming_known = false;
    streaming = false;
  };
  fanout = unseen_fanout;
  best_of = unseen_fanout;
  prompt_seen = false;
}

abbrev pub candidates : EndpointKind → FanoutFieldState → FanoutFieldState → ℕ
candidates endpoint n best_of =
    if is_completions endpoint && ltb n.value best_of.value then best_of.value else n.value

unfoldable pub countable :
    TpsRequestShape → EndpointKind → FanoutFieldState → FanoutFieldState → Bool
countable shape endpoint n best_of =
    let c = candidates endpoint n best_of in
    n.valid
    && (best_of.valid
        && (ltb 0 shape.base_prompt_count
            && (ltb 0 c && not (ltb (max_int64 / c) shape.base_prompt_count))))

unfoldable pub finalize_tps_request_shape :
    TpsRequestShape → EndpointKind → FanoutFieldState → FanoutFieldState → TpsRequestShape
unfolding countable
finalize_tps_request_shape shape endpoint n best_of =
    if shape.is_supported && countable shape endpoint n best_of
    then record shape { decode_count = shape.base_prompt_count * candidates endpoint n best_of }
    else record shape {
      is_supported = false;
      decode_count = 0;
      unsupported_reason = unsupported_request_shape;
    }

unfoldable pub finalized : EndpointKind → RootState → TpsRequestShape
unfolding finalize_tps_request_shape
finalized endpoint s = finalize_tps_request_shape s.shape endpoint s.fanout s.best_of

-- "prompt", "n", "best_of" and "stream".
abbrev pub prompt_key : List ℕ
prompt_key = 112 ∷ 114 ∷ 111 ∷ 109 ∷ 112 ∷ 116 ∷ []

abbrev pub n_key : List ℕ
n_key = 110 ∷ []

abbrev pub best_of_key : List ℕ
best_of_key = 98 ∷ 101 ∷ 115 ∷ 116 ∷ 95 ∷ 111 ∷ 102 ∷ []

abbrev pub stream_key : List ℕ
stream_key = 115 ∷ 116 ∷ 114 ∷ 101 ∷ 97 ∷ 109 ∷ []

unfoldable pub read_prompt : RootState → ℕ × Bool → RootState
read_prompt s (count, supported) = record s {
  shape = record s.shape {
    is_supported = s.shape.is_supported && (not s.prompt_seen && supported);
    base_prompt_count = if supported then count else s.shape.base_prompt_count;
  };
  prompt_seen = true;
}

-- The value of a field: the prompt of a completion request is counted.
unfoldable pub parse_field :
    EndpointKind → JsonStringSpan → RootState → JsonShapeParser → Scan (RootState × JsonShapeParser)
unfolding read_prompt
parse_field endpoint key s p =
    if is_completions endpoint && json_string_span_equals key prompt_key
    then parse_completion_prompt p >>> (λ (found, q). scanned (read_prompt s found, q))
    else (parse_json_value p >>> λ q. scanned (s, q))

abbrev pub with_fanout : RootState → FanoutFieldState × Bool → RootState
with_fanout s (n, supported) = record s {
  fanout = n;
  shape = record s.shape { is_supported = supported && s.shape.is_supported };
}

abbrev pub with_best_of : RootState → FanoutFieldState × Bool → RootState
with_best_of s (b, supported) = record s {
  best_of = b;
  shape = record s.shape { is_supported = supported && s.shape.is_supported };
}

abbrev pub same_bool : Bool → Bool → Bool
same_bool true b = b
same_bool false b = not b

-- The `stream` field: a second one must repeat the first.
unfoldable pub with_stream : TpsRequestShape → Option Bool → TpsRequestShape
with_stream shape found =
    if not shape.streaming_present
    then record shape {
      streaming_present = true;
      streaming_known = elim found [ none ↦ false | some b ↦ true ];
      streaming = elim found [ none ↦ false | some b ↦ b ];
    }
    else if elim found [
      | none ↦ true
      | some b ↦ not shape.streaming_known || not (same_bool shape.streaming b)
    ]
    then record shape { streaming_known = false; streaming = false }
    else shape

unfoldable pub read_fanout : EndpointKind → JsonStringSpan → List ℕ → RootState → RootState
unfolding update_positive_fanout
read_fanout endpoint key text s =
    if endpoint_uses_decode_fanout endpoint && json_string_span_equals key n_key
    then with_fanout s (update_positive_fanout s.fanout text)
    else s

unfoldable pub read_best_of : EndpointKind → JsonStringSpan → List ℕ → RootState → RootState
unfolding update_optional_positive_fanout
read_best_of endpoint key text s =
    if is_completions endpoint && json_string_span_equals key best_of_key
    then with_best_of s (update_optional_positive_fanout s.best_of text)
    else s

unfoldable pub read_stream : JsonStringSpan → List ℕ → RootState → RootState
unfolding with_stream
read_stream key text s =
    if json_string_span_equals key stream_key
    then record s { shape = with_stream s.shape (parse_json_boolean text) }
    else s

unfoldable pub read_field :
    EndpointKind → JsonStringSpan → JsonShapeParser → RootState × JsonShapeParser → RootState
unfolding read_fanout read_best_of read_stream
read_field endpoint key start (s, q) =
    let text = text_between start q in
    read_stream key text (read_best_of endpoint key text (read_fanout endpoint key text s))

-- A key, its colon, and the space before the value.
unfoldable pub parse_root_key : JsonShapeParser → Scan (JsonStringSpan × JsonShapeParser)
parse_root_key p = parse_string p >>> λ (key, q).
    from_option (consume 58 (skip_space q)) >>> λ r. scanned (key, skip_space r)

-- A field of the root object.
unfoldable pub parse_root_field :
    EndpointKind → RootState → JsonShapeParser → Scan (RootState × JsonShapeParser)
unfolding parse_root_key parse_field read_field
parse_root_field endpoint s p = parse_root_key p >>> λ (key, r).
    parse_field endpoint key s r >>> λ (t, q). scanned (read_field endpoint key r (t, q), q)

-- The loop over the root's fields; each round takes at least one byte.
unfoldable pub root_fields :
    ℕ → EndpointKind → RootState → JsonShapeParser → Scan (TpsRequestShape × JsonShapeParser)
unfolding parse_root_field
root_fields zero endpoint s p = spent
root_fields (suc f) endpoint s p = parse_root_field endpoint s p >>> λ (t, q).
    elim (separator 125 q) [
      | closing_found r ↦ scanned (finalized endpoint t, leave_nesting r)
      | comma_found r ↦ root_fields f endpoint t r
      | neither_found ↦ rejected false
    ]

unfoldable pub parse_root_object :
    EndpointKind → JsonShapeParser → Scan (TpsRequestShape × JsonShapeParser)
unfolding root_fields
parse_root_object endpoint p = enter 123 p >>> λ q. elim (consume 125 (skip_space q)) [
  | some r ↦ scanned (finalized endpoint initial_root, leave_nesting r)
  | none ↦ root_fields (suc (length q.rest)) endpoint initial_root (skip_space q)
]

abbrev pub is_nil : List ℕ → Bool
is_nil [] = true
is_nil (c ∷ cs) = false

-- The shape and the flag that `ParseTPSRequestShape` returns; `none`, that the model's fuel ran out,
-- has no counterpart in the code.
unfoldable pub shape_result :
    Scan (TpsRequestShape × JsonShapeParser) → Option (TpsRequestShape × Bool)
shape_result (scanned (shape, q)) = some (shape, is_nil (skip_spaces q.rest))
shape_result (rejected true) =
    some (record empty_shape { unsupported_reason = shape_scan_limit }, false)
shape_result (rejected false) = some (empty_shape, false)
shape_result spent = none

-- The endpoint is known, and an object begins.
abbrev pub scannable : EndpointKind → List ℕ → Bool
scannable endpoint_unknown rest = false
scannable endpoint [] = false
scannable endpoint (c ∷ cs) = c == 123

unfoldable pub parse_tps_request_shape : List ℕ → EndpointKind → Option (TpsRequestShape × Bool)
unfolding parse_root_object shape_result
parse_tps_request_shape body endpoint =
    let start : JsonShapeParser = record { rest = skip_spaces body; depth = 0 } in
    if scannable endpoint start.rest
    then shape_result (parse_root_object endpoint start)
    else some (empty_shape, false)
