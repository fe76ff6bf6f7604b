-- ===== src/Request/Tests.antt =====
-- Runs of the scanner on concrete bodies.
use phala_inference_guard.Base.{
  pos, pos_part, ℕ, ◌≤◌, ◌≡◌, refl, Bool, true, false, ◌&&◌, leb, if◌then◌else◌, none, some, List,
  [], ◌∷◌, arith,
}
use phala_inference_guard.Go.Words.{max_int64}
use phala_inference_guard.Request.Bytes.{json_string_span_equals}
use phala_inference_guard.Request.Scanner.{scanned, rejected, enter, parse_string, parse_number}
use phala_inference_guard.Request.Values.{parse_json_value, separator}
use phala_inference_guard.Request.Values.Text.{
  Json, text, Nests, array_json, object_json, item, last_item, last_field, number_json, null_json,
  empty_array, string_json,
}
use phala_inference_guard.Request.Values.NumberText.{
  Number, digits_whole, digits_fraction, lower_exponent, plus,
}
use phala_inference_guard.Request.Values.StringText.{
  Piece, plain_piece, simple_piece, unicode_piece,
}
use phala_inference_guard.Request.Values.RoundTrip.{parse_json_value-text}
use phala_inference_guard.Request.Numbers.{parse_nonnegative_int64}
use phala_inference_guard.Request.Classifier.{
  ClassifierConfig, Classifier, new_classifier, outstanding_body_budget, acquire, take_token,
  reserve_scanner, reject,
}
use phala_inference_guard.Request.Classifier.Bounds.{
  takes_token, reserves, scanner_step, made, stepped, reserved_bytes-Reached, acquire_refused,
}
use phala_inference_guard.Request.Values.Depth.{brackets, parse_json_value-brackets}
use phala_inference_guard.Request.Numbers.Decimal.{
  parse_nonnegative_int64-denotes, is_decimal, denotes,
}
use phala_inference_guard.Request.Prompt.{parse_completion_prompt}
use phala_inference_guard.Request.Shape.{
  TpsRequestShape, endpoint_completions, supported_shape, finalized, parse_tps_request_shape,
}
use phala_inference_guard.Request.Shape.Total.{parse_tps_request_shape-ends}
use phala_inference_guard.Request.Shape.Sequences.{parse_tps_request_shape-Counted}

-- {"n":3,"best_of":"5","prompt": ["a","b"]}
abbrev two_prompts : List ℕ
two_prompts =
    123 ∷ 34 ∷ 110 ∷ 34 ∷ 58 ∷ 51 ∷ 44 ∷ 34 ∷ 98 ∷ 101 ∷ 115 ∷ 116 ∷ 95 ∷ 111 ∷ 102 ∷ 34 ∷ 58 ∷ 34
    ∷ 53 ∷ 34 ∷ 44 ∷ 34 ∷ 112 ∷ 114 ∷ 111 ∷ 109 ∷ 112 ∷ 116 ∷ 34 ∷ 58 ∷ 32 ∷ 91 ∷ 34 ∷ 97 ∷ 34 ∷ 44
    ∷ 34 ∷ 98 ∷ 34 ∷ 93 ∷ 125 ∷ []

abbrev two_prompts_shape : TpsRequestShape
two_prompts_shape = record {
  base_prompt_count = 2;
  decode_count = 10;
  is_supported = true;
  unsupported_reason = supported_shape;
  streaming_present = false;
  streaming_known = false;
  streaming = false;
}

-- Two prompts with five candidates each.
two_prompts-read :
    parse_tps_request_shape two_prompts endpoint_completions ≡ some (two_prompts_shape, true)
unfolding parse_tps_request_shape enter parse_string json_string_span_equals parse_json_value
    parse_number separator parse_completion_prompt finalized
two_prompts-read = refl

parse_tps_request_shape-ends_example :
    (r : TpsRequestShape × Bool) × (parse_tps_request_shape two_prompts endpoint_completions
      ≡ some r)
parse_tps_request_shape-ends_example = parse_tps_request_shape-ends two_prompts endpoint_completions

parse_tps_request_shape-Counted_example :
    (two_prompts_shape.is_supported ≡ true
      → (1 ≤ two_prompts_shape.decode_count) × (two_prompts_shape.decode_count ≤ max_int64))
    × (two_prompts_shape.is_supported ≡ false → two_prompts_shape.decode_count ≡ 0)
parse_tps_request_shape-Counted_example =
    parse_tps_request_shape-Counted two_prompts endpoint_completions (two_prompts_shape, true)
      two_prompts-read

-- 507
parse_nonnegative_int64-denotes_example : parse_nonnegative_int64 (53 ∷ 48 ∷ 55 ∷ []) ≡ (
    if is_decimal (53 ∷ 48 ∷ 55 ∷ []) && leb (denotes (53 ∷ 48 ∷ 55 ∷ [])) max_int64
    then some (denotes (53 ∷ 48 ∷ 55 ∷ []))
    else none)
parse_nonnegative_int64-denotes_example = parse_nonnegative_int64-denotes (53 ∷ 48 ∷ 55 ∷ [])

-- -1.05e+3
abbrev thousand : Number
thousand = record {
  negative = true;
  whole = digits_whole 49 [];
  fraction = digits_fraction 48 (53 ∷ []);
  exponent = lower_exponent plus 51 [];
}

-- a\n\u00e9
abbrev escaped : List Piece
escaped = plain_piece 97 ∷ simple_piece 110 ∷ unicode_piece 48 48 101 57 ∷ []

-- {"a\n\u00e9":[-1.05e+3,[],"a\n\u00e9",null]}
abbrev nested : Json
nested = object_json (
    last_field escaped (
      array_json (
        item (number_json thousand)
          (item empty_array (item (string_json escaped) (last_item null_json))))))

parse_json_value-text_example :
    parse_json_value (record { rest = text nested (44 ∷ []); depth = 0 })
    ≡ scanned (record { rest = 44 ∷ []; depth = 0 })
unfolding Nests
parse_json_value-text_example =
    parse_json_value-text nested (44 ∷ []) 0 3
      (
        (refl, (refl, (refl, tt))),
        (
          ((refl, refl), (refl, refl), (refl, refl)),
          ((omega arith), ((refl, (refl, (refl, tt))), tt)),
        ),
      )
      (omega arith) refl

-- At most two bodies of 100 bytes; one scanner holds 40 of them.
abbrev small_config : ClassifierConfig
small_config = record { maximum_body_bytes = pos 100; maximum_concurrent = pos 2 }

abbrev one_scanner : Classifier
one_scanner =
    scanner_step (scanner_step (new_classifier small_config) takes_token) (reserves (pos 40))

reserved_bytes-Reached_example :
    (one_scanner.tokens_held ≤ 2)
    × ((r : ℕ) × (one_scanner.reserved_body_bytes ≡ pos r)
        × (r ≤ pos_part (outstanding_body_budget small_config)))
reserved_bytes-Reached_example = reserved_bytes-Reached small_config one_scanner (
    stepped (scanner_step (new_classifier small_config) takes_token) (reserves (pos 40))
      (stepped (new_classifier small_config) takes_token made))

acquire_refused_example :
    (acquire (record (new_classifier small_config) { tokens_held = 2 }) (pos 40)).0
    ≡ reject (record (new_classifier small_config) { tokens_held = 2 })
unfolding acquire take_token new_classifier reserve_scanner
acquire_refused_example =
    acquire_refused (record (new_classifier small_config) { tokens_held = 2 }) (pos 40) refl

parse_json_value-brackets_example :
    parse_json_value (record { rest = brackets 129 []; depth = 0 }) ≡ rejected true
parse_json_value-brackets_example = parse_json_value-brackets 128 [] 0 (omega arith) (omega arith)
