-- ===== src/Admission/Demand.antt =====
-- internal/admission/tps_demand.go: request tiers and the demand a request makes.
use phala_inference_guard.Base.{ℕ, Bool, true, false, ◌&&◌, ℤ, pos, ltb_ℤ, if◌then◌else◌}

-- A uint8: the three tiers, and any other value.
pub data RequestTier : Type 0 where
  tier_default tier_flex tier_priority : RequestTier
  other_tier : ℕ → RequestTier

-- The order of service in a queue.
abbrev pub rank : RequestTier → ℕ
rank tier_priority = 2
rank tier_default = 1
rank _ = 0

abbrev pub sheddable : RequestTier → Bool
sheddable tier_default = true
sheddable tier_flex = true
sheddable _ = false

abbrev pub valid_tier : RequestTier → Bool
valid_tier (other_tier n) = false
valid_tier _ = true

-- A string: the two sources, and any other value.
pub data TpsDemandSource : Type 0 where
  source_request source_fallback other_demand_source : TpsDemandSource

abbrev pub known_source : TpsDemandSource → Bool
known_source other_demand_source = false
known_source _ = true

pub record TpsRequestDemand : Type 0 where
  pub decode_sequences : ℤ
  pub source : TpsDemandSource
  pub tier : RequestTier
  pub prefill_tokens : ℤ
  pub prefill_known : Bool

unfoldable pub new_tps_request_demand : ℤ → TpsRequestDemand
new_tps_request_demand n = record {
  decode_sequences = n;
  source = source_request;
  tier = tier_default;
  prefill_tokens = pos 0;
  prefill_known = false;
}

unfoldable pub new_fallback_tps_request_demand : TpsRequestDemand
new_fallback_tps_request_demand = record {
  decode_sequences = pos 1;
  source = source_fallback;
  tier = tier_default;
  prefill_tokens = pos 0;
  prefill_known = false;
}

unfoldable pub with_tier : TpsRequestDemand → RequestTier → TpsRequestDemand
with_tier d t = record d { tier = if valid_tier t then t else tier_default }

unfoldable pub with_prefill_tokens : TpsRequestDemand → ℤ → TpsRequestDemand
with_prefill_tokens d tokens = record d {
  prefill_tokens = if ltb_ℤ tokens (pos 0) then pos 0 else tokens;
  prefill_known = true;
}

unfoldable pub valid_demand : TpsRequestDemand → Bool
valid_demand d = ltb_ℤ (pos 0) d.decode_sequences && (known_source d.source && valid_tier d.tier)
