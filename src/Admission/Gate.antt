-- ===== src/Admission/Gate.antt =====
-- internal/admission/tps_gate.go: the TPS health gate.
pub mod Laws
use phala_inference_guard.Base.{
  Bool, true, false, not, ◌&&◌, ◌||◌, ℤ, pos, ltb, ltb_ℤ, leb_ℤ, if◌then◌else◌,
}
use phala_inference_guard.Go.Float.{Float64}
use phala_inference_guard.Admission.Types.{
  Reason, open_intake, tps_reference, resource_exhausted, TpsDecisionResult, result_disabled,
  result_admit, result_protect, result_invalid, TpsDecisionSubreason, sub_disabled, sub_waiting,
  sub_warming, sub_invalid_state, sub_preemption, sub_no_current_evidence, sub_cold_prompt_pending,
  sub_healthy_window, sub_cold_prompt, sub_warm_prompt, sub_recovered_current,
  sub_backend_scheduled, sub_below_reference,
}
use phala_inference_guard.Admission.Demand.{RequestTier, TpsRequestDemand, sheddable}
use phala_inference_guard.Admission.Tps.{TpsSnapshot, zero_float, valid_tps_snapshot}
use phala_inference_guard.Admission.Projection.{ProjectedState}

pub record TpsGateDecision : Type 0 where
  pub fits : Bool
  pub reason : Reason
  pub result : TpsDecisionResult
  pub subreason : TpsDecisionSubreason

pub record TpsGate : Type 0 where
  pub backend_tier_scheduling : Bool
  pub warm_prompt_tokens : ℤ

unfoldable pub prompt_aware : TpsGate → Bool
prompt_aware g = ltb_ℤ (pos 0) g.warm_prompt_tokens

unfoldable pub warm : TpsGate → TpsRequestDemand → Bool
unfolding prompt_aware
warm g d = prompt_aware g && (d.prefill_known && leb_ℤ d.prefill_tokens g.warm_prompt_tokens)

unfoldable pub cold_sheddable : TpsGate → TpsRequestDemand → Bool
unfolding prompt_aware warm
cold_sheddable g d = prompt_aware g && (sheddable d.tier && not (warm g d))

abbrev pub disabled : TpsGateDecision
disabled = record {
  fits = true;
  reason = open_intake;
  result = result_disabled;
  subreason = sub_disabled;
}

abbrev pub passes : TpsDecisionSubreason → TpsGateDecision
passes s = record { fits = true; reason = open_intake; result = result_admit; subreason = s }

abbrev pub protects : TpsDecisionSubreason → TpsGateDecision
protects s = record { fits = false; reason = tps_reference; result = result_protect; subreason = s }

abbrev pub invalid : TpsGateDecision
invalid = record {
  fits = false;
  reason = resource_exhausted;
  result = result_invalid;
  subreason = sub_invalid_state;
}

module _ {W : Type 0} ⦃fl : Float64 W⦄ where
  -- From `MeanActiveTPS >= Reference` on: the window is ready and its latest interval qualified.
  unfoldable pub evaluate_health : TpsGate → TpsSnapshot W → TpsRequestDemand → TpsGateDecision
  evaluate_health g s d =
      if fl.le s.reference s.mean_active_tps
      then passes sub_healthy_window
      else if fl.le s.reference s.latest.mean_active_tps
      then (if cold_sheddable g d
          then protects sub_cold_prompt
          else if sheddable d.tier && warm g d
          then passes sub_warm_prompt
          else passes sub_recovered_current)
      else if not (sheddable d.tier) && g.backend_tier_scheduling
      then passes sub_backend_scheduled
      else protects sub_below_reference

  unfoldable pub evaluate_demand :
      TpsGate → ProjectedState W → ℤ → TpsRequestDemand → TpsGateDecision
  evaluate_demand g state waiting_allowance d =
      if sheddable d.tier && ltb_ℤ waiting_allowance state.raw_waiting
      then protects sub_waiting
      else if not state.tps.enabled
      then disabled
      else if not (valid_tps_snapshot state.tps) || fl.le state.tps.reference zero_float
      then invalid
      else if sheddable d.tier && ltb 0 state.preemption_delta
      then protects sub_preemption
      else if not state.tps.ready
      then passes sub_warming
      else if not state.tps.latest.qualified
      then passes sub_no_current_evidence
      else if cold_sheddable g d && ltb_ℤ (pos 0) state.cold_sheddable_pending
      then protects sub_cold_prompt_pending
      else evaluate_health g state.tps d
