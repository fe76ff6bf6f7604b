-- ===== src/Admission/Policy.antt =====
-- internal/admission/policy.go: the gate and the bounds, composed.
pub mod Laws
use phala_inference_guard.Base.{Bool, true, false, not, Option, none, some, ℤ, pos, if◌then◌else◌}
use phala_inference_guard.Go.Float.{Float64}
use phala_inference_guard.Admission.Types.{
  Action, admit, protect, Reason, open_intake, resource_exhausted, ProtectionScope, protection_none,
  protection_load, protection_availability, TpsDecisionResult, TpsDecisionSubreason,
  is_tps_reference, is_bound_reason,
}
use phala_inference_guard.Admission.Demand.{TpsRequestDemand, sheddable}
use phala_inference_guard.Admission.Projection.{ProjectedState}
use phala_inference_guard.Admission.Numeric.{add_nonnegative_int64}
use phala_inference_guard.Admission.Gate.{TpsGate, TpsGateDecision, evaluate_demand}
use phala_inference_guard.Admission.Bounds.{
  AdmissionBounds, AdmissionBoundsDecision, evaluate_bounds, or_zero,
}

pub record AdmissionPolicy : Type 0 where
  pub tps_gate : TpsGate

pub record PolicyDecision : Type 0 where
  pub action : Action
  pub reason : Reason
  pub scope : ProtectionScope
  pub projected_running : ℤ
  pub projected_window_sequences : ℤ
  pub tps_decision_result : TpsDecisionResult
  pub tps_decision_subreason : TpsDecisionSubreason

abbrev pub new_admission_policy : Bool → ℤ → AdmissionPolicy
new_admission_policy scheduling tokens = record {
  tps_gate = record { backend_tier_scheduling = scheduling; warm_prompt_tokens = tokens };
}

-- A decision with the two projections and the gate's evidence.
abbrev decision : Action → Reason → ProtectionScope → ℤ → ℤ → TpsGateDecision → PolicyDecision
decision action reason scope running window tps = record {
  action = action;
  reason = reason;
  scope = scope;
  projected_running = running;
  projected_window_sequences = window;
  tps_decision_result = tps.result;
  tps_decision_subreason = tps.subreason;
}

-- The branch of a priority request, whose projections are recorded and not bounded.
unfoldable pub decide_priority : TpsGateDecision → Option ℤ → Option ℤ → PolicyDecision
decide_priority tps (some running) (some window) =
    decision admit open_intake protection_none running window tps
decide_priority tps running window =
    decision protect resource_exhausted protection_availability (or_zero running) (or_zero window)
      tps

unfoldable pub decide_sheddable : TpsGateDecision → AdmissionBoundsDecision → PolicyDecision
decide_sheddable tps bound =
    if not bound.fits
    then decision protect bound.reason
        (if is_bound_reason bound.reason then protection_load else protection_availability)
        bound.projected_running bound.projected_window_sequences tps
    else decision admit open_intake protection_none bound.projected_running
        bound.projected_window_sequences tps

module _ {W : Type 0} ⦃fl : Float64 W⦄ where
  -- What follows the gate.
  unfoldable pub decide :
      TpsGateDecision → ProjectedState W → TpsRequestDemand → AdmissionBounds → PolicyDecision
  unfolding decide_priority decide_sheddable
  decide tps state d bounds =
      if not tps.fits
      then decision protect tps.reason
          (if is_tps_reference tps.reason then protection_load else protection_availability) (pos 0)
          (pos 0) tps
      else if not (sheddable d.tier)
      then decide_priority tps (add_nonnegative_int64 state.raw_running d.decode_sequences)
          (add_nonnegative_int64 state.unobserved_sequences d.decode_sequences)
      else decide_sheddable tps (evaluate_bounds bounds state d)

  unfoldable pub evaluate_policy :
      AdmissionPolicy → ProjectedState W → TpsRequestDemand → AdmissionBounds → PolicyDecision
  evaluate_policy p state d bounds =
      decide (evaluate_demand p.tps_gate state bounds.waiting_allowance d) state d bounds
