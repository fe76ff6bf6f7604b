-- ===== src/Admission/Controller/Capacity.antt =====
-- controller.go: `Snapshot` and `Close`.
use phala_inference_guard.Base.{ℕ, Bool, true, false, not, if◌then◌else◌, pos}
use phala_inference_guard.Go.Time.{Time}
use phala_inference_guard.Go.Float.{Float64}
use phala_inference_guard.Admission.Types.{closed, is_set, is_admit}
use phala_inference_guard.Admission.Demand.{TpsRequestDemand, other_demand_source, tier_default}
use phala_inference_guard.Admission.Projection.{BackendObservation, ProjectedState}
use phala_inference_guard.Admission.Histogram.{WindowConcurrencyHistogram}
use phala_inference_guard.Admission.Policy.{evaluate_policy}
use phala_inference_guard.Admission.Controller.State.{AdmissionController, fail_closed}
use phala_inference_guard.Admission.Controller.Decide.{
  DecisionRecord, read_state, unavailable_decision, decision_of, bounds_of, minimum_demand,
}
use phala_inference_guard.Admission.Controller.Update.{PolicySnapshot, policy_snapshot}

-- The histogram is passed on with its bounds understood.
pub record CapacitySnapshot (W : Type 0) : Type 0 where
  pub intake_open : Bool
  pub has_observation : Bool
  pub available : Bool
  pub minimum_decision : DecisionRecord W
  pub state : ProjectedState W
  pub observation : BackendObservation W
  pub observation_sequence : ℕ
  pub controller_sequence : ℕ
  pub runtime_epoch : ℕ
  pub policy : PolicySnapshot W
  pub window_concurrency_histogram : WindowConcurrencyHistogram

-- `TPSRequestDemand{}`.
abbrev no_demand : TpsRequestDemand
no_demand = record {
  decode_sequences = pos 0;
  source = other_demand_source;
  tier = tier_default;
  prefill_tokens = pos 0;
  prefill_known = false;
}

module _ {W : Type 0} ⦃fl : Float64 W⦄ where
  abbrev capacity :
      AdmissionController W
      → Bool
      → Bool
      → Bool
      → DecisionRecord W
      → ProjectedState W
      → CapacitySnapshot W
  capacity c intake observed available decision state = record {
    intake_open = intake;
    has_observation = observed;
    available = available;
    minimum_decision = decision;
    state = state;
    observation = c.observation.observation;
    observation_sequence = c.observation_sequence;
    controller_sequence = c.event_sequence;
    runtime_epoch = c.runtime_epoch;
    policy = policy_snapshot c;
    window_concurrency_histogram = c.window_histogram;
  }

  unfoldable pub capacity_snapshot : AdmissionController W → Time → CapacitySnapshot W
  capacity_snapshot c now =
      let s = read_state c now in
      if not s.ready
      then capacity c (not (is_set c.closed_reason)) c.has_observation false
          (unavailable_decision c s.why no_demand s.reading) s.reading
      else let policy = evaluate_policy c.policy s.reading minimum_demand (bounds_of c) in
        capacity c true true (is_admit policy.action)
          (decision_of c policy minimum_demand s.reading) s.reading

  unfoldable pub close : AdmissionController W → AdmissionController W
  close c = fail_closed c closed
