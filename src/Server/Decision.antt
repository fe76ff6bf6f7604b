-- ===== src/Server/Decision.antt =====
-- internal/app/server/admission_runtime.go and admission_http.go: a service's decision, and the
-- service that a priority queue stands in front of.
use phala_inference_guard.Base.{Bool, true, false, not, ◌&&◌, Option, none, some, pos}
use phala_inference_guard.Go.Float.{Float64}
use phala_inference_guard.Go.Time.{Time}
use phala_inference_guard.Admission.Types.{
  Reason, controller_unavailable, priority_queue_canceled, closed, protect, is_admit, is_protect,
  ProtectionScope, protection_load, protection_availability, source_empty, result_unknown,
  sub_unknown, TerminalCause,
}
use phala_inference_guard.Admission.Demand.{TpsRequestDemand}
use phala_inference_guard.Admission.Projection.{no_state}
use phala_inference_guard.Admission.Controller.Decide.{DecisionRecord}

-- `R` is what a reservation is to the service, and `none` is the nil reservation.
pub record AdmissionDecision (W R : Type 0) : Type 0 where
  pub verdict : DecisionRecord W
  pub reservation : Option R

abbrev pub has_reservation : {R : Type 0} → Option R → Bool
has_reservation none = false
has_reservation (some r) = true

-- The methods that a wrapper calls, on the service's state `S`. A call of `Decide` that panics has no
-- decision; its Boolean is whether the context that it is given is canceled. Each method takes the
-- clock reading it makes.
pub record AdmissionService (W S R : Type 0) : Type 0 where
  pub decide_request : Time → Bool → TpsRequestDemand → S → Option (AdmissionDecision W R) × S
  pub terminate_reservation : Time → R → TerminalCause → S → S
  pub record_external_decision : Time → DecisionRecord W → S → S
  pub close_service : S → S

abbrev pub queue_scope : Reason → ProtectionScope
queue_scope priority_queue_canceled = protection_availability
queue_scope closed = protection_availability
queue_scope _ = protection_load

module _ {W R : Type 0} where
  unfoldable pub valid_admission_decision : AdmissionDecision W R → Bool
  valid_admission_decision d = elim (is_admit d.verdict.action) [
    | true ↦ has_reservation d.reservation
    | false ↦ is_protect d.verdict.action && not (has_reservation d.reservation)
  ]

module _ {W : Type 0} ⦃fl : Float64 W⦄ where
  -- `DecisionRecord{Action: ActionProtect, Reason: why, Scope: scope, Demand: demand}`.
  abbrev pub protect_record : Reason → ProtectionScope → TpsRequestDemand → DecisionRecord W
  protect_record why scope demand = record {
    action = protect;
    reason = why;
    scope = scope;
    demand = demand;
    state = no_state;
    projected_running = pos 0;
    projected_window_sequences = pos 0;
    running_limit = pos 0;
    running_limit_source = source_empty;
    window_concurrency = pos 0;
    tps_decision_result = result_unknown;
    tps_decision_subreason = sub_unknown;
    observation_sequence = 0;
    controller_sequence = 0;
    runtime_epoch = 0;
    policy_revision = 0;
    reservation_id = 0;
  }

  module _ {R : Type 0} where
    abbrev pub unavailable_admission_decision : TpsRequestDemand → AdmissionDecision W R
    unavailable_admission_decision demand = record {
      verdict = protect_record controller_unavailable protection_availability demand;
      reservation = none;
    }

    abbrev pub priority_queue_decision : TpsRequestDemand → Reason → AdmissionDecision W R
    priority_queue_decision demand why = record {
      verdict = protect_record why (queue_scope why) demand;
      reservation = none;
    }
