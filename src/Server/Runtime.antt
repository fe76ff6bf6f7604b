-- ===== src/Server/Runtime.antt =====
-- internal/app/server/admission_runtime.go: the admission controller as the service that the queue
-- wraps. The reporter and the histogram, which only record what was decided, have no state here, and
-- neither has the observer that `Close` stops.
pub mod Release
use phala_inference_guard.Base.{Bool, false, if◌then◌else◌, Option, none, some, pos}
use phala_inference_guard.Go.Time.{Time}
use phala_inference_guard.Go.Float.{Float64}
use phala_inference_guard.Admission.Types.{TerminalCause, is_admit}
use phala_inference_guard.Admission.Demand.{TpsRequestDemand, other_demand_source, tier_default}
use phala_inference_guard.Admission.Controller.State.{AdmissionController}
use phala_inference_guard.Admission.Controller.Lifecycle.{ReservationHandle, handle_terminate}
use phala_inference_guard.Admission.Controller.Decide.{AdmissionResult, admit_request}
use phala_inference_guard.Admission.Controller.Capacity.{close}
use phala_inference_guard.Server.Decision.{AdmissionDecision, AdmissionService}

-- `TPSRequestDemand{}`.
abbrev pub no_demand : TpsRequestDemand
no_demand = record {
  decode_sequences = pos 0;
  source = other_demand_source;
  tier = tier_default;
  prefill_tokens = pos 0;
  prefill_known = false;
}

module _ {W : Type 0} where
  abbrev pub runtime_decision : AdmissionResult W → AdmissionDecision W ReservationHandle
  runtime_decision result = record {
    verdict = result.decision;
    reservation = if is_admit result.decision.action then result.handle else none;
  }

module _ {W : Type 0} ⦃fl : Float64 W⦄ where
  unfoldable pub runtime_decide :
      Time
      → Bool
      → TpsRequestDemand
      → AdmissionController W
      → Option (AdmissionDecision W ReservationHandle) × AdmissionController W
  runtime_decide now canceled demand c =
      let result = admit_request c now (if canceled then no_demand else demand) in
      (some (runtime_decision result.1), result.0)

  unfoldable pub runtime_terminate :
      Time → ReservationHandle → TerminalCause → AdmissionController W → AdmissionController W
  runtime_terminate at handle cause c = (handle_terminate handle c cause at).0

  unfoldable pub admission_runtime : AdmissionService W (AdmissionController W) ReservationHandle
  unfolding runtime_decide runtime_terminate
  admission_runtime = record {
    decide_request = runtime_decide;
    terminate_reservation = runtime_terminate;
    record_external_decision = λ at verdict c. c;
    close_service = close;
  }
