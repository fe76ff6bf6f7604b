-- ===== src/Admission/Controller/Decide.antt =====
-- controller.go: the projected state, `Admit` and `Snapshot`, and the decisions they record.
use phala_inference_guard.Base.{
  ℕ, ◌+◌, Bool, true, false, not, ◌&&◌, ◌||◌, ◌==◌, if◌then◌else◌, Option, none, some, ℤ, pos,
  ltb_ℤ, leb_ℤ, insert, length,
}
use phala_inference_guard.Go.Words.{max_uint64}
use phala_inference_guard.Go.Time.{Time, is_zero, before, sub_time}
use phala_inference_guard.Go.Float.{Float64}
use phala_inference_guard.Admission.Types.{
  Action, protect, Reason, open_intake, observation_missing, controller_unavailable,
  observation_stale, invalid_request, resource_exhausted, counter_overflow, is_set, is_admit,
  ProtectionScope, protection_request, protection_availability, RunningLimitSource, source_empty,
  TpsDecisionResult, result_unknown, TpsDecisionSubreason, sub_unknown,
}
use phala_inference_guard.Admission.Demand.{
  TpsRequestDemand, tier_flex, source_fallback, valid_demand,
}
use phala_inference_guard.Admission.Overlay.{ReservationOverlay, add_overlay}
use phala_inference_guard.Admission.Reservation.{Reservation, reserved, contribution}
use phala_inference_guard.Admission.Projection.{
  BackendObservation, ProjectedState, no_state, project,
}
use phala_inference_guard.Admission.Gate.{cold_sheddable}
use phala_inference_guard.Admission.Bounds.{AdmissionBounds}
use phala_inference_guard.Admission.Policy.{PolicyDecision, evaluate_policy}
use phala_inference_guard.Admission.Window.Snapshot.{snapshot}
use phala_inference_guard.Admission.Controller.State.{
  AdmissionController, fail_closed, next_event_sequence,
}
use phala_inference_guard.Admission.Controller.Lifecycle.{ReservationHandle}

pub record DecisionRecord (W : Type 0) : Type 0 where
  pub action : Action
  pub reason : Reason
  pub scope : ProtectionScope
  pub demand : TpsRequestDemand
  pub state : ProjectedState W
  pub projected_running : ℤ
  pub projected_window_sequences : ℤ
  pub running_limit : ℤ
  pub running_limit_source : RunningLimitSource
  pub window_concurrency : ℤ
  pub tps_decision_result : TpsDecisionResult
  pub tps_decision_subreason : TpsDecisionSubreason
  pub observation_sequence : ℕ
  pub controller_sequence : ℕ
  pub runtime_epoch : ℕ
  pub policy_revision : ℕ
  pub reservation_id : ℕ

pub record AdmissionResult (W : Type 0) : Type 0 where
  pub decision : DecisionRecord W
  pub handle : Option ReservationHandle

-- The result of `stateLocked`: the reason is open exactly when the source's flag is true.
pub record StateReading (W : Type 0) : Type 0 where
  pub reading : ProjectedState W
  pub why : Reason
  pub ready : Bool

-- The demand by which `Snapshot` measures availability: one flex sequence.
abbrev pub minimum_demand : TpsRequestDemand
minimum_demand = record {
  decode_sequences = pos 1;
  source = source_fallback;
  tier = tier_flex;
  prefill_tokens = pos 0;
  prefill_known = false;
}

module _ {W : Type 0} ⦃fl : Float64 W⦄ where
  -- The observation is older than its maximum age, or from after `now`.
  unfoldable pub is_stale : BackendObservation W → Time → Bool
  is_stale o now =
      is_zero now || (before now o.observed_at || ltb_ℤ o.maximum_age (sub_time now o.observed_at))

  unfoldable pub read_state : AdmissionController W → Time → StateReading W
  unfolding is_stale
  read_state c now =
      if is_set c.closed_reason
      then record { reading = no_state; why = c.closed_reason; ready = false }
      else if not c.has_observation
      then record { reading = no_state; why = observation_missing; ready = false }
      else elim (project c.observation c.overlay) [
        | none ↦ record { reading = no_state; why = controller_unavailable; ready = false }
        | some state ↦
            let o = c.observation.observation in
            let seen =
              if not (is_zero now) && not (before now o.observed_at)
              then record state { tps = snapshot c.tps_window now }
              else state in
            if is_stale o now
            then record { reading = seen; why = observation_stale; ready = false }
            else record { reading = seen; why = open_intake; ready = true }
      ]

  abbrev pub refusal :
      AdmissionController W
      → Reason
      → ProtectionScope
      → TpsRequestDemand
      → ProjectedState W
      → DecisionRecord W
  refusal c reason scope demand state = record {
    action = protect;
    reason = reason;
    scope = scope;
    demand = demand;
    state = state;
    projected_running = pos 0;
    projected_window_sequences = pos 0;
    running_limit = pos 0;
    running_limit_source = source_empty;
    window_concurrency = pos 0;
    tps_decision_result = result_unknown;
    tps_decision_subreason = sub_unknown;
    observation_sequence = c.observation_sequence;
    controller_sequence = c.event_sequence;
    runtime_epoch = c.runtime_epoch;
    policy_revision = c.policy_revision;
    reservation_id = 0;
  }

  unfoldable pub unavailable_decision :
      AdmissionController W → Reason → TpsRequestDemand → ProjectedState W → DecisionRecord W
  unavailable_decision c reason demand state = refusal c reason protection_availability demand state

  unfoldable pub decision_of :
      AdmissionController W
      → PolicyDecision
      → TpsRequestDemand
      → ProjectedState W
      → DecisionRecord W
  decision_of c policy demand state = record {
    action = policy.action;
    reason = policy.reason;
    scope = policy.scope;
    demand = demand;
    state = state;
    projected_running = policy.projected_running;
    projected_window_sequences = policy.projected_window_sequences;
    running_limit = c.running_limit;
    running_limit_source = c.running_limit_source;
    window_concurrency = c.window_concurrency;
    tps_decision_result = policy.tps_decision_result;
    tps_decision_subreason = policy.tps_decision_subreason;
    observation_sequence = c.observation_sequence;
    controller_sequence = c.event_sequence;
    runtime_epoch = c.runtime_epoch;
    policy_revision = c.policy_revision;
    reservation_id = 0;
  }

  abbrev pub bounds_of : AdmissionController W → AdmissionBounds
  bounds_of c = record {
    window_concurrency = c.window_concurrency;
    running_limit = c.running_limit;
    waiting_allowance = c.waiting_allowance;
  }

  -- The reservation that `Admit` makes, before its event sequence is known.
  abbrev pub new_reservation : AdmissionController W → TpsRequestDemand → Reservation
  new_reservation c demand = record {
    id = c.next_reservation_id + 1;
    runtime_epoch = c.runtime_epoch;
    demand = demand;
    cold_sheddable = cold_sheddable c.policy.tps_gate demand;
    phase = reserved;
    pending_first_byte_released = false;
    forwarded_at = 0;
    admitted_sequence = 0;
    forwarded_sequence = 0;
    terminal_sequence = 0;
  }

  -- A refusal by a controller that has just failed closed.
  abbrev pub failed :
      AdmissionController W
      → Reason
      → TpsRequestDemand
      → ProjectedState W
      → AdmissionController W × AdmissionResult W
  failed c reason demand state =
      (c, record { decision = unavailable_decision c reason demand state; handle = none })

  -- The write that ends `Admit`, once the event sequence is stepped.
  unfoldable pub commit_numbered :
      AdmissionController W × Option ℕ
      → DecisionRecord W
      → Reservation
      → ReservationOverlay
      → AdmissionController W × AdmissionResult W
  commit_numbered (c, none) decision item overlay =
      failed c counter_overflow decision.demand decision.state
  commit_numbered (c, some sequence) decision item overlay = (
    record c {
      next_reservation_id = item.id;
      overlay = overlay;
      reservations = insert item.id (record item { admitted_sequence = sequence }) c.reservations;
    },
    record {
      decision = record decision {
        controller_sequence = sequence;
        reservation_id = item.id;
        runtime_epoch = c.runtime_epoch;
      };
      handle = some (record {
        handle_controller = c.address;
        handle_epoch = c.runtime_epoch;
        handle_id = item.id;
      });
    },
  )

  unfoldable pub commit_reservation :
      AdmissionController W
      → DecisionRecord W
      → Reservation
      → ReservationOverlay
      → AdmissionController W × AdmissionResult W
  unfolding commit_numbered
  commit_reservation c decision item overlay =
      commit_numbered (next_event_sequence c) decision item overlay

  -- What follows a policy that admits.
  unfoldable pub reserve :
      AdmissionController W → DecisionRecord W → AdmissionController W × AdmissionResult W
  unfolding commit_reservation
  reserve c decision =
      if leb_ℤ c.maximum_reservations (pos (length c.reservations))
      then failed (fail_closed c resource_exhausted) resource_exhausted decision.demand
          decision.state
      else if c.next_reservation_id == max_uint64
      then failed (fail_closed c counter_overflow) counter_overflow decision.demand decision.state
      else elim (contribution (new_reservation c decision.demand)) [
        | none ↦
            failed (fail_closed c controller_unavailable) controller_unavailable decision.demand
              decision.state
        | some added ↦ elim (add_overlay c.overlay added) [
          | none ↦
              failed (fail_closed c resource_exhausted) resource_exhausted decision.demand
                decision.state
          | some overlay ↦ commit_reservation c decision (new_reservation c decision.demand) overlay
        ]
      ]

  unfoldable pub admit_request :
      AdmissionController W → Time → TpsRequestDemand → AdmissionController W × AdmissionResult W
  unfolding read_state reserve unavailable_decision decision_of
  admit_request c now demand =
      if not (valid_demand demand)
      then (
        c,
        record {
          decision = refusal c invalid_request protection_request demand no_state;
          handle = none;
        },
      )
      else let s = read_state c now in
        if not s.ready
        then (c, record { decision = unavailable_decision c s.why demand s.reading; handle = none })
        else let policy = evaluate_policy c.policy s.reading demand (bounds_of c) in
          let decision = decision_of c policy demand s.reading in
          if not (is_admit policy.action)
          then (c, record { decision = decision; handle = none })
          else reserve c decision
