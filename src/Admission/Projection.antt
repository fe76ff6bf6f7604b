-- ===== src/Admission/Projection.antt =====
-- internal/admission/projector.go, and the observation and projection types of types.go.
use Prim.Native.String.{String}
use phala_inference_guard.Base.{
  ℕ, Bool, false, not, ◌&&◌, ◌||◌, Option, none, some, ℤ, pos, ltb_ℤ, leb_ℤ, if◌then◌else◌,
}
use phala_inference_guard.Go.Float.{Float64}
use phala_inference_guard.Go.Time.{Time, Duration}
use phala_inference_guard.Admission.Overlay.{ReservationOverlay}
use phala_inference_guard.Admission.Tps.{TpsSnapshot, no_snapshot, zero_float, valid_tps_snapshot}

pub record BackendObservation (W : Type 0) : Type 0 where
  pub runtime_identity : String
  pub observed_at : Time
  pub maximum_age : Duration
  pub running : ℤ
  pub waiting : ℤ
  pub generation_tokens_total : ℕ
  pub preemptions_total : ℕ
  pub runtime_start_time : W
  pub prefill_tokens_total : ℕ
  pub prefill_tokens_valid : Bool

pub record ObservedState (W : Type 0) : Type 0 where
  pub observation : BackendObservation W
  pub sequence : ℕ
  pub generation_delta : ℕ
  pub preemption_delta : ℕ
  pub interval : Duration
  pub previous_running : ℤ
  pub previous_waiting : ℤ

pub record ProjectedState (W : Type 0) : Type 0 where
  pub unobserved_sequences : ℤ
  pub cold_sheddable_pending : ℤ
  pub sequence_liabilities : ℤ
  pub live_reservations : ℤ
  pub residual_debts : ℤ
  pub raw_running : ℤ
  pub raw_waiting : ℤ
  pub previous_raw_running : ℤ
  pub previous_raw_waiting : ℤ
  pub generation_delta : ℕ
  pub preemption_delta : ℕ
  pub observation_interval : Duration
  pub observation_interval_valid : Bool
  pub tps : TpsSnapshot W

module _ {W : Type 0} ⦃fl : Float64 W⦄ where
  -- `BackendObservation{}`, `observedState{}` and `ProjectedState{}`.
  abbrev pub no_observation : BackendObservation W
  no_observation = record {
    runtime_identity = "";
    observed_at = 0;
    maximum_age = pos 0;
    running = pos 0;
    waiting = pos 0;
    generation_tokens_total = 0;
    preemptions_total = 0;
    runtime_start_time = zero_float;
    prefill_tokens_total = 0;
    prefill_tokens_valid = false;
  }

  abbrev pub nothing_observed : ObservedState W
  nothing_observed = record {
    observation = no_observation;
    sequence = 0;
    generation_delta = 0;
    preemption_delta = 0;
    interval = pos 0;
    previous_running = pos 0;
    previous_waiting = pos 0;
  }

  abbrev pub no_state : ProjectedState W
  no_state = record {
    unobserved_sequences = pos 0;
    cold_sheddable_pending = pos 0;
    sequence_liabilities = pos 0;
    live_reservations = pos 0;
    residual_debts = pos 0;
    raw_running = pos 0;
    raw_waiting = pos 0;
    previous_raw_running = pos 0;
    previous_raw_waiting = pos 0;
    generation_delta = 0;
    preemption_delta = 0;
    observation_interval = pos 0;
    observation_interval_valid = false;
    tps = no_snapshot;
  }

  unfoldable pub valid_projected_state : ProjectedState W → Bool
  valid_projected_state s =
      leb_ℤ (pos 0) s.unobserved_sequences
      && (leb_ℤ (pos 0) s.cold_sheddable_pending
          && (leb_ℤ s.cold_sheddable_pending s.live_reservations
              && (leb_ℤ (pos 0) s.sequence_liabilities
                  && (leb_ℤ s.unobserved_sequences s.sequence_liabilities
                      && (leb_ℤ (pos 0) s.live_reservations
                          && (leb_ℤ (pos 0) s.residual_debts
                              && (leb_ℤ (pos 0) s.raw_running
                                  && (leb_ℤ (pos 0) s.raw_waiting
                                      && (leb_ℤ (pos 0) s.previous_raw_running
                                          && (leb_ℤ (pos 0) s.previous_raw_waiting
                                              && (leb_ℤ (pos 0) s.observation_interval
                                                  && ((not s.observation_interval_valid
                                                        || ltb_ℤ (pos 0) s.observation_interval)
                                                      && valid_tps_snapshot s.tps))))))))))))

  unfoldable pub projected : ObservedState W → ReservationOverlay → ProjectedState W
  projected o overlay = record {
    unobserved_sequences = overlay.unobserved_sequences;
    cold_sheddable_pending = overlay.cold_sheddable_pending;
    sequence_liabilities = overlay.sequence_liabilities;
    live_reservations = overlay.live_reservations;
    residual_debts = overlay.residual_debts;
    raw_running = o.observation.running;
    raw_waiting = o.observation.waiting;
    previous_raw_running = o.previous_running;
    previous_raw_waiting = o.previous_waiting;
    generation_delta = o.generation_delta;
    preemption_delta = o.preemption_delta;
    observation_interval = o.interval;
    observation_interval_valid =
        ltb_ℤ (pos 0) o.interval && leb_ℤ o.interval o.observation.maximum_age;
    tps = no_snapshot;
  }

  -- `none` is the false flag.
  unfoldable pub project : ObservedState W → ReservationOverlay → Option (ProjectedState W)
  project o overlay =
      let state = projected o overlay in
      if not (valid_projected_state state) then none else some state
