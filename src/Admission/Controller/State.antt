-- ===== src/Admission/Controller/State.antt =====
-- controller.go: the controller's state, its construction, and how it fails closed. The mutex makes
-- every exported method one step, so a method is a function of the state; a clock reading that the
-- method takes is an argument.
use Prim.Native.String.{String}
use phala_inference_guard.Base.{
  ℕ, ◌+◌, Bool, true, false, not, ◌&&◌, ◌||◌, ◌==◌, ltb, if◌then◌else◌, Option, none, some, [], ℤ,
  pos, ltb_ℤ, leb_ℤ, eq_ℤ, Dict,
}
use text.Mathlib.Text.{◌==◌ as str_eq}
use phala_inference_guard.Go.Words.{max_uint64}
use phala_inference_guard.Go.Time.{Time, Duration}
use phala_inference_guard.Go.Float.{Float64}
use phala_inference_guard.Admission.Types.{
  Reason, no_reason, counter_overflow, is_set, RunningLimitSource, source_empty, source_unknown,
  valid_source,
}
use phala_inference_guard.Admission.Overlay.{ReservationOverlay, empty_overlay}
use phala_inference_guard.Admission.Reservation.{Reservation}
use phala_inference_guard.Admission.Exposure.{
  SequenceExposureLedger, SequenceExposureSnapshot, empty_ledger, empty_exposure,
}
use phala_inference_guard.Admission.Tps.{finite_nonnegative}
use phala_inference_guard.Admission.Projection.{ObservedState, nothing_observed}
use phala_inference_guard.Admission.Policy.{AdmissionPolicy, new_admission_policy}
use phala_inference_guard.Admission.Window.Buckets.{TpsWindow, new_tps_window, reset}
use phala_inference_guard.Admission.Histogram.{WindowConcurrencyHistogram, empty_histogram}

-- `address` stands for the pointer by which windows and handles name their controller.
pub record AdmissionController (W : Type 0) : Type 0 where
  pub address : ℕ
  pub runtime_identity : String
  pub policy : AdmissionPolicy
  pub tps_window : TpsWindow W
  pub window_concurrency : ℤ
  pub running_limit : ℤ
  pub waiting_allowance : ℤ
  pub running_limit_source : RunningLimitSource
  pub pending_first_byte_lease_duration : Duration
  pub exposure : SequenceExposureLedger
  pub runtime_epoch : ℕ
  pub event_sequence : ℕ
  pub sample_sequence : ℕ
  pub observation_sequence : ℕ
  pub last_published_sample : ℕ
  pub last_exposure : SequenceExposureSnapshot
  pub policy_revision : ℕ
  pub policy_updated_at : Time
  pub tps_policy_epoch : ℕ
  pub observation : ObservedState W
  pub has_observation : Bool
  pub closed_reason : Reason
  pub reservations : Dict Reservation
  pub overlay : ReservationOverlay
  pub next_reservation_id : ℕ
  pub maximum_reservations : ℤ
  pub window_histogram : WindowConcurrencyHistogram

pub record ControllerConfig (W : Type 0) : Type 0 where
  pub identity : String
  pub tps_reference : W
  pub window : ℤ
  pub limit : ℤ
  pub limit_source : RunningLimitSource
  pub lease_duration : Duration
  pub backend_tier_scheduling : Bool
  pub warm_prompt_tokens : ℤ

abbrev pub default_window_concurrency : ℤ
default_window_concurrency = pos 32

abbrev pub default_waiting_allowance : ℤ
default_waiting_allowance = pos 3

-- 1 << 20.
abbrev pub maximum_tps_reservations : ℤ
maximum_tps_reservations = pos 1_048_576

abbrev pub default_pending_first_byte_lease_duration : Duration
default_pending_first_byte_lease_duration = pos 1_500_000_000

abbrev is_source_empty : RunningLimitSource → Bool
is_source_empty source_empty = true
is_source_empty _ = false

abbrev is_source_unknown : RunningLimitSource → Bool
is_source_unknown source_unknown = true
is_source_unknown _ = false

module _ {W : Type 0} ⦃fl : Float64 W⦄ where
  -- The three defaults of the constructor.
  unfoldable pub with_defaults : ControllerConfig W → ControllerConfig W
  with_defaults k = record k {
    window = if eq_ℤ k.window (pos 0) then default_window_concurrency else k.window;
    limit_source = if is_source_empty k.limit_source then source_unknown else k.limit_source;
    lease_duration =
        if eq_ℤ k.lease_duration (pos 0)
        then default_pending_first_byte_lease_duration
        else k.lease_duration;
  }

  unfoldable pub bad_bounds : ControllerConfig W → Bool
  bad_bounds k =
      leb_ℤ k.window (pos 0)
      || (ltb_ℤ maximum_tps_reservations k.window
          || (ltb_ℤ k.limit (pos 0)
              || (ltb_ℤ maximum_tps_reservations k.limit
                  || (ltb_ℤ k.lease_duration (pos 0)
                      || (not (valid_source k.limit_source)
                          || (ltb_ℤ (pos 0) k.limit && is_source_unknown k.limit_source))))))

  unfoldable pub fresh_controller : ℕ → ControllerConfig W → AdmissionController W
  fresh_controller address k = record {
    address = address;
    runtime_identity = k.identity;
    policy = new_admission_policy k.backend_tier_scheduling k.warm_prompt_tokens;
    tps_window = new_tps_window k.tps_reference;
    window_concurrency = k.window;
    running_limit = k.limit;
    waiting_allowance = default_waiting_allowance;
    running_limit_source = k.limit_source;
    pending_first_byte_lease_duration = k.lease_duration;
    exposure = empty_ledger;
    runtime_epoch = 1;
    event_sequence = 0;
    sample_sequence = 0;
    observation_sequence = 0;
    last_published_sample = 0;
    last_exposure = empty_exposure;
    policy_revision = 1;
    policy_updated_at = 0;
    tps_policy_epoch = 1;
    observation = nothing_observed;
    has_observation = false;
    closed_reason = no_reason;
    reservations = [];
    overlay = empty_overlay;
    next_reservation_id = 0;
    maximum_reservations = maximum_tps_reservations;
    window_histogram = empty_histogram;
  }

  -- `none` is an error.
  unfoldable pub new_admission_controller : ℕ → ControllerConfig W → Option (AdmissionController W)
  unfolding with_defaults bad_bounds fresh_controller
  new_admission_controller address config =
      if str_eq config.identity ""
      then none
      else if not (finite_nonnegative config.tps_reference)
          || fl.lt (fl.of_uint64 1_000_000) config.tps_reference
      then none
      else if bad_bounds (with_defaults config)
      then none
      else some (fresh_controller address (with_defaults config))

  unfoldable pub fail_closed : AdmissionController W → Reason → AdmissionController W
  fail_closed c reason = if is_set c.closed_reason then c else record c {
    closed_reason = reason;
    runtime_epoch = if ltb c.runtime_epoch max_uint64 then c.runtime_epoch + 1 else c.runtime_epoch;
    reservations = [];
    overlay = empty_overlay;
    exposure = empty_ledger;
    last_exposure = empty_exposure;
    tps_window = reset c.tps_window;
  }

  -- `none` is the false flag.
  unfoldable pub next_event_sequence : AdmissionController W → AdmissionController W × Option ℕ
  unfolding fail_closed
  next_event_sequence c =
      if c.event_sequence == max_uint64
      then (fail_closed c counter_overflow, none)
      else (record c { event_sequence = c.event_sequence + 1 }, some (c.event_sequence + 1))
