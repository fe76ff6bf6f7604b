-- ===== src/Admission/Runs.antt =====
-- A concrete float64 and runs of the controller on concrete calls.
use phala_inference_guard.Base.{
  ℕ, ◌+◌, ◌-◌, ◌*◌, ◌/◌, ◌≡◌, refl, true, false, none, some, ltb, leb, ◌==◌, pos, pos_part, lookup,
}
use phala_inference_guard.Go.Float.{Float64}
use phala_inference_guard.Go.Words.{max_uint64}
use phala_inference_guard.Admission.Numeric.{add_nonnegative_int64}
use phala_inference_guard.Admission.Exposure.{
  empty_exposure, add_duration, subtract, compare_nanoseconds, valid_exposure, subtract_exposure,
  valid_ledger, record_integrals, integrate, advance, enter_forwarded, add_forwarded,
  enter_response, add_response, leave, remove, read_exposure, snapshot_exposure,
}
use phala_inference_guard.Admission.Policy.{
  decide_priority, decide_sheddable, decide, evaluate_policy,
}
use phala_inference_guard.Admission.Window.Snapshot.{
  tps_bucket_active_at, include, accumulate, is_ready, with_means, conclude, snapshot,
}
use phala_inference_guard.Admission.Histogram.{observe_buckets, observe_histogram}
use phala_inference_guard.Admission.Controller.State.{
  AdmissionController, ControllerConfig, new_admission_controller, fresh_controller, with_defaults,
  bad_bounds, fail_closed, next_event_sequence,
}
use phala_inference_guard.Admission.Controller.Decide.{
  is_stale, read_state, unavailable_decision, decision_of, commit_numbered, commit_reservation,
  reserve, admit_request,
}
use phala_inference_guard.Admission.Controller.Reconcile.{
  covered, add_liability, reconcile_one, apply_one, pending_first_byte_lease_expired, lease_ends,
  reconcile_reservation, reconciled_overlay, apply_reconciliation, slow_overlay_from, slow_overlay,
}
use phala_inference_guard.Admission.Controller.Publish.{
  SampleWindow, publish_observation, open_window, start_sample_window, valid_backend_observation,
  nanoseconds_seconds, exposure_seconds, bad_window, goes_back, resets, commit_observation,
  deltas_of, restart, publish_reset, keep_evidence, take_evidence, reconciled, finish_publication,
  publish_next, sample_histogram,
}
use phala_inference_guard.Admission.Types.{source_environment, success, error, is_set}
use phala_inference_guard.Admission.Demand.{
  TpsRequestDemand, source_request, tier_default, new_tps_request_demand,
  new_fallback_tps_request_demand, with_tier, with_prefill_tokens, valid_demand,
}
use phala_inference_guard.Admission.Reservation.{
  pending_contribution, active_contribution, debt_contribution, phase_contribution, contribution,
  effective_demand, phase_exposure_counts, reservation_exposure_counts, Reservation, residual_debt,
}
use phala_inference_guard.Admission.Overlay.{
  valid_overlay, checked, add_overlay, exceeds, difference, subtract_overlay, replace_overlay,
}
use phala_inference_guard.Admission.Projection.{
  BackendObservation, valid_projected_state, projected, project,
}
use phala_inference_guard.Admission.Tps.{
  finite_nonnegative, valid_tps_interval_snapshot, valid_tps_snapshot,
}
use phala_inference_guard.Admission.Gate.{
  prompt_aware, warm, cold_sheddable, evaluate_health, evaluate_demand,
}
use phala_inference_guard.Admission.Bounds.{decide_bounds, running_sum, window_sum, evaluate_bounds}
use phala_inference_guard.Admission.Window.Observe.{
  maximum_int64, segment_end, maximum_float64, segment_increment, spread, latest_of,
  record_interval, measure_interval, malformed, observe,
}
use phala_inference_guard.Admission.Window.Buckets.{
  bucket_index, new_tps_window, enabled, reset, ended_by, expire_bucket, expire, open_bucket,
  increased, increase_fits, taken, add,
}
use phala_inference_guard.Admission.Controller.Update.{
  PolicyUpdate, no_error, update_policy, updated, valid_policy_update, policy_snapshot,
  replaced_window,
}
use phala_inference_guard.Admission.Controller.Capacity.{close}
use phala_inference_guard.Admission.Controller.Steps.{
  starts_window, publishes, admits, forwards, responds, terminates, perform, Reachable, constructed,
  called, closes_intake,
}
use phala_inference_guard.Admission.Controller.Lifecycle.{
  mark_forwarded, mark_first_byte, terminate, usable, exchange, removes, settle, release_counts,
  release_exposure, find_reservation, commit_forwarded, forward_item, commit_first_byte,
  respond_item, commit_terminated, terminate_item, handle_mark_forwarded, handle_mark_first_byte,
  handle_terminate, ReservationHandle,
}

instance abbrev pub whole : Float64 ℕ
whole = record {
  lt = ltb;
  le = leb;
  eq = ◌==◌;
  add = ◌+◌;
  sub = ◌-◌;
  mul = ◌*◌;
  div = ◌/◌;
  is_nan = λ x. false;
  is_inf = λ x. false;
  of_uint64 = λ n. n;
  of_int64 = pos_part;
  ldexp64 = λ n. n * (max_uint64 + 1);
  max_float64 = max_uint64 * max_uint64;
}

abbrev config : ControllerConfig ℕ
config = record {
  identity = "a";
  tps_reference = 0;
  window = pos 4;
  limit = pos 8;
  limit_source = source_environment;
  lease_duration = pos 0;
  backend_tier_scheduling = false;
  warm_prompt_tokens = pos 0;
}

abbrev started : AdmissionController ℕ
started = fresh_controller 1 (with_defaults config)

started-Reachable : Reachable started
unfolding new_admission_controller finite_nonnegative
started-Reachable = constructed 1 config started refl

abbrev pub window : SampleWindow
window = record {
  window_controller = 1;
  window_epoch = 1;
  window_policy_epoch = 1;
  window_id = 1;
  window_event_sequence = 0;
  window_exposure = empty_exposure;
}

abbrev pub observation : BackendObservation ℕ
observation = record {
  runtime_identity = "a";
  observed_at = 110;
  maximum_age = pos 1000;
  running = pos 1;
  waiting = pos 0;
  generation_tokens_total = 5;
  preemptions_total = 0;
  runtime_start_time = 1;
  prefill_tokens_total = 0;
  prefill_tokens_valid = false;
}

abbrev pub two : TpsRequestDemand
two = record {
  decode_sequences = pos 2;
  source = source_request;
  tier = tier_default;
  prefill_tokens = pos 0;
  prefill_known = false;
}

abbrev pub sampled : AdmissionController ℕ
sampled = perform started (starts_window 100)

abbrev pub observed : AdmissionController ℕ
observed = perform sampled (publishes window observation 120)

abbrev pub loaded : AdmissionController ℕ
loaded = perform observed (admits 130 two)

abbrev pub handle : ReservationHandle
handle = record { handle_controller = 1; handle_epoch = 1; handle_id = 1 }

abbrev pub in_flight : AdmissionController ℕ
in_flight = perform loaded (forwards handle 140)

abbrev pub answering : AdmissionController ℕ
answering = perform in_flight (responds handle 150)

abbrev pub shut : AdmissionController ℕ
shut = perform loaded closes_intake

pub loaded-Reachable : Reachable loaded
loaded-Reachable = called observed (admits 130 two) (
    called sampled (publishes window observation 120)
      (called started (starts_window 100) started-Reachable))

pub in_flight-Reachable : Reachable in_flight
in_flight-Reachable = called loaded (forwards handle 140) loaded-Reachable

pub answering-Reachable : Reachable answering
answering-Reachable = called in_flight (responds handle 150) in_flight-Reachable

abbrev pub wider : PolicyUpdate ℕ
wider = record {
  expected_revision = 1;
  new_tps_reference = none;
  new_window_concurrency = some (pos 6);
  new_running_limit = none;
  new_waiting_allowance = none;
  at = 200;
}

abbrev pub old_debt : Reservation
old_debt = record {
  id = 1;
  runtime_epoch = 1;
  demand = two;
  cold_sheddable = false;
  phase = residual_debt;
  pending_first_byte_released = true;
  forwarded_at = 140;
  admitted_sequence = 1;
  forwarded_sequence = 2;
  terminal_sequence = 4;
}

abbrev pub indebted : AdmissionController ℕ
indebted = perform answering (terminates handle error 160)

abbrev pub second_window : SampleWindow
second_window = record window { window_id = 2; window_event_sequence = 4 }

abbrev pub later : BackendObservation ℕ
later = record observation { observed_at = 180; generation_tokens_total = 6 }

-- `indebted` with a second sample window open.
abbrev pub resampled : AdmissionController ℕ
resampled = perform indebted (starts_window 170)

abbrev pub finished : AdmissionController ℕ
finished = perform answering (terminates handle success 160)

-- The calls of one request's life succeed, and so do the others that the examples rest on.
abbrev Lives : Type 0
Lives =
    ((publish_observation sampled window observation 120).1.accepted ≡ true)
    × ((mark_forwarded loaded 1 1 140).1 ≡ true)
    × ((mark_first_byte in_flight 1 1 150).1 ≡ true)
    × ((terminate answering 1 1 error 160).1 ≡ true)
    × (is_set shut.closed_reason ≡ true)
    × (loaded.runtime_epoch ≡ 1)
    × ((update_policy loaded wider).2 ≡ no_error)
    × (loaded.address ≡ 1)
    × ((publish_observation resampled second_window later 190).1.accepted ≡ true)
    × ((publish_observation resampled second_window later 190).1.runtime_reset ≡ false)
    × (lookup 1 resampled.reservations ≡ some old_debt)
    × (finished.runtime_epoch ≡ 1)
    × (finished.next_reservation_id ≡ 1)
    × (find_reservation finished 1 1 ≡ none)

pub lives : Lives
unfolding finite_nonnegative valid_tps_interval_snapshot valid_tps_snapshot add_nonnegative_int64
    new_tps_request_demand new_fallback_tps_request_demand with_tier with_prefill_tokens
    valid_demand valid_overlay checked add_overlay exceeds difference subtract_overlay
    replace_overlay pending_contribution active_contribution debt_contribution phase_contribution
    contribution effective_demand phase_exposure_counts reservation_exposure_counts add_duration
    subtract compare_nanoseconds valid_exposure subtract_exposure valid_ledger record_integrals
    integrate advance enter_forwarded add_forwarded enter_response add_response leave remove
    read_exposure snapshot_exposure valid_projected_state projected project prompt_aware warm
    cold_sheddable evaluate_health evaluate_demand decide_bounds running_sum window_sum
    evaluate_bounds decide_priority decide_sheddable decide evaluate_policy bucket_index
    new_tps_window enabled reset ended_by expire_bucket expire open_bucket increased increase_fits
    taken add tps_bucket_active_at include accumulate is_ready with_means conclude snapshot
    maximum_int64 segment_end maximum_float64 segment_increment spread latest_of record_interval
    measure_interval malformed observe observe_buckets observe_histogram with_defaults bad_bounds
    fresh_controller new_admission_controller fail_closed next_event_sequence usable exchange
    removes settle release_counts release_exposure find_reservation commit_forwarded forward_item
    mark_forwarded commit_first_byte respond_item mark_first_byte commit_terminated terminate_item
    terminate handle_mark_forwarded handle_mark_first_byte handle_terminate is_stale read_state
    unavailable_decision decision_of commit_numbered commit_reservation reserve admit_request
    covered add_liability reconcile_one apply_one pending_first_byte_lease_expired lease_ends
    reconcile_reservation reconciled_overlay apply_reconciliation slow_overlay_from slow_overlay
    open_window start_sample_window valid_backend_observation nanoseconds_seconds exposure_seconds
    bad_window goes_back resets commit_observation deltas_of restart publish_reset keep_evidence
    take_evidence reconciled finish_publication publish_next sample_histogram publish_observation
    close update_policy updated valid_policy_update policy_snapshot replaced_window
lives = (refl, refl, refl, refl, refl, refl, refl, refl, refl, refl, refl, refl, refl, refl)

pub loaded_address : loaded.address ≡ 1
loaded_address = lives.7
