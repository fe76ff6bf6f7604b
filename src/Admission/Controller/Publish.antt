-- ===== src/Admission/Controller/Publish.antt =====
-- controller.go: `StartSampleWindow` and `PublishObservation`.
use phala_inference_guard.Base.{
  ℕ, ◌+◌, ◌-◌, Bool, true, false, not, ◌&&◌, ◌||◌, ◌==◌, ltb, leb, if◌then◌else◌, Option, none,
  some, [], ℤ, pos, ltb_ℤ, leb_ℤ,
}
use text.Mathlib.Text.{◌==◌ as str_eq}
use phala_inference_guard.Go.Words.{max_uint64}
use phala_inference_guard.Go.Time.{Time, is_zero, before, sub_time, second}
use phala_inference_guard.Go.Float.{Float64}
use phala_inference_guard.Admission.Types.{
  Reason, open_intake, observation_invalid, runtime_identity_drift, counter_overflow,
  controller_unavailable, is_set,
}
use phala_inference_guard.Admission.Numeric.{add_nonnegative_int64}
use phala_inference_guard.Admission.Overlay.{ReservationOverlay, empty_overlay}
use phala_inference_guard.Admission.Exposure.{
  SequenceNanoseconds, SequenceExposureSnapshot, SequenceExposureLedger, empty_ledger,
  empty_exposure, snapshot_exposure, subtract_exposure, valid_exposure,
}
use phala_inference_guard.Admission.Tps.{zero_float, finite_nonnegative}
use phala_inference_guard.Admission.Projection.{BackendObservation, ObservedState}
use phala_inference_guard.Admission.Histogram.{observe_histogram}
use phala_inference_guard.Admission.Window.Buckets.{TpsWindow, reset, enabled}
use phala_inference_guard.Admission.Window.Observe.{TpsSample, observe}
use phala_inference_guard.Admission.Controller.State.{AdmissionController, fail_closed}
use phala_inference_guard.Admission.Controller.Reconcile.{reconciled_overlay, apply_reconciliation}

pub record SampleWindow : Type 0 where
  pub window_controller : ℕ
  pub window_epoch : ℕ
  pub window_policy_epoch : ℕ
  pub window_id : ℕ
  pub window_event_sequence : ℕ
  pub window_exposure : SequenceExposureSnapshot

pub record PublicationResult : Type 0 where
  pub accepted : Bool
  pub runtime_reset : Bool
  pub runtime_identity_drift_seen : Bool
  pub reason : Reason
  pub observation_sequence : ℕ
  pub runtime_epoch : ℕ

module _ {W : Type 0} ⦃fl : Float64 W⦄ where
  -- `none` is the false flag.
  unfoldable pub open_window :
      AdmissionController W
      → SequenceExposureLedger × Option SequenceExposureSnapshot
      → AdmissionController W × Option SampleWindow
  open_window c (l, none) = (fail_closed (record c { exposure = l }) controller_unavailable, none)
  open_window c (l, some exposure) = (
    record c { exposure = l; sample_sequence = c.sample_sequence + 1 },
    some (record {
      window_controller = c.address;
      window_epoch = c.runtime_epoch;
      window_policy_epoch = c.tps_policy_epoch;
      window_id = c.sample_sequence + 1;
      window_event_sequence = c.event_sequence;
      window_exposure = exposure;
    }),
  )

  unfoldable pub start_sample_window :
      AdmissionController W → Time → AdmissionController W × Option SampleWindow
  unfolding open_window
  start_sample_window c now =
      if is_set c.closed_reason
      then (c, none)
      else if c.sample_sequence == max_uint64
      then (fail_closed c counter_overflow, none)
      else open_window c (snapshot_exposure c.exposure now)

  unfoldable pub valid_backend_observation : BackendObservation W → Bool
  valid_backend_observation o =
      if str_eq o.runtime_identity ""
        || (is_zero o.observed_at
            || (leb_ℤ o.maximum_age (pos 0)
                || (ltb_ℤ o.running (pos 0) || ltb_ℤ o.waiting (pos 0))))
      then false
      else if fl.lt o.runtime_start_time zero_float
          || (fl.is_nan o.runtime_start_time || fl.is_inf o.runtime_start_time)
      then false
      else elim (add_nonnegative_int64 o.running o.waiting) [ none ↦ false | some _ ↦ true ]

  unfoldable pub nanoseconds_seconds : SequenceNanoseconds → W
  nanoseconds_seconds n =
      fl.div (fl.add (fl.ldexp64 (fl.of_uint64 n.high)) (fl.of_uint64 n.low)) (fl.of_uint64 second)

  -- `none` is the false flag.
  unfoldable pub exposure_seconds : SequenceExposureSnapshot → Option (W × W)
  unfolding nanoseconds_seconds
  exposure_seconds s =
      let f = nanoseconds_seconds s.forwarded_nanoseconds in
      let r = nanoseconds_seconds s.response_nanoseconds in
      if not (valid_exposure s)
        || (not (finite_nonnegative f) || (not (finite_nonnegative r) || not (fl.le r f)))
      then none
      else some (f, r)

  abbrev pub rejected : AdmissionController W → Reason → AdmissionController W × PublicationResult
  rejected c reason = (
    c,
    record {
      accepted = false;
      runtime_reset = false;
      runtime_identity_drift_seen = false;
      reason = reason;
      observation_sequence = 0;
      runtime_epoch = c.runtime_epoch;
    },
  )

  abbrev pub closes : AdmissionController W → Reason → AdmissionController W × PublicationResult
  closes c reason = rejected (fail_closed c reason) reason

  -- The guards that leave the controller as it is.
  unfoldable pub bad_window : AdmissionController W → SampleWindow → Bool
  bad_window c w =
      not (w.window_controller == c.address)
      || (not (w.window_epoch == c.runtime_epoch)
          || (w.window_id == 0
              || (ltb c.sample_sequence w.window_id || leb w.window_id c.last_published_sample)))

  -- An observation from before the last one, or that lost the start time.
  unfoldable pub goes_back : AdmissionController W → BackendObservation W → Bool
  goes_back c o =
      c.has_observation
      && (before o.observed_at c.observation.observation.observed_at
          || (fl.lt zero_float c.observation.observation.runtime_start_time
              && fl.eq o.runtime_start_time zero_float))

  -- A restart of the backend: another start time, or a counter that fell.
  unfoldable pub resets : AdmissionController W → BackendObservation W → Bool
  resets c o =
      let last = c.observation.observation in
      c.has_observation
      && ((fl.lt zero_float o.runtime_start_time
            && (fl.lt zero_float last.runtime_start_time
                && not (fl.eq o.runtime_start_time last.runtime_start_time)))
          || (ltb o.generation_tokens_total last.generation_tokens_total
              || ltb o.preemptions_total last.preemptions_total))

  -- The commit that ends a publication.
  unfoldable pub commit_observation :
      AdmissionController W
      → BackendObservation W
      → Bool
      → ObservedState W
      → AdmissionController W × PublicationResult
  commit_observation c o was_reset deltas = (
    record c {
      observation_sequence = c.observation_sequence + 1;
      observation = record deltas { observation = o; sequence = c.observation_sequence + 1 };
      has_observation = true;
    },
    record {
      accepted = true;
      runtime_reset = was_reset;
      runtime_identity_drift_seen = false;
      reason = open_intake;
      observation_sequence = c.observation_sequence + 1;
      runtime_epoch = c.runtime_epoch;
    },
  )

  -- The deltas against the last observation, zero where there is none.
  unfoldable pub deltas_of : AdmissionController W → BackendObservation W → ObservedState W
  deltas_of c o =
      let last = c.observation.observation in
      record {
        observation = o;
        sequence = 0;
        generation_delta =
            if c.has_observation
            then o.generation_tokens_total - last.generation_tokens_total
            else 0;
        preemption_delta =
            if c.has_observation then o.preemptions_total - last.preemptions_total else 0;
        interval = if c.has_observation then sub_time o.observed_at last.observed_at else pos 0;
        previous_running = if c.has_observation then last.running else pos 0;
        previous_waiting = if c.has_observation then last.waiting else pos 0;
      }

  abbrev pub no_deltas : BackendObservation W → ObservedState W
  no_deltas o = record {
    observation = o;
    sequence = 0;
    generation_delta = 0;
    preemption_delta = 0;
    interval = pos 0;
    previous_running = pos 0;
    previous_waiting = pos 0;
  }

  unfoldable pub restart : AdmissionController W → AdmissionController W
  restart c = record c {
    runtime_epoch = c.runtime_epoch + 1;
    reservations = [];
    overlay = empty_overlay;
    sample_sequence = 0;
    last_published_sample = 0;
    last_exposure = empty_exposure;
    exposure = empty_ledger;
    tps_window = reset c.tps_window;
  }

  unfoldable pub publish_reset :
      AdmissionController W → BackendObservation W → AdmissionController W × PublicationResult
  unfolding restart
  publish_reset c o =
      if c.runtime_epoch == max_uint64
      then closes c counter_overflow
      else commit_observation (restart c) o true (no_deltas o)

  abbrev pub sample_of : AdmissionController W → BackendObservation W → ℕ → ℤ → W → W → TpsSample W
  sample_of c o tokens liabilities f r = record {
    start = c.observation.observation.observed_at;
    end = o.observed_at;
    maximum_interval = o.maximum_age;
    generated_tokens = tokens;
    previous_running = c.observation.observation.running;
    running = o.running;
    forwarded_sequence_liabilities = liabilities;
    local_exposure_measured = true;
    local_forwarded_sequence_seconds = f;
    local_response_sequence_seconds = r;
  }

  unfoldable pub keep_evidence :
      AdmissionController W → TpsWindow W × Bool → AdmissionController W × Bool
  keep_evidence c (tps, ok) = (record c { tps_window = tps }, ok)

  -- The TPS window takes the interval in, unless the policy changed since the window was opened.
  unfoldable pub take_evidence :
      AdmissionController W
      → SampleWindow
      → BackendObservation W
      → ℤ
      → W
      → W
      → AdmissionController W × Bool
  unfolding keep_evidence
  take_evidence c w o liabilities f r =
      if c.has_observation && (w.window_policy_epoch == c.tps_policy_epoch && enabled c.tps_window)
      then keep_evidence c
          (observe c.tps_window (sample_of c o (deltas_of c o).generation_delta liabilities f r))
      else (c, true)

  -- The state once the reservations are reconciled.
  unfoldable pub reconciled :
      AdmissionController W
      → SampleWindow
      → BackendObservation W
      → Time
      → ReservationOverlay
      → AdmissionController W
  reconciled c w o at overlay = record c {
    reservations =
        apply_reconciliation w.window_event_sequence o at c.pending_first_byte_lease_duration
          c.reservations;
    overlay = overlay;
    last_published_sample = w.window_id;
    last_exposure = w.window_exposure;
  }

  unfoldable pub finish_publication :
      AdmissionController W × Bool
      → BackendObservation W
      → ObservedState W
      → AdmissionController W × PublicationResult
  finish_publication (c, false) o deltas = closes c counter_overflow
  finish_publication (c, true) o deltas = commit_observation c o false deltas

  unfoldable pub publish_next :
      AdmissionController W
      → SampleWindow
      → BackendObservation W
      → Time
      → AdmissionController W × PublicationResult
  unfolding reconciled take_evidence finish_publication
  publish_next c w o at = elim (subtract_exposure w.window_exposure c.last_exposure) [
    | none ↦ closes c controller_unavailable
    | some exposure ↦ elim (exposure_seconds exposure) [
      | none ↦ closes c controller_unavailable
      | some (f, r) ↦
          elim (reconciled_overlay w.window_event_sequence o at c.pending_first_byte_lease_duration
            c.reservations c.overlay (pos 0)) [
              | none ↦ closes c controller_unavailable
              | some (overlay, liabilities) ↦
                  finish_publication
                    (take_evidence (reconciled c w o at overlay) w o liabilities f r) o
                    (deltas_of c o)
            ]
    ]
  ]

  -- The histogram samples the unreconciled sequences before a reconciliation.
  unfoldable pub sample_histogram : AdmissionController W → AdmissionController W
  sample_histogram c =
      if c.has_observation
      then record c {
        window_histogram = observe_histogram c.window_histogram c.overlay.unobserved_sequences;
      }
      else c

  unfoldable pub publish_observation :
      AdmissionController W
      → SampleWindow
      → BackendObservation W
      → Time
      → AdmissionController W × PublicationResult
  unfolding publish_reset publish_next sample_histogram
  publish_observation c w o at =
      if is_set c.closed_reason
      then rejected c c.closed_reason
      else if bad_window c w || not (valid_backend_observation o)
      then rejected c observation_invalid
      else if not (str_eq o.runtime_identity c.runtime_identity)
      then (let (c', r) = closes c runtime_identity_drift in
          (c', record r { runtime_identity_drift_seen = true }))
      else if goes_back c o
      then rejected c observation_invalid
      else if c.observation_sequence == max_uint64
      then closes c counter_overflow
      else if resets c o
      then publish_reset c o
      else publish_next (sample_histogram c) w o at
