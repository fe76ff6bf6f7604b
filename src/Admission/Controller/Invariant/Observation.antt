-- ===== src/Admission/Controller/Invariant/Observation.antt =====
-- `PublishObservation` keeps the accounts.
use phala_inference_guard.Base.{
  ℕ, ◌+◌, ◌≡◌, refl, sym, ◌∙◌, ap, inl, inr, Bool, true, false, not, ◌&&◌, ◌||◌, ◌==◌, some, arith,
  Bool-cases, Option-cases, ℤ, pos, sum_by,
}
use text.Mathlib.Text.{◌==◌ as str_eq}
use phala_inference_guard.Go.Words.{max_uint64}
use phala_inference_guard.Go.Time.{Time}
use phala_inference_guard.Go.Float.{Float64}
use phala_inference_guard.Admission.Types.{is_set, runtime_identity_drift, counter_overflow}
use phala_inference_guard.Admission.Overlay.Laws.{zero_tally, overlay_of}
use phala_inference_guard.Admission.Projection.{BackendObservation, ObservedState}
use phala_inference_guard.Admission.Exposure.{subtract_exposure}
use phala_inference_guard.Admission.Exposure.Invariant.{IsLedger-at}
use phala_inference_guard.Admission.Window.Buckets.{TpsWindow, enabled}
use phala_inference_guard.Admission.Window.Observe.{observe}
use phala_inference_guard.Admission.Controller.State.{AdmissionController}
use phala_inference_guard.Admission.Controller.Reconcile.{reconciled_overlay, apply_reconciliation}
use phala_inference_guard.Admission.Controller.Publish.{
  SampleWindow, bad_window, valid_backend_observation, goes_back, resets, exposure_seconds,
  publish_reset, sample_of, restart, commit_observation, keep_evidence, take_evidence, reconciled,
  finish_publication, publish_next, sample_histogram, publish_observation, deltas_of,
}
use phala_inference_guard.Admission.Controller.Sums.{Reservations, total_tally}
use phala_inference_guard.Admission.Controller.Invariant.{Inv, empty-Accounts}
use phala_inference_guard.Admission.Controller.Invariant.Commits.{fail_closed-Inv}
use phala_inference_guard.Admission.Controller.Invariant.Reconciliation.{
  liable, total_liable-le, reconciled_overlay-from, applied-entries, applied-keys, applied-exposure,
  applied-liabilities, zero-⊞,
}

zero_left : (n : ℕ) → 0 + n ≡ n
zero_left n = omega arith

module _ {W : Type 0} ⦃fl : Float64 W⦄ where
  module _ (c : AdmissionController W) (v : Inv c) (w : SampleWindow) (o : BackendObservation W)
      (at : Time) where
    abbrev pub kept : Reservations
    kept =
        apply_reconciliation w.window_event_sequence o at c.pending_first_byte_lease_duration
          c.reservations

    -- The reconciliation never fails: it gives the exact tally of the reservations that stay.
    pub reconciled_overlay-total :
        reconciled_overlay w.window_event_sequence o at c.pending_first_byte_lease_duration
          c.reservations c.overlay
          (pos 0)
        ≡ some (
          overlay_of (total_tally kept),
          pos (sum_by (liable w.window_event_sequence) c.reservations),
        )
    reconciled_overlay-total =
        let all = total_liable-le w.window_event_sequence c.reservations in
        let e =
          reconciled_overlay-from c.runtime_epoch c.next_reservation_id v.epoch_pos
            w.window_event_sequence o at c.pending_first_byte_lease_duration c.reservations
            zero_tally 0 (omega arith, omega arith, omega arith) v.entries
            (omega (arith, v.liabilities_fit)) (omega (arith, all, v.liabilities_fit)) in
        rw v.overlay_eq (
          ap
            (λ t.
              reconciled_overlay w.window_event_sequence o at c.pending_first_byte_lease_duration
                c.reservations (overlay_of t) (pos 0))
            (sym (zero-⊞ (total_tally c.reservations)))
          ∙ e
          ∙ (λ i. some (
            overlay_of (zero-⊞ (total_tally kept) i),
            pos (zero_left (sum_by (liable w.window_event_sequence) c.reservations) i),
          )))

    pub reconciled-Inv :
        is_set c.closed_reason ≡ false → Inv (reconciled c w o at (overlay_of (total_tally kept)))
    unfolding reconciled
    reconciled-Inv intake =
        let moved =
          applied-exposure c.runtime_epoch c.next_reservation_id v.epoch_pos w.window_event_sequence
            o at c.pending_first_byte_lease_duration c.reservations in
        let less =
          applied-liabilities c.runtime_epoch c.next_reservation_id v.epoch_pos
            w.window_event_sequence o at c.pending_first_byte_lease_duration c.reservations
            v.entries in
        record {
          epoch_pos = v.epoch_pos;
          entries =
              applied-entries c.runtime_epoch c.next_reservation_id v.epoch_pos
                w.window_event_sequence o at c.pending_first_byte_lease_duration c.reservations
                v.entries;
          keys =
              applied-keys c.runtime_epoch c.next_reservation_id v.epoch_pos w.window_event_sequence
                o at c.pending_first_byte_lease_duration c.reservations v.keys;
          overlay_eq = refl;
          liabilities_fit = omega (arith, less, v.liabilities_fit);
          ledger = IsLedger-at c.exposure moved.0 moved.1 v.ledger;
          closed_empty = λ e. absurd (ground arith);
        }

  keep_evidence-Inv :
      (c : AdmissionController W) (q : TpsWindow W × Bool)
      → Inv c
      → Inv (keep_evidence c q).0 × ((keep_evidence c q).0.closed_reason ≡ c.closed_reason)
  unfolding keep_evidence
  keep_evidence-Inv c (tps, ok) v = (v, refl)

  take_evidence-Inv :
      (c : AdmissionController W) (w : SampleWindow) (o : BackendObservation W) (n : ℤ) (f r : W)
      → Inv c
      → Inv (take_evidence c w o n f r).0
        × ((take_evidence c w o n f r).0.closed_reason ≡ c.closed_reason)
  unfolding take_evidence
  take_evidence-Inv c w o n f r v =
      elim (Bool-cases (
        c.has_observation
        && (w.window_policy_epoch == c.tps_policy_epoch && enabled c.tps_window))) [
          | inl e ↦
              rw (take_evidence, e)
                (keep_evidence-Inv c
                  (observe c.tps_window (sample_of c o (deltas_of c o).generation_delta n f r)) v)
          | inr e ↦ rw (take_evidence, e) (v, refl)
        ]

  finish_publication-Inv :
      (q : AdmissionController W × Bool) (o : BackendObservation W) (deltas : ObservedState W)
      → Inv q.0
      → is_set q.0.closed_reason ≡ false
      → Inv (finish_publication q o deltas).0
  unfolding finish_publication commit_observation
  finish_publication-Inv (c, false) o deltas v intake = fail_closed-Inv c _ v.epoch_pos intake
  finish_publication-Inv (c, true) o deltas v intake = v

  publish_next-Inv :
      (c : AdmissionController W) (w : SampleWindow) (o : BackendObservation W) (at : Time)
      → Inv c
      → is_set c.closed_reason ≡ false
      → Inv (publish_next c w o at).0
  unfolding publish_next reconciled
  publish_next-Inv c w o at v intake =
      elim (Option-cases (subtract_exposure w.window_exposure c.last_exposure)) [
        | inl a ↦ rw (publish_next, a) (fail_closed-Inv c _ v.epoch_pos intake)
        | inr (exposure, a) ↦ elim (Option-cases (exposure_seconds {W = W} exposure)) [
          | inl b ↦ rw (publish_next, a, b) (fail_closed-Inv c _ v.epoch_pos intake)
          | inr ((f, r), b) ↦
              let n = sum_by (liable w.window_event_sequence) c.reservations in
              let next = reconciled c w o at (overlay_of (total_tally (kept c v w o at))) in
              let h = take_evidence-Inv next w o (pos n) f r (reconciled-Inv c v w o at intake) in
              rw (publish_next, a, b, reconciled_overlay-total c v w o at)
                (finish_publication-Inv (take_evidence next w o (pos n) f r) o (deltas_of c o) h.0
                  (ap (λ x. is_set x) h.1 ∙ intake))
        ]
      ]

  publish_reset-Inv :
      (c : AdmissionController W) (o : BackendObservation W)
      → Inv c
      → is_set c.closed_reason ≡ false
      → Inv (publish_reset c o).0
  unfolding publish_reset restart commit_observation
  publish_reset-Inv c o v intake = elim (Bool-cases (c.runtime_epoch == max_uint64)) [
    | inl e ↦ rw (publish_reset, e) (fail_closed-Inv c _ v.epoch_pos intake)
    | inr e ↦
        rw (publish_reset, e)
          (empty-Accounts (c.runtime_epoch + 1) c.next_reservation_id c.closed_reason (omega arith))
  ]

  sample_histogram-Inv :
      (c : AdmissionController W)
      → Inv c
      → Inv (sample_histogram c) × ((sample_histogram c).closed_reason ≡ c.closed_reason)
  unfolding sample_histogram
  sample_histogram-Inv c v = elim (Bool-cases c.has_observation) [
    | inl e ↦ rw (sample_histogram, e) (v, refl)
    | inr e ↦ rw (sample_histogram, e) (v, refl)
  ]

  pub publish_observation-Inv :
      (c : AdmissionController W) (w : SampleWindow) (o : BackendObservation W) (at : Time)
      → Inv c
      → Inv (publish_observation c w o at).0
  unfolding publish_observation
  publish_observation-Inv c w o at v = elim (Bool-cases (is_set c.closed_reason)) [
    | inl shut ↦ rw (publish_observation, shut) v
    | inr intake ↦ elim (Bool-cases (bad_window c w || not (valid_backend_observation o))) [
      | inl a ↦ rw (publish_observation, intake, a) v
      | inr a ↦ elim (Bool-cases (str_eq o.runtime_identity c.runtime_identity)) [
        | inr b ↦
            rw (publish_observation, intake, a, b)
              (fail_closed-Inv c runtime_identity_drift v.epoch_pos intake)
        | inl b ↦ elim (Bool-cases (goes_back c o)) [
          | inl g ↦ rw (publish_observation, intake, a, b, g) v
          | inr g ↦ elim (Bool-cases (c.observation_sequence == max_uint64)) [
            | inl m ↦
                rw (publish_observation, intake, a, b, g, m)
                  (fail_closed-Inv c counter_overflow v.epoch_pos intake)
            | inr m ↦ elim (Bool-cases (resets c o)) [
              | inl r ↦
                  rw (publish_observation, intake, a, b, g, m, r) (publish_reset-Inv c o v intake)
              | inr r ↦
                  let h = sample_histogram-Inv c v in
                  rw (publish_observation, intake, a, b, g, m, r)
                    (publish_next-Inv (sample_histogram c) w o at h.0
                      (ap (λ x. is_set x) h.1 ∙ intake))
            ]
          ]
        ]
      ]
    ]
  ]
