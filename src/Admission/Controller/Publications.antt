-- ===== src/Admission/Controller/Publications.antt =====
-- A sample window is published at most once.
use phala_inference_guard.Base.{
  ◌≡◌, inl, inr, refl, Bool, true, false, arith, ◌==◌, Bool-cases, ℤ, pos, Option-cases, not, ◌||◌,
}
use text.Mathlib.Text.{◌==◌ as str_eq}
use phala_inference_guard.Go.Words.{max_uint64}
use phala_inference_guard.Go.Time.{Time}
use phala_inference_guard.Go.Float.{Float64}
use phala_inference_guard.Admission.Types.{is_set}
use phala_inference_guard.Admission.Projection.{BackendObservation, ObservedState}
use phala_inference_guard.Admission.Exposure.{subtract_exposure}
use phala_inference_guard.Admission.Controller.State.{AdmissionController}
use phala_inference_guard.Admission.Controller.Reconcile.{reconciled_overlay}
use phala_inference_guard.Admission.Controller.Publish.{
  SampleWindow, PublicationResult, bad_window, valid_backend_observation, goes_back, resets,
  exposure_seconds, publish_reset, restart, commit_observation, keep_evidence, take_evidence,
  reconciled, finish_publication, publish_next, sample_histogram, publish_observation, deltas_of,
}

module _ {W : Type 0} ⦃fl : Float64 W⦄ where
  -- A publication that is accepted leaves its window spent.
  abbrev Spent : SampleWindow → AdmissionController W × PublicationResult → Type 0
  Spent w q = q.1.accepted ≡ true → bad_window q.0 w ≡ true

  take_evidence-published :
      (c : AdmissionController W) (w : SampleWindow) (o : BackendObservation W) (n : ℤ) (f r : W)
      → (take_evidence c w o n f r).0.last_published_sample ≡ c.last_published_sample
  unfolding take_evidence keep_evidence
  take_evidence-published c w o n f r = ground arith

  finish_publication-Spent :
      (q : AdmissionController W × Bool) (w : SampleWindow) (o : BackendObservation W)
      (deltas : ObservedState W)
      → q.0.last_published_sample ≡ w.window_id
      → Spent w (finish_publication q o deltas)
  unfolding finish_publication commit_observation bad_window
  finish_publication-Spent (c, false) w o deltas e h = absurd (ground arith)
  finish_publication-Spent (c, true) w o deltas e h = ground arith

  publish_next-Spent :
      (c : AdmissionController W) (w : SampleWindow) (o : BackendObservation W) (at : Time)
      → Spent w (publish_next c w o at)
  unfolding publish_next reconciled
  publish_next-Spent c w o at =
      elim (Option-cases (subtract_exposure w.window_exposure c.last_exposure)) [
        | inl a ↦ rw (publish_next, a) (λ h. absurd (ground arith))
        | inr (exposure, a) ↦ elim (Option-cases (exposure_seconds {W = W} exposure)) [
          | inl b ↦ rw (publish_next, a, b) (λ h. absurd (ground arith))
          | inr ((f, r), b) ↦
              elim (Option-cases (
                reconciled_overlay w.window_event_sequence o at c.pending_first_byte_lease_duration
                  c.reservations c.overlay (pos 0))) [
                    | inl e ↦ rw (publish_next, a, b, e) (λ h. absurd (ground arith))
                    | inr ((overlay, n), e) ↦
                        rw (publish_next, a, b, e)
                          (finish_publication-Spent
                            (take_evidence (reconciled c w o at overlay) w o n f r) w o
                            (deltas_of c o)
                            (take_evidence-published (reconciled c w o at overlay) w o n f r))
                  ]
        ]
      ]

  publish_reset-Spent :
      (c : AdmissionController W) (w : SampleWindow) (o : BackendObservation W)
      → w.window_epoch ≡ c.runtime_epoch
      → Spent w (publish_reset c o)
  unfolding publish_reset restart commit_observation bad_window
  publish_reset-Spent c w o e h = ground arith

  current_epoch :
      (c : AdmissionController W) (w : SampleWindow) (good : Bool)
      → (bad_window c w || not good) ≡ false
      → w.window_epoch ≡ c.runtime_epoch
  unfolding bad_window
  current_epoch c w good h = ground arith

  publish_observation-Spent :
      (c : AdmissionController W) (w : SampleWindow) (o : BackendObservation W) (at : Time)
      → Spent w (publish_observation c w o at)
  unfolding publish_observation
  publish_observation-Spent c w o at = elim (Bool-cases (is_set c.closed_reason)) [
    | inl shut ↦ rw (publish_observation, shut) (λ h. absurd (ground arith))
    | inr intake ↦ elim (Bool-cases (bad_window c w || not (valid_backend_observation o))) [
      | inl a ↦ rw (publish_observation, intake, a) (λ h. absurd (ground arith))
      | inr a ↦ elim (Bool-cases (str_eq o.runtime_identity c.runtime_identity)) [
        | inr b ↦ rw (publish_observation, intake, a, b) (λ h. absurd (ground arith))
        | inl b ↦ elim (Bool-cases (goes_back c o)) [
          | inl g ↦ rw (publish_observation, intake, a, b, g) (λ h. absurd (ground arith))
          | inr g ↦ elim (Bool-cases (c.observation_sequence == max_uint64)) [
            | inl m ↦ rw (publish_observation, intake, a, b, g, m) (λ h. absurd (ground arith))
            | inr m ↦ elim (Bool-cases (resets c o)) [
              | inl r ↦
                  rw (publish_observation, intake, a, b, g, m, r)
                    (publish_reset-Spent c w o (current_epoch c w (valid_backend_observation o) a))
              | inr r ↦
                  rw (publish_observation, intake, a, b, g, m, r)
                    (publish_next-Spent (sample_histogram c) w o at)
            ]
          ]
        ]
      ]
    ]
  ]

  bad_window-rejected :
      (c : AdmissionController W) (w : SampleWindow) (o : BackendObservation W) (at : Time)
      → bad_window c w ≡ true
      → ((publish_observation c w o at).0 ≡ c) × ((publish_observation c w o at).1.accepted ≡ false)
  unfolding publish_observation
  bad_window-rejected c w o at bad = elim (Bool-cases (is_set c.closed_reason)) [
    | inl shut ↦ rw (publish_observation, shut) (refl, refl)
    | inr intake ↦ rw (publish_observation, intake, bad) (refl, refl)
  ]

  -- A sample window is published at most once: after a publication that is accepted, another with
  -- the same window is rejected and changes nothing.
  pub publish_observation-once :
      (c : AdmissionController W) (w : SampleWindow) (o o' : BackendObservation W) (at at' : Time)
      → (publish_observation c w o at).1.accepted ≡ true
      → ((publish_observation (publish_observation c w o at).0 w o' at').0
          ≡ (publish_observation c w o at).0)
        × ((publish_observation (publish_observation c w o at).0 w o' at').1.accepted ≡ false)
  publish_observation-once c w o o' at at' h =
      bad_window-rejected (publish_observation c w o at).0 w o' at'
        (publish_observation-Spent c w o at h)
