-- ===== src/Admission/Controller/Debts.antt =====
-- controller.go, `applyReconciliationLocked`: which reservations an observation takes away.
use phala_inference_guard.Base.{
  ℕ, ◌≤◌, ◌<◌, ◌≡◌, ◌↔◌, ◌==◌, ◌||◌, not, inl, inr, sym, ap, subst, ◌∙◌, Bool, true, false, Option,
  none, some, arith, Bool-cases, Option-cases, lookup, HasKeys, Dict, [], ◌∷◌, ℤ, pos,
}
use text.Mathlib.Text.{◌==◌ as str_eq}
use phala_inference_guard.Go.Words.{max_uint64}
use phala_inference_guard.Go.Float.{Float64}
use phala_inference_guard.Go.Time.{Time, Duration}
use phala_inference_guard.Admission.Types.{is_set}
use phala_inference_guard.Admission.Exposure.{subtract_exposure}
use phala_inference_guard.Admission.Projection.{BackendObservation, ObservedState}
use phala_inference_guard.Admission.Reservation.{Reservation, is_residual_debt}
use phala_inference_guard.Admission.Controller.State.{AdmissionController}
use phala_inference_guard.Admission.Controller.Reconcile.{
  covered, apply_one, reconcile_reservation, reconciled_overlay, apply_reconciliation,
}
use phala_inference_guard.Admission.Controller.Publish.{
  SampleWindow, PublicationResult, bad_window, valid_backend_observation, goes_back, resets,
  exposure_seconds, publish_reset, commit_observation, keep_evidence, take_evidence, reconciled,
  finish_publication, publish_next, sample_histogram, publish_observation, deltas_of,
}
use phala_inference_guard.Admission.Controller.Steps.{Reachable, Reachable-Inv}
use phala_inference_guard.Admission.Controller.Invariant.Reconciliation.{
  after-cases, lookup-applied,
}

-- A debt that is numbered and whose number the watermark has reached.
abbrev pub IsPaid : ℕ → Reservation → Type 0
IsPaid watermark item =
    (is_residual_debt item.phase ≡ true)
    × (0 < item.terminal_sequence)
    × (item.terminal_sequence ≤ watermark)

module _ {W : Type 0} (watermark : ℕ) (o : BackendObservation W) (at : Time)
    (duration : Duration) where
  -- A reservation goes if it is a paid debt; else what is there after is the reservation or its
  -- release.
  Goes : Reservation → Option Reservation × Bool → Type 0
  Goes item q = (q ≡ (none, true)) ↔ IsPaid watermark item

  reconcile_reservation-Goes :
      (item : Reservation) → Goes item (reconcile_reservation watermark o at duration item)
  unfolding reconcile_reservation covered Goes
  reconcile_reservation-Goes item = ground arith

  -- Of a map whose keys are distinct, the reconciliation takes away the paid debts, and nothing else.
  lookup-apply_reconciliation :
      (id : ℕ) (item : Reservation) (d : Dict Reservation)
      → HasKeys d
      → lookup id d ≡ some item
      → (lookup id (apply_reconciliation watermark o at duration d) ≡ none) ↔ IsPaid watermark item
  unfolding apply_reconciliation apply_one Goes
  lookup-apply_reconciliation id item [] keys e = absurd (ground arith)
  lookup-apply_reconciliation id item ((k, head) ∷ d) (free, keys) e = elim (Bool-cases (id == k)) [
    | inl same ↦
        let at_head : head ≡ item = ground arith in
        let here : id ≡ k = ground arith in
        let goes = reconcile_reservation-Goes head in
        let gone =
          lookup-applied 1 0 (omega arith) watermark o at duration id d
            (ap (λ j. lookup j d) here ∙ free) in
        subst
          (λ i.
            (lookup id (apply_reconciliation watermark o at duration ((k, head) ∷ d)) ≡ none)
            ↔ IsPaid watermark i)
          at_head
          (elim (after-cases 1 0 (omega arith) watermark o at duration head) [
            | inl (q, _) ↦ rw q (λ _. goes.0 q, λ _. gone)
            | inr (inl (q, _)) ↦
                rw (q, same) (λ f. absurd (ground arith), λ p. absurd (ground (arith, goes.1 p, q)))
            | inr (inr q) ↦
                rw (q, same) (λ f. absurd (ground arith), λ p. absurd (ground (arith, goes.1 p, q)))
          ])
    | inr other ↦
        let rest = lookup-apply_reconciliation id item d keys (ground arith) in
        elim (after-cases 1 0 (omega arith) watermark o at duration head) [
          | inl (q, _) ↦ rw q rest
          | inr (inl (q, _)) ↦ rw (q, other) rest
          | inr (inr q) ↦ rw (q, other) rest
        ]
  ]

module _ {W : Type 0} ⦃fl : Float64 W⦄ where
  -- A publication that is accepted and is no reset leaves the reconciled reservations.
  Reconciles :
      AdmissionController W
      → SampleWindow
      → BackendObservation W
      → Time
      → AdmissionController W × PublicationResult
      → Type 0
  Reconciles c w o at q =
      q.1.accepted ≡ true
      → q.1.runtime_reset ≡ false
      → q.0.reservations
        ≡ apply_reconciliation w.window_event_sequence o at c.pending_first_byte_lease_duration
            c.reservations

  take_evidence-reservations :
      (c : AdmissionController W) (w : SampleWindow) (o : BackendObservation W) (n : ℤ) (f r : W)
      → (take_evidence c w o n f r).0.reservations ≡ c.reservations
  unfolding take_evidence keep_evidence
  take_evidence-reservations c w o n f r = ground arith

  finish_publication-Reconciles :
      (c : AdmissionController W) (q : AdmissionController W × Bool) (w : SampleWindow)
      (o : BackendObservation W) (at : Time) (deltas : ObservedState W)
      → q.0.reservations
        ≡ apply_reconciliation w.window_event_sequence o at c.pending_first_byte_lease_duration
            c.reservations
      → Reconciles c w o at (finish_publication q o deltas)
  unfolding finish_publication commit_observation Reconciles
  finish_publication-Reconciles c (c', false) w o at deltas e h n = absurd (ground arith)
  finish_publication-Reconciles c (c', true) w o at deltas e h n = e

  publish_next-Reconciles :
      (c : AdmissionController W) (w : SampleWindow) (o : BackendObservation W) (at : Time)
      → Reconciles c w o at (publish_next c w o at)
  unfolding publish_next reconciled Reconciles
  publish_next-Reconciles c w o at =
      elim (Option-cases (subtract_exposure w.window_exposure c.last_exposure)) [
        | inl a ↦ rw (publish_next, a) (λ h n. absurd (ground arith))
        | inr (exposure, a) ↦ elim (Option-cases (exposure_seconds {W = W} exposure)) [
          | inl b ↦ rw (publish_next, a, b) (λ h n. absurd (ground arith))
          | inr ((f, r), b) ↦
              elim (Option-cases (
                reconciled_overlay w.window_event_sequence o at c.pending_first_byte_lease_duration
                  c.reservations c.overlay (pos 0))) [
                    | inl e ↦ rw (publish_next, a, b, e) (λ h n. absurd (ground arith))
                    | inr ((overlay, m), e) ↦
                        rw (publish_next, a, b, e)
                          (finish_publication-Reconciles c
                            (take_evidence (reconciled c w o at overlay) w o m f r) w o at
                            (deltas_of c o)
                            (take_evidence-reservations (reconciled c w o at overlay) w o m f r))
                  ]
        ]
      ]

  sample_histogram-Reconciles :
      (c : AdmissionController W) (w : SampleWindow) (o : BackendObservation W) (at : Time)
      (q : AdmissionController W × PublicationResult)
      → Reconciles (sample_histogram c) w o at q
      → Reconciles c w o at q
  unfolding sample_histogram Reconciles
  sample_histogram-Reconciles c w o at q h = ground arith

  publish_reset-Reconciles :
      (c : AdmissionController W) (w : SampleWindow) (o : BackendObservation W) (at : Time)
      → Reconciles c w o at (publish_reset c o)
  unfolding publish_reset commit_observation Reconciles
  publish_reset-Reconciles c w o at h n = absurd (ground arith)

  publish_observation-Reconciles :
      (c : AdmissionController W) (w : SampleWindow) (o : BackendObservation W) (at : Time)
      → Reconciles c w o at (publish_observation c w o at)
  unfolding publish_observation Reconciles
  publish_observation-Reconciles c w o at = elim (Bool-cases (is_set c.closed_reason)) [
    | inl shut ↦ rw (publish_observation, shut) (λ h n. absurd (ground arith))
    | inr intake ↦ elim (Bool-cases (bad_window c w || not (valid_backend_observation o))) [
      | inl a ↦ rw (publish_observation, intake, a) (λ h n. absurd (ground arith))
      | inr a ↦ elim (Bool-cases (str_eq o.runtime_identity c.runtime_identity)) [
        | inr b ↦ rw (publish_observation, intake, a, b) (λ h n. absurd (ground arith))
        | inl b ↦ elim (Bool-cases (goes_back c o)) [
          | inl g ↦ rw (publish_observation, intake, a, b, g) (λ h n. absurd (ground arith))
          | inr g ↦ elim (Bool-cases (c.observation_sequence == max_uint64)) [
            | inl m ↦ rw (publish_observation, intake, a, b, g, m) (λ h n. absurd (ground arith))
            | inr m ↦ elim (Bool-cases (resets c o)) [
              | inl r ↦
                  rw (publish_observation, intake, a, b, g, m, r)
                    (publish_reset-Reconciles c w o at)
              | inr r ↦
                  rw (publish_observation, intake, a, b, g, m, r)
                    (sample_histogram-Reconciles c w o at (publish_next (sample_histogram c) w o at)
                      (publish_next-Reconciles (sample_histogram c) w o at))
            ]
          ]
        ]
      ]
    ]
  ]

  -- On a controller that calls lead to from its construction, a publication that is accepted and is
  -- no reset takes a reservation away exactly when it is a debt whose terminal sequence, not 0, is at
  -- most the event sequence at which the sample window was opened.
  pub publish_observation-IsPaid :
      (c : AdmissionController W) (w : SampleWindow) (o : BackendObservation W) (at : Time) (id : ℕ)
      (item : Reservation)
      → Reachable c
      → (publish_observation c w o at).1.accepted ≡ true
      → (publish_observation c w o at).1.runtime_reset ≡ false
      → lookup id c.reservations ≡ some item
      → (lookup id (publish_observation c w o at).0.reservations ≡ none)
        ↔ IsPaid w.window_event_sequence item
  unfolding Reconciles
  publish_observation-IsPaid c w o at id item r h n e =
      subst (λ d. (lookup id d ≡ none) ↔ IsPaid w.window_event_sequence item)
        (sym (publish_observation-Reconciles c w o at h n))
        (lookup-apply_reconciliation w.window_event_sequence o at
          c.pending_first_byte_lease_duration id item c.reservations (Reachable-Inv c r).keys e)
