-- ===== src/Admission/Controller/Steps.antt =====
-- A controller's life as a sequence of calls: each exported method holds the mutex, so the calls of
-- concurrent requests happen one after another, in some order.
use phala_inference_guard.Base.{
  ℕ, ◌≡◌, ◌⊎◌, inl, inr, sym, subst, false, Option, none, some, arith, Bool-cases, ◌==◌, ◌&&◌,
}
use phala_inference_guard.Go.Words.{max_uint64}
use phala_inference_guard.Go.Time.{Time}
use phala_inference_guard.Go.Float.{Float64}
use phala_inference_guard.Admission.Types.{TerminalCause, no_reason, is_set, valid_cause}
use phala_inference_guard.Admission.Demand.{TpsRequestDemand}
use phala_inference_guard.Admission.Exposure.{
  SequenceExposureLedger, SequenceExposureSnapshot, snapshot_exposure,
}
use phala_inference_guard.Admission.Exposure.Invariant.{IsLedger}
use phala_inference_guard.Admission.Exposure.Moves.{snapshot_exposure-IsLedger}
use phala_inference_guard.Admission.Projection.{BackendObservation}
use phala_inference_guard.Admission.Controller.State.{
  AdmissionController, ControllerConfig, new_admission_controller, fresh_controller, with_defaults,
  fail_closed,
}
use phala_inference_guard.Admission.Controller.Lifecycle.{
  ReservationHandle, usable, handle_mark_forwarded, handle_mark_first_byte, handle_terminate,
}
use phala_inference_guard.Admission.Controller.Decide.{admit_request}
use phala_inference_guard.Admission.Controller.Publish.{
  SampleWindow, open_window, start_sample_window, publish_observation,
}
use phala_inference_guard.Admission.Controller.Update.{PolicyUpdate, update_policy, updated}
use phala_inference_guard.Admission.Controller.Capacity.{close}
use phala_inference_guard.Admission.Controller.Sums.{total_forwarded, total_responding}
use phala_inference_guard.Admission.Controller.Invariant.{Inv, empty-Accounts}
use phala_inference_guard.Admission.Controller.Invariant.Commits.{fail_closed-Inv}
use phala_inference_guard.Admission.Controller.Invariant.Arrival.{admit_request-Inv}
use phala_inference_guard.Admission.Controller.Invariant.Lifecycle.{
  mark_forwarded-Inv, mark_first_byte-Inv, terminate-Inv,
}
use phala_inference_guard.Admission.Controller.Invariant.Observation.{publish_observation-Inv}

-- The methods that change a controller, with the clock readings that they take.
pub data Call (W : Type 0) : Type 0 where
  starts_window : Time → Call W
  publishes : SampleWindow → BackendObservation W → Time → Call W
  admits : Time → TpsRequestDemand → Call W
  forwards : ReservationHandle → Time → Call W
  responds : ReservationHandle → Time → Call W
  terminates : ReservationHandle → TerminalCause → Time → Call W
  updates : PolicyUpdate W → Call W
  closes_intake : Call W

module _ {W : Type 0} ⦃fl : Float64 W⦄ where
  abbrev pub perform : AdmissionController W → Call W → AdmissionController W
  perform c (starts_window now) = (start_sample_window c now).0
  perform c (publishes w o at) = (publish_observation c w o at).0
  perform c (admits now demand) = (admit_request c now demand).0
  perform c (forwards h at) = (handle_mark_forwarded h c at).0
  perform c (responds h at) = (handle_mark_first_byte h c at).0
  perform c (terminates h cause at) = (handle_terminate h c cause at).0
  perform c (updates u) = (update_policy c u).0
  perform c closes_intake = close c

  -- The controllers that calls lead to from a successful construction.
  pub data Reachable : AdmissionController W → Type 0 where
    constructed :
        (address : ℕ) (config : ControllerConfig W) (c : AdmissionController W)
        → new_admission_controller address config ≡ some c
        → Reachable c
    called : (c : AdmissionController W) (k : Call W) → Reachable c → Reachable (perform c k)

  open_window-Inv :
      (c : AdmissionController W) (q : SequenceExposureLedger × Option SequenceExposureSnapshot)
      → Inv c
      → is_set c.closed_reason ≡ false
      → IsLedger (total_forwarded c.reservations) (total_responding c.reservations) q.0
      → Inv (open_window c q).0
  unfolding open_window
  open_window-Inv c (l, none) v intake h =
      fail_closed-Inv (record c { exposure = l }) _ v.epoch_pos intake
  open_window-Inv c (l, some s) v intake h = record {
    epoch_pos = v.epoch_pos;
    entries = v.entries;
    keys = v.keys;
    overlay_eq = v.overlay_eq;
    liabilities_fit = v.liabilities_fit;
    ledger = h;
    closed_empty = v.closed_empty;
  }

  start_sample_window-Inv :
      (c : AdmissionController W) (now : Time) → Inv c → Inv (start_sample_window c now).0
  unfolding start_sample_window
  start_sample_window-Inv c now v = elim (Bool-cases (is_set c.closed_reason)) [
    | inl shut ↦ rw (start_sample_window, shut) v
    | inr intake ↦ elim (Bool-cases (c.sample_sequence == max_uint64)) [
      | inl m ↦ rw (start_sample_window, intake, m) (fail_closed-Inv c _ v.epoch_pos intake)
      | inr m ↦
          rw (start_sample_window, intake, m)
            (open_window-Inv c (snapshot_exposure c.exposure now) v intake
              (snapshot_exposure-IsLedger (total_forwarded c.reservations)
                (total_responding c.reservations) now c.exposure v.ledger).0)
    ]
  ]

  -- A refused update leaves the controller as it is.
  pub update_policy-state :
      (c : AdmissionController W) (u : PolicyUpdate W)
      → ((update_policy c u).0 ≡ c) ⊎ ((update_policy c u).0 ≡ updated c u)
  unfolding update_policy
  update_policy-state c u = ground arith

  update_policy-Inv :
      (c : AdmissionController W) (u : PolicyUpdate W) → Inv c → Inv (update_policy c u).0
  unfolding updated
  update_policy-Inv c u v = elim (update_policy-state c u) [
    | inl e ↦ subst (λ s. Inv s) (sym e) v
    | inr e ↦ subst (λ s. Inv s) (sym e) v
  ]

  close-Inv : (c : AdmissionController W) → Inv c → Inv (close c)
  unfolding close fail_closed
  close-Inv c v = elim (Bool-cases (is_set c.closed_reason)) [
    | inl shut ↦ rw (fail_closed, shut) v
    | inr intake ↦ fail_closed-Inv c _ v.epoch_pos intake
  ]

  -- Every call keeps the accounts.
  pub perform-Inv : (c : AdmissionController W) (k : Call W) → Inv c → Inv (perform c k)
  unfolding handle_mark_forwarded handle_mark_first_byte handle_terminate
  perform-Inv c (starts_window now) v = start_sample_window-Inv c now v
  perform-Inv c (publishes w o at) v = publish_observation-Inv c w o at v
  perform-Inv c (admits now demand) v = admit_request-Inv c now demand v
  perform-Inv c (forwards h at) v = elim (Bool-cases (usable h)) [
    | inl e ↦
        rw (perform, handle_mark_forwarded, e)
          (mark_forwarded-Inv c h.handle_epoch h.handle_id at v)
    | inr e ↦ rw (perform, handle_mark_forwarded, e) v
  ]
  perform-Inv c (responds h at) v = elim (Bool-cases (usable h)) [
    | inl e ↦
        rw (perform, handle_mark_first_byte, e)
          (mark_first_byte-Inv c h.handle_epoch h.handle_id at v)
    | inr e ↦ rw (perform, handle_mark_first_byte, e) v
  ]
  perform-Inv c (terminates h cause at) v = elim (Bool-cases (usable h && valid_cause cause)) [
    | inl e ↦
        rw (perform, handle_terminate, e) (terminate-Inv c h.handle_epoch h.handle_id cause at v)
    | inr e ↦ rw (perform, handle_terminate, e) v
  ]
  perform-Inv c (updates u) v = update_policy-Inv c u v
  perform-Inv c closes_intake v = close-Inv c v

  constructed-fresh :
      (address : ℕ) (config : ControllerConfig W) (c : AdmissionController W)
      → new_admission_controller address config ≡ some c
      → fresh_controller address (with_defaults config) ≡ c
  unfolding new_admission_controller
  constructed-fresh address config c e = ground arith

  -- A constructed controller has no reservations.
  constructed-Inv :
      (address : ℕ) (config : ControllerConfig W) (c : AdmissionController W)
      → new_admission_controller address config ≡ some c
      → Inv c
  unfolding fresh_controller
  constructed-Inv address config c e =
      subst (λ s. Inv s) (constructed-fresh address config c e)
        (empty-Accounts 1 0 no_reason (omega arith))

  pub Reachable-Inv : (c : AdmissionController W) → Reachable c → Inv c
  Reachable-Inv c (constructed address config _ e) = constructed-Inv address config c e
  Reachable-Inv _ (called c k r) = perform-Inv c k (Reachable-Inv c r)
