-- ===== src/Admission/Controller/Closed.antt =====
-- Failing closed: what a controller does once its `closedReason` is set.
use phala_inference_guard.Base.{
  ◌≡◌, inl, inr, refl, ap, ◌∙◌, true, false, arith, Bool-cases, [], ◌&&◌,
}
use phala_inference_guard.Go.Time.{Time}
use phala_inference_guard.Go.Float.{Float64}
use phala_inference_guard.Admission.Types.{TerminalCause, is_set, valid_cause}
use phala_inference_guard.Admission.Overlay.{empty_overlay}
use phala_inference_guard.Admission.Controller.State.{AdmissionController, fail_closed}
use phala_inference_guard.Admission.Controller.Lifecycle.{
  ReservationHandle, usable, handle_mark_forwarded, handle_mark_first_byte, handle_terminate,
}
use phala_inference_guard.Admission.Controller.Decide.{read_state}
use phala_inference_guard.Admission.Controller.Publish.{start_sample_window, publish_observation}
use phala_inference_guard.Admission.Controller.Update.{update_policy}
use phala_inference_guard.Admission.Controller.Capacity.{close, capacity_snapshot}
use phala_inference_guard.Admission.Controller.Admissions.{admit_request-cases}
use phala_inference_guard.Admission.Overlay.Laws.{overlay_of}
use phala_inference_guard.Admission.Controller.Sums.{total_tally}
use phala_inference_guard.Admission.Controller.Outcomes.{
  mark_forwarded-cases, mark_first_byte-cases, terminate-cases,
}
use phala_inference_guard.Admission.Controller.Steps.{
  Call, starts_window, publishes, admits, forwards, responds, terminates, updates, closes_intake,
  perform, Reachable, Reachable-Inv,
}

module _ {W : Type 0} ⦃fl : Float64 W⦄ where
  handle_mark_forwarded-shut :
      (c : AdmissionController W) (h : ReservationHandle) (at : Time)
      → is_set c.closed_reason ≡ true
      → handle_mark_forwarded h c at ≡ (c, false)
  unfolding handle_mark_forwarded
  handle_mark_forwarded-shut c h at shut = elim (Bool-cases (usable h)) [
    | inr e ↦ rw (handle_mark_forwarded, e) refl
    | inl e ↦ elim (mark_forwarded-cases c h.handle_epoch h.handle_id at) [
      | inl q ↦ rw (handle_mark_forwarded, e) q
      | inr (item, f, _, _) ↦ absurd (ground arith)
    ]
  ]

  handle_mark_first_byte-shut :
      (c : AdmissionController W) (h : ReservationHandle) (at : Time)
      → is_set c.closed_reason ≡ true
      → handle_mark_first_byte h c at ≡ (c, false)
  unfolding handle_mark_first_byte
  handle_mark_first_byte-shut c h at shut = elim (Bool-cases (usable h)) [
    | inr e ↦ rw (handle_mark_first_byte, e) refl
    | inl e ↦ elim (mark_first_byte-cases c h.handle_epoch h.handle_id at) [
      | inl q ↦ rw (handle_mark_first_byte, e) q
      | inr (item, f, _, _) ↦ absurd (ground arith)
    ]
  ]

  handle_terminate-shut :
      (c : AdmissionController W) (h : ReservationHandle) (cause : TerminalCause) (at : Time)
      → is_set c.closed_reason ≡ true
      → handle_terminate h c cause at ≡ (c, false)
  unfolding handle_terminate
  handle_terminate-shut c h cause at shut = elim (Bool-cases (usable h && valid_cause cause)) [
    | inr e ↦ rw (handle_terminate, e) refl
    | inl e ↦ elim (terminate-cases c h.handle_epoch h.handle_id cause at) [
      | inl q ↦ rw (handle_terminate, e) q
      | inr (item, f, _, _) ↦ absurd (ground arith)
    ]
  ]

  -- Once `closedReason` is set, no call changes the controller.
  pub perform-shut :
      (c : AdmissionController W) (k : Call W) → is_set c.closed_reason ≡ true → perform c k ≡ c
  unfolding update_policy start_sample_window publish_observation close fail_closed
  perform-shut c (starts_window now) shut = rw (perform, start_sample_window, shut) refl
  perform-shut c (publishes w o at) shut = rw (perform, publish_observation, shut) refl
  perform-shut c (admits now demand) shut = elim (admit_request-cases c now demand) [
    | inl e ↦ e.0
    | inr (intake, _, _) ↦ absurd (ground arith)
  ]
  perform-shut c (forwards h at) shut = ap (λ q. q.0) (handle_mark_forwarded-shut c h at shut)
  perform-shut c (responds h at) shut = ap (λ q. q.0) (handle_mark_first_byte-shut c h at shut)
  perform-shut c (terminates h cause at) shut =
      ap (λ q. q.0) (handle_terminate-shut c h cause at shut)
  perform-shut c (updates u) shut = ground arith
  perform-shut c closes_intake shut = rw (perform, close, fail_closed, shut) refl

  -- A controller that calls lead to from its construction and whose `closedReason` is set holds no
  -- reservation, and its overlay is empty.
  pub Reachable-shut :
      (c : AdmissionController W)
      → Reachable c
      → is_set c.closed_reason ≡ true
      → (c.reservations ≡ []) × (c.overlay ≡ empty_overlay)
  Reachable-shut c r shut =
      let v = Reachable-Inv c r in
      let e = v.closed_empty shut in (e, v.overlay_eq ∙ ap (λ d. overlay_of (total_tally d)) e)

  -- A closed controller is never available.
  pub capacity_snapshot-shut :
      (c : AdmissionController W) (now : Time)
      → is_set c.closed_reason ≡ true
      → ((capacity_snapshot c now).available ≡ false)
        × ((capacity_snapshot c now).intake_open ≡ false)
  unfolding capacity_snapshot read_state
  capacity_snapshot-shut c now shut = ground arith
