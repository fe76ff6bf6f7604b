-- ===== src/Admission/Controller/Monotone/Calls.antt =====
-- Every call moves the epoch and the ids forward only.
use phala_inference_guard.Base.{
  ℕ, ◌+◌, ◌≡◌, inl, inr, refl, sym, subst, Bool, true, false, arith, ◌==◌, Bool-cases, ℤ, pos,
  Option, none, some, Option-cases, not, ◌&&◌, ◌||◌, lookup, lookup-insert,
}
use phala_inference_guard.Go.Words.{max_uint64}
use phala_inference_guard.Go.Time.{Time}
use phala_inference_guard.Go.Float.{Float64}
use phala_inference_guard.Admission.Types.{is_set}
use phala_inference_guard.Admission.Controller.State.{AdmissionController, fail_closed}
use phala_inference_guard.Admission.Types.{TerminalCause, valid_cause}
use phala_inference_guard.Admission.Demand.{TpsRequestDemand}
use phala_inference_guard.Admission.Overlay.{ReservationOverlay}
use phala_inference_guard.Admission.Reservation.{Reservation}
use phala_inference_guard.Admission.Exposure.{SequenceExposureLedger}
use phala_inference_guard.Admission.Controller.Lifecycle.{
  mark_forwarded, mark_first_byte, terminate, forward_item, respond_item, exchange, settle,
  terminate_item, decoding, removes,
}
use phala_inference_guard.Admission.Controller.Outcomes.{
  stepped, mark_forwarded-cases, mark_first_byte-cases, terminate-cases, forward_item-outcomes,
  respond_item-outcomes, terminate_item-outcomes,
}
use phala_inference_guard.Admission.Controller.Decide.{admit_request, new_reservation}
use phala_inference_guard.Admission.Controller.Admissions.{admit_request-cases, with_reservation}
use phala_inference_guard.Admission.Projection.{BackendObservation, ObservedState}
use phala_inference_guard.Admission.Exposure.{
  subtract_exposure, snapshot_exposure, SequenceExposureSnapshot, add_forwarded, add_response,
}
use phala_inference_guard.Admission.Window.Buckets.{enabled}
use text.Mathlib.Text.{◌==◌ as str_eq}
use phala_inference_guard.Admission.Controller.Reconcile.{reconciled_overlay}
use phala_inference_guard.Admission.Controller.Publish.{
  SampleWindow, bad_window, valid_backend_observation, goes_back, resets, exposure_seconds,
  publish_reset, restart, commit_observation, keep_evidence, take_evidence, reconciled,
  finish_publication, publish_next, sample_histogram, publish_observation, deltas_of, open_window,
  start_sample_window,
}
use phala_inference_guard.Admission.Controller.Update.{PolicyUpdate, update_policy, updated}
use phala_inference_guard.Admission.Controller.Capacity.{close}
use phala_inference_guard.Admission.Controller.Lifecycle.{
  usable, release_exposure, handle_mark_forwarded, handle_mark_first_byte, handle_terminate,
}
use phala_inference_guard.Admission.Controller.Invariant.Reconciliation.{lookup-applied}
use phala_inference_guard.Admission.Controller.Steps.{
  Call, starts_window, publishes, admits, forwards, responds, terminates, updates, closes_intake,
  perform, update_policy-state,
}
use phala_inference_guard.Admission.Controller.Monotone.{
  Follows, Follows-refl, Follows-trans, fail_closed-Follows, commit_forwarded-Follows,
  commit_first_byte-Follows, commit_terminated-Follows,
}

module _ {W : Type 0} ⦃fl : Float64 W⦄ where
  module _ (c : AdmissionController W) (id : ℕ) (item : Reservation)
      (found : lookup id c.reservations ≡ some item) where
    forward_item-Follows : (at : Time) → Follows c (forward_item c item id at).0
    forward_item-Follows at = elim (forward_item-outcomes c item id at) [
      | inl e ↦ subst (λ q. Follows c q.0) (sym e) (fail_closed-Follows c _)
      | inr (inl e) ↦ subst (λ q. Follows c q.0) (sym e) (fail_closed-Follows (stepped c) _)
      | inr (inr e) ↦
          subst (λ q. Follows c q.0) (sym e)
            (commit_forwarded-Follows (stepped c) id item found (c.event_sequence + 1) at
              (add_forwarded c.exposure at item.demand.decode_sequences))
    ]

    respond_item-Follows : (at : Time) → Follows c (respond_item c item id at).0
    unfolding respond_item
    respond_item-Follows at = elim (Option-cases (exchange c.overlay item (decoding item))) [
      | inl e ↦ rw (respond_item, e) (fail_closed-Follows c _)
      | inr (o, e) ↦ elim (respond_item-outcomes c item id at o e) [
        | inl g ↦ subst (λ q. Follows c q.0) (sym g) (fail_closed-Follows c _)
        | inr g ↦
            subst (λ q. Follows c q.0) (sym g)
              (commit_first_byte-Follows (stepped c) id item found o
                (add_response c.exposure at (pos 1)))
      ]
    ]

    terminate_item-Follows :
        (cause : TerminalCause) (at : Time) → Follows c (terminate_item c item id cause at).0
    unfolding terminate_item
    terminate_item-Follows cause at =
        elim (Option-cases (settle c.overlay item (removes item cause))) [
          | inl e ↦ rw (terminate_item, e) (fail_closed-Follows c _)
          | inr (o, e) ↦ elim (terminate_item-outcomes c item id cause at o e) [
            | inl g ↦ subst (λ q. Follows c q.0) (sym g) (fail_closed-Follows c _)
            | inr g ↦
                subst (λ q. Follows c q.0) (sym g)
                  (commit_terminated-Follows (stepped c) id item found (c.event_sequence + 1)
                    (removes item cause) o (release_exposure c.exposure item at))
          ]
        ]

  mark_forwarded-Follows :
      (c : AdmissionController W) (epoch id : ℕ) (at : Time)
      → Follows c (mark_forwarded c epoch id at).0
  mark_forwarded-Follows c epoch id at = elim (mark_forwarded-cases c epoch id at) [
    | inl e ↦ subst (λ q. Follows c q.0) (sym e) (Follows-refl c)
    | inr (item, f, p, e) ↦
        subst (λ q. Follows c q.0) (sym e) (forward_item-Follows c id item f.2 at)
  ]

  mark_first_byte-Follows :
      (c : AdmissionController W) (epoch id : ℕ) (at : Time)
      → Follows c (mark_first_byte c epoch id at).0
  mark_first_byte-Follows c epoch id at = elim (mark_first_byte-cases c epoch id at) [
    | inl e ↦ subst (λ q. Follows c q.0) (sym e) (Follows-refl c)
    | inr (item, f, p, e) ↦
        subst (λ q. Follows c q.0) (sym e) (respond_item-Follows c id item f.2 at)
  ]

  terminate-Follows :
      (c : AdmissionController W) (epoch id : ℕ) (cause : TerminalCause) (at : Time)
      → Follows c (terminate c epoch id cause at).0
  terminate-Follows c epoch id cause at = elim (terminate-cases c epoch id cause at) [
    | inl e ↦ subst (λ q. Follows c q.0) (sym e) (Follows-refl c)
    | inr (item, f, p, e) ↦
        subst (λ q. Follows c q.0) (sym e) (terminate_item-Follows c id item f.2 cause at)
  ]

  with_reservation-Follows :
      (c : AdmissionController W) (demand : TpsRequestDemand) (o : ReservationOverlay)
      → Follows c (with_reservation c demand o)
  with_reservation-Follows c demand o = (
    omega arith,
    omega arith,
    λ id h e.
        let other : (id == (c.next_reservation_id + 1)) ≡ false = ground arith in
        rw
          (
            lookup-insert id (c.next_reservation_id + 1)
                (record (new_reservation c demand) { admitted_sequence = c.event_sequence + 1 })
                c.reservations,
            other,
          )
          e,
  )

  admit_request-Follows :
      (c : AdmissionController W) (now : Time) (demand : TpsRequestDemand)
      → Follows c (admit_request c now demand).0
  admit_request-Follows c now demand = elim (admit_request-cases c now demand) [
    | inl e ↦ subst (λ s. Follows c s) (sym e.0) (Follows-refl c)
    | inr (_, _, inl (_, (why, _, e))) ↦
        subst (λ s. Follows c s) (sym e) (fail_closed-Follows c why)
    | inr (_, _, inr (_, (added, overlay, a, b, e))) ↦
        subst (λ s. Follows c s) (sym e) (with_reservation-Follows c demand overlay)
  ]

  finish_publication-Follows :
      (c : AdmissionController W) (q : AdmissionController W × Bool) (o : BackendObservation W)
      (deltas : ObservedState W)
      → Follows c q.0
      → Follows c (finish_publication q o deltas).0
  unfolding finish_publication commit_observation
  finish_publication-Follows c (c', false) o deltas f =
      Follows-trans c c' (fail_closed c' _) f (fail_closed-Follows c' _)
  finish_publication-Follows c (c', true) o deltas f = f

  take_evidence-Follows :
      (c c' : AdmissionController W) (w : SampleWindow) (o : BackendObservation W) (n : ℤ) (f r : W)
      → Follows c c'
      → Follows c (take_evidence c' w o n f r).0
  unfolding take_evidence keep_evidence
  take_evidence-Follows c c' w o n f r h =
      elim (Bool-cases (
        c'.has_observation
        && (w.window_policy_epoch == c'.tps_policy_epoch && enabled c'.tps_window))) [
          | inl e ↦ rw (take_evidence, e) h
          | inr e ↦ rw (take_evidence, e) h
        ]

  publish_next-Follows :
      (c : AdmissionController W) (w : SampleWindow) (o : BackendObservation W) (at : Time)
      → Follows c (publish_next c w o at).0
  unfolding publish_next reconciled
  publish_next-Follows c w o at =
      elim (Option-cases (subtract_exposure w.window_exposure c.last_exposure)) [
        | inl a ↦ rw (publish_next, a) (fail_closed-Follows c _)
        | inr (exposure, a) ↦ elim (Option-cases (exposure_seconds {W = W} exposure)) [
          | inl b ↦ rw (publish_next, a, b) (fail_closed-Follows c _)
          | inr ((f, r), b) ↦
              elim (Option-cases (
                reconciled_overlay w.window_event_sequence o at c.pending_first_byte_lease_duration
                  c.reservations c.overlay (pos 0))) [
                    | inl e ↦ rw (publish_next, a, b, e) (fail_closed-Follows c _)
                    | inr ((overlay, n), e) ↦
                        rw (publish_next, a, b, e)
                          (finish_publication-Follows c
                            (take_evidence (reconciled c w o at overlay) w o n f r) o
                            (deltas_of c o)
                            (take_evidence-Follows c (reconciled c w o at overlay) w o n f r (
                              omega arith,
                              omega arith,
                              λ id _ g.
                                  lookup-applied 1 0 (omega arith) w.window_event_sequence o at
                                    c.pending_first_byte_lease_duration id c.reservations g,
                            )))
                  ]
        ]
      ]

  publish_reset-Follows :
      (c : AdmissionController W) (o : BackendObservation W) → Follows c (publish_reset c o).0
  unfolding publish_reset restart commit_observation
  publish_reset-Follows c o = elim (Bool-cases (c.runtime_epoch == max_uint64)) [
    | inl e ↦ rw (publish_reset, e) (fail_closed-Follows c _)
    | inr e ↦ rw (publish_reset, e) (omega arith, omega arith, λ id h g. refl)
  ]

  sample_histogram-Follows :
      (c : AdmissionController W) (q : AdmissionController W)
      → Follows (sample_histogram c) q
      → Follows c q
  unfolding sample_histogram
  sample_histogram-Follows c q f = elim (Bool-cases c.has_observation) [
    | inl e ↦ rw (sample_histogram, e) at f
    | inr e ↦ rw (sample_histogram, e) at f
  ]

  publish_observation-Follows :
      (c : AdmissionController W) (w : SampleWindow) (o : BackendObservation W) (at : Time)
      → Follows c (publish_observation c w o at).0
  unfolding publish_observation
  publish_observation-Follows c w o at = elim (Bool-cases (is_set c.closed_reason)) [
    | inl shut ↦ rw (publish_observation, shut) (Follows-refl c)
    | inr intake ↦ elim (Bool-cases (bad_window c w || not (valid_backend_observation o))) [
      | inl a ↦ rw (publish_observation, intake, a) (Follows-refl c)
      | inr a ↦ elim (Bool-cases (str_eq o.runtime_identity c.runtime_identity)) [
        | inr b ↦ rw (publish_observation, intake, a, b) (fail_closed-Follows c _)
        | inl b ↦ elim (Bool-cases (goes_back c o)) [
          | inl g ↦ rw (publish_observation, intake, a, b, g) (Follows-refl c)
          | inr g ↦ elim (Bool-cases (c.observation_sequence == max_uint64)) [
            | inl m ↦ rw (publish_observation, intake, a, b, g, m) (fail_closed-Follows c _)
            | inr m ↦ elim (Bool-cases (resets c o)) [
              | inl r ↦ rw (publish_observation, intake, a, b, g, m, r) (publish_reset-Follows c o)
              | inr r ↦
                  rw (publish_observation, intake, a, b, g, m, r)
                    (sample_histogram-Follows c (publish_next (sample_histogram c) w o at).0
                      (publish_next-Follows (sample_histogram c) w o at))
            ]
          ]
        ]
      ]
    ]
  ]

  open_window-Follows :
      (c : AdmissionController W) (q : SequenceExposureLedger × Option SequenceExposureSnapshot)
      → Follows c (open_window c q).0
  unfolding open_window
  open_window-Follows c (l, none) = fail_closed-Follows (record c { exposure = l }) _
  open_window-Follows c (l, some s) = Follows-refl c

  start_sample_window-Follows :
      (c : AdmissionController W) (now : Time) → Follows c (start_sample_window c now).0
  unfolding start_sample_window
  start_sample_window-Follows c now = elim (Bool-cases (is_set c.closed_reason)) [
    | inl shut ↦ rw (start_sample_window, shut) (Follows-refl c)
    | inr intake ↦ elim (Bool-cases (c.sample_sequence == max_uint64)) [
      | inl m ↦ rw (start_sample_window, intake, m) (fail_closed-Follows c _)
      | inr m ↦
          rw (start_sample_window, intake, m)
            (open_window-Follows c (snapshot_exposure c.exposure now))
    ]
  ]

  update_policy-Follows :
      (c : AdmissionController W) (u : PolicyUpdate W) → Follows c (update_policy c u).0
  unfolding updated
  update_policy-Follows c u = elim (update_policy-state c u) [
    | inl e ↦ subst (λ s. Follows c s) (sym e) (Follows-refl c)
    | inr e ↦ subst (λ s. Follows c s) (sym e) (Follows-refl c)
  ]

  -- Under every call of a controller, the runtime epoch and the last reservation id do not fall, and
  -- an id that was given out and that has no reservation any more does not get one again.
  pub perform-Follows : (c : AdmissionController W) (k : Call W) → Follows c (perform c k)
  unfolding handle_mark_forwarded handle_mark_first_byte handle_terminate close
  perform-Follows c (starts_window now) = start_sample_window-Follows c now
  perform-Follows c (publishes w o at) = publish_observation-Follows c w o at
  perform-Follows c (admits now demand) = admit_request-Follows c now demand
  perform-Follows c (forwards h at) = elim (Bool-cases (usable h)) [
    | inl e ↦
        rw (perform, handle_mark_forwarded, e)
          (mark_forwarded-Follows c h.handle_epoch h.handle_id at)
    | inr e ↦ rw (perform, handle_mark_forwarded, e) (Follows-refl c)
  ]
  perform-Follows c (responds h at) = elim (Bool-cases (usable h)) [
    | inl e ↦
        rw (perform, handle_mark_first_byte, e)
          (mark_first_byte-Follows c h.handle_epoch h.handle_id at)
    | inr e ↦ rw (perform, handle_mark_first_byte, e) (Follows-refl c)
  ]
  perform-Follows c (terminates h cause at) = elim (Bool-cases (usable h && valid_cause cause)) [
    | inl e ↦
        rw (perform, handle_terminate, e) (terminate-Follows c h.handle_epoch h.handle_id cause at)
    | inr e ↦ rw (perform, handle_terminate, e) (Follows-refl c)
  ]
  perform-Follows c (updates u) = update_policy-Follows c u
  perform-Follows c closes_intake = fail_closed-Follows c _
