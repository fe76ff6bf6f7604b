-- ===== src/Admission/Controller/Admissions.antt =====
-- The three ways in which `Admit` can end.
use phala_inference_guard.Base.{
  ◌+◌, ◌≡◌, refl, sym, subst, ◌⊎◌, inl, inr, true, false, none, some, arith, insert, length, leb_ℤ,
  pos, ◌==◌, Bool-cases, Option-cases,
}
use phala_inference_guard.Go.Words.{max_uint64}
use phala_inference_guard.Go.Time.{Time}
use phala_inference_guard.Go.Float.{Float64}
use phala_inference_guard.Admission.Types.{Reason, counter_overflow, is_set, is_admit}
use phala_inference_guard.Admission.Demand.{TpsRequestDemand, valid_demand}
use phala_inference_guard.Admission.Overlay.{ReservationOverlay, add_overlay}
use phala_inference_guard.Admission.Reservation.{contribution}
use phala_inference_guard.Admission.Controller.State.{AdmissionController, fail_closed}
use phala_inference_guard.Admission.Controller.Lifecycle.{ReservationHandle}
use phala_inference_guard.Admission.Controller.Outcomes.{next_event_sequence-cases}
use phala_inference_guard.Admission.Controller.Decide.{
  AdmissionResult, DecisionRecord, new_reservation, commit_numbered, commit_reservation, reserve,
  admit_request, read_state, decision_of, bounds_of,
}
use phala_inference_guard.Admission.Policy.{PolicyDecision, evaluate_policy}

module _ {W : Type 0} ⦃fl : Float64 W⦄ where
  -- The controller with the reservation that an admission adds.
  abbrev pub with_reservation :
      AdmissionController W → TpsRequestDemand → ReservationOverlay → AdmissionController W
  with_reservation c demand overlay = record c {
    event_sequence = c.event_sequence + 1;
    next_reservation_id = c.next_reservation_id + 1;
    overlay = overlay;
    reservations =
        insert (c.next_reservation_id + 1)
          (record (new_reservation c demand) { admitted_sequence = c.event_sequence + 1 })
          c.reservations;
  }

  -- The handle of the next reservation.
  abbrev pub next_handle : AdmissionController W → ReservationHandle
  next_handle c = record {
    handle_controller = c.address;
    handle_epoch = c.runtime_epoch;
    handle_id = c.next_reservation_id + 1;
  }

  abbrev pub ClosesIntake :
      AdmissionController W → AdmissionController W × AdmissionResult W → Type 0
  ClosesIntake c q =
      (q.1.handle ≡ none)
      × ((reason : Reason) × (is_set reason ≡ true) × (q.0 ≡ fail_closed c reason))

  abbrev pub Reserves :
      AdmissionController W → TpsRequestDemand → AdmissionController W × AdmissionResult W → Type 0
  Reserves c demand q =
      (q.1.handle ≡ some (next_handle c))
      × ((added : ReservationOverlay) × (overlay : ReservationOverlay) × (contribution
              (new_reservation c demand)
            ≡ some added)
          × (add_overlay c.overlay added ≡ some overlay)
          × (q.0 ≡ with_reservation c demand overlay))

  commit_reservation-cases :
      (c : AdmissionController W) (decision : DecisionRecord W) (overlay : ReservationOverlay)
      → ClosesIntake c (commit_reservation c decision (new_reservation c decision.demand) overlay)
        ⊎ (((commit_reservation c decision (new_reservation c decision.demand) overlay).1.handle
              ≡ some (next_handle c))
            × ((commit_reservation c decision (new_reservation c decision.demand) overlay).0
                ≡ with_reservation c decision.demand overlay))
  unfolding commit_reservation commit_numbered
  commit_reservation-cases c decision overlay = elim (next_event_sequence-cases c) [
    | inl e ↦ inl (rw (commit_reservation, e) (refl, (counter_overflow, refl, refl)))
    | inr e ↦ inr (rw (commit_reservation, e) (refl, refl))
  ]

  -- The policy's answer to a demand at a time.
  abbrev policy_at : AdmissionController W → Time → TpsRequestDemand → PolicyDecision
  policy_at c now demand = evaluate_policy c.policy (read_state c now).reading demand (bounds_of c)

  -- Only an open controller has a state to decide on.
  pub read_state-open :
      (c : AdmissionController W) (now : Time)
      → (read_state c now).ready ≡ true
      → is_set c.closed_reason ≡ false
  unfolding read_state
  read_state-open c now h = ground arith

  reserve-cases :
      (c : AdmissionController W) (decision : DecisionRecord W)
      → ClosesIntake c (reserve c decision) ⊎ Reserves c decision.demand (reserve c decision)
  unfolding reserve
  reserve-cases c decision =
      elim (Bool-cases (leb_ℤ c.maximum_reservations (pos (length c.reservations)))) [
        | inl full ↦ inl (rw (reserve, full) (refl, (_, refl, refl)))
        | inr room ↦ elim (Bool-cases (c.next_reservation_id == max_uint64)) [
          | inl last ↦ inl (rw (reserve, room, last) (refl, (_, refl, refl)))
          | inr more ↦ elim (Option-cases (contribution (new_reservation c decision.demand))) [
            | inl a ↦ inl (rw (reserve, room, more, a) (refl, (_, refl, refl)))
            | inr (added, a) ↦ elim (Option-cases (add_overlay c.overlay added)) [
              | inl b ↦ inl (rw (reserve, room, more, a, b) (refl, (_, refl, refl)))
              | inr (overlay, b) ↦
                  let e : reserve c decision
                      ≡ commit_reservation c decision (new_reservation c decision.demand) overlay =
                    rw (reserve, room, more, a, b) refl in
                  elim (commit_reservation-cases c decision overlay) [
                    | inl f ↦ inl (subst (ClosesIntake c) (sym e) f)
                    | inr f ↦ inr (
                        subst (Reserves c decision.demand) (sym e)
                          (f.0, (added, overlay, a, b, f.1)))
                  ]
            ]
          ]
        ]
      ]

  -- `Admit` leaves the controller as it is and gives no handle; or, on an open controller and a valid
  -- demand, it fails closed and gives no handle, or it gives the handle of the next id and the
  -- controller is the old one with that one reservation, its contribution in the overlay, the next
  -- event sequence and the next id.
  pub admit_request-cases :
      (c : AdmissionController W) (now : Time) (demand : TpsRequestDemand)
      → ((admit_request c now demand).0 ≡ c) × ((admit_request c now demand).1.handle ≡ none)
        ⊎ ((is_set c.closed_reason ≡ false)
            × (valid_demand demand ≡ true)
            × (ClosesIntake c (admit_request c now demand)
                ⊎ Reserves c demand (admit_request c now demand)))
  unfolding admit_request
  admit_request-cases c now demand = elim (Bool-cases (valid_demand demand)) [
    | inr bad ↦ inl (rw (admit_request, bad) (refl, refl))
    | inl good ↦ elim (Bool-cases (read_state c now).ready) [
      | inr wait ↦ inl (rw (admit_request, good, wait) (refl, refl))
      | inl ready ↦ elim (Bool-cases (is_admit (policy_at c now demand).action)) [
        | inr refuses ↦ inl (rw (admit_request, good, ready, refuses) (refl, refl))
        | inl admits ↦
            let d = decision_of c (policy_at c now demand) demand (read_state c now).reading in
            let e : admit_request c now demand ≡ reserve c d =
              rw (admit_request, good, ready, admits) refl in
            inr (
              read_state-open c now ready,
              good,
              subst (λ q. ClosesIntake c q ⊎ Reserves c demand q) (sym e) (reserve-cases c d),
            )
      ]
    ]
  ]
