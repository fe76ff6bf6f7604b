-- ===== src/Admission/Controller/Outcomes.antt =====
-- The ways in which a step of a reservation's life can end.
use phala_inference_guard.Base.{
  ℕ, ◌+◌, ◌≡◌, refl, ◌⊎◌, inl, inr, true, false, none, some, arith, pos, lookup, Bool-cases,
  Option-cases,
}
use phala_inference_guard.Go.Time.{Time}
use phala_inference_guard.Go.Float.{Float64}
use phala_inference_guard.Admission.Types.{counter_overflow, is_set, TerminalCause, valid_cause}
use phala_inference_guard.Admission.Overlay.{ReservationOverlay}
use phala_inference_guard.Admission.Reservation.{
  Reservation, is_reserved, is_forwarded, is_residual_debt,
}
use phala_inference_guard.Admission.Exposure.{add_forwarded, add_response}
use phala_inference_guard.Admission.Controller.State.{
  AdmissionController, fail_closed, next_event_sequence,
}
use phala_inference_guard.Admission.Controller.Lifecycle.{
  find_reservation, commit_forwarded, forward_item, mark_forwarded, exchange, decoding,
  commit_first_byte, respond_item, mark_first_byte, removes, settle, release_exposure,
  commit_terminated, terminate_item, terminate, unavailable,
}

module _ {W : Type 0} ⦃fl : Float64 W⦄ where
  abbrev pub stepped : AdmissionController W → AdmissionController W
  stepped c = record c { event_sequence = c.event_sequence + 1 }

  pub next_event_sequence-cases :
      (c : AdmissionController W)
      → (next_event_sequence c ≡ (fail_closed c counter_overflow, none))
        ⊎ (next_event_sequence c ≡ (stepped c, some (c.event_sequence + 1)))
  unfolding next_event_sequence
  next_event_sequence-cases c = ground arith

  pub find_reservation-some :
      (c : AdmissionController W) (epoch id : ℕ) (item : Reservation)
      → find_reservation c epoch id ≡ some item
      → (is_set c.closed_reason ≡ false)
        × (epoch ≡ c.runtime_epoch)
        × (lookup id c.reservations ≡ some item)
  unfolding find_reservation
  find_reservation-some c epoch id item e = ground arith

  -- `markForwarded` on a reservation that it accepts.
  pub forward_item-outcomes :
      (c : AdmissionController W) (item : Reservation) (id : ℕ) (at : Time)
      → (forward_item c item id at ≡ (fail_closed c counter_overflow, false))
        ⊎ (forward_item c item id at ≡ unavailable (stepped c))
        ⊎ (forward_item c item id at
            ≡ commit_forwarded
                (stepped c)
                item
                id
                (c.event_sequence + 1)
                at
                (add_forwarded c.exposure at item.demand.decode_sequences))
  unfolding forward_item
  forward_item-outcomes c item id at = ground (arith, next_event_sequence-cases c)

  pub respond_item-outcomes :
      (c : AdmissionController W) (item : Reservation) (id : ℕ) (at : Time) (o : ReservationOverlay)
      → exchange c.overlay item (decoding item) ≡ some o
      → (respond_item c item id at ≡ (fail_closed c counter_overflow, false))
        ⊎ (respond_item c item id at
            ≡ commit_first_byte
                (stepped c)
                (decoding item)
                id
                o
                (add_response c.exposure at (pos 1)))
  unfolding respond_item
  respond_item-outcomes c item id at o e = ground (arith, next_event_sequence-cases c)

  pub terminate_item-outcomes :
      (c : AdmissionController W) (item : Reservation) (id : ℕ) (cause : TerminalCause) (at : Time)
      (o : ReservationOverlay)
      → settle c.overlay item (removes item cause) ≡ some o
      → (terminate_item c item id cause at ≡ (fail_closed c counter_overflow, false))
        ⊎ (terminate_item c item id cause at
            ≡ commit_terminated
                (stepped c)
                item
                id
                (c.event_sequence + 1)
                (removes item cause)
                o
                (release_exposure c.exposure item at))
  unfolding terminate_item
  terminate_item-outcomes c item id cause at o e = ground (arith, next_event_sequence-cases c)

  -- What a call that acts on a reservation has found.
  abbrev pub Acts : AdmissionController W → ℕ → ℕ → Reservation → Type 0
  Acts c epoch id item =
      (is_set c.closed_reason ≡ false)
      × (epoch ≡ c.runtime_epoch)
      × (lookup id c.reservations ≡ some item)

  pub mark_forwarded-cases :
      (c : AdmissionController W) (epoch id : ℕ) (at : Time)
      → (mark_forwarded c epoch id at ≡ (c, false))
        ⊎ ((item : Reservation) × Acts c epoch id item
            × (is_reserved item.phase ≡ true)
            × (mark_forwarded c epoch id at ≡ forward_item c item id at))
  unfolding mark_forwarded
  mark_forwarded-cases c epoch id at = elim (Option-cases (find_reservation c epoch id)) [
    | inl e ↦ inl (rw (mark_forwarded, e) refl)
    | inr (item, e) ↦ elim (Bool-cases (is_reserved item.phase)) [
      | inl p ↦
          inr (item, find_reservation-some c epoch id item e, p, rw (mark_forwarded, e, p) refl)
      | inr p ↦ inl (rw (mark_forwarded, e, p) refl)
    ]
  ]

  pub mark_first_byte-cases :
      (c : AdmissionController W) (epoch id : ℕ) (at : Time)
      → (mark_first_byte c epoch id at ≡ (c, false))
        ⊎ ((item : Reservation) × Acts c epoch id item
            × (is_forwarded item.phase ≡ true)
            × (mark_first_byte c epoch id at ≡ respond_item c item id at))
  unfolding mark_first_byte
  mark_first_byte-cases c epoch id at = elim (Option-cases (find_reservation c epoch id)) [
    | inl e ↦ inl (rw (mark_first_byte, e) refl)
    | inr (item, e) ↦ elim (Bool-cases (is_forwarded item.phase)) [
      | inl p ↦
          inr (item, find_reservation-some c epoch id item e, p, rw (mark_first_byte, e, p) refl)
      | inr p ↦ inl (rw (mark_first_byte, e, p) refl)
    ]
  ]

  pub terminate-cases :
      (c : AdmissionController W) (epoch id : ℕ) (cause : TerminalCause) (at : Time)
      → (terminate c epoch id cause at ≡ (c, false))
        ⊎ ((item : Reservation) × Acts c epoch id item
            × (is_residual_debt item.phase ≡ false)
            × (terminate c epoch id cause at ≡ terminate_item c item id cause at))
  unfolding terminate
  terminate-cases c epoch id cause at = elim (Bool-cases (valid_cause cause)) [
    | inr bad ↦ inl (rw (terminate, bad) refl)
    | inl good ↦ elim (Option-cases (find_reservation c epoch id)) [
      | inl e ↦ inl (rw (terminate, good, e) refl)
      | inr (item, e) ↦ elim (Bool-cases (is_residual_debt item.phase)) [
        | inl p ↦ inl (rw (terminate, good, e, p) refl)
        | inr p ↦
            inr (item, find_reservation-some c epoch id item e, p, rw (terminate, good, e, p) refl)
      ]
    ]
  ]
