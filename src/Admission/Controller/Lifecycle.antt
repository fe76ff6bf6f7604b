-- ===== src/Admission/Controller/Lifecycle.antt =====
-- controller.go: `markForwarded`, `markFirstByte` and `terminate`, and the handles that call them.
use phala_inference_guard.Base.{
  ℕ, Bool, true, false, not, ◌&&◌, ◌||◌, ◌==◌, if◌then◌else◌, Option, none, some, ℤ, pos, ltb_ℤ,
  lookup, insert, erase,
}
use phala_inference_guard.Go.Time.{Time, is_zero}
use phala_inference_guard.Go.Float.{Float64}
use phala_inference_guard.Admission.Types.{
  controller_unavailable, is_set, TerminalCause, success, valid_cause,
}
use phala_inference_guard.Admission.Overlay.{
  ReservationOverlay, empty_overlay, replace_overlay, ◌>>=◌,
}
use phala_inference_guard.Admission.Reservation.{
  Reservation, forwarded, active_decode, residual_debt, is_reserved, is_forwarded, is_active_decode,
  is_residual_debt, contribution, effective_demand, reservation_exposure_counts,
}
use phala_inference_guard.Admission.Exposure.{
  SequenceExposureLedger, add_forwarded, add_response, remove,
}
use phala_inference_guard.Admission.Controller.State.{
  AdmissionController, fail_closed, next_event_sequence,
}

-- `handle_controller` is 0 for a nil pointer.
pub record ReservationHandle : Type 0 where
  pub handle_controller : ℕ
  pub handle_epoch : ℕ
  pub handle_id : ℕ

unfoldable pub usable : ReservationHandle → Bool
usable h = not (h.handle_controller == 0) && (not (h.handle_epoch == 0) && not (h.handle_id == 0))

abbrev pub is_success : TerminalCause → Bool
is_success success = true
is_success _ = false

-- The overlay with one reservation replaced by another.
unfoldable pub exchange : ReservationOverlay → Reservation → Reservation → Option ReservationOverlay
exchange overlay item next = do
  old ← contribution item
  new ← contribution next
  replace_overlay overlay old new

abbrev pub decoding : Reservation → Reservation
decoding item = record item { phase = active_decode; pending_first_byte_released = true }

-- Whether a terminated reservation goes at once: before it was forwarded, or after a success.
unfoldable pub removes : Reservation → TerminalCause → Bool
removes item cause = is_reserved item.phase || (is_active_decode item.phase && is_success cause)

-- The overlay without a reservation, or with its debt.
unfoldable pub settle : ReservationOverlay → Reservation → Bool → Option ReservationOverlay
unfolding exchange
settle overlay item true = do old ← contribution item; replace_overlay overlay old empty_overlay
settle overlay item false = exchange overlay item (record item { phase = residual_debt })

-- The ledger without the reservation's sequences.
unfoldable pub release_counts :
    SequenceExposureLedger → Time → Option (ℤ × ℤ) → SequenceExposureLedger × Bool
release_counts l at none = (l, false)
release_counts l at (some (f, r)) = if ltb_ℤ (pos 0) f then remove l at f r else (l, true)

unfoldable pub release_exposure :
    SequenceExposureLedger → Reservation → Time → SequenceExposureLedger × Bool
unfolding release_counts
release_exposure l item at = release_counts l at (reservation_exposure_counts item)

module _ {W : Type 0} ⦃fl : Float64 W⦄ where
  -- The reservation that a call is about: the guards that the three methods begin with.
  unfoldable pub find_reservation : AdmissionController W → ℕ → ℕ → Option Reservation
  find_reservation c epoch id =
      if is_set c.closed_reason || not (epoch == c.runtime_epoch)
      then none
      else elim (lookup id c.reservations) [
        | none ↦ none
        | some item ↦ if not (item.runtime_epoch == epoch) then none else some item
      ]

  abbrev pub unavailable : AdmissionController W → AdmissionController W × Bool
  unavailable c = (fail_closed c controller_unavailable, false)

  -- The write that ends `markForwarded`.
  unfoldable pub commit_forwarded :
      AdmissionController W
      → Reservation
      → ℕ
      → ℕ
      → Time
      → SequenceExposureLedger × Bool
      → AdmissionController W × Bool
  commit_forwarded c item id sequence at (l, false) = unavailable (record c { exposure = l })
  commit_forwarded c item id sequence at (l, true) = (
    record c {
      exposure = l;
      reservations =
          insert id
            (record item { phase = forwarded; forwarded_at = at; forwarded_sequence = sequence })
            c.reservations;
    },
    true,
  )

  unfoldable pub forward_item :
      AdmissionController W → Reservation → ℕ → Time → AdmissionController W × Bool
  unfolding effective_demand
  forward_item c item id at =
      let (c1, next) = next_event_sequence c in
      elim next [
        | none ↦ (c1, false)
        | some sequence ↦ if is_zero at then unavailable c1 else elim (effective_demand item) [
          | none ↦ unavailable c1
          | some d ↦
              commit_forwarded c1 item id sequence at
                (add_forwarded c1.exposure at d.decode_sequences)
        ]
      ]

  unfoldable pub mark_forwarded :
      AdmissionController W → ℕ → ℕ → Time → AdmissionController W × Bool
  mark_forwarded c epoch id at = elim (find_reservation c epoch id) [
    | none ↦ (c, false)
    | some item ↦ if not (is_reserved item.phase) then (c, false) else forward_item c item id at
  ]

  unfoldable pub commit_first_byte :
      AdmissionController W
      → Reservation
      → ℕ
      → ReservationOverlay
      → SequenceExposureLedger × Bool
      → AdmissionController W × Bool
  commit_first_byte c next id overlay (l, false) = unavailable (record c { exposure = l })
  commit_first_byte c next id overlay (l, true) = (
    record c { exposure = l; overlay = overlay; reservations = insert id next c.reservations },
    true,
  )

  unfoldable pub respond_item :
      AdmissionController W → Reservation → ℕ → Time → AdmissionController W × Bool
  respond_item c item id at = elim (exchange c.overlay item (decoding item)) [
    | none ↦ unavailable c
    | some overlay ↦
        let (c1, next) = next_event_sequence c in
        elim next [
          | none ↦ (c1, false)
          | some sequence ↦
              commit_first_byte c1 (decoding item) id overlay (add_response c1.exposure at (pos 1))
        ]
  ]

  unfoldable pub mark_first_byte :
      AdmissionController W → ℕ → ℕ → Time → AdmissionController W × Bool
  mark_first_byte c epoch id at = elim (find_reservation c epoch id) [
    | none ↦ (c, false)
    | some item ↦ if not (is_forwarded item.phase) then (c, false) else respond_item c item id at
  ]

  unfoldable pub commit_terminated :
      AdmissionController W
      → Reservation
      → ℕ
      → ℕ
      → Bool
      → ReservationOverlay
      → SequenceExposureLedger × Bool
      → AdmissionController W × Bool
  commit_terminated c item id sequence gone overlay (l, false) =
      unavailable (record c { exposure = l })
  commit_terminated c item id sequence gone overlay (l, true) = (
    record c {
      exposure = l;
      overlay = overlay;
      reservations =
          if gone
          then erase id c.reservations
          else insert id (record item { phase = residual_debt; terminal_sequence = sequence })
              c.reservations;
    },
    true,
  )

  unfoldable pub terminate_item :
      AdmissionController W → Reservation → ℕ → TerminalCause → Time → AdmissionController W × Bool
  terminate_item c item id cause at = elim (settle c.overlay item (removes item cause)) [
    | none ↦ unavailable c
    | some overlay ↦
        let (c1, next) = next_event_sequence c in
        elim next [
          | none ↦ (c1, false)
          | some sequence ↦
              commit_terminated c1 item id sequence (removes item cause) overlay
                (release_exposure c1.exposure item at)
        ]
  ]

  unfoldable pub terminate :
      AdmissionController W → ℕ → ℕ → TerminalCause → Time → AdmissionController W × Bool
  terminate c epoch id cause at =
      if not (valid_cause cause) then (c, false) else elim (find_reservation c epoch id) [
        | none ↦ (c, false)
        | some item ↦
            if is_residual_debt item.phase then (c, false) else terminate_item c item id cause at
      ]

  -- The methods of a handle, on the controller that it points to.
  unfoldable pub handle_mark_forwarded :
      ReservationHandle → AdmissionController W → Time → AdmissionController W × Bool
  handle_mark_forwarded h c at =
      if usable h then mark_forwarded c h.handle_epoch h.handle_id at else (c, false)

  unfoldable pub handle_mark_first_byte :
      ReservationHandle → AdmissionController W → Time → AdmissionController W × Bool
  handle_mark_first_byte h c at =
      if usable h then mark_first_byte c h.handle_epoch h.handle_id at else (c, false)

  unfoldable pub handle_terminate :
      ReservationHandle
      → AdmissionController W
      → TerminalCause
      → Time
      → AdmissionController W × Bool
  handle_terminate h c cause at =
      if usable h && valid_cause cause
      then terminate c h.handle_epoch h.handle_id cause at
      else (c, false)
