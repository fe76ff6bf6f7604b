-- ===== src/Admission/Controller/Reconcile.antt =====
-- controller.go: reconciliation of the reservations with an observation.
use phala_inference_guard.Base.{
  ℕ, Bool, true, false, not, ◌&&◌, ltb, leb, if◌then◌else◌, Option, none, some, [], ◌∷◌, ℤ, pos,
  ltb_ℤ, leb_ℤ, eq_ℤ, Dict,
}
use phala_inference_guard.Go.Time.{Time, Duration, is_zero, before, sub_time}
use phala_inference_guard.Admission.Numeric.{add_nonnegative_int64}
use phala_inference_guard.Admission.Overlay.{
  ReservationOverlay, empty_overlay, add_overlay, subtract_overlay, replace_overlay, ◌>>=◌,
}
use phala_inference_guard.Admission.Reservation.{
  Reservation, is_forwarded, is_residual_debt, contribution, effective_demand,
}
use phala_inference_guard.Admission.Projection.{BackendObservation}

-- The debt is covered by the watermark.
unfoldable pub covered : ℕ → Reservation → Bool
covered watermark item =
    is_residual_debt item.phase
    && (ltb 0 item.terminal_sequence && leb item.terminal_sequence watermark)

-- The sequences of the reservations that were forwarded by the watermark.
unfoldable pub add_liability : ℕ → Reservation → ℤ → Option ℤ
add_liability watermark item n =
    if ltb 0 item.forwarded_sequence && leb item.forwarded_sequence watermark
    then elim (effective_demand item) [
      | none ↦ none
      | some d ↦ add_nonnegative_int64 n d.decode_sequences
    ]
    else some n

-- The overlay after one reservation is reconciled.
unfoldable pub reconcile_one :
    Option Reservation × Bool → ReservationOverlay → ReservationOverlay → Option ReservationOverlay
reconcile_one (none, changed) overlay old = subtract_overlay overlay old
reconcile_one (some next, true) overlay old = do
  new ← contribution next
  replace_overlay overlay old new
reconcile_one (some next, false) overlay old = some overlay

-- One entry of `applyReconciliationLocked`: removed, replaced or kept.
unfoldable pub apply_one :
    ℕ → Reservation → Option Reservation × Bool → Dict Reservation → Dict Reservation
apply_one k item (none, changed) rest = rest
apply_one k item (some next, true) rest = (k, next) ∷ rest
apply_one k item (some next, false) rest = (k, item) ∷ rest

module _ {W : Type 0} where
  unfoldable pub pending_first_byte_lease_expired :
      Reservation → BackendObservation W → Time → Duration → Bool
  pending_first_byte_lease_expired item o at duration =
      ltb_ℤ (pos 0) duration
      && (eq_ℤ o.waiting (pos 0)
          && (not (is_zero item.forwarded_at)
              && (not (is_zero at)
                  && (not (before at o.observed_at)
                      && (leb_ℤ (sub_time at o.observed_at) o.maximum_age
                          && (not (before o.observed_at item.forwarded_at)
                              && leb_ℤ duration (sub_time o.observed_at item.forwarded_at)))))))

  unfoldable pub lease_ends : ℕ → BackendObservation W → Time → Duration → Reservation → Bool
  unfolding pending_first_byte_lease_expired
  lease_ends watermark o at duration item =
      is_forwarded item.phase
      && (not item.pending_first_byte_released
          && (ltb 0 item.forwarded_sequence
              && (leb item.forwarded_sequence watermark
                  && pending_first_byte_lease_expired item o at duration)))

  -- `none` removes the reservation; the flag says that it changed, which is that its lease ended.
  unfoldable pub reconcile_reservation :
      ℕ → BackendObservation W → Time → Duration → Reservation → Option Reservation × Bool
  unfolding covered lease_ends
  reconcile_reservation watermark o at duration item =
      if covered watermark item
      then (none, true)
      else if lease_ends watermark o at duration item
      then (some (record item { pending_first_byte_released = true }), true)
      else (some item, false)

  -- The loop of `reconciledOverlayLocked`.
  unfoldable pub reconciled_overlay :
      ℕ
      → BackendObservation W
      → Time
      → Duration
      → Dict Reservation
      → ReservationOverlay
      → ℤ
      → Option (ReservationOverlay × ℤ)
  unfolding add_liability reconcile_one
  reconciled_overlay watermark o at duration [] overlay n = some (overlay, n)
  reconciled_overlay watermark o at duration ((k, item) ∷ d) overlay n = do
    n' ← add_liability watermark item n
    old ← contribution item
    overlay' ← reconcile_one (reconcile_reservation watermark o at duration item) overlay old
    reconciled_overlay watermark o at duration d overlay' n'

  unfoldable pub apply_reconciliation :
      ℕ → BackendObservation W → Time → Duration → Dict Reservation → Dict Reservation
  unfolding apply_one
  apply_reconciliation watermark o at duration [] = []
  apply_reconciliation watermark o at duration ((k, item) ∷ d) =
      apply_one k item (reconcile_reservation watermark o at duration item)
        (apply_reconciliation watermark o at duration d)

-- `slowOverlayLocked`: the overlay as the sum over all reservations.
unfoldable pub slow_overlay_from : Dict Reservation → ReservationOverlay → Option ReservationOverlay
slow_overlay_from [] total = some total
slow_overlay_from ((k, item) ∷ d) total = do
  c ← contribution item
  total' ← add_overlay total c
  slow_overlay_from d total'

unfoldable pub slow_overlay : Dict Reservation → Option ReservationOverlay
unfolding slow_overlay_from
slow_overlay d = slow_overlay_from d empty_overlay
