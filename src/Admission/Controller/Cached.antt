-- ===== src/Admission/Controller/Cached.antt =====
-- `slowOverlayLocked` recomputes the overlay that the controller keeps.
use phala_inference_guard.Base.{
  ℕ, ◌+◌, ◌≤◌, ◌<◌, ◌≡◌, sym, ◌∙◌, ap, some, arith, AllEntries, [], ◌∷◌, sum_by, false, pos,
}
use phala_inference_guard.Go.Time.{Time}
use phala_inference_guard.Go.Float.{Float64}
use phala_inference_guard.Admission.Types.{is_set}
use phala_inference_guard.Admission.Projection.{BackendObservation}
use phala_inference_guard.Admission.Controller.Publish.{SampleWindow, reconciled}
use phala_inference_guard.Admission.Controller.Reconcile.{reconciled_overlay, apply_reconciliation}
use phala_inference_guard.Admission.Controller.Steps.{Reachable, Reachable-Inv}
use phala_inference_guard.Admission.Controller.Sums.{total_forwarded, total_responding}
use phala_inference_guard.Admission.Controller.Invariant.Reconciliation.{liable}
use phala_inference_guard.Admission.Controller.Invariant.Observation.{
  kept, reconciled_overlay-total, reconciled-Inv,
}
use phala_inference_guard.Go.Words.{max_int64}
use phala_inference_guard.Admission.Overlay.{ReservationOverlay}
use phala_inference_guard.Admission.Overlay.Laws.{
  Tally, zero_tally, overlay_of, ◌⊞◌, add_overlay-Fits,
}
use phala_inference_guard.Admission.Reservation.Laws.{tally_of, contribution-tally}
use phala_inference_guard.Admission.Controller.State.{AdmissionController}
use phala_inference_guard.Admission.Controller.Reconcile.{slow_overlay, slow_overlay_from}
use phala_inference_guard.Admission.Controller.Sums.{Reservations, total_tally, liabilities_of}
use phala_inference_guard.Admission.Controller.Invariant.{Inv, IsEntry}
use phala_inference_guard.Admission.Controller.Invariant.Exchange.{⊞-zero}
use phala_inference_guard.Admission.Controller.Invariant.Reconciliation.{
  IsSmall, small-Fits, ⊞-IsSmall, ⊞-assoc, ⊞-swap, entry-IsSmall, zero-⊞,
}

slow_overlay_from-total :
    (epoch next : ℕ)
    → 0 < epoch
    → (d : Reservations) (s : Tally) → IsSmall s
    → AllEntries (IsEntry epoch next) d
    → s.liabilities + sum_by liabilities_of d ≤ max_int64
    → slow_overlay_from d (overlay_of s) ≡ some (overlay_of (s ⊞ total_tally d))
unfolding slow_overlay_from
slow_overlay_from-total epoch next e [] s hs h b = ap (λ t. some (overlay_of t)) (sym (⊞-zero s))
slow_overlay_from-total epoch next e ((k, item) ∷ d) s hs (w, h) b =
    let small = entry-IsSmall epoch next e 0 k item w in
    let both = ⊞-IsSmall s (tally_of item) hs small in
    rw
      (
        contribution-tally item e w.1,
        add_overlay-Fits s (tally_of item) hs.0 small.0
            (small-Fits (s ⊞ tally_of item) both (omega (arith, b))),
        slow_overlay_from-total epoch next e d (s ⊞ tally_of item) both h (omega (arith, b)),
      )
      (ap (λ t. some (overlay_of t))
        (sym (⊞-swap s (total_tally d) (tally_of item))
          ∙ sym (⊞-assoc s (total_tally d) (tally_of item))))

-- The overlay of a controller whose accounts hold is what a recomputation gives.
pub slow_overlay-cached :
    {W : Type 0} (c : AdmissionController W) → Inv c → slow_overlay c.reservations ≡ some c.overlay
unfolding slow_overlay
slow_overlay-cached c v =
    slow_overlay_from-total c.runtime_epoch c.next_reservation_id v.epoch_pos c.reservations
      zero_tally (omega arith, omega arith, omega arith) v.entries
      (omega (arith, v.liabilities_fit))
    ∙ ap (λ t. some (overlay_of t)) (zero-⊞ (total_tally c.reservations))
    ∙ ap some (sym v.overlay_eq)

module _ {W : Type 0} ⦃fl : Float64 W⦄ where
  -- In every controller that calls lead to from its construction, the overlay that is kept up
  -- incrementally is what `slowOverlayLocked` recomputes from the reservations, which succeeds.
  pub slow_overlay-Reachable :
      (c : AdmissionController W) → Reachable c → slow_overlay c.reservations ≡ some c.overlay
  slow_overlay-Reachable c r = slow_overlay-cached c (Reachable-Inv c r)

  -- In every controller that calls lead to from its construction, the exposure ledger counts as
  -- forwarded the sequences of the reservations that are forwarded or decoding, and as responding
  -- one for each reservation that is decoding.
  pub exposure-Reachable :
      (c : AdmissionController W)
      → Reachable c
      → (c.exposure.active_forwarded_sequences ≡ pos (total_forwarded c.reservations))
        × (c.exposure.active_response_sequences ≡ pos (total_responding c.reservations))
  exposure-Reachable c r =
      let v = Reachable-Inv c r in (v.ledger.forwarded_count, v.ledger.response_count)

  -- In every controller that calls lead to from its construction, the reconciliation with an
  -- observation never fails: it gives the overlay of the reservations that stay, which is also what
  -- `slowOverlayLocked` recomputes from them, and the sequences forwarded by the watermark.
  pub reconciled_overlay-Reachable :
      (c : AdmissionController W) (w : SampleWindow) (o : BackendObservation W) (at : Time)
      → Reachable c
      → (overlay : ReservationOverlay) × (reconciled_overlay w.window_event_sequence o at
            c.pending_first_byte_lease_duration c.reservations c.overlay
            (pos 0)
          ≡ some (overlay, pos (sum_by (liable w.window_event_sequence) c.reservations)))
        × (is_set c.closed_reason ≡ false
            → slow_overlay (
                apply_reconciliation w.window_event_sequence o at
                  c.pending_first_byte_lease_duration c.reservations)
              ≡ some overlay)
  reconciled_overlay-Reachable c w o at r =
      let v = Reachable-Inv c r in
      (
        overlay_of (total_tally (kept c v w o at)),
        reconciled_overlay-total c v w o at,
        λ intake.
            unfold reconciled in
            slow_overlay-cached (reconciled c w o at (overlay_of (total_tally (kept c v w o at))))
              (reconciled-Inv c v w o at intake),
      )
