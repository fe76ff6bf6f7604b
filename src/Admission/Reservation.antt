-- ===== src/Admission/Reservation.antt =====
-- internal/admission/reservation.go, and `reservationExposureCounts` of controller.go.
pub mod Laws
use phala_inference_guard.Base.{
  ℕ, ◌==◌, Bool, true, false, not, ◌||◌, Option, none, some, ℤ, pos, if◌then◌else◌,
}
use phala_inference_guard.Go.Time.{Time}
use phala_inference_guard.Admission.Demand.{TpsRequestDemand, valid_demand}
use phala_inference_guard.Admission.Overlay.{ReservationOverlay, checked}

-- `no_phase` is the zero value, outside the four declared phases.
pub data ReservationPhase : Type 0 where
  no_phase reserved forwarded active_decode residual_debt : ReservationPhase

pub record Reservation : Type 0 where
  pub id : ℕ
  pub runtime_epoch : ℕ
  pub demand : TpsRequestDemand
  pub cold_sheddable : Bool
  pub phase : ReservationPhase
  pub pending_first_byte_released : Bool
  pub forwarded_at : Time
  pub admitted_sequence : ℕ
  pub forwarded_sequence : ℕ
  pub terminal_sequence : ℕ

-- `item.phase == p` for the phases that the controller tests.
abbrev pub is_reserved : ReservationPhase → Bool
is_reserved reserved = true
is_reserved _ = false

abbrev pub is_forwarded : ReservationPhase → Bool
is_forwarded forwarded = true
is_forwarded _ = false

abbrev pub is_active_decode : ReservationPhase → Bool
is_active_decode active_decode = true
is_active_decode _ = false

abbrev pub is_residual_debt : ReservationPhase → Bool
is_residual_debt residual_debt = true
is_residual_debt _ = false

-- The case of a reservation that is still pending its first byte.
unfoldable pub pending_contribution : Reservation → ReservationOverlay
pending_contribution r = record {
  unobserved_sequences = if r.pending_first_byte_released then pos 0 else r.demand.decode_sequences;
  sequence_liabilities = r.demand.decode_sequences;
  live_reservations = pos 1;
  residual_debts = pos 0;
  cold_sheddable_pending = if r.cold_sheddable then pos 1 else pos 0;
}

unfoldable pub active_contribution : Reservation → ReservationOverlay
active_contribution r = record {
  unobserved_sequences = pos 0;
  sequence_liabilities = r.demand.decode_sequences;
  live_reservations = pos 1;
  residual_debts = pos 0;
  cold_sheddable_pending = pos 0;
}

unfoldable pub debt_contribution : Reservation → ReservationOverlay
debt_contribution r = record {
  unobserved_sequences = pos 0;
  sequence_liabilities = r.demand.decode_sequences;
  live_reservations = pos 0;
  residual_debts = pos 1;
  cold_sheddable_pending = pos 0;
}

-- The switch on the phase.
unfoldable pub phase_contribution : ReservationPhase → Reservation → Option ReservationOverlay
phase_contribution reserved r = checked (pending_contribution r)
phase_contribution forwarded r = checked (pending_contribution r)
phase_contribution active_decode r =
    if not r.pending_first_byte_released then none else checked (active_contribution r)
phase_contribution residual_debt r = checked (debt_contribution r)
phase_contribution no_phase r = none

-- `none` is the false flag.
unfoldable pub contribution : Reservation → Option ReservationOverlay
unfolding phase_contribution pending_contribution active_contribution debt_contribution
contribution r =
    if r.id == 0 || (r.runtime_epoch == 0 || not (valid_demand r.demand))
    then none
    else phase_contribution r.phase r

unfoldable pub effective_demand : Reservation → Option TpsRequestDemand
effective_demand r = if valid_demand r.demand then some r.demand else none

-- The forwarded and response sequences that a reservation holds in the exposure ledger.
unfoldable pub phase_exposure_counts : ReservationPhase → ℤ → Option (ℤ × ℤ)
phase_exposure_counts reserved n = some (pos 0, pos 0)
phase_exposure_counts forwarded n = some (n, pos 0)
phase_exposure_counts active_decode n = some (n, pos 1)
phase_exposure_counts residual_debt n = none
phase_exposure_counts no_phase n = none

unfoldable pub reservation_exposure_counts : Reservation → Option (ℤ × ℤ)
unfolding effective_demand phase_exposure_counts
reservation_exposure_counts r = elim (effective_demand r) [
  | none ↦ none
  | some d ↦ phase_exposure_counts r.phase d.decode_sequences
]
