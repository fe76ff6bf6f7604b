-- ===== src/Admission/Overlay.antt =====
-- internal/admission/projector.go (reservationOverlay) and the overlay arithmetic of reservation.go.
pub mod Laws
use phala_inference_guard.Base.{
  Bool, true, false, not, ◌&&◌, ◌||◌, Option, none, some, ℤ, pos, ltb_ℤ, leb_ℤ, ◌-ℤ◌, if◌then◌else◌,
}
use phala_inference_guard.Admission.Numeric.{add_nonnegative_int64}

pub record ReservationOverlay : Type 0 where
  pub unobserved_sequences : ℤ
  pub sequence_liabilities : ℤ
  pub live_reservations : ℤ
  pub residual_debts : ℤ
  pub cold_sheddable_pending : ℤ

-- `reservationOverlay{}`.
abbrev pub empty_overlay : ReservationOverlay
empty_overlay = record {
  unobserved_sequences = pos 0;
  sequence_liabilities = pos 0;
  live_reservations = pos 0;
  residual_debts = pos 0;
  cold_sheddable_pending = pos 0;
}

unfoldable pub valid_overlay : ReservationOverlay → Bool
valid_overlay o =
    leb_ℤ (pos 0) o.unobserved_sequences
    && (leb_ℤ (pos 0) o.sequence_liabilities
        && (leb_ℤ o.unobserved_sequences o.sequence_liabilities
            && (leb_ℤ (pos 0) o.live_reservations
                && (leb_ℤ (pos 0) o.residual_debts
                    && (leb_ℤ (pos 0) o.cold_sheddable_pending
                        && leb_ℤ o.cold_sheddable_pending o.live_reservations)))))

-- A result with the flag `result.valid()`: the source returns both, and every caller drops the
-- result when the flag is false.
unfoldable pub checked : ReservationOverlay → Option ReservationOverlay
checked o = if valid_overlay o then some o else none

infixl 5 ◌>>=◌
abbrev pub ◌>>=◌ : {A B : Type 0} → Option A → (A → Option B) → Option B
none >>= f = none
some a >>= f = f a

unfoldable pub add_overlay : ReservationOverlay → ReservationOverlay → Option ReservationOverlay
add_overlay left right = do
  unobserved ← add_nonnegative_int64 left.unobserved_sequences right.unobserved_sequences
  liabilities ← add_nonnegative_int64 left.sequence_liabilities right.sequence_liabilities
  live ← add_nonnegative_int64 left.live_reservations right.live_reservations
  debts ← add_nonnegative_int64 left.residual_debts right.residual_debts
  cold ← add_nonnegative_int64 left.cold_sheddable_pending right.cold_sheddable_pending
  checked (record {
    unobserved_sequences = unobserved;
    sequence_liabilities = liabilities;
    live_reservations = live;
    residual_debts = debts;
    cold_sheddable_pending = cold;
  })

-- The five comparisons of `subtractOverlay`.
unfoldable pub exceeds : ReservationOverlay → ReservationOverlay → Bool
exceeds right left =
    ltb_ℤ left.unobserved_sequences right.unobserved_sequences
    || (ltb_ℤ left.sequence_liabilities right.sequence_liabilities
        || (ltb_ℤ left.live_reservations right.live_reservations
            || (ltb_ℤ left.residual_debts right.residual_debts
                || ltb_ℤ left.cold_sheddable_pending right.cold_sheddable_pending)))

unfoldable pub difference : ReservationOverlay → ReservationOverlay → ReservationOverlay
difference left right = record {
  unobserved_sequences = left.unobserved_sequences -ℤ right.unobserved_sequences;
  sequence_liabilities = left.sequence_liabilities -ℤ right.sequence_liabilities;
  live_reservations = left.live_reservations -ℤ right.live_reservations;
  residual_debts = left.residual_debts -ℤ right.residual_debts;
  cold_sheddable_pending = left.cold_sheddable_pending -ℤ right.cold_sheddable_pending;
}

unfoldable pub subtract_overlay :
    ReservationOverlay → ReservationOverlay → Option ReservationOverlay
subtract_overlay left right =
    if not (valid_overlay left) || (not (valid_overlay right) || exceeds right left)
    then none
    else checked (difference left right)

unfoldable pub replace_overlay :
    ReservationOverlay → ReservationOverlay → ReservationOverlay → Option ReservationOverlay
replace_overlay current old new = do without ← subtract_overlay current old; add_overlay without new
