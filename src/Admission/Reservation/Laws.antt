-- ===== src/Admission/Reservation/Laws.antt =====
-- What a well-formed reservation contributes to the overlay and to the exposure ledger.
use phala_inference_guard.Base.{
  ℕ, suc, ◌-◌, ◌≤◌, ◌<◌, ◌≡◌, ◌≢◌, refl, Bool, true, some, arith, pos, pos_part, if◌then◌else◌,
}
use phala_inference_guard.Admission.Demand.{TpsRequestDemand, valid_demand}
use phala_inference_guard.Admission.Overlay.{checked, valid_overlay}
use phala_inference_guard.Admission.Overlay.Laws.{Tally, overlay_of, IsSound}
use phala_inference_guard.Admission.Reservation.{
  Reservation, ReservationPhase, no_phase, reserved, forwarded, active_decode, residual_debt,
  contribution, reservation_exposure_counts, phase_contribution, pending_contribution,
  active_contribution, debt_contribution, phase_exposure_counts,
}

-- The sequences that a reservation charges.
abbrev pub fanout : Reservation → ℕ
fanout r = pos_part r.demand.decode_sequences

abbrev pub bit : Bool → ℕ
bit b = if b then 1 else 0

-- What a reservation counts for, by its phase.
abbrev pub phase_tally : ReservationPhase → Bool → Bool → ℕ → Tally
phase_tally reserved released cold n = record {
  unobserved = if released then 0 else n;
  liabilities = n;
  live = 1;
  debts = 0;
  cold = bit cold;
}
phase_tally forwarded released cold n = record {
  unobserved = if released then 0 else n;
  liabilities = n;
  live = 1;
  debts = 0;
  cold = bit cold;
}
phase_tally active_decode released cold n = record {
  unobserved = 0;
  liabilities = n;
  live = 1;
  debts = 0;
  cold = 0;
}
phase_tally residual_debt released cold n = record {
  unobserved = 0;
  liabilities = n;
  live = 0;
  debts = 1;
  cold = 0;
}
phase_tally no_phase released cold n = record {
  unobserved = 0;
  liabilities = n;
  live = 0;
  debts = 0;
  cold = 0;
}

abbrev pub tally_of : Reservation → Tally
tally_of r = phase_tally r.phase r.pending_first_byte_released r.cold_sheddable (fanout r)

-- Sequences in the exposure ledger, by phase.
abbrev pub phase_forwarded : ReservationPhase → ℕ → ℕ
phase_forwarded forwarded n = n
phase_forwarded active_decode n = n
phase_forwarded _ n = 0

abbrev pub phase_responding : ReservationPhase → ℕ
phase_responding active_decode = 1
phase_responding _ = 0

abbrev pub forwarded_of : Reservation → ℕ
forwarded_of r = phase_forwarded r.phase (fanout r)

abbrev pub responding_of : Reservation → ℕ
responding_of r = phase_responding r.phase

-- The phases in which the release flag has one value only.
abbrev pub IsPhased : ReservationPhase → Bool → Type 0
IsPhased no_phase released = ⊥
IsPhased active_decode released = released ≡ true
IsPhased _ released = Unit {0}

pub record IsWellFormed (epoch next : ℕ) (r : Reservation) : Type 0 where
  pub id_pos : 0 < r.id
  pub id_le : r.id ≤ next
  pub in_epoch : r.runtime_epoch ≡ epoch
  pub demand_ok : valid_demand r.demand ≡ true
  pub phased : IsPhased r.phase r.pending_first_byte_released

-- A valid demand asks for at least one sequence.
pub valid_demand-pos :
    (d : TpsRequestDemand)
    → valid_demand d ≡ true
    → d.decode_sequences ≡ pos (suc (pos_part d.decode_sequences - 1))
unfolding valid_demand
valid_demand-pos d h = ground arith

phase_tally-IsSound :
    (p : ReservationPhase) (released cold : Bool) (n : ℕ) → IsSound (phase_tally p released cold n)
phase_tally-IsSound reserved released cold n = ground arith
phase_tally-IsSound _ released cold n = ground arith

pub tally_of-IsSound : (r : Reservation) → IsSound (tally_of r)
tally_of-IsSound r =
    phase_tally-IsSound r.phase r.pending_first_byte_released r.cold_sheddable (fanout r)

phase_contribution-tally :
    (p : ReservationPhase) (r : Reservation) (n : ℕ)
    → r.demand.decode_sequences ≡ pos n
    → IsPhased p r.pending_first_byte_released
    → phase_contribution p r
      ≡ some (overlay_of (phase_tally p r.pending_first_byte_released r.cold_sheddable n))
unfolding phase_contribution pending_contribution active_contribution debt_contribution checked
    valid_overlay
phase_contribution-tally no_phase r n e h = absurd h
phase_contribution-tally _ r n e h = ground arith

-- A well-formed reservation has a contribution, the one of its phase.
pub contribution-tally :
    {epoch next : ℕ} (r : Reservation)
    → 0 < epoch
    → IsWellFormed epoch next r
    → contribution r ≡ some (overlay_of (tally_of r))
unfolding contribution
contribution-tally r e w =
    ground
      (arith, valid_demand-pos r.demand w.demand_ok, phase_contribution-tally r.phase r (fanout r))

phase_exposure_counts_lem :
    (p : ReservationPhase) (released : Bool) (n : ℕ)
    → IsPhased p released
    → p ≢ residual_debt
    → phase_exposure_counts p (pos n) ≡ some (pos (phase_forwarded p n), pos (phase_responding p))
unfolding phase_exposure_counts
phase_exposure_counts_lem no_phase b n w h = absurd w
phase_exposure_counts_lem residual_debt b n w h = absurd (h refl)
phase_exposure_counts_lem _ b n w h = refl

-- Before it is debt, a well-formed reservation has the exposure counts of its phase.
pub exposure_counts-phase :
    {epoch next : ℕ} (r : Reservation)
    → IsWellFormed epoch next r
    → r.phase ≢ residual_debt
    → reservation_exposure_counts r ≡ some (pos (forwarded_of r), pos (responding_of r))
unfolding reservation_exposure_counts
exposure_counts-phase r w h =
    let e : r.demand.decode_sequences ≡ pos (fanout r) =
      ground (arith, valid_demand-pos r.demand w.demand_ok) in
    ground
      (arith, phase_exposure_counts_lem r.phase r.pending_first_byte_released (fanout r) w.phased h)
