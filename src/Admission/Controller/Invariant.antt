-- ===== src/Admission/Controller/Invariant.antt =====
-- The accounts of a controller: its overlay, its reservations and its exposure ledger agree.
pub mod Commits
pub mod Arrival
pub mod Exchange
pub mod Lifecycle
pub mod Reconciliation
pub mod Observation
use phala_inference_guard.Base.{
  ℕ, suc, ◌+◌, ◌-◌, ◌≤◌, ◌<◌, ◌≡◌, refl, Bool, true, false, Option, none, some, List, [], ◌∷◌,
  arith, Dict, lookup, insert, erase, AllEntries, HasKeys, sum_by, sum_by-le, AllEntries-mono, pos,
}
use phala_inference_guard.Go.Words.{max_int64}
use phala_inference_guard.Admission.Types.{Reason, is_set}
use phala_inference_guard.Admission.Overlay.{ReservationOverlay, empty_overlay}
use phala_inference_guard.Admission.Overlay.Laws.{overlay_of, Fits, IsSound}
use phala_inference_guard.Admission.Reservation.{
  Reservation, ReservationPhase, no_phase, reserved, forwarded, active_decode, residual_debt,
}
use phala_inference_guard.Admission.Reservation.Laws.{
  IsWellFormed, IsPhased, tally_of, tally_of-IsSound, valid_demand-pos, fanout, phase_tally,
}
use phala_inference_guard.Admission.Exposure.{SequenceExposureLedger, empty_ledger}
use phala_inference_guard.Admission.Exposure.Invariant.{IsLedger, empty_ledger-IsLedger}
use phala_inference_guard.Admission.Controller.State.{AdmissionController}
use phala_inference_guard.Admission.Controller.Sums.{
  Reservations, total_tally, total_forwarded, total_responding, liabilities_of, live_of, debts_of,
  total_tally-IsSound,
}

-- An entry of the map, in a controller at `epoch` that has given out the ids up to `next`.
abbrev pub IsEntry : ℕ → ℕ → ℕ → Reservation → Type 0
IsEntry epoch next k r = (r.id ≡ k) × IsWellFormed epoch next r

pub record Accounts (epoch next : ℕ) (why : Reason) (d : Reservations) (o : ReservationOverlay)
    (l : SequenceExposureLedger) : Type 0 where
  pub epoch_pos : 0 < epoch
  pub entries : AllEntries (IsEntry epoch next) d
  pub keys : HasKeys d
  pub overlay_eq : o ≡ overlay_of (total_tally d)
  pub liabilities_fit : sum_by liabilities_of d ≤ max_int64
  pub ledger : IsLedger (total_forwarded d) (total_responding d) l
  pub closed_empty : is_set why ≡ true → d ≡ []

-- The overlay is the exact tally of the reservations, the ledger holds their sequences, every
-- reservation is of the current epoch under its own id, and a closed controller has none.
abbrev pub Inv : {W : Type 0} → AdmissionController W → Type 0
Inv c =
    Accounts c.runtime_epoch c.next_reservation_id c.closed_reason c.reservations c.overlay
      c.exposure

pub empty-Accounts :
    (epoch next : ℕ) (why : Reason)
    → 0 < epoch
    → Accounts epoch next why [] empty_overlay empty_ledger
empty-Accounts epoch next why h = record {
  epoch_pos = h;
  entries = tt;
  keys = tt;
  overlay_eq = refl;
  liabilities_fit = omega arith;
  ledger = empty_ledger-IsLedger;
  closed_empty = λ _. refl;
}

phase_tally-le :
    (p : ReservationPhase) (released cold : Bool) (n : ℕ)
    → 0 < n
    → ((phase_tally p released cold n).live ≤ (phase_tally p released cold n).liabilities)
      × ((phase_tally p released cold n).debts ≤ (phase_tally p released cold n).liabilities)
phase_tally-le reserved released cold n h = omega arith
phase_tally-le _ released cold n h = omega arith

pub tally_of-le :
    (epoch next k : ℕ) (r : Reservation)
    → IsEntry epoch next k r
    → (live_of r ≤ liabilities_of r) × (debts_of r ≤ liabilities_of r)
tally_of-le epoch next k r e =
    phase_tally-le r.phase r.pending_first_byte_released r.cold_sheddable (fanout r)
      (ground (arith, valid_demand-pos r.demand e.1.demand_ok))

-- With the liabilities an int64, so is every count: the others never exceed them.
pub total_tally-Fits :
    (epoch next : ℕ) (d : Reservations)
    → AllEntries (IsEntry epoch next) d
    → sum_by liabilities_of d ≤ max_int64
    → Fits (total_tally d)
total_tally-Fits epoch next d h b =
    let live = sum_by-le live_of liabilities_of d (
      AllEntries-mono (IsEntry epoch next) (λ k r. live_of r ≤ liabilities_of r) d
        (λ k r e. (tally_of-le epoch next k r e).0) h) in
    let debts = sum_by-le debts_of liabilities_of d (
      AllEntries-mono (IsEntry epoch next) (λ k r. debts_of r ≤ liabilities_of r) d
        (λ k r e. (tally_of-le epoch next k r e).1) h) in
    let s = total_tally-IsSound d in omega arith
