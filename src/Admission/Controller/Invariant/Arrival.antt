-- ===== src/Admission/Controller/Invariant/Arrival.antt =====
-- `Admit` keeps the accounts.
use mathlib.Core.Option.{some-injective}
use phala_inference_guard.Base.{
  ℕ, ◌+◌, ◌≡◌, refl, sym, subst, ◌∙◌, ap, inl, inr, true, false, none, some, arith, lookup,
  AllEntries, AllEntries-insert, AllEntries-mono, insert-HasKeys, sum_by-insert_new, Option-cases,
  AllEntries-lookup,
}
use phala_inference_guard.Go.Time.{Time}
use phala_inference_guard.Go.Float.{Float64}
use phala_inference_guard.Admission.Types.{is_set}
use phala_inference_guard.Admission.Demand.{TpsRequestDemand, valid_demand}
use phala_inference_guard.Admission.Overlay.{ReservationOverlay, add_overlay}
use phala_inference_guard.Admission.Overlay.Laws.{overlay_of, add_overlay-some}
use phala_inference_guard.Admission.Reservation.{Reservation, contribution}
use phala_inference_guard.Admission.Reservation.Laws.{
  IsWellFormed, tally_of, contribution-tally, forwarded_of, responding_of,
}
use phala_inference_guard.Admission.Exposure.Invariant.{IsLedger-at}
use phala_inference_guard.Admission.Controller.State.{AdmissionController}
use phala_inference_guard.Admission.Controller.Decide.{new_reservation, admit_request}
use phala_inference_guard.Admission.Controller.Admissions.{with_reservation, admit_request-cases}
use phala_inference_guard.Admission.Controller.Sums.{
  Reservations, total_tally, liabilities_of, total_tally-insert_new,
}
use phala_inference_guard.Admission.Controller.Invariant.{Inv, IsEntry}
use phala_inference_guard.Admission.Controller.Invariant.Commits.{fail_closed-Inv}

-- The next id is free.
pub next_id-free :
    (epoch next : ℕ) (d : Reservations)
    → AllEntries (IsEntry epoch next) d
    → lookup (next + 1) d ≡ none
next_id-free epoch next d h = elim (Option-cases (lookup (next + 1) d)) [
  | inl e ↦ e
  | inr (r, e) ↦
      let w = AllEntries-lookup (IsEntry epoch next) (next + 1) r d h e in
      absurd (omega (arith, w.0, w.1.id_le))
]

older-IsEntry :
    (epoch next k : ℕ) (r : Reservation) → IsEntry epoch next k r → IsEntry epoch (next + 1) k r
older-IsEntry epoch next k r w = (
  w.0,
  record {
    id_pos = w.1.id_pos;
    id_le = omega (arith, w.1.id_le);
    in_epoch = w.1.in_epoch;
    demand_ok = w.1.demand_ok;
    phased = w.1.phased;
  },
)

module _ {W : Type 0} ⦃fl : Float64 W⦄ where
  module _ (c : AdmissionController W) (v : Inv c) (intake : is_set c.closed_reason ≡ false)
      (demand : TpsRequestDemand) (good : valid_demand demand ≡ true) where
    abbrev item : Reservation
    item = record (new_reservation c demand) { admitted_sequence = c.event_sequence + 1 }

    item-IsWellFormed : IsWellFormed c.runtime_epoch (c.next_reservation_id + 1) item
    item-IsWellFormed = record {
      id_pos = omega arith;
      id_le = omega arith;
      in_epoch = refl;
      demand_ok = good;
      phased = tt;
    }

    new_contribution : contribution (new_reservation c demand) ≡ some (overlay_of (tally_of item))
    new_contribution =
        contribution-tally {next = c.next_reservation_id + 1} (new_reservation c demand) v.epoch_pos
          (record {
            id_pos = omega arith;
            id_le = omega arith;
            in_epoch = refl;
            demand_ok = good;
            phased = tt;
          })

    with_reservation-Inv :
        (overlay : ReservationOverlay)
        → add_overlay c.overlay (overlay_of (tally_of item)) ≡ some overlay
        → Inv (with_reservation c demand overlay)
    with_reservation-Inv overlay h =
        let id = c.next_reservation_id + 1 in
        let free = next_id-free c.runtime_epoch c.next_reservation_id c.reservations v.entries in
        let added =
          add_overlay-some (total_tally c.reservations) (tally_of item) overlay
            (ap (λ o. add_overlay o (overlay_of (tally_of item))) (sym v.overlay_eq) ∙ h) in
        record {
          epoch_pos = v.epoch_pos;
          entries =
              AllEntries-insert (IsEntry c.runtime_epoch id) id item c.reservations
                (refl, item-IsWellFormed)
                (AllEntries-mono (IsEntry c.runtime_epoch c.next_reservation_id)
                  (IsEntry c.runtime_epoch id) c.reservations
                  (older-IsEntry c.runtime_epoch c.next_reservation_id) v.entries);
          keys = insert-HasKeys id item c.reservations v.keys;
          overlay_eq =
              added.0 ∙ ap overlay_of (sym (total_tally-insert_new id item c.reservations free));
          liabilities_fit = omega (
            arith,
            added.1.liabilities_fits,
            sum_by-insert_new liabilities_of id item c.reservations free,
          );
          ledger =
              IsLedger-at c.exposure
                (omega (arith, sum_by-insert_new forwarded_of id item c.reservations free))
                (omega (arith, sum_by-insert_new responding_of id item c.reservations free))
                v.ledger;
          closed_empty = λ e. absurd (ground arith);
        }

  pub admit_request-Inv :
      (c : AdmissionController W) (now : Time) (demand : TpsRequestDemand)
      → Inv c
      → Inv (admit_request c now demand).0
  admit_request-Inv c now demand v = elim (admit_request-cases c now demand) [
    | inl e ↦ subst (λ s. Inv s) (sym e.0) v
    | inr (intake, good, inl (_, (reason, _, e))) ↦
        subst (λ s. Inv s) (sym e) (fail_closed-Inv c reason v.epoch_pos intake)
    | inr (intake, good, inr (_, (added, overlay, a, b, e))) ↦
        subst (λ s. Inv s) (sym e)
          (with_reservation-Inv c v intake demand good overlay (
            subst (λ o. add_overlay c.overlay o ≡ some overlay)
              (some-injective _ _ (sym a ∙ new_contribution c v intake demand good)) b))
  ]
