-- ===== src/Admission/Controller/Invariant/Exchange.antt =====
-- One reservation enters, changes or leaves: the overlay arithmetic succeeds, and the accounts hold.
use phala_inference_guard.Base.{
  ℕ, ◌≤◌, ◌≡◌, refl, sym, subst, ◌∙◌, ap, true, false, some, arith, lookup, insert, erase,
  AllEntries, AllEntries-insert, AllEntries-erase, AllEntries-lookup, insert-HasKeys, erase-HasKeys,
  sum_by, sum_by-insert, sum_by-erase,
}
use phala_inference_guard.Go.Words.{max_int64}
use phala_inference_guard.Admission.Types.{Reason, is_set}
use phala_inference_guard.Admission.Overlay.{ReservationOverlay}
use phala_inference_guard.Admission.Overlay.Laws.{
  overlay_of, Fits, Tally, ◌⊞◌, zero_tally, replace_overlay-Fits,
}
use phala_inference_guard.Admission.Reservation.{Reservation, contribution}
use phala_inference_guard.Admission.Reservation.Laws.{
  tally_of, tally_of-IsSound, contribution-tally,
}
use phala_inference_guard.Admission.Exposure.{SequenceExposureLedger}
use phala_inference_guard.Admission.Exposure.Invariant.{IsLedger}
use phala_inference_guard.Admission.Controller.Lifecycle.{exchange, settle}
use phala_inference_guard.Admission.Controller.Sums.{
  Reservations, total_tally, total_forwarded, total_responding, liabilities_of, total_tally-IsSound,
  total_tally-erase, total_tally-insert,
}
use phala_inference_guard.Admission.Controller.Invariant.{Accounts, IsEntry, total_tally-Fits}

pub ⊞-zero : (t : Tally) → t ⊞ zero_tally ≡ t
⊞-zero t = ground arith

module _ (epoch next : ℕ) (why : Reason) (d : Reservations) (o : ReservationOverlay)
    (l : SequenceExposureLedger) (a : Accounts epoch next why d o l) (k : ℕ) (r : Reservation)
    (found : lookup k d ≡ some r) where
  pub found-IsEntry : IsEntry epoch next k r
  found-IsEntry = AllEntries-lookup (IsEntry epoch next) k r d a.entries found

  old_contribution : contribution r ≡ some (overlay_of (tally_of r))
  old_contribution = contribution-tally r a.epoch_pos found-IsEntry.1

  overlay_split : o ≡ overlay_of (total_tally (erase k d) ⊞ tally_of r)
  overlay_split = a.overlay_eq ∙ ap overlay_of (total_tally-erase k r d found)

  module _ (r' : Reservation) (w : IsEntry epoch next k r')
      (same : liabilities_of r' ≡ liabilities_of r) where
    liabilities-insert : sum_by liabilities_of (insert k r' d) ≤ max_int64
    liabilities-insert = omega (
      arith,
      a.liabilities_fit,
      sum_by-insert liabilities_of k r r' d found,
      sum_by-erase liabilities_of k r d found,
    )

    entries-insert : AllEntries (IsEntry epoch next) (insert k r' d)
    entries-insert = AllEntries-insert (IsEntry epoch next) k r' d w a.entries

    -- The overlay exchange of a reservation that keeps its fanout always succeeds.
    pub exchange-insert : exchange o r r' ≡ some (overlay_of (total_tally (insert k r' d)))
    unfolding exchange
    exchange-insert =
        let fits : Fits (total_tally (erase k d) ⊞ tally_of r') =
          subst Fits (total_tally-insert k r r' d found)
            (total_tally-Fits epoch next (insert k r' d) entries-insert liabilities-insert) in
        rw (overlay_split, old_contribution, contribution-tally r' a.epoch_pos w.1)
          (replace_overlay-Fits (total_tally (erase k d)) (tally_of r) (tally_of r')
              (total_tally-IsSound (erase k d)) (tally_of-IsSound r) (tally_of-IsSound r') fits
            ∙ ap (λ t. some (overlay_of t)) (sym (total_tally-insert k r r' d found)))

    pub insert-Accounts :
        (l' : SequenceExposureLedger)
        → IsLedger (total_forwarded (insert k r' d)) (total_responding (insert k r' d)) l'
        → is_set why ≡ false
        → Accounts epoch next why (insert k r' d) (overlay_of (total_tally (insert k r' d))) l'
    insert-Accounts l' h open_intake = record {
      epoch_pos = a.epoch_pos;
      entries = entries-insert;
      keys = insert-HasKeys k r' d a.keys;
      overlay_eq = refl;
      liabilities_fit = liabilities-insert;
      ledger = h;
      closed_empty = λ e. absurd (ground arith);
    }

  liabilities-erase : sum_by liabilities_of (erase k d) ≤ max_int64
  liabilities-erase = omega (arith, a.liabilities_fit, sum_by-erase liabilities_of k r d found)

  -- A reservation can always be taken out of the overlay.
  pub settle-erase : settle o r true ≡ some (overlay_of (total_tally (erase k d)))
  unfolding settle
  settle-erase =
      let fits : Fits (total_tally (erase k d) ⊞ zero_tally) =
        subst Fits (sym (⊞-zero (total_tally (erase k d)))) (
          total_tally-Fits epoch next (erase k d)
            (AllEntries-erase (IsEntry epoch next) k d a.entries) liabilities-erase) in
      rw (overlay_split, old_contribution)
        (replace_overlay-Fits (total_tally (erase k d)) (tally_of r) zero_tally
            (total_tally-IsSound (erase k d)) (tally_of-IsSound r) (omega arith) fits
          ∙ ap (λ t. some (overlay_of t)) (⊞-zero (total_tally (erase k d))))

  pub erase-Accounts :
      (l' : SequenceExposureLedger)
      → IsLedger (total_forwarded (erase k d)) (total_responding (erase k d)) l'
      → is_set why ≡ false
      → Accounts epoch next why (erase k d) (overlay_of (total_tally (erase k d))) l'
  erase-Accounts l' h open_intake = record {
    epoch_pos = a.epoch_pos;
    entries = AllEntries-erase (IsEntry epoch next) k d a.entries;
    keys = erase-HasKeys k d a.keys;
    overlay_eq = refl;
    liabilities_fit = liabilities-erase;
    ledger = h;
    closed_empty = λ e. absurd (ground arith);
  }
