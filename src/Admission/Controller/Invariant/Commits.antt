-- ===== src/Admission/Controller/Invariant/Commits.antt =====
-- The writes that end `markForwarded`, `markFirstByte` and `terminate` keep the accounts.
use phala_inference_guard.Base.{
  ℕ, ◌+◌, ◌≤◌, ◌<◌, ◌≡◌, refl, sym, subst, ◌∙◌, ap, inl, inr, Bool, true, false, some, arith, pos,
  lookup, insert, erase, sum_by-insert, sum_by-erase, sum_by-le, AllEntries-mono, AllEntries-erase,
  Bool-cases, ltb_ℤ,
}
use phala_inference_guard.Go.Time.{Time}
use phala_inference_guard.Go.Float.{Float64}
use phala_inference_guard.Admission.Types.{Reason, controller_unavailable, is_set}
use phala_inference_guard.Admission.Overlay.Laws.{overlay_of, ◌⊞◌}
use phala_inference_guard.Admission.Reservation.{
  Reservation, ReservationPhase, forwarded, active_decode, residual_debt, is_reserved, is_forwarded,
  is_residual_debt,
}
use phala_inference_guard.Admission.Reservation.Laws.{
  phase_responding, phase_forwarded, tally_of, fanout, forwarded_of, responding_of,
  valid_demand-pos, exposure_counts-phase,
}
use phala_inference_guard.Admission.Exposure.{SequenceExposureLedger, remove}
use phala_inference_guard.Admission.Exposure.Invariant.{IsLedger, IsLedger-at}
use phala_inference_guard.Admission.Exposure.Moves.{Moves, Moves-at, remove-Moves}
use phala_inference_guard.Admission.Controller.State.{AdmissionController, fail_closed}
use phala_inference_guard.Admission.Controller.Lifecycle.{
  commit_forwarded, decoding, commit_first_byte, release_exposure, commit_terminated,
}
use phala_inference_guard.Admission.Controller.Sums.{
  total_tally, total_forwarded, total_responding, total_tally-insert, total_tally-erase,
  liabilities_of,
}
use phala_inference_guard.Admission.Controller.Invariant.{Inv, Accounts, IsEntry, empty-Accounts}
use phala_inference_guard.Admission.Controller.Invariant.Exchange.{
  found-IsEntry, insert-Accounts, erase-Accounts,
}

abbrev pub debt : Reservation → Reservation
debt item = record item { phase = residual_debt }

phase_responding-le :
    (p : ReservationPhase) (n : ℕ) → 0 < n → phase_responding p ≤ phase_forwarded p n
phase_responding-le active_decode n h = omega arith
phase_responding-le _ n h = omega arith

responding_of-le :
    (epoch next k : ℕ) (r : Reservation) → IsEntry epoch next k r → responding_of r ≤ forwarded_of r
responding_of-le epoch next k r e =
    phase_responding-le r.phase (fanout r) (ground (arith, valid_demand-pos r.demand e.1.demand_ok))

module _ {W : Type 0} ⦃fl : Float64 W⦄ where
  -- A controller that fails closed lets go of everything, so its accounts hold trivially.
  pub fail_closed-Inv :
      (c : AdmissionController W) (reason : Reason)
      → 0 < c.runtime_epoch
      → is_set c.closed_reason ≡ false
      → Inv (fail_closed c reason)
  unfolding fail_closed
  fail_closed-Inv c reason h i = rw i (empty-Accounts _ c.next_reservation_id reason (ground arith))

  module _ (c : AdmissionController W) (v : Inv c) (id : ℕ) (item : Reservation)
      (found : lookup id c.reservations ≡ some item) (intake : is_set c.closed_reason ≡ false) where
    entry : IsEntry c.runtime_epoch c.next_reservation_id id item
    entry =
        found-IsEntry c.runtime_epoch c.next_reservation_id c.closed_reason c.reservations c.overlay
          c.exposure v id item found

    pub fanout_eq : item.demand.decode_sequences ≡ pos (fanout item)
    fanout_eq = ground (arith, valid_demand-pos item.demand entry.1.demand_ok)

    unavailable-Inv :
        (l : SequenceExposureLedger)
        → Inv (fail_closed (record c { exposure = l }) controller_unavailable)
    unavailable-Inv l =
        fail_closed-Inv (record c { exposure = l }) controller_unavailable v.epoch_pos intake

    Accounts-insert :
        (item' : Reservation)
        → IsEntry c.runtime_epoch c.next_reservation_id id item'
        → liabilities_of item' ≡ liabilities_of item
        → (l : SequenceExposureLedger)
        → IsLedger
            (total_forwarded (insert id item' c.reservations))
            (total_responding (insert id item' c.reservations))
            l
        → Accounts c.runtime_epoch c.next_reservation_id c.closed_reason
            (insert id item' c.reservations)
            (overlay_of (total_tally (insert id item' c.reservations)))
            l
    Accounts-insert item' w e l h =
        insert-Accounts c.runtime_epoch c.next_reservation_id c.closed_reason c.reservations
          c.overlay c.exposure v id item found item' w e l h intake

    same_overlay :
        (item' : Reservation)
        → tally_of item' ≡ tally_of item
        → overlay_of (total_tally (insert id item' c.reservations)) ≡ c.overlay
    same_overlay item' e =
        ap overlay_of (
          total_tally-insert id item item' c.reservations found
          ∙ ap (λ t. total_tally (erase id c.reservations) ⊞ t) e
          ∙ sym (total_tally-erase id item c.reservations found))
        ∙ sym v.overlay_eq

    pub decoding-IsEntry : IsEntry c.runtime_epoch c.next_reservation_id id (decoding item)
    decoding-IsEntry = (
      entry.0,
      record {
        id_pos = entry.1.id_pos;
        id_le = entry.1.id_le;
        in_epoch = entry.1.in_epoch;
        demand_ok = entry.1.demand_ok;
        phased = refl;
      },
    )

    pub debt-IsEntry :
        (sequence : ℕ)
        → IsEntry c.runtime_epoch c.next_reservation_id id
            (record (debt item) { terminal_sequence = sequence })
    debt-IsEntry sequence = (
      entry.0,
      record {
        id_pos = entry.1.id_pos;
        id_le = entry.1.id_le;
        in_epoch = entry.1.in_epoch;
        demand_ok = entry.1.demand_ok;
        phased = tt;
      },
    )

    sums-insert :
        (item' : Reservation)
        → (total_forwarded (insert id item' c.reservations) + forwarded_of item
            ≡ total_forwarded c.reservations + forwarded_of item')
          × (total_responding (insert id item' c.reservations) + responding_of item
              ≡ total_responding c.reservations + responding_of item')
    sums-insert item' = (
      omega (
        arith,
        sum_by-insert forwarded_of id item item' c.reservations found,
        sum_by-erase forwarded_of id item c.reservations found,
      ),
      omega (
        arith,
        sum_by-insert responding_of id item item' c.reservations found,
        sum_by-erase responding_of id item c.reservations found,
      ),
    )

    pub commit_forwarded-Inv :
        (sequence : ℕ) (at : Time) (q : SequenceExposureLedger × Bool)
        → is_reserved item.phase ≡ true
        → Moves
            (total_forwarded c.reservations)
            (total_responding c.reservations)
            (total_forwarded c.reservations + fanout item)
            (total_responding c.reservations)
            q
        → Inv (commit_forwarded c item id sequence at q).0
    unfolding commit_forwarded
    commit_forwarded-Inv sequence at (l, false) p m = unavailable-Inv l
    commit_forwarded-Inv sequence at (l, true) p m =
        let item' : Reservation = record item {
          phase = forwarded;
          forwarded_at = at;
          forwarded_sequence = sequence;
        } in
        let w : IsEntry c.runtime_epoch c.next_reservation_id id item' = (
          entry.0,
          record {
            id_pos = entry.1.id_pos;
            id_le = entry.1.id_le;
            in_epoch = entry.1.in_epoch;
            demand_ok = entry.1.demand_ok;
            phased = tt;
          },
        ) in
        let counts = sums-insert item' in
        let e : tally_of item' ≡ tally_of item = ground arith in
        subst
          (λ o.
            Accounts c.runtime_epoch c.next_reservation_id c.closed_reason
              (insert id item' c.reservations) o l)
          (same_overlay item' e)
          (Accounts-insert item' w (ground arith) l
            (IsLedger-at l (ground (arith, counts.0)) (ground (arith, counts.1)) m))

    pub commit_first_byte-Inv :
        (q : SequenceExposureLedger × Bool)
        → is_forwarded item.phase ≡ true
        → Moves
            (total_forwarded c.reservations)
            (total_responding c.reservations)
            (total_forwarded c.reservations)
            (total_responding c.reservations + 1)
            q
        → Inv
            (commit_first_byte c
              (decoding item)
              id
              (overlay_of (total_tally (insert id (decoding item) c.reservations)))
              q).0
    unfolding commit_first_byte
    commit_first_byte-Inv (l, false) p m = unavailable-Inv l
    commit_first_byte-Inv (l, true) p m =
        let counts = sums-insert (decoding item) in
        Accounts-insert (decoding item) (decoding-IsEntry) (ground arith) l
          (IsLedger-at l (ground (arith, counts.0)) (ground (arith, counts.1)) m)

    pub commit_debt-Inv :
        (sequence : ℕ) (q : SequenceExposureLedger × Bool)
        → Moves
            (total_forwarded c.reservations)
            (total_responding c.reservations)
            (total_forwarded (erase id c.reservations))
            (total_responding (erase id c.reservations))
            q
        → Inv
            (commit_terminated c item id sequence false
              (overlay_of (total_tally (insert id (debt item) c.reservations)))
              q).0
    unfolding commit_terminated
    commit_debt-Inv sequence (l, false) m = unavailable-Inv l
    commit_debt-Inv sequence (l, true) m =
        let item' : Reservation = record (debt item) { terminal_sequence = sequence } in
        let w : IsEntry c.runtime_epoch c.next_reservation_id id item' = debt-IsEntry sequence in
        subst
          (λ o.
            Accounts c.runtime_epoch c.next_reservation_id c.closed_reason
              (insert id item' c.reservations) o l)
          (ap overlay_of (
            total_tally-insert id item item' c.reservations found
            ∙ sym (total_tally-insert id item (debt item) c.reservations found)))
          (Accounts-insert item' w (ground arith) l (
            IsLedger-at l
              (omega (arith, sum_by-insert forwarded_of id item item' c.reservations found))
              (omega (arith, sum_by-insert responding_of id item item' c.reservations found)) m))

    pub commit_gone-Inv :
        (sequence : ℕ) (q : SequenceExposureLedger × Bool)
        → Moves
            (total_forwarded c.reservations)
            (total_responding c.reservations)
            (total_forwarded (erase id c.reservations))
            (total_responding (erase id c.reservations))
            q
        → Inv
            (commit_terminated c item id sequence true
              (overlay_of (total_tally (erase id c.reservations)))
              q).0
    unfolding commit_terminated
    commit_gone-Inv sequence (l, false) m = unavailable-Inv l
    commit_gone-Inv sequence (l, true) m =
        erase-Accounts c.runtime_epoch c.next_reservation_id c.closed_reason c.reservations
          c.overlay c.exposure v id item found l m intake

    responding-le :
        total_responding (erase id c.reservations) ≤ total_forwarded (erase id c.reservations)
    responding-le = sum_by-le responding_of forwarded_of (erase id c.reservations) (
        AllEntries-mono (IsEntry c.runtime_epoch c.next_reservation_id)
          (λ k r. responding_of r ≤ forwarded_of r) (erase id c.reservations)
          (responding_of-le c.runtime_epoch c.next_reservation_id)
          (AllEntries-erase (IsEntry c.runtime_epoch c.next_reservation_id) id c.reservations
            v.entries))

    -- What leaves the ledger with a reservation is what it holds there.
    pub release_exposure-Moves :
        (at : Time)
        → is_residual_debt item.phase ≡ false
        → Moves
            (total_forwarded c.reservations)
            (total_responding c.reservations)
            (total_forwarded (erase id c.reservations))
            (total_responding (erase id c.reservations))
            (release_exposure c.exposure item at)
    unfolding release_exposure
    release_exposure-Moves at p =
        let e = exposure_counts-phase item entry.1 (λ r. ground arith) in
        rw e (elim (Bool-cases (ltb_ℤ (pos 0) (pos (forwarded_of item)))) [
          | inl some_left ↦ rw some_left (
              Moves-at _ _ _ _ _ _
                (remove c.exposure at (pos (forwarded_of item)) (pos (responding_of item)))
                (sum_by-erase forwarded_of id item c.reservations found)
                (sum_by-erase responding_of id item c.reservations found)
                (remove-Moves (total_forwarded (erase id c.reservations))
                  (total_responding (erase id c.reservations)) (forwarded_of item)
                  (responding_of item) at c.exposure
                  (IsLedger-at c.exposure
                    (sym (sum_by-erase forwarded_of id item c.reservations found))
                    (sym (sum_by-erase responding_of id item c.reservations found)) v.ledger)
                  responding-le))
          | inr none_left ↦
              let z : forwarded_of item ≡ 0 = ground arith in
              rw none_left (
                IsLedger-at c.exposure
                  (omega (arith, z, sum_by-erase forwarded_of id item c.reservations found))
                  (omega (
                    arith,
                    z,
                    responding_of-le c.runtime_epoch c.next_reservation_id id item entry,
                    sum_by-erase responding_of id item c.reservations found,
                  ))
                  v.ledger)
        ])
