-- ===== src/Admission/Controller/Invariant/Lifecycle.antt =====
-- `markForwarded`, `markFirstByte` and `terminate` keep the accounts.
use phala_inference_guard.Base.{
  ℕ, ◌+◌, ◌≡◌, sym, subst, ◌∙◌, ap, inl, inr, Bool, true, false, some, arith, lookup, insert, erase,
  Bool-cases,
}
use phala_inference_guard.Go.Time.{Time}
use phala_inference_guard.Go.Float.{Float64}
use phala_inference_guard.Admission.Types.{is_set, TerminalCause}
use phala_inference_guard.Admission.Overlay.{ReservationOverlay}
use phala_inference_guard.Admission.Overlay.Laws.{overlay_of}
use phala_inference_guard.Admission.Reservation.{
  Reservation, is_reserved, is_forwarded, is_residual_debt,
}
use phala_inference_guard.Admission.Reservation.Laws.{fanout}
use phala_inference_guard.Admission.Exposure.Moves.{add_forwarded-Moves, add_response-Moves}
use phala_inference_guard.Admission.Controller.State.{AdmissionController}
use phala_inference_guard.Admission.Controller.Lifecycle.{
  forward_item, mark_forwarded, decoding, respond_item, mark_first_byte, removes, settle,
  release_exposure, commit_terminated, terminate_item, terminate,
}
use phala_inference_guard.Admission.Controller.Sums.{total_tally, total_forwarded, total_responding}
use phala_inference_guard.Admission.Controller.Invariant.{Inv}
use phala_inference_guard.Admission.Controller.Invariant.Exchange.{exchange-insert, settle-erase}
use phala_inference_guard.Admission.Controller.Outcomes.{
  stepped, forward_item-outcomes, respond_item-outcomes, terminate_item-outcomes,
  mark_forwarded-cases, mark_first_byte-cases, terminate-cases,
}
use phala_inference_guard.Admission.Controller.Invariant.Commits.{
  debt, fail_closed-Inv, fanout_eq, decoding-IsEntry, debt-IsEntry, commit_forwarded-Inv,
  commit_first_byte-Inv, commit_debt-Inv, commit_gone-Inv, release_exposure-Moves,
}

module _ {W : Type 0} ⦃fl : Float64 W⦄ where
  module _ (c : AdmissionController W) (v : Inv c) (id : ℕ) (item : Reservation)
      (found : lookup id c.reservations ≡ some item) (intake : is_set c.closed_reason ≡ false) where
    forward_item-Inv :
        (at : Time) → is_reserved item.phase ≡ true → Inv (forward_item c item id at).0
    forward_item-Inv at p = elim (forward_item-outcomes c item id at) [
      | inl e ↦ subst (λ q. Inv q.0) (sym e) (fail_closed-Inv c _ v.epoch_pos intake)
      | inr (inl e) ↦
          subst (λ q. Inv q.0) (sym e) (fail_closed-Inv (stepped c) _ v.epoch_pos intake)
      | inr (inr e) ↦
          subst (λ q. Inv q.0) (sym e)
            (commit_forwarded-Inv (stepped c) v id item found intake (c.event_sequence + 1) at _ p (
              rw (fanout_eq c v id item found intake) (
                add_forwarded-Moves (total_forwarded c.reservations)
                  (total_responding c.reservations) (fanout item) at c.exposure v.ledger)))
    ]

    respond_item-Inv :
        (at : Time) → is_forwarded item.phase ≡ true → Inv (respond_item c item id at).0
    respond_item-Inv at p =
        elim (respond_item-outcomes c item id at
          (overlay_of (total_tally (insert id (decoding item) c.reservations)))
          (exchange-insert c.runtime_epoch c.next_reservation_id c.closed_reason c.reservations
            c.overlay c.exposure v id item found (decoding item)
            (decoding-IsEntry c v id item found intake) (ground arith))) [
              | inl e ↦ subst (λ q. Inv q.0) (sym e) (fail_closed-Inv c _ v.epoch_pos intake)
              | inr e ↦
                  subst (λ q. Inv q.0) (sym e)
                    (commit_first_byte-Inv (stepped c) v id item found intake _ p (
                      add_response-Moves (total_forwarded c.reservations)
                        (total_responding c.reservations) 1 at c.exposure v.ledger))
            ]

    terminate_with :
        (cause : TerminalCause) (at : Time) (gone : Bool) (o : ReservationOverlay)
        → removes item cause ≡ gone
        → settle c.overlay item gone ≡ some o
        → Inv
            (commit_terminated
              (stepped c)
              item
              id
              (c.event_sequence + 1)
              gone
              o
              (release_exposure c.exposure item at)).0
        → Inv (terminate_item c item id cause at).0
    terminate_with cause at gone o r s h =
        elim (terminate_item-outcomes c item id cause at o (ap (settle c.overlay item) r ∙ s)) [
          | inl e ↦ subst (λ q. Inv q.0) (sym e) (fail_closed-Inv c _ v.epoch_pos intake)
          | inr e ↦
              subst (λ q. Inv q.0) (sym e)
                (subst
                  (λ b.
                    Inv
                      (commit_terminated (stepped c) item id (c.event_sequence + 1) b o
                        (release_exposure c.exposure item at)).0)
                  (sym r) h)
        ]

    settle-debt :
        settle c.overlay item false
        ≡ some (overlay_of (total_tally (insert id (debt item) c.reservations)))
    unfolding settle
    settle-debt =
        exchange-insert c.runtime_epoch c.next_reservation_id c.closed_reason c.reservations
          c.overlay c.exposure v id item found (debt item)
          (debt-IsEntry c v id item found intake item.terminal_sequence) (ground arith)

    terminate_item-Inv :
        (cause : TerminalCause) (at : Time)
        → is_residual_debt item.phase ≡ false
        → Inv (terminate_item c item id cause at).0
    terminate_item-Inv cause at p =
        let m = release_exposure-Moves c v id item found intake at p in
        elim (Bool-cases (removes item cause)) [
          | inl r ↦
              terminate_with cause at true (overlay_of (total_tally (erase id c.reservations))) r
                (settle-erase c.runtime_epoch c.next_reservation_id c.closed_reason c.reservations
                  c.overlay c.exposure v id item found)
                (commit_gone-Inv (stepped c) v id item found intake (c.event_sequence + 1) _ m)
          | inr r ↦
              terminate_with cause at false
                (overlay_of (total_tally (insert id (debt item) c.reservations))) r settle-debt
                (commit_debt-Inv (stepped c) v id item found intake (c.event_sequence + 1) _ m)
        ]

  pub mark_forwarded-Inv :
      (c : AdmissionController W) (epoch id : ℕ) (at : Time)
      → Inv c
      → Inv (mark_forwarded c epoch id at).0
  mark_forwarded-Inv c epoch id at v = elim (mark_forwarded-cases c epoch id at) [
    | inl e ↦ subst (λ q. Inv q.0) (sym e) v
    | inr (item, f, p, e) ↦ subst (λ q. Inv q.0) (sym e) (forward_item-Inv c v id item f.2 f.0 at p)
  ]

  pub mark_first_byte-Inv :
      (c : AdmissionController W) (epoch id : ℕ) (at : Time)
      → Inv c
      → Inv (mark_first_byte c epoch id at).0
  mark_first_byte-Inv c epoch id at v = elim (mark_first_byte-cases c epoch id at) [
    | inl e ↦ subst (λ q. Inv q.0) (sym e) v
    | inr (item, f, p, e) ↦ subst (λ q. Inv q.0) (sym e) (respond_item-Inv c v id item f.2 f.0 at p)
  ]

  pub terminate-Inv :
      (c : AdmissionController W) (epoch id : ℕ) (cause : TerminalCause) (at : Time)
      → Inv c
      → Inv (terminate c epoch id cause at).0
  terminate-Inv c epoch id cause at v = elim (terminate-cases c epoch id cause at) [
    | inl e ↦ subst (λ q. Inv q.0) (sym e) v
    | inr (item, f, p, e) ↦
        subst (λ q. Inv q.0) (sym e) (terminate_item-Inv c v id item f.2 f.0 cause at p)
  ]
