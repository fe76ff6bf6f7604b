-- ===== src/Admission/Controller/Handles.antt =====
-- What the handles can do: each method acts on its own reservation, once, and never on another's.
use phala_inference_guard.Base.{
  ℕ, ◌+◌, ◌≡◌, ◌≢◌, inl, inr, refl, sym, ap, ◌∙◌, Bool, true, false, none, some, arith, Bool-cases,
  Option-cases, lookup, insert, erase, lookup-insert, lookup-erase_self, if◌then◌else◌, Dict,
  HasKeys,
}
use mathlib.Core.Option.{none-ne-some}
use mathlib.Core.Bool.{true≢false}
use phala_inference_guard.Go.Time.{Time}
use phala_inference_guard.Go.Float.{Float64}
use phala_inference_guard.Admission.Types.{TerminalCause, success}
use phala_inference_guard.Admission.Overlay.{ReservationOverlay}
use phala_inference_guard.Admission.Exposure.{SequenceExposureLedger}
use phala_inference_guard.Admission.Reservation.{
  Reservation, ReservationPhase, reserved, forwarded, active_decode, residual_debt, is_reserved,
  is_forwarded, is_residual_debt,
}
use phala_inference_guard.Admission.Controller.State.{AdmissionController}
use phala_inference_guard.Admission.Controller.Lifecycle.{
  mark_forwarded, mark_first_byte, terminate, respond_item, commit_forwarded, commit_first_byte,
  commit_terminated, terminate_item, decoding, removes, exchange, settle,
}
use phala_inference_guard.Admission.Controller.Outcomes.{
  Acts, stepped, mark_forwarded-cases, mark_first_byte-cases, terminate-cases,
  forward_item-outcomes, respond_item-outcomes, terminate_item-outcomes,
}
use phala_inference_guard.Admission.Controller.Steps.{Reachable, Reachable-Inv}

-- What is forgotten at once: a request that the backend never got, and a decode that succeeded.
abbrev forgotten : ReservationPhase → TerminalCause → Bool
forgotten reserved _ = true
forgotten active_decode success = true
forgotten _ _ = false

removes-forgotten :
    (item : Reservation) (cause : TerminalCause) → removes item cause ≡ forgotten item.phase cause
unfolding removes
removes-forgotten item cause = ground arith

module _ {W : Type 0} ⦃fl : Float64 W⦄ where
  commit_forwarded-true :
      (c : AdmissionController W) (item : Reservation) (id sequence : ℕ) (at : Time)
      (q : SequenceExposureLedger × Bool)
      → (commit_forwarded c item id sequence at q).1 ≡ true
      → (commit_forwarded c item id sequence at q).0.reservations
        ≡ insert id
            (record item { phase = forwarded; forwarded_at = at; forwarded_sequence = sequence })
            c.reservations
  unfolding commit_forwarded
  commit_forwarded-true c item id sequence at (l, true) h = refl
  commit_forwarded-true c item id sequence at (l, false) h = absurd (ground arith)

  -- A call of `markForwarded` that returns true found its reservation reserved, and made it
  -- forwarded, at the given time and under the next event sequence; no other reservation changed.
  pub mark_forwarded-true :
      (c : AdmissionController W) (epoch id : ℕ) (at : Time)
      → (mark_forwarded c epoch id at).1 ≡ true
      → (item : Reservation) × Acts c epoch id item
        × (is_reserved item.phase ≡ true)
        × ((mark_forwarded c epoch id at).0.reservations
            ≡ insert id
                (record item {
                  phase = forwarded;
                  forwarded_at = at;
                  forwarded_sequence = c.event_sequence + 1;
                })
                c.reservations)
  mark_forwarded-true c epoch id at h = elim (mark_forwarded-cases c epoch id at) [
    | inl e ↦ absurd (ground arith)
    | inr (item, f, p, e) ↦ elim (forward_item-outcomes c item id at) [
      | inl g ↦ absurd (ground arith)
      | inr (inl g) ↦ absurd (ground arith)
      | inr (inr g) ↦ (
        item,
        f,
        p,
        ap (λ q. q.0.reservations) (e ∙ g)
            ∙ commit_forwarded-true (stepped c) item id (c.event_sequence + 1) at _
                (sym (ap (λ q. q.1) (e ∙ g)) ∙ h),
      )
    ]
  ]

  no_exchange :
      (c : AdmissionController W) (item : Reservation) (id : ℕ) (at : Time)
      → exchange c.overlay item (decoding item) ≡ none
      → (respond_item c item id at).1 ≢ true
  unfolding respond_item
  no_exchange c item id at e h = ground arith

  no_settle :
      (c : AdmissionController W) (item : Reservation) (id : ℕ) (cause : TerminalCause) (at : Time)
      → settle c.overlay item (removes item cause) ≡ none
      → (terminate_item c item id cause at).1 ≢ true
  unfolding terminate_item
  no_settle c item id cause at e h = ground arith

  commit_first_byte-true :
      (c : AdmissionController W) (next : Reservation) (id : ℕ) (o : ReservationOverlay)
      (q : SequenceExposureLedger × Bool)
      → (commit_first_byte c next id o q).1 ≡ true
      → (commit_first_byte c next id o q).0.reservations ≡ insert id next c.reservations
  unfolding commit_first_byte
  commit_first_byte-true c next id o (l, true) h = refl
  commit_first_byte-true c next id o (l, false) h = absurd (ground arith)

  respond_item-true :
      (c : AdmissionController W) (item : Reservation) (id : ℕ) (at : Time)
      → (respond_item c item id at).1 ≡ true
      → (respond_item c item id at).0.reservations ≡ insert id (decoding item) c.reservations
  respond_item-true c item id at h = elim (Option-cases (exchange c.overlay item (decoding item))) [
    | inl e ↦ absurd (no_exchange c item id at e h)
    | inr (o, e) ↦ elim (respond_item-outcomes c item id at o e) [
      | inl g ↦ absurd (ground arith)
      | inr g ↦
          ap (λ q. q.0.reservations) g
          ∙ commit_first_byte-true (stepped c) (decoding item) id o _ (sym (ap (λ q. q.1) g) ∙ h)
    ]
  ]

  -- A call of `markFirstByte` that returns true found its reservation forwarded, and made it an
  -- active decode whose pending charge is released; no other reservation changed.
  pub mark_first_byte-true :
      (c : AdmissionController W) (epoch id : ℕ) (at : Time)
      → (mark_first_byte c epoch id at).1 ≡ true
      → (item : Reservation) × Acts c epoch id item
        × (is_forwarded item.phase ≡ true)
        × ((mark_first_byte c epoch id at).0.reservations
            ≡ insert id
                (record item { phase = active_decode; pending_first_byte_released = true })
                c.reservations)
  mark_first_byte-true c epoch id at h = elim (mark_first_byte-cases c epoch id at) [
    | inl e ↦ absurd (ground arith)
    | inr (item, f, p, e) ↦ (
      item,
      f,
      p,
      ap (λ q. q.0.reservations) e ∙ respond_item-true c item id at (sym (ap (λ q. q.1) e) ∙ h),
    )
  ]

  -- The reservations after a termination: the reservation is gone, or it is a debt that stays until
  -- an observation covers the next event sequence.
  abbrev gone_or_debt : AdmissionController W → Reservation → ℕ → Bool → Dict Reservation
  gone_or_debt c item id gone =
      if gone
      then erase id c.reservations
      else insert id
          (record item { phase = residual_debt; terminal_sequence = c.event_sequence + 1 })
          c.reservations

  abbrev pub settled : AdmissionController W → Reservation → ℕ → TerminalCause → Dict Reservation
  settled c item id cause = gone_or_debt c item id (forgotten item.phase cause)

  commit_terminated-true :
      (c : AdmissionController W) (item : Reservation) (id sequence : ℕ) (gone : Bool)
      (o : ReservationOverlay) (q : SequenceExposureLedger × Bool)
      → (commit_terminated c item id sequence gone o q).1 ≡ true
      → (commit_terminated c item id sequence gone o q).0.reservations ≡ (
          if gone
          then erase id c.reservations
          else insert id
              (record item { phase = residual_debt; terminal_sequence = sequence })
              c.reservations)
  unfolding commit_terminated
  commit_terminated-true c item id sequence gone o (l, true) h = refl
  commit_terminated-true c item id sequence gone o (l, false) h = absurd (ground arith)

  terminate_item-true :
      (c : AdmissionController W) (item : Reservation) (id : ℕ) (cause : TerminalCause) (at : Time)
      → (terminate_item c item id cause at).1 ≡ true
      → (terminate_item c item id cause at).0.reservations ≡ settled c item id cause
  terminate_item-true c item id cause at h =
      elim (Option-cases (settle c.overlay item (removes item cause))) [
        | inl e ↦ absurd (no_settle c item id cause at e h)
        | inr (o, e) ↦ elim (terminate_item-outcomes c item id cause at o e) [
          | inl g ↦ absurd (ground arith)
          | inr g ↦
              ap (λ q. q.0.reservations) g
              ∙ commit_terminated-true (stepped c) item id (c.event_sequence + 1)
                  (removes item cause) o _ (sym (ap (λ q. q.1) g) ∙ h)
              ∙ ap (gone_or_debt c item id) (removes-forgotten item cause)
        ]
      ]

  -- A call of `terminate` that returns true found its reservation, not yet a debt. The reservation
  -- goes if it was only reserved, whatever the cause, or if it was decoding and the cause is success;
  -- with any other phase or cause it becomes a debt of the next event sequence. No other reservation
  -- changed.
  pub terminate-true :
      (c : AdmissionController W) (epoch id : ℕ) (cause : TerminalCause) (at : Time)
      → (terminate c epoch id cause at).1 ≡ true
      → (item : Reservation) × Acts c epoch id item
        × (is_residual_debt item.phase ≡ false)
        × ((terminate c epoch id cause at).0.reservations ≡ settled c item id cause)
  terminate-true c epoch id cause at h = elim (terminate-cases c epoch id cause at) [
    | inl e ↦ absurd (ground arith)
    | inr (item, f, p, e) ↦ (
      item,
      f,
      p,
      ap (λ q. q.0.reservations) e
          ∙ terminate_item-true c item id cause at (sym (ap (λ q. q.1) e) ∙ h),
    )
  ]

  settled-over :
      (c : AdmissionController W) (item item' : Reservation) (id : ℕ) (cause : TerminalCause)
      → HasKeys c.reservations
      → lookup id (settled c item id cause) ≡ some item'
      → is_residual_debt item'.phase ≡ true
  settled-over c item item' id cause keys e = elim (Bool-cases (forgotten item.phase cause)) [
    | inl r ↦ absurd (
        none-ne-some _ (
          sym (lookup-erase_self id c.reservations keys)
          ∙ ap (λ b. lookup id (gone_or_debt c item id b)) (sym r)
          ∙ e))
    | inr r ↦
        let debt = record item {
          phase = residual_debt;
          terminal_sequence = c.event_sequence + 1;
        } in
        let same = lookup-insert id id debt c.reservations in
        let found : lookup id (insert id debt c.reservations) ≡ some item' =
          ap (λ b. lookup id (gone_or_debt c item id b)) (sym r) ∙ e in
        ground (arith, same, found)
  ]

  -- A reservation is terminated at most once: after a call of `terminate` that returns true on a
  -- reachable controller, a second one with the same epoch and id changes nothing and returns false.
  pub terminate-once :
      (c : AdmissionController W) (epoch id : ℕ) (cause again : TerminalCause) (at later : Time)
      → Reachable c
      → (terminate c epoch id cause at).1 ≡ true
      → terminate (terminate c epoch id cause at).0 epoch id again later
        ≡ ((terminate c epoch id cause at).0, false)
  terminate-once c epoch id cause again at later r h =
      let done = terminate-true c epoch id cause at h in
      elim (terminate-cases (terminate c epoch id cause at).0 epoch id again later) [
        | inl e ↦ e
        | inr (item', f, p, e) ↦ absurd (
            true≢false (
              sym (
                settled-over c done.0 item' id cause (Reachable-Inv c r).keys
                  (ap (λ d. lookup id d) (sym done.3) ∙ f.2))
              ∙ p))
      ]
