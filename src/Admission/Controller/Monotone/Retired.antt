-- ===== src/Admission/Controller/Monotone/Retired.antt =====
-- A handle whose reservation has gone: no later call gives it one again.
use phala_inference_guard.Base.{
  ℕ, ◌+◌, ◌≤◌, ◌≡◌, ◌⊎◌, inl, inr, subst, sym, true, false, none, List, [], ◌∷◌, arith, lookup,
  Option-cases, AllEntries-lookup,
}
use phala_inference_guard.Go.Time.{Time}
use phala_inference_guard.Go.Float.{Float64}
use phala_inference_guard.Admission.Types.{TerminalCause, is_set}
use phala_inference_guard.Admission.Controller.State.{AdmissionController}
use phala_inference_guard.Admission.Controller.Lifecycle.{
  find_reservation, mark_forwarded, mark_first_byte, terminate,
}
use phala_inference_guard.Admission.Controller.Invariant.{Inv, IsEntry}
use phala_inference_guard.Admission.Controller.Steps.{Call, perform, Reachable, Reachable-Inv}
use phala_inference_guard.Admission.Controller.Closed.{perform-shut}
use phala_inference_guard.Admission.Controller.Monotone.Calls.{perform-Follows}

module _ {W : Type 0} ⦃fl : Float64 W⦄ where
  -- The calls of a list, one after another.
  abbrev pub performs : AdmissionController W → List (Call W) → AdmissionController W
  performs c [] = c
  performs c (k ∷ ks) = performs (perform c k) ks

  -- The controller is closed, in a later epoch, or without a reservation of that id.
  Gone : AdmissionController W → ℕ → ℕ → Type 0
  Gone c epoch id =
      (is_set c.closed_reason ≡ true)
      ⊎ (epoch + 1 ≤ c.runtime_epoch)
      ⊎ ((id ≤ c.next_reservation_id) × (lookup id c.reservations ≡ none))

  not_found-Gone :
      (c : AdmissionController W) (epoch id : ℕ)
      → Inv c
      → epoch ≤ c.runtime_epoch
      → id ≤ c.next_reservation_id
      → find_reservation c epoch id ≡ none
      → Gone c epoch id
  unfolding find_reservation Gone
  not_found-Gone c epoch id v e n h = elim (Option-cases (lookup id c.reservations)) [
    | inl absent ↦ inr (inr (n, absent))
    | inr (item, there) ↦
        let w =
          AllEntries-lookup (IsEntry c.runtime_epoch c.next_reservation_id) id item c.reservations
            v.entries there in
        let same = w.1.in_epoch in ground (arith, same, there)
  ]

  Gone-not_found :
      (c : AdmissionController W) (epoch id : ℕ)
      → Gone c epoch id
      → find_reservation c epoch id ≡ none
  unfolding find_reservation Gone
  Gone-not_found c epoch id g = ground arith

  perform-Gone :
      (c : AdmissionController W) (k : Call W) (epoch id : ℕ)
      → Gone c epoch id
      → Gone (perform c k) epoch id
  unfolding Gone
  perform-Gone c k epoch id (inl shut) =
      subst (λ d. Gone d epoch id) (sym (perform-shut c k shut)) (inl shut)
  perform-Gone c k epoch id (inr (inl late)) = inr (inl (omega (arith, (perform-Follows c k).0)))
  perform-Gone c k epoch id (inr (inr (n, absent))) =
      let f = perform-Follows c k in inr (inr (omega (arith, f.1), f.2 id n absent))

  performs-Gone :
      (c : AdmissionController W) (ks : List (Call W)) (epoch id : ℕ)
      → Gone c epoch id
      → Gone (performs c ks) epoch id
  performs-Gone c [] epoch id g = g
  performs-Gone c (k ∷ ks) epoch id g =
      performs-Gone (perform c k) ks epoch id (perform-Gone c k epoch id g)

  not_found-refused :
      (c : AdmissionController W) (epoch id : ℕ) (cause : TerminalCause) (at : Time)
      → find_reservation c epoch id ≡ none
      → (mark_forwarded c epoch id at ≡ (c, false))
        × (mark_first_byte c epoch id at ≡ (c, false))
        × (terminate c epoch id cause at ≡ (c, false))
  unfolding mark_forwarded mark_first_byte terminate
  not_found-refused c epoch id cause at h = ground arith

  -- A handle is retired for good. Take a controller that calls lead to from its construction, and an
  -- epoch and an id that it has reached, under which it finds no reservation, be it that the
  -- reservation was terminated or reconciled away, that the backend was reset or that the intake was
  -- closed. After any further calls, `markForwarded`, `markFirstByte` and `terminate` with this epoch
  -- and id change nothing and return false.
  pub retired_handle :
      (c : AdmissionController W) (ks : List (Call W)) (epoch id : ℕ) (cause : TerminalCause)
      (at : Time)
      → Reachable c
      → epoch ≤ c.runtime_epoch
      → id ≤ c.next_reservation_id
      → find_reservation c epoch id ≡ none
      → let c' = performs c ks in
        (mark_forwarded c' epoch id at ≡ (c', false))
        × (mark_first_byte c' epoch id at ≡ (c', false))
        × (terminate c' epoch id cause at ≡ (c', false))
  retired_handle c ks epoch id cause at r e n h =
      not_found-refused (performs c ks) epoch id cause at (
        Gone-not_found (performs c ks) epoch id
          (performs-Gone c ks epoch id (not_found-Gone c epoch id (Reachable-Inv c r) e n h)))
