-- ===== src/Server/Runtime/Release.antt =====
-- A request that is canceled while it is decided leaves no reservation.
use phala_inference_guard.Base.{
  ℕ, ◌+◌, ◌<◌, ◌≡◌, refl, sym, ◌∙◌, ap, subst, ◌⊎◌, inl, inr, Bool, true, false, not, ◌==◌,
  if◌then◌else◌, if-both, if-cases, Option, none, some, [], ◌∷◌, arith, Bool-cases, Option-cases,
  Dict, lookup, insert, erase, lookup-insert,
}
use phala_inference_guard.Go.Time.{Time}
use phala_inference_guard.Go.Float.{Float64}
use phala_inference_guard.Admission.Types.{
  Reason, cancel, is_set, is_admit, controller_unavailable, counter_overflow,
}
use phala_inference_guard.Admission.Demand.{TpsRequestDemand, valid_demand}
use phala_inference_guard.Admission.Policy.{evaluate_policy}
use phala_inference_guard.Admission.Reservation.{Reservation, reserved}
use phala_inference_guard.Admission.Overlay.{ReservationOverlay}
use phala_inference_guard.Admission.Exposure.{SequenceExposureLedger}
use phala_inference_guard.Admission.Controller.State.{
  AdmissionController, fail_closed, next_event_sequence,
}
use phala_inference_guard.Admission.Controller.Lifecycle.{
  ReservationHandle, usable, handle_terminate, terminate, terminate_item, find_reservation,
  commit_terminated, settle, removes, release_exposure,
}
use phala_inference_guard.Admission.Controller.Outcomes.{terminate_item-outcomes, stepped}
use phala_inference_guard.Admission.Controller.Decide.{
  AdmissionResult, DecisionRecord, admit_request, reserve, commit_reservation, commit_numbered,
  new_reservation, read_state, decision_of, bounds_of,
}
use phala_inference_guard.Admission.Controller.Admissions.{
  admit_request-cases, with_reservation, next_handle,
}
use phala_inference_guard.Admission.Controller.Invariant.{Inv}
use phala_inference_guard.Admission.Controller.Invariant.Arrival.{next_id-free}
use phala_inference_guard.Admission.Controller.Steps.{Reachable, Reachable-Inv}
use phala_inference_guard.Server.Decision.{AdmissionDecision, valid_admission_decision}
use phala_inference_guard.Server.Queue.{PriorityAdmissionRequest, PriorityAdmissionService}
use phala_inference_guard.Server.Queue.Choice.{waited}
use phala_inference_guard.Server.Queue.Dispatch.{
  Readings, queue_decision, release, checked_decision, safe_priority_delegate_decide, deliver,
  dispatch,
}
use phala_inference_guard.Server.Runtime.{
  no_demand, admission_runtime, runtime_decide, runtime_decision, runtime_terminate,
}

erase-insert_new :
    {V : Type 0} (k : ℕ) (v : V) (d : Dict V) → lookup k d ≡ none → erase k (insert k v d) ≡ d
erase-insert_new k v [] h = ground arith
erase-insert_new k v ((j, w) ∷ d) h = ground (arith, erase-insert_new k v d)

removes_reserved : (item : Reservation) → item.phase ≡ reserved → removes item cancel ≡ true
unfolding removes
removes_reserved item p = rw (removes, p) refl

not-false : (b : Bool) → not b ≡ false → b ≡ true
not-false true e = refl
not-false false e = cc

equal_self : (n : ℕ) → (n == n) ≡ true
equal_self n = ground arith

module _ {W : Type 0} ⦃fl : Float64 W⦄ where
  -- A controller that is closed and holds nothing.
  abbrev pub Emptied : AdmissionController W → Type 0
  Emptied c' = (is_set c'.closed_reason ≡ true) × (c'.reservations ≡ [])

  fail_closed-Emptied :
      (c : AdmissionController W) (why : Reason)
      → is_set c.closed_reason ≡ false
      → is_set why ≡ true
      → Emptied (fail_closed c why)
  unfolding fail_closed
  fail_closed-Emptied c why h k = rw (fail_closed, h) (k, refl)

  -- The reservations of a controller are as they were, or it failed closed and has none.
  abbrev pub Kept : AdmissionController W → AdmissionController W → Type 0
  Kept c c' = (c'.reservations ≡ c.reservations) ⊎ Emptied c'

  reserve_action :
      (c : AdmissionController W) (d : DecisionRecord W) (h : ReservationHandle)
      → (reserve c d).1.handle ≡ some h
      → (reserve c d).1.decision.action ≡ d.action
  unfolding reserve commit_reservation commit_numbered next_event_sequence
  reserve_action c d h e = ground arith

  commit_terminated-Kept :
      (c c' : AdmissionController W) (item : Reservation) (id sequence : ℕ) (o : ReservationOverlay)
      (q : SequenceExposureLedger × Bool)
      → is_set c'.closed_reason ≡ false
      → erase id c'.reservations ≡ c.reservations
      → Kept c (commit_terminated c' item id sequence true o q).0
  unfolding commit_terminated
  commit_terminated-Kept c c' item id sequence o (l, true) h e = inl e
  commit_terminated-Kept c c' item id sequence o (l, false) h e =
      inr (fail_closed-Emptied (record c' { exposure = l }) controller_unavailable h refl)

  unsettled :
      (c : AdmissionController W) (item : Reservation) (id : ℕ) (at : Time)
      → settle c.overlay item (removes item cancel) ≡ none
      → terminate_item c item id cancel at ≡ (fail_closed c controller_unavailable, false)
  unfolding terminate_item
  unsettled c item id at n = rw (terminate_item, n) refl

  terminate_item-Kept :
      (c c' : AdmissionController W) (item : Reservation) (id : ℕ) (at : Time)
      → is_set c'.closed_reason ≡ false
      → item.phase ≡ reserved
      → erase id c'.reservations ≡ c.reservations
      → Kept c (terminate_item c' item id cancel at).0
  terminate_item-Kept c c' item id at h p e =
      elim (Option-cases (settle c'.overlay item (removes item cancel))) [
        | inl n ↦
            subst (λ q. Kept c q.0) (sym (unsettled c' item id at n))
              (inr (fail_closed-Emptied c' controller_unavailable h refl))
        | inr (o, f) ↦ elim (terminate_item-outcomes c' item id cancel at o f) [
          | inl g ↦
              subst (λ q. Kept c q.0) (sym g) (inr (fail_closed-Emptied c' counter_overflow h refl))
          | inr g ↦
              subst (λ q. Kept c q.0) (sym g)
                (subst
                  (λ b.
                    Kept c
                      (commit_terminated (stepped c') item id (c'.event_sequence + 1) b o
                        (release_exposure c'.exposure item at)).0)
                  (sym (removes_reserved item p))
                  (commit_terminated-Kept c (stepped c') item id (c'.event_sequence + 1) o
                    (release_exposure c'.exposure item at) h e))
        ]
      ]

  -- The termination of the newest reservation.
  newest-Kept :
      (c : AdmissionController W) (demand : TpsRequestDemand) (overlay : ReservationOverlay)
      (at : Time)
      → Inv c
      → 0 < c.address
      → is_set c.closed_reason ≡ false
      → Kept c (runtime_terminate at (next_handle c) cancel (with_reservation c demand overlay))
  unfolding runtime_terminate handle_terminate usable terminate find_reservation
  newest-Kept c demand overlay at v a h =
      let id = c.next_reservation_id + 1 in
      let item = record (new_reservation c demand) { admitted_sequence = c.event_sequence + 1 } in
      let c' = with_reservation c demand overlay in
      let free = next_id-free c.runtime_epoch c.next_reservation_id c.reservations v.entries in
      let pos_epoch = v.epoch_pos in
      let able : usable (next_handle c) ≡ true = ground arith in
      let there : lookup id c'.reservations ≡ some item =
        lookup-insert id id item c.reservations ∙ rw (equal_self id) refl in
      let found : find_reservation c' c.runtime_epoch id ≡ some item =
        rw (find_reservation, h, equal_self c.runtime_epoch, there, equal_self c.runtime_epoch)
          refl in
      let run : terminate c' c.runtime_epoch id cancel at ≡ terminate_item c' item id cancel at =
        rw (terminate, found) refl in
      let call : handle_terminate (next_handle c) c' cancel at
          ≡ terminate c' c.runtime_epoch id cancel at =
        rw (handle_terminate, able) refl in
      subst (λ q. Kept c q.0) (sym (call ∙ run))
        (terminate_item-Kept c c' item id at h refl (erase-insert_new id item c.reservations free))

  abbrev terminated :
      Time → Option ReservationHandle → AdmissionController W → AdmissionController W
  terminated at none c = c
  terminated at (some r) c = runtime_terminate at r cancel c

  no_reservation :
      (result : AdmissionResult W)
      → result.handle ≡ none
      → (runtime_decision result).reservation ≡ none
  no_reservation result n = if-both (λ o. o ≡ none) (is_admit result.decision.action) n refl

  -- A decision that has a handle admits.
  admit_request_action :
      (c : AdmissionController W) (now : Time) (demand : TpsRequestDemand) (h : ReservationHandle)
      → (admit_request c now demand).1.handle ≡ some h
      → is_admit (admit_request c now demand).1.decision.action ≡ true
  unfolding admit_request decision_of
  admit_request_action c now demand h e =
      let P : AdmissionController W × AdmissionResult W → Type 0 =
        λ q. q.1.handle ≡ some h → is_admit q.1.decision.action ≡ true in
      let s = read_state c now in
      let policy = evaluate_policy c.policy s.reading demand (bounds_of c) in
      let d = decision_of c policy demand s.reading in
      if-cases P (not (valid_demand demand)) (λ bad f. cc)
        (λ good.
          if-cases P (not s.ready) (λ wait f. cc)
            λ ready.
              if-cases P (not (is_admit policy.action)) (λ refuses f. cc)
                λ admits f.
                  ap is_admit (reserve_action c d h f) ∙ not-false (is_admit policy.action) admits)
        e

  admitted-Kept :
      (c : AdmissionController W) (now at : Time) (demand : TpsRequestDemand)
      → Inv c
      → 0 < c.address
      → Kept c (
          terminated at
            (runtime_decision (admit_request c now demand).1).reservation
            (admit_request c now demand).0)
  admitted-Kept c now at demand v a =
      let q = admit_request c now demand in
      let P = λ (o : Option ReservationHandle). Kept c (terminated at o q.0) in
      elim (admit_request-cases c now demand) [
        | inl (e, n) ↦
            subst P (sym (no_reservation q.1 n))
              (inl (ap (λ (d : AdmissionController W). d.reservations) e))
        | inr (intake, good, inl (n, (why, named, e))) ↦
            subst P (sym (no_reservation q.1 n))
              (inr (subst Emptied (sym e) (fail_closed-Emptied c why intake named)))
        | inr (intake, good, inr (n, (added, overlay, fits, sums, e))) ↦
            let admits = admit_request_action c now demand (next_handle c) n in
            let held : (runtime_decision q.1).reservation ≡ some (next_handle c) =
              ap (λ b. if b then q.1.handle else none) admits ∙ n in
            subst P (sym held) (
              subst (λ d. Kept c (runtime_terminate at (next_handle c) cancel d)) (sym e)
                (newest-Kept c demand overlay at v a intake))
      ]

  -- What the queue releases of a decision, before and after the decision is checked.
  checked_release :
      (demand : TpsRequestDemand) (at : Time) (d : AdmissionDecision W ReservationHandle)
      (c : AdmissionController W)
      → let q = checked_decision admission_runtime demand at (some d, c) in
        release admission_runtime q.0.reservation at q.1
        ≡ release admission_runtime d.reservation at c
  unfolding checked_decision
  checked_release demand at d c = elim (Bool-cases (valid_admission_decision d)) [
    | inl good ↦ rw (checked_decision, good) refl
    | inr bad ↦ rw (checked_decision, bad) refl
  ]

  release-terminated :
      (o : Option ReservationHandle) (at : Time) (c : AdmissionController W)
      → release admission_runtime o at c ≡ terminated at o c
  unfolding admission_runtime
  release-terminated none at c = refl
  release-terminated (some h) at c = refl

  deliver-canceled :
      (s : PriorityAdmissionService (AdmissionController W)) (x : PriorityAdmissionRequest)
      (r : Readings) (q : AdmissionDecision W ReservationHandle × AdmissionController W)
      → r.canceled_after ≡ true
      → (deliver admission_runtime s x r q).0.delegate
        ≡ release admission_runtime q.0.reservation r.released_at q.1
  unfolding deliver queue_decision admission_runtime
  deliver-canceled s x r (d, c) h = rw (deliver, h) refl

  -- When the queue finds a request canceled once it is decided, the controller's reservations are as
  -- they were before the request, or the controller has failed closed and holds none.
  pub dispatch-Kept :
      (s : PriorityAdmissionService (AdmissionController W)) (x : PriorityAdmissionRequest)
      (r : Readings)
      → Reachable s.delegate
      → 0 < s.delegate.address
      → r.canceled_after ≡ true
      → ((dispatch admission_runtime s x r).0.delegate.reservations ≡ s.delegate.reservations)
        ⊎ ((is_set (dispatch admission_runtime s x r).0.delegate.closed_reason ≡ true)
            × ((dispatch admission_runtime s x r).0.delegate.reservations ≡ []))
  unfolding dispatch queue_decision safe_priority_delegate_decide admission_runtime runtime_decide
  dispatch-Kept s x r live a h =
      let P : PriorityAdmissionService (AdmissionController W)
            × AdmissionDecision W ReservationHandle
          → Type 0 =
        λ q. Kept s.delegate q.0.delegate in
      let demand = if r.canceled_within then no_demand else x.demand in
      let result = admit_request s.delegate r.decided_at demand in
      let d = runtime_decision result.1 in
      let after =
        deliver-canceled s x r
          (safe_priority_delegate_decide admission_runtime s.delegate x.demand r) h in
      if-both P r.canceled_before (inl refl) (
        if-both P (waited s.max_wait r.now x) (inl refl) (
          subst (Kept s.delegate)
            (sym (
              after
              ∙ checked_release x.demand r.released_at d result.0
              ∙ release-terminated d.reservation r.released_at result.0))
            (admitted-Kept s.delegate r.decided_at r.released_at demand
              (Reachable-Inv s.delegate live) a)))
