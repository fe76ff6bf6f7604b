-- ===== src/Server/Queue/Worker/Answers.antt =====
-- What the worker sends: every answer is a valid decision, and every due round answers a request.
use mathlib.Core.List.{Perm}
use phala_inference_guard.Base.{
  ◌≡◌, refl, ◌⊎◌, ◌∙◌, sym, ap, subst, true, false, ◌++◌, Option, none, some, List, [], ◌∷◌, All,
  All-append, arith, if◌then◌else◌, if-both, Bool-cases, inl, inr,
}
use phala_inference_guard.Go.Time.{Time, before, add_time}
use phala_inference_guard.Go.Float.{Float64}
use phala_inference_guard.Admission.Types.{
  Reason, admit, protect, closed, priority_queue_canceled, priority_queue_timeout,
}
use phala_inference_guard.Admission.Demand.{TpsRequestDemand}
use phala_inference_guard.Server.Decision.{
  AdmissionDecision, AdmissionService, valid_admission_decision,
}
use phala_inference_guard.Server.Queue.{PriorityAdmissionRequest, PriorityAdmissionService}
use phala_inference_guard.Server.Queue.Choice.{Turn, waited, next_item}
use phala_inference_guard.Server.Queue.Choice.Order.{Serves}
use phala_inference_guard.Server.Queue.Turns.{next_item_due}
use phala_inference_guard.Server.Queue.Dispatch.{
  Readings, step, dispatch, drain, answer_all, queue_decision, deliver, checked_decision,
  safe_priority_delegate_decide,
}
use phala_inference_guard.Server.Queue.Worker.{
  Answer, Worker, Event, arrives, turns, serves, elsewhere, shuts, finishes, drained, take_turn,
  answered, idle_turn, serve_hand, happen, Reached, starts, goes, start_worker, close_delegate,
}
use phala_inference_guard.Server.Queue.Worker.Accounts.{dispatch-Keeps}

-- A decision admits and holds a reservation, or protects and holds none.
abbrev pub Settles : {W R : Type 0} → AdmissionDecision W R → Type 0
Settles {R = R} d =
    ((d.verdict.action ≡ admit) × ((r : R) × (d.reservation ≡ some r)))
    ⊎ ((d.verdict.action ≡ protect) × (d.reservation ≡ none))

module _ {W S R : Type 0} ⦃fl : Float64 W⦄ (service : AdmissionService W S R) where
  abbrev IsValid : AdmissionDecision W R → Type 0
  IsValid d = valid_admission_decision d ≡ true

  valid_admission_decision-Settles : (d : AdmissionDecision W R) → IsValid d → Settles d
  unfolding valid_admission_decision
  valid_admission_decision-Settles d h = ground arith

  All-Settles : (l : List (Answer W R)) → All (λ a. IsValid a.1) l → All (λ a. Settles a.1) l
  All-Settles [] h = tt
  All-Settles ((x, d) ∷ l) (h, hs) = (valid_admission_decision-Settles d h, All-Settles l hs)

  checked_decision-IsValid :
      (demand : TpsRequestDemand) (at : Time) (q : Option (AdmissionDecision W R) × S)
      → IsValid (checked_decision service demand at q).0
  unfolding checked_decision valid_admission_decision
  checked_decision-IsValid demand at (none, s) = refl
  checked_decision-IsValid demand at (some d, s) = elim (Bool-cases (valid_admission_decision d)) [
    | inl good ↦ rw (checked_decision, good) good
    | inr bad ↦ rw (checked_decision, bad) refl
  ]

  deliver-IsValid :
      (s : PriorityAdmissionService S) (x : PriorityAdmissionRequest) (r : Readings)
      (q : AdmissionDecision W R × S)
      → IsValid q.0
      → IsValid (deliver service s x r q).1
  unfolding deliver queue_decision valid_admission_decision
  deliver-IsValid s x r (d, delegate) h =
      if-both (λ (a : PriorityAdmissionService S × AdmissionDecision W R). IsValid a.1)
        r.canceled_after refl h

  queue_decision-IsValid :
      (s : PriorityAdmissionService S) (demand : TpsRequestDemand) (why : Reason) (at : Time)
      → IsValid (queue_decision service s demand why at).1
  unfolding queue_decision valid_admission_decision
  queue_decision-IsValid s demand why at = refl

  safe_priority_delegate_decide-IsValid :
      (s : S) (demand : TpsRequestDemand) (r : Readings)
      → IsValid (safe_priority_delegate_decide service s demand r).0
  unfolding safe_priority_delegate_decide
  safe_priority_delegate_decide-IsValid s demand r =
      checked_decision-IsValid demand r.released_at
        (service.decide_request r.decided_at r.canceled_within demand s)

  dispatch-IsValid :
      (s : PriorityAdmissionService S) (x : PriorityAdmissionRequest) (r : Readings)
      → IsValid (dispatch service s x r).1
  unfolding dispatch
  dispatch-IsValid s x r =
      let P : PriorityAdmissionService S × AdmissionDecision W R → Type 0 = λ a. IsValid a.1 in
      let q = safe_priority_delegate_decide service s.delegate x.demand r in
      if-both P r.canceled_before
        (queue_decision-IsValid (record s { canceled = step s.canceled }) x.demand
          priority_queue_canceled r.recorded_at)
        (if-both P (waited s.max_wait r.now x)
          (queue_decision-IsValid (record s { timed_out = step s.timed_out }) x.demand
            priority_queue_timeout r.recorded_at)
          (deliver-IsValid s x r q (safe_priority_delegate_decide-IsValid s.delegate x.demand r)))

  AllValid : List (Answer W R) → Type 0
  AllValid = All (λ a. IsValid a.1)

  answer_all-AllValid :
      (s : PriorityAdmissionService S) (clock : PriorityAdmissionRequest → Time) (why : Reason)
      (xs : List PriorityAdmissionRequest)
      → AllValid (answer_all service s clock why xs).1
  unfolding answer_all AllValid
  answer_all-AllValid s clock why [] = tt
  answer_all-AllValid s clock why (x ∷ xs) = (
    queue_decision-IsValid s x.demand why (clock x),
    answer_all-AllValid (queue_decision service s x.demand why (clock x)).0 clock why xs,
  )

  take_turn-AllValid :
      (w : Worker W S R) (clock : PriorityAdmissionRequest → Time)
      (t : Turn × PriorityAdmissionService S)
      → AllValid w.sent
      → AllValid (take_turn service w clock t).sent
  unfolding take_turn drained drain AllValid
  take_turn-AllValid w clock ((item, wait, true), s) h =
      All-append _ w.sent _ h (answer_all-AllValid _ clock closed s.queue)
  take_turn-AllValid w clock ((item, wait, false), s) h = h

  idle_turn-AllValid :
      (w : Worker W S R) (held : Option PriorityAdmissionRequest) (now : Time)
      (clock : PriorityAdmissionRequest → Time)
      → AllValid w.sent
      → AllValid (idle_turn service w held now clock).sent
  unfolding idle_turn
  idle_turn-AllValid w (some x) now clock h = h
  idle_turn-AllValid w none now clock h =
      take_turn-AllValid w clock (next_item w.queue_service now) h

  serve_hand-AllValid :
      (w : Worker W S R) (held : Option PriorityAdmissionRequest) (r : Readings)
      → AllValid w.sent
      → AllValid (serve_hand service w held r).sent
  unfolding serve_hand answered AllValid
  serve_hand-AllValid w none r h = h
  serve_hand-AllValid w (some x) r h =
      All-append _ w.sent _ h (dispatch-IsValid w.queue_service x r, tt)

  happen-AllValid :
      (w : Worker W S R) (k : Event S) → AllValid w.sent → AllValid (happen service w k).sent
  unfolding happen close_delegate
  happen-AllValid w (arrives demand r) h = h
  happen-AllValid w (turns now clock) h =
      if-both (λ (w' : Worker W S R). AllValid w'.sent) w.stopped h
        (idle_turn-AllValid w w.in_hand now clock h)
  happen-AllValid w (serves r) h = serve_hand-AllValid w w.in_hand r h
  happen-AllValid w (elsewhere d) h = h
  happen-AllValid w shuts h = h
  happen-AllValid w finishes h =
      let P : Worker W S R → Type 0 = λ w'. AllValid w'.sent in
      if-both P w.stopped (if-both P w.delegate_closed h h) h

  sent-AllValid :
      (xs : List PriorityAdmissionRequest) (w : Worker W S R)
      → Reached service xs w
      → AllValid w.sent
  unfolding start_worker AllValid
  sent-AllValid xs w (starts delegate max_entries coalesce max_wait) = tt
  sent-AllValid xs w (goes ys v k r) = happen-AllValid v k (sent-AllValid ys v r)

  -- Whatever the wrapped service returns, an action that is neither admit nor protect included, and
  -- when it panics too, each answer that the worker sends admits with a reservation, or protects
  -- without one.
  pub sent-Settles :
      (xs : List PriorityAdmissionRequest) (w : Worker W S R)
      → Reached service xs w
      → All (λ a. Settles a.1) w.sent
  unfolding AllValid
  sent-Settles xs w r = All-Settles w.sent (sent-AllValid xs w r)

  -- One round of a running worker that holds nothing, when each request queued is past the
  -- coalescing delay: one request, the one that the order of service gives, leaves the queue and is
  -- answered.
  pub round-answers :
      (w : Worker W S R) (now : Time) (clock : PriorityAdmissionRequest → Time) (r : Readings)
      (y : PriorityAdmissionRequest) (ys : List PriorityAdmissionRequest)
      → w.stopped ≡ false
      → w.in_hand ≡ none
      → w.queue_service.is_closed ≡ false
      → w.queue_service.queue ≡ y ∷ ys
      → All (λ x. before now (add_time x.enqueued_at w.queue_service.coalesce) ≡ false) (y ∷ ys)
      → (x : PriorityAdmissionRequest) × (d : AdmissionDecision W R) × ((happen service
            (happen service w (turns now clock))
            (serves r)).sent
          ≡ w.sent ++ (x, d) ∷ [])
        × Perm
            (x
              ∷ (happen service
                  (happen service w (turns now clock))
                  (serves r)).queue_service.queue)
            w.queue_service.queue
        × Serves w.queue_service.max_wait now w.queue_service.queue x
  unfolding happen serve_hand answered idle_turn take_turn
  round-answers w now clock r y ys running empty intake q due =
      let (x, others, e, p, why) = next_item_due w.queue_service now y ys intake q due in
      let s = record w.queue_service { queue = others } in
      let d = (dispatch service s x r).1 in
      let turned : happen service w (turns now clock)
          ≡ record w { queue_service = s; in_hand = some x } =
        ap (λ b. if b then w else idle_turn service w w.in_hand now clock) running
        ∙ ap (λ o. idle_turn service w o now clock) empty
        ∙ ap (take_turn service w clock) e in
      let served = ap (λ v. happen service v (serves r)) turned in
      let left = ap (λ (v : Worker W S R). v.queue_service.queue) served in
      (
        x,
        d,
        ap (λ (v : Worker W S R). v.sent) served,
        subst (λ l. Perm (x ∷ l) w.queue_service.queue)
            (sym (left ∙ (dispatch-Keeps service s x r).queue_kept)) p,
        why,
      )
