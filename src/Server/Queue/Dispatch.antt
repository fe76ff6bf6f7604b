-- ===== src/Server/Queue/Dispatch.antt =====
-- priority_admission.go: `Decide` up to its wait, `dispatch`, `drain` and `Close`. What a method sends
-- on a request's result channel is a value that it returns.
use phala_inference_guard.Base.{
  ℕ, ◌+◌, ◌%◌, Bool, not, ◌++◌, if◌then◌else◌, Option, none, some, List, [], ◌∷◌, pos, leb_ℤ,
  length,
}
use phala_inference_guard.Go.Words.{word}
use phala_inference_guard.Go.Time.{Time}
use phala_inference_guard.Go.Float.{Float64}
use phala_inference_guard.Admission.Types.{
  Reason, closed, priority_queue_full, priority_queue_timeout, priority_queue_canceled, cancel,
}
use phala_inference_guard.Admission.Demand.{TpsRequestDemand}
use phala_inference_guard.Server.Decision.{
  AdmissionDecision, AdmissionService, valid_admission_decision, unavailable_admission_decision,
  priority_queue_decision,
}
use phala_inference_guard.Server.Queue.{PriorityAdmissionRequest, PriorityAdmissionService}
use phala_inference_guard.Server.Queue.Choice.{waited}

-- `Add(1)` on an atomic uint64, and `nextID++`.
abbrev pub step : ℕ → ℕ
step n = (n + 1) % word

-- What one call reads, in the order of the readings: whether the context is canceled, and the clock.
pub record Readings : Type 0 where
  pub canceled_before : Bool
  pub now : Time
  pub decided_at : Time
  pub canceled_within : Bool
  pub canceled_after : Bool
  pub released_at : Time
  pub recorded_at : Time

abbrev pub new_request :
    {S : Type 0} → PriorityAdmissionService S → TpsRequestDemand → Time → PriorityAdmissionRequest
new_request s demand now = record { demand = demand; id = step s.next_id; enqueued_at = now }

abbrev pub append_request :
    {S : Type 0} → PriorityAdmissionService S → TpsRequestDemand → Time → PriorityAdmissionService S
append_request s demand now = record s {
  next_id = step s.next_id;
  queue = s.queue ++ new_request s demand now ∷ [];
  enqueued = step s.enqueued;
}

module _ {W S R : Type 0} ⦃fl : Float64 W⦄ (service : AdmissionService W S R) where
  unfoldable pub queue_decision :
      PriorityAdmissionService S
      → TpsRequestDemand
      → Reason
      → Time
      → PriorityAdmissionService S × AdmissionDecision W R
  queue_decision s demand why at =
      let decision = priority_queue_decision demand why in
      (
        record s { delegate = service.record_external_decision at decision.verdict s.delegate },
        decision,
      )

  -- `Terminate(TerminalCancel)` on a reservation, if there is one.
  abbrev pub release : Option R → Time → S → S
  release none at s = s
  release (some r) at s = service.terminate_reservation at r cancel s

  unfoldable pub checked_decision :
      TpsRequestDemand → Time → Option (AdmissionDecision W R) × S → AdmissionDecision W R × S
  checked_decision demand at (none, s) = (unavailable_admission_decision demand, s)
  checked_decision demand at (some d, s) =
      if not (valid_admission_decision d)
      then (unavailable_admission_decision demand, release d.reservation at s)
      else (d, s)

  unfoldable pub safe_priority_delegate_decide :
      S → TpsRequestDemand → Readings → AdmissionDecision W R × S
  unfolding checked_decision
  safe_priority_delegate_decide s demand r =
      checked_decision demand r.released_at
        (service.decide_request r.decided_at r.canceled_within demand s)

  -- The end of `dispatch`, on the delegate's decision.
  unfoldable pub deliver :
      PriorityAdmissionService S
      → PriorityAdmissionRequest
      → Readings
      → AdmissionDecision W R × S
      → PriorityAdmissionService S × AdmissionDecision W R
  unfolding queue_decision
  deliver s item r (d, delegate) =
      if r.canceled_after
      then queue_decision
          (record s {
            delegate = release d.reservation r.released_at delegate;
            canceled = step s.canceled;
          })
          item.demand priority_queue_canceled r.recorded_at
      else (record s { delegate = delegate }, d)

  unfoldable pub dispatch :
      PriorityAdmissionService S
      → PriorityAdmissionRequest
      → Readings
      → PriorityAdmissionService S × AdmissionDecision W R
  unfolding queue_decision safe_priority_delegate_decide deliver
  dispatch s item r =
      if r.canceled_before
      then queue_decision (record s { canceled = step s.canceled }) item.demand
          priority_queue_canceled r.recorded_at
      else if waited s.max_wait r.now item
      then queue_decision (record s { timed_out = step s.timed_out }) item.demand
          priority_queue_timeout r.recorded_at
      else deliver s item r (safe_priority_delegate_decide s.delegate item.demand r)

  abbrev pub at_once :
      PriorityAdmissionService S × AdmissionDecision W R
      → PriorityAdmissionService S × Option (AdmissionDecision W R)
  at_once (s, d) = (s, some d)

  -- `Decide`: the decision of a request that is refused at once; no decision when it is queued, as
  -- its caller then waits for the worker's.
  unfoldable pub enter_queue :
      PriorityAdmissionService S
      → TpsRequestDemand
      → Readings
      → PriorityAdmissionService S × Option (AdmissionDecision W R)
  unfolding queue_decision
  enter_queue s demand r =
      if r.canceled_before
      then at_once (
          queue_decision (record s { canceled = step s.canceled }) demand priority_queue_canceled
            r.recorded_at)
      else if s.is_closed
      then at_once (queue_decision s demand closed r.recorded_at)
      else if leb_ℤ s.max_entries (pos (length s.queue))
      then at_once (
          queue_decision (record s { full = step s.full }) demand priority_queue_full r.recorded_at)
      else (append_request s demand r.now, none)

  -- The loop of `drain`: the clock is read for each item.
  unfoldable pub answer_all :
      PriorityAdmissionService S
      → (PriorityAdmissionRequest → Time)
      → Reason
      → List PriorityAdmissionRequest
      → PriorityAdmissionService S × List (PriorityAdmissionRequest × AdmissionDecision W R)
  unfolding queue_decision
  answer_all s clock why [] = (s, [])
  answer_all s clock why (x ∷ xs) =
      let first = queue_decision s x.demand why (clock x) in
      let others = answer_all first.0 clock why xs in (others.0, (x, first.1) ∷ others.1)

  unfoldable pub drain :
      PriorityAdmissionService S
      → (PriorityAdmissionRequest → Time)
      → Reason
      → PriorityAdmissionService S × List (PriorityAdmissionRequest × AdmissionDecision W R)
  unfolding answer_all
  drain s clock why = answer_all (record s { queue = [] }) clock why s.queue
