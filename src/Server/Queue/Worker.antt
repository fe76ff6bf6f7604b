-- ===== src/Server/Queue/Worker.antt =====
-- priority_admission.go: `run`, the loop of the one worker, together with the callers of `Decide` and
-- of `Close`. The mutex is held for `next`, for `Decide`'s append and for the taking of the items in
-- `drain`, so these happen one after another, in some order; between `next` and the answer the item
-- is in the worker's hand, and requests may arrive.
pub mod Accounts
pub mod Bound
pub mod Answers
use phala_inference_guard.Base.{
  ℤ, Bool, true, false, if◌then◌else◌, ◌++◌, Option, none, some, List, [], ◌∷◌, map,
}
use phala_inference_guard.Go.Time.{Time, Duration}
use phala_inference_guard.Go.Float.{Float64}
use phala_inference_guard.Admission.Types.{closed}
use phala_inference_guard.Admission.Demand.{TpsRequestDemand}
use phala_inference_guard.Server.Decision.{AdmissionDecision, AdmissionService}
use phala_inference_guard.Server.Queue.{
  PriorityAdmissionRequest, PriorityAdmissionService, new_priority_admission_service_with_config,
}
use phala_inference_guard.Server.Queue.Choice.{Turn, next_item}
use phala_inference_guard.Server.Queue.Dispatch.{
  Readings, new_request, dispatch, enter_queue, drain,
}

abbrev pub Answer : Type 0 → Type 0 → Type 0
Answer W R = PriorityAdmissionRequest × AdmissionDecision W R

-- `sent` lists what was sent on result channels, each channel named by its request; `stopped` is that
-- `run` has returned, and `delegate_closed` that `Close` has closed the wrapped service.
pub record Worker (W S R : Type 0) : Type 0 where
  pub queue_service : PriorityAdmissionService S
  pub in_hand : Option PriorityAdmissionRequest
  pub stopped : Bool
  pub delegate_closed : Bool
  pub sent : List (Answer W R)

-- `turns` is a round of `run` up to the dispatch, with the clock that a drain reads for each item.
-- `elsewhere` is whatever others do to the wrapped service meanwhile.
pub data Event (S : Type 0) : Type 0 where
  arrives : TpsRequestDemand → Readings → Event S
  turns : Time → (PriorityAdmissionRequest → Time) → Event S
  serves : Readings → Event S
  elsewhere : S → Event S
  shuts : Event S
  finishes : Event S

abbrev pub closed_queue : {S : Type 0} → PriorityAdmissionService S → PriorityAdmissionService S
closed_queue s = record s { is_closed = true }

module _ {W S R : Type 0} where
  unfoldable pub start_worker : PriorityAdmissionService S → Worker W S R
  start_worker s = record {
    queue_service = s;
    in_hand = none;
    stopped = false;
    delegate_closed = false;
    sent = [];
  }

module _ {W S R : Type 0} ⦃fl : Float64 W⦄ (service : AdmissionService W S R) where
  unfoldable pub drained :
      Worker W S R → PriorityAdmissionService S × List (Answer W R) → Worker W S R
  drained w (s, answers) = record w { queue_service = s; stopped = true; sent = w.sent ++ answers }

  -- What `run` does with what `next` returns.
  unfoldable pub take_turn :
      Worker W S R
      → (PriorityAdmissionRequest → Time)
      → Turn × PriorityAdmissionService S
      → Worker W S R
  unfolding drained
  take_turn w clock ((item, wait, true), s) = drained w (drain service s clock closed)
  take_turn w clock ((item, wait, false), s) = record w { queue_service = s; in_hand = item }

  unfoldable pub answered :
      Worker W S R
      → PriorityAdmissionRequest
      → PriorityAdmissionService S × AdmissionDecision W R
      → Worker W S R
  answered w x (s, d) = record w { queue_service = s; in_hand = none; sent = w.sent ++ (x, d) ∷ [] }

  unfoldable pub idle_turn :
      Worker W S R
      → Option PriorityAdmissionRequest
      → Time
      → (PriorityAdmissionRequest → Time)
      → Worker W S R
  unfolding take_turn
  idle_turn w (some x) now clock = w
  idle_turn w none now clock = take_turn w clock (next_item w.queue_service now)

  unfoldable pub serve_hand :
      Worker W S R → Option PriorityAdmissionRequest → Readings → Worker W S R
  unfolding answered
  serve_hand w none r = w
  serve_hand w (some x) r = answered w x (dispatch service w.queue_service x r)

  unfoldable pub close_delegate : PriorityAdmissionService S → PriorityAdmissionService S
  close_delegate s = record s { delegate = service.close_service s.delegate }

  -- One event. A worker that has stopped takes no turn, `serves` wants an item in hand, and `Close`
  -- waits for the worker before it closes the wrapped service, once.
  unfoldable pub happen : Worker W S R → Event S → Worker W S R
  unfolding idle_turn serve_hand close_delegate
  happen w (arrives demand r) = record w {
    queue_service = (enter_queue service w.queue_service demand r).0;
  }
  happen w (turns now clock) = if w.stopped then w else idle_turn w w.in_hand now clock
  happen w (serves r) = serve_hand w w.in_hand r
  happen w (elsewhere d) = record w { queue_service = record w.queue_service { delegate = d } }
  happen w shuts = record w { queue_service = closed_queue w.queue_service }
  happen w finishes =
      if w.stopped
      then if w.delegate_closed
        then w
        else record w { queue_service = close_delegate w.queue_service; delegate_closed = true }
      else w

  -- The request that an event puts in the queue, if it does: one that `Decide` does not answer.
  abbrev pub if_queued :
      PriorityAdmissionRequest → Option (AdmissionDecision W R) → List PriorityAdmissionRequest
  if_queued x none = x ∷ []
  if_queued x (some d) = []

  unfoldable pub accepts : Worker W S R → Event S → List PriorityAdmissionRequest
  accepts w (arrives demand r) =
      if_queued (new_request w.queue_service demand r.now)
        (enter_queue service w.queue_service demand r).1
  accepts w _ = []

  -- The workers that a new service can come to, with the requests that it has queued, in order.
  pub data Reached : List PriorityAdmissionRequest → Worker W S R → Type 0 where
    starts :
        (delegate : S) (max_entries : ℤ) (coalesce max_wait : Duration)
        → Reached [] (
            start_worker
              (new_priority_admission_service_with_config delegate max_entries coalesce max_wait))
    goes :
        (xs : List PriorityAdmissionRequest) (w : Worker W S R) (k : Event S)
        → Reached xs w
        → Reached (xs ++ accepts w k) (happen w k)
