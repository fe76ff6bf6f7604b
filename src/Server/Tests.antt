-- ===== src/Server/Tests.antt =====
-- Runs of the priority queue at concrete inputs, in front of a service that counts what it admits.
use mathlib.Core.List.{Perm}
use phala_inference_guard.Base.{
  ◌⊎◌, arith, ℕ, ◌+◌, ◌-◌, ◌≤◌, ◌≡◌, refl, true, false, some, List, [], ◌∷◌, ◌++◌, pos, pos_part,
  length, All, get_elem?,
}
use phala_inference_guard.Admission.Types.{admit, no_reason, protection_none, is_set}
use phala_inference_guard.Admission.Demand.{
  TpsRequestDemand, new_tps_request_demand, with_tier, tier_priority, tier_flex,
}
use phala_inference_guard.Admission.Runs.{whole, loaded, loaded-Reachable, loaded_address}
use phala_inference_guard.Admission.Controller.State.{AdmissionController}
use phala_inference_guard.Server.Runtime.{admission_runtime}
use phala_inference_guard.Server.Runtime.Release.{dispatch-Kept}
use phala_inference_guard.Server.Decision.{AdmissionService, AdmissionDecision, protect_record}
use phala_inference_guard.Server.Queue.{
  PriorityAdmissionService, PriorityAdmissionRequest, new_priority_admission_service_with_config,
}
use phala_inference_guard.Server.Queue.Choice.{choose_index, next_item}
use phala_inference_guard.Server.Queue.Choice.Order.{Serves, choose_index-Serves}
use phala_inference_guard.Server.Queue.Dispatch.{dispatch, Readings, enter_queue, queue_decision}
use phala_inference_guard.Server.Queue.Worker.{
  Worker, arrives, turns, serves, shuts, start_worker, happen, accepts, Reached, starts, goes,
}
use phala_inference_guard.Server.Queue.Worker.Accounts.{requests_of, hand, whereabouts-Reached}
use phala_inference_guard.Server.Queue.Worker.Bound.{queue-WithinBound, requests_of-stopped}
use phala_inference_guard.Server.Queue.Worker.Answers.{sent-Settles, Settles, round-answers}

-- The service admits everything; its state counts the reservations that are not terminated.
abbrev counting : AdmissionService ℕ ℕ ℕ
counting = record {
  decide_request = λ at canceled demand s. (
    some (record {
      verdict = record (protect_record no_reason protection_none demand) { action = admit };
      reservation = some s;
    }),
    s + 1,
  );
  terminate_reservation = λ at r cause s. s - 1;
  record_external_decision = λ at d s. s;
  close_service = λ s. s;
}

abbrev readings : ℕ → Readings
readings now = record {
  canceled_before = false;
  now = now;
  decided_at = now;
  canceled_within = false;
  canceled_after = false;
  released_at = now;
  recorded_at = now;
}

abbrev flex : TpsRequestDemand
unfolding with_tier new_tps_request_demand
flex = with_tier (new_tps_request_demand (pos 1)) tier_flex

abbrev urgent : TpsRequestDemand
unfolding with_tier new_tps_request_demand
urgent = with_tier (new_tps_request_demand (pos 2)) tier_priority

-- A queue of two entries that waits 2 to serve and holds a request for at most 50.
abbrev opened : Worker ℕ ℕ ℕ
unfolding start_worker new_priority_admission_service_with_config
opened = start_worker (new_priority_admission_service_with_config 0 (pos 2) (pos 2) (pos 50))

abbrev one_queued : Worker ℕ ℕ ℕ
unfolding happen enter_queue queue_decision
one_queued = happen counting opened (arrives flex (readings 100))

abbrev two_queued : Worker ℕ ℕ ℕ
unfolding happen enter_queue queue_decision
two_queued = happen counting one_queued (arrives urgent (readings 101))

abbrev accepted : List PriorityAdmissionRequest
unfolding accepts
accepted =
    ([] ++ accepts counting opened (arrives flex (readings 100)))
    ++ accepts counting one_queued (arrives urgent (readings 101))

two_queued-Reached : Reached counting accepted two_queued
unfolding opened one_queued two_queued accepted
two_queued-Reached =
    goes ([] ++ accepts counting opened (arrives flex (readings 100))) one_queued
      (arrives urgent (readings 101))
      (goes [] opened (arrives flex (readings 100)) (starts 0 (pos 2) (pos 2) (pos 50)))

-- The same queue after `Close`, and after the worker's last round.
abbrev shutting : Worker ℕ ℕ ℕ
unfolding happen
shutting = happen counting two_queued shuts

abbrev shut_down : Worker ℕ ℕ ℕ
unfolding happen
shut_down = happen counting shutting (turns 105 (λ x. 105))

shut_down-Reached : Reached counting ((accepted ++ []) ++ []) shut_down
unfolding shutting shut_down accepts
shut_down-Reached =
    goes (accepted ++ []) shutting (turns 105 (λ x. 105))
      (goes accepted two_queued shuts two_queued-Reached)

choose_index-Serves_example :
    (i : ℕ) × (x : PriorityAdmissionRequest) × (choose_index two_queued.queue_service 104
      ≡ some (i, x))
    × (get_elem? two_queued.queue_service.queue i ≡ some x)
    × Serves two_queued.queue_service.max_wait 104 two_queued.queue_service.queue x
unfolding two_queued opened
choose_index-Serves_example = choose_index-Serves two_queued.queue_service 104 _ _ refl

whereabouts-Reached_example :
    Perm accepted
      (requests_of two_queued.sent ++ (hand two_queued.in_hand ++ two_queued.queue_service.queue))
whereabouts-Reached_example = whereabouts-Reached counting accepted two_queued two_queued-Reached

queue-WithinBound_example :
    length two_queued.queue_service.queue ≤ pos_part two_queued.queue_service.max_entries
queue-WithinBound_example = queue-WithinBound counting accepted two_queued two_queued-Reached

requests_of-stopped_example : Perm ((accepted ++ []) ++ []) (requests_of shut_down.sent)
unfolding shut_down two_queued opened next_item
requests_of-stopped_example =
    requests_of-stopped counting ((accepted ++ []) ++ []) shut_down shut_down-Reached refl

sent-Settles_example : All (λ a. Settles a.1) shut_down.sent
sent-Settles_example = sent-Settles counting ((accepted ++ []) ++ []) shut_down shut_down-Reached

round-answers_example :
    (x : PriorityAdmissionRequest) × (d : AdmissionDecision ℕ ℕ) × ((happen counting
        (happen counting two_queued (turns 104 (λ x. 104)))
        (serves (readings 104))).sent
      ≡ two_queued.sent ++ (x, d) ∷ [])
    × Perm
        (x
          ∷ (happen counting
              (happen counting two_queued (turns 104 (λ x. 104)))
              (serves (readings 104))).queue_service.queue)
        two_queued.queue_service.queue
    × Serves two_queued.queue_service.max_wait 104 two_queued.queue_service.queue x
unfolding two_queued opened
round-answers_example =
    round-answers counting two_queued 104 (λ x. 104) (readings 104) _ _ refl refl refl refl
      (refl, (refl, tt))

-- The queue before a controller that has a reservation, and a request that is canceled while it is
-- decided.
abbrev guarded : PriorityAdmissionService (AdmissionController ℕ)
unfolding new_priority_admission_service_with_config
guarded = new_priority_admission_service_with_config loaded (pos 2) (pos 2) (pos 50)

abbrev canceled_late : Readings
canceled_late = record (readings 130) { canceled_after = true }

abbrev late_request : PriorityAdmissionRequest
late_request = record { demand = urgent; id = 1; enqueued_at = 128 }

dispatch-Kept_example :
    ((dispatch admission_runtime guarded late_request canceled_late).0.delegate.reservations
      ≡ guarded.delegate.reservations)
    ⊎ ((is_set
            (dispatch admission_runtime guarded late_request canceled_late).0.delegate.closed_reason
          ≡ true)
        × ((dispatch admission_runtime guarded late_request canceled_late).0.delegate.reservations
            ≡ []))
unfolding guarded
dispatch-Kept_example =
    dispatch-Kept guarded late_request canceled_late loaded-Reachable
      (omega (arith, loaded_address)) refl
