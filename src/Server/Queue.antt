-- ===== src/Server/Queue.antt =====
-- internal/app/server/priority_admission.go: the bounded queue that orders requests in front of the
-- admission service. The fields behind the mutex, and the counters.
pub mod Choice
pub mod Dispatch
pub mod Turns
pub mod Worker
use phala_inference_guard.Base.{
  ℕ, Bool, true, false, List, [], ◌∷◌, ℤ, pos, leb_ℤ, ltb_ℤ, if◌then◌else◌, length,
}
use phala_inference_guard.Go.Time.{Time, Duration, millisecond}
use phala_inference_guard.Admission.Demand.{TpsRequestDemand}

abbrev pub priority_queue_maximum_entries : ℤ
priority_queue_maximum_entries = pos 64

abbrev pub priority_queue_coalesce_delay : Duration
priority_queue_coalesce_delay = pos 2_000_000

abbrev pub priority_queue_maximum_wait : Duration
priority_queue_maximum_wait = pos 50_000_000

-- The request's context and its result channel are named by the events of the worker's run.
pub record PriorityAdmissionRequest : Type 0 where
  pub demand : TpsRequestDemand
  pub id : ℕ
  pub enqueued_at : Time

-- `delegate` is the state of the wrapped service.
pub record PriorityAdmissionService (S : Type 0) : Type 0 where
  pub delegate : S
  pub max_entries : ℤ
  pub coalesce : Duration
  pub max_wait : Duration
  pub queue : List PriorityAdmissionRequest
  pub next_id : ℕ
  pub is_closed : Bool
  pub full : ℕ
  pub enqueued : ℕ
  pub timed_out : ℕ
  pub canceled : ℕ

pub record PriorityQueueSnapshot : Type 0 where
  pub depth : ℕ
  pub enqueued_total : ℕ
  pub full_total : ℕ
  pub timed_out_total : ℕ
  pub canceled_total : ℕ

abbrev pub positive_or : ℤ → ℤ → ℤ
positive_or n default_value = if leb_ℤ n (pos 0) then default_value else n

-- The wait bound after the defaults: never below the coalescing delay.
abbrev pub wait_bound : Duration → Duration → Duration
wait_bound wait coalesce =
    let chosen = positive_or wait priority_queue_maximum_wait in
    if ltb_ℤ chosen coalesce then coalesce else chosen

abbrev pub coalesce_delay : Duration → Duration
coalesce_delay coalesce = if ltb_ℤ coalesce (pos 0) then priority_queue_coalesce_delay else coalesce

module _ {S : Type 0} where
  unfoldable pub new_priority_admission_service_with_config :
      S → ℤ → Duration → Duration → PriorityAdmissionService S
  new_priority_admission_service_with_config delegate max_entries coalesce max_wait = record {
    delegate = delegate;
    max_entries = positive_or max_entries priority_queue_maximum_entries;
    coalesce = coalesce_delay coalesce;
    max_wait = wait_bound max_wait (coalesce_delay coalesce);
    queue = [];
    next_id = 0;
    is_closed = false;
    full = 0;
    enqueued = 0;
    timed_out = 0;
    canceled = 0;
  }

  abbrev pub new_priority_admission_service : S → PriorityAdmissionService S
  unfolding new_priority_admission_service_with_config
  new_priority_admission_service delegate =
      new_priority_admission_service_with_config delegate priority_queue_maximum_entries
        priority_queue_coalesce_delay priority_queue_maximum_wait

  unfoldable pub queue_snapshot : PriorityAdmissionService S → PriorityQueueSnapshot
  queue_snapshot s = record {
    depth = length s.queue;
    enqueued_total = s.enqueued;
    full_total = s.full;
    timed_out_total = s.timed_out;
    canceled_total = s.canceled;
  }
