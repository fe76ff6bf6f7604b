-- ===== src/Admission/Policy/Laws.antt =====
-- When the policy admits, and what its decisions record.
use phala_inference_guard.Base.{
  ℕ, ◌+◌, ◌≤◌, ◌<◌, ◌≡◌, ◌⊎◌, ◌↔◌, true, false, none, some, arith, pos,
}
use phala_inference_guard.Go.Words.{max_int64}
use phala_inference_guard.Go.Float.{Float64}
use phala_inference_guard.Admission.Types.{
  admit, protect, open_intake, result_disabled, result_admit, result_protect, tps_reference,
  running_limit_reached, window_concurrency_reached, resource_exhausted, protection_none,
  protection_load, protection_availability,
}
use phala_inference_guard.Admission.Numeric.{add_fits, add_overflows}
use phala_inference_guard.Admission.Demand.{TpsRequestDemand, sheddable, valid_demand}
use phala_inference_guard.Admission.Projection.{ProjectedState}
use phala_inference_guard.Admission.Gate.{evaluate_demand}
use phala_inference_guard.Admission.Bounds.{
  AdmissionBounds, AdmissionBoundsDecision, running_sum, window_sum, decide_bounds, evaluate_bounds,
}
use phala_inference_guard.Admission.Policy.{
  AdmissionPolicy, PolicyDecision, decide, evaluate_policy,
}

-- A state, a demand and bounds in range, by their numbers.
pub record Load {W : Type 0} (s : ProjectedState W) (d : TpsRequestDemand) : Type 0 where
  pub running : ℕ
  pub waiting : ℕ
  pub unobserved : ℕ
  pub asked : ℕ
  pub running_eq : s.raw_running ≡ pos running
  pub waiting_eq : s.raw_waiting ≡ pos waiting
  pub unobserved_eq : s.unobserved_sequences ≡ pos unobserved
  pub asked_eq : d.decode_sequences ≡ pos asked
  pub demand_ok : valid_demand d ≡ true

pub record Limits (b : AdmissionBounds) : Type 0 where
  pub window : ℕ
  pub limit : ℕ
  pub window_eq : b.window_concurrency ≡ pos window
  pub limit_eq : b.running_limit ≡ pos limit
  pub window_pos : 0 < window

abbrev BoundReason : AdmissionBoundsDecision → Type 0
BoundReason q =
    (q.fits ≡ true)
    ⊎ (q.reason ≡ resource_exhausted)
    ⊎ (q.reason ≡ running_limit_reached)
    ⊎ (q.reason ≡ window_concurrency_reached)

module _ {W : Type 0} where
  -- The projected running total that the running bound is held against.
  abbrev pub total : {s : ProjectedState W} {d : TpsRequestDemand} → Load s d → ℕ
  total k = k.running + k.waiting + k.unobserved + k.asked

  running_sum-total :
      (s : ProjectedState W) (d : TpsRequestDemand) (k : Load s d)
      → total k ≤ max_int64
      → running_sum s d.decode_sequences ≡ some (pos (total k))
  unfolding running_sum
  running_sum-total s d k h = ground (
    arith,
    add_fits k.running k.waiting,
    add_fits (k.running + k.waiting) k.unobserved,
    add_fits (k.running + k.waiting + k.unobserved) k.asked,
  )

  running_sum_overflow :
      (s : ProjectedState W) (d : TpsRequestDemand) (k : Load s d)
      → max_int64 < total k
      → running_sum s d.decode_sequences ≡ none
  unfolding running_sum
  running_sum_overflow s d k h = ground (
    arith,
    add_fits k.running k.waiting,
    add_overflows k.running k.waiting,
    add_fits (k.running + k.waiting) k.unobserved,
    add_overflows (k.running + k.waiting) k.unobserved,
    add_overflows (k.running + k.waiting + k.unobserved) k.asked,
  )

  window_sum-total :
      (s : ProjectedState W) (d : TpsRequestDemand) (k : Load s d)
      → k.unobserved + k.asked ≤ max_int64
      → window_sum s d.decode_sequences ≡ some (pos (k.unobserved + k.asked))
  unfolding window_sum
  window_sum-total s d k h = ground (arith, add_fits k.unobserved k.asked)

  -- Both bounds hold, and the total is an int64.
  abbrev pub WithinBounds :
      {s : ProjectedState W} {d : TpsRequestDemand} {b : AdmissionBounds}
      → Load s d
      → Limits b
      → Type 0
  WithinBounds k m =
      (total k ≤ max_int64)
      × ((m.limit ≡ 0) ⊎ (total k ≤ m.limit))
      × (k.unobserved + k.asked ≤ m.window)

  evaluate_bounds-fits :
      (s : ProjectedState W) (d : TpsRequestDemand) (b : AdmissionBounds) (k : Load s d)
      (m : Limits b)
      → ((evaluate_bounds b s d).fits ≡ true) ↔ WithinBounds k m
  unfolding evaluate_bounds decide_bounds
  evaluate_bounds-fits s d b k m = ground (
    arith,
    k.demand_ok,
    running_sum-total s d k,
    running_sum_overflow s d k,
    window_sum-total s d k,
  )

-- What a decision says of its reason.
abbrev pub Explains : PolicyDecision → Type 0
Explains q =
    ((q.action ≡ admit)
      × (q.scope ≡ protection_none)
      × (q.reason ≡ open_intake)
      × ((q.tps_decision_result ≡ result_disabled) ⊎ (q.tps_decision_result ≡ result_admit)))
    ⊎ ((q.action ≡ protect)
        × (q.scope ≡ protection_load)
        × (((q.reason ≡ tps_reference) × (q.tps_decision_result ≡ result_protect))
            ⊎ (q.reason ≡ running_limit_reached)
            ⊎ (q.reason ≡ window_concurrency_reached)))
    ⊎ ((q.action ≡ protect) × (q.scope ≡ protection_availability) × (q.reason ≡ resource_exhausted))

module _ {W : Type 0} ⦃fl : Float64 W⦄ where
  -- With loads that are not negative, a positive window bound and a running limit that is not
  -- negative, a valid sheddable request is admitted exactly when the gate lets it pass, the running
  -- total is an int64 within the limit, where one is set, and the window total is within its bound.
  pub evaluate_policy-sheddable :
      (p : AdmissionPolicy) (s : ProjectedState W) (d : TpsRequestDemand) (b : AdmissionBounds)
      (k : Load s d) (m : Limits b)
      → sheddable d.tier ≡ true
      → ((evaluate_policy p s d b).action ≡ admit)
        ↔ (((evaluate_demand p.tps_gate s b.waiting_allowance d).fits ≡ true) × WithinBounds k m)
  unfolding evaluate_policy decide
  evaluate_policy-sheddable p s d b k m t = ground (arith, evaluate_bounds-fits s d b k m)

  -- With loads that are not negative, a valid request of a tier that is not sheddable passes the
  -- bounds: it is admitted exactly when the gate lets it pass and its two recorded projections are
  -- int64 values.
  pub evaluate_policy_priority :
      (p : AdmissionPolicy) (s : ProjectedState W) (d : TpsRequestDemand) (b : AdmissionBounds)
      (k : Load s d)
      → sheddable d.tier ≡ false
      → ((evaluate_policy p s d b).action ≡ admit) ↔ (
          ((evaluate_demand p.tps_gate s b.waiting_allowance d).fits ≡ true)
          × (k.running + k.asked ≤ max_int64)
          × (k.unobserved + k.asked ≤ max_int64))
  unfolding evaluate_policy decide
  evaluate_policy_priority p s d b k t = ground (
    arith,
    add_fits k.running k.asked,
    add_overflows k.running k.asked,
    add_fits k.unobserved k.asked,
    add_overflows k.unobserved k.asked,
  )
