-- ===== src/Admission/Gate/Laws.antt =====
-- What the TPS gate decides: whom it protects, on what evidence, and how it treats prompt sizes.
use phala_inference_guard.Base.{◌≡◌, refl, ◌⊎◌, ◌↔◌, true, false, arith, ℤ, pos, ltb_ℤ, leb_ℤ, ◌≤ℤ◌}
use phala_inference_guard.Go.Float.{Float64}
use phala_inference_guard.Admission.Types.{
  open_intake, tps_reference, resource_exhausted, result_disabled, result_admit, result_protect,
  result_invalid,
}
use phala_inference_guard.Admission.Demand.{
  tier_default, tier_flex, tier_priority, TpsRequestDemand, sheddable,
}
use phala_inference_guard.Admission.Tps.{zero_float, valid_tps_snapshot}
use phala_inference_guard.Admission.Projection.{ProjectedState}
use phala_inference_guard.Admission.Gate.{
  TpsGate, TpsGateDecision, warm, cold_sheddable, evaluate_health, evaluate_demand,
}

ltb_ℤ-le : (a b w : ℤ) → a ≤ℤ b → ltb_ℤ b w ≡ true → ltb_ℤ a w ≡ true
ltb_ℤ-le (pos a) (pos b) (pos w) h k = ground arith
ltb_ℤ-le a b w h k = ground arith

leb_ℤ-le : (a b w : ℤ) → a ≤ℤ b → leb_ℤ b w ≡ true → leb_ℤ a w ≡ true
leb_ℤ-le (pos a) (pos b) (pos w) h k = ground arith
leb_ℤ-le a b w h k = ground arith

cold_sheddable-le :
    (g : TpsGate) (d d' : TpsRequestDemand)
    → d'.tier ≡ d.tier
    → d'.prefill_known ≡ true
    → (d.prefill_known ≡ true → d'.prefill_tokens ≤ℤ d.prefill_tokens)
    → cold_sheddable g d' ≡ true
    → cold_sheddable g d ≡ true
unfolding cold_sheddable
cold_sheddable-le g d d' t k h c =
    ground (arith, t, leb_ℤ-le d'.prefill_tokens d.prefill_tokens g.warm_prompt_tokens)

-- The fields of a decision agree.
abbrev pub Coherent : TpsGateDecision → Type 0
Coherent q =
    ((q.fits ≡ true)
      × (q.reason ≡ open_intake)
      × ((q.result ≡ result_disabled) ⊎ (q.result ≡ result_admit)))
    ⊎ ((q.fits ≡ false) × (q.reason ≡ tps_reference) × (q.result ≡ result_protect))
    ⊎ ((q.fits ≡ false) × (q.reason ≡ resource_exhausted) × (q.result ≡ result_invalid))

module _ {W : Type 0} ⦃fl : Float64 W⦄ where
  pub evaluate_demand-Coherent :
      (g : TpsGate) (s : ProjectedState W) (a : ℤ) (d : TpsRequestDemand)
      → Coherent (evaluate_demand g s a d)
  unfolding evaluate_demand evaluate_health
  evaluate_demand-Coherent g s a d = ground arith

  -- With the reference off only the waiting allowance protects, and only the sheddable tiers.
  pub evaluate_demand_disabled :
      (g : TpsGate) (s : ProjectedState W) (a : ℤ) (d : TpsRequestDemand)
      → s.tps.enabled ≡ false
      → ((evaluate_demand g s a d).fits ≡ false)
        ↔ ((sheddable d.tier ≡ true) × (ltb_ℤ a s.raw_waiting ≡ true))
  unfolding evaluate_demand
  evaluate_demand_disabled g s a d h = ground arith

  -- A backend that schedules by tier leaves priority requests to it: only evidence that is out of
  -- order protects one.
  pub evaluate_demand_priority :
      (g : TpsGate) (s : ProjectedState W) (a : ℤ) (d : TpsRequestDemand)
      → d.tier ≡ tier_priority
      → g.backend_tier_scheduling ≡ true
      → valid_tps_snapshot s.tps ≡ true
      → fl.le s.tps.reference zero_float ≡ false
      → (evaluate_demand g s a d).fits ≡ true
  unfolding evaluate_demand evaluate_health cold_sheddable
  evaluate_demand_priority g s a d t b v r = ground arith

  -- The gate does not tell default from flex.
  pub evaluate_demand_default_flex :
      (g : TpsGate) (s : ProjectedState W) (a : ℤ) (d : TpsRequestDemand)
      → evaluate_demand g s a (record d { tier = tier_default })
        ≡ evaluate_demand g s a (record d { tier = tier_flex })
  unfolding evaluate_demand evaluate_health cold_sheddable warm
  evaluate_demand_default_flex g s a d = refl

  -- A request that the gate lets pass under a waiting allowance passes under any larger one.
  pub evaluate_demand_allowance :
      (g : TpsGate) (s : ProjectedState W) (a b : ℤ) (d : TpsRequestDemand)
      → a ≤ℤ b
      → (evaluate_demand g s a d).fits ≡ true
      → (evaluate_demand g s b d).fits ≡ true
  unfolding evaluate_demand
  evaluate_demand_allowance g s a b d h f = ground (arith, ltb_ℤ-le a b s.raw_waiting h)

  -- A request with a known prompt passes the gate wherever a request of the same tier passes whose
  -- prompt is unknown, or known and not smaller.
  pub evaluate_demand_prompt :
      (g : TpsGate) (s : ProjectedState W) (a : ℤ) (d d' : TpsRequestDemand)
      → d'.tier ≡ d.tier
      → d'.prefill_known ≡ true
      → (d.prefill_known ≡ true → d'.prefill_tokens ≤ℤ d.prefill_tokens)
      → (evaluate_demand g s a d).fits ≡ true
      → (evaluate_demand g s a d').fits ≡ true
  unfolding evaluate_demand evaluate_health
  evaluate_demand_prompt g s a d d' t k h f = ground (arith, t, cold_sheddable-le g d d' t k h)

  -- With valid evidence of a positive reference from a ready window and a qualified latest interval, a sheddable request
  -- passes exactly when the backend is not waiting beyond the allowance and not preempting, no other
  -- cold prompt is pending if this one is cold, and the rolling mean is at the reference, or the
  -- latest mean is and the request is not cold.
  pub evaluate_demand-sheddable :
      (g : TpsGate) (s : ProjectedState W) (a : ℤ) (d : TpsRequestDemand)
      → sheddable d.tier ≡ true
      → s.tps.enabled ≡ true
      → valid_tps_snapshot s.tps ≡ true
      → fl.le s.tps.reference zero_float ≡ false
      → s.tps.ready ≡ true
      → s.tps.latest.qualified ≡ true
      → ((evaluate_demand g s a d).fits ≡ true) ↔ (
          (ltb_ℤ a s.raw_waiting ≡ false)
          × (s.preemption_delta ≡ 0)
          × ((cold_sheddable g d ≡ false) ⊎ (ltb_ℤ (pos 0) s.cold_sheddable_pending ≡ false))
          × ((fl.le s.tps.reference s.tps.mean_active_tps ≡ true)
              ⊎ ((fl.le s.tps.reference s.tps.latest.mean_active_tps ≡ true)
                  × (cold_sheddable g d ≡ false))))
  unfolding evaluate_demand evaluate_health
  evaluate_demand-sheddable g s a d t e v r rd q = ground arith
