-- ===== src/Admission/Tests.antt =====
-- Runs of the model at concrete inputs. A float64 is a whole number here.
use phala_inference_guard.Base.{
  ℕ, ◌+◌, ◌≡◌, refl, Bool, true, false, none, some, [], leb, pos, ◌≢◌, ◌≤◌, ◌⊎◌, ◌↔◌, arith, insert,
  ltb_ℤ, sum_by, lookup, ◌∷◌, negsuc, ◌<◌,
}
use phala_inference_guard.Go.Words.{max_int64}
use phala_inference_guard.Admission.Exposure.{advance}
use phala_inference_guard.Admission.Policy.{evaluate_policy}
use phala_inference_guard.Admission.Controller.Decide.{admit_request}
use phala_inference_guard.Admission.Controller.Reconcile.{
  reconciled_overlay, apply_reconciliation, slow_overlay,
}
use phala_inference_guard.Admission.Controller.Publish.{publish_observation}
use phala_inference_guard.Admission.Controller.Cached.{
  slow_overlay-Reachable, exposure-Reachable, reconciled_overlay-Reachable,
}
use phala_inference_guard.Admission.Controller.Monotone.Calls.{perform-Follows}
use phala_inference_guard.Admission.Controller.Closed.{perform-shut, Reachable-shut}
use phala_inference_guard.Admission.Controller.Handles.{
  terminate-once, terminate-true, mark_forwarded-true, mark_first_byte-true, settled,
}
use phala_inference_guard.Admission.Controller.Admissions.{
  admit_request-cases, ClosesIntake, Reserves,
}
use phala_inference_guard.Admission.Controller.Publications.{publish_observation-once}
use phala_inference_guard.Admission.Controller.Revisions.{
  update_policy-atomic, update_policy-race, Accepted,
}
use phala_inference_guard.Admission.Policy.Laws.{
  evaluate_policy-sheddable, evaluate_policy_priority, Load, Limits, WithinBounds,
}
use phala_inference_guard.Admission.Gate.Laws.{
  evaluate_demand-sheddable, evaluate_demand_prompt, evaluate_demand_allowance,
}
use phala_inference_guard.Admission.Window.Fuel.{spread-enough}
use phala_inference_guard.Admission.Exposure.Invariant.{advance-Advances, Advances}
use phala_inference_guard.Admission.Overlay.Laws.{replace_overlay-Fits, Tally, overlay_of, ◌⊞◌}
use phala_inference_guard.Admission.Controller.Outcomes.{Acts}
use phala_inference_guard.Admission.Controller.Monotone.{Follows}
use phala_inference_guard.Admission.Controller.Monotone.Retired.{retired_handle, performs}
use phala_inference_guard.Admission.Controller.Sums.{total_forwarded, total_responding}
use phala_inference_guard.Admission.Controller.Invariant.Reconciliation.{liable}
use phala_inference_guard.Admission.Types.{success, error, is_set, admit}
use phala_inference_guard.Admission.Demand.{TpsRequestDemand, valid_demand, tier_priority}
use phala_inference_guard.Admission.Reservation.{
  Reservation, is_reserved, is_forwarded, is_residual_debt, forwarded, active_decode,
}
use phala_inference_guard.Admission.Overlay.{replace_overlay, empty_overlay, ReservationOverlay}
use phala_inference_guard.Admission.Projection.{ProjectedState, no_state}
use phala_inference_guard.Admission.Tps.{
  finite_nonnegative, valid_tps_interval_snapshot, valid_tps_snapshot, TpsSnapshot, no_snapshot,
}
use phala_inference_guard.Admission.Gate.{
  prompt_aware, warm, cold_sheddable, evaluate_health, evaluate_demand, TpsGate,
}
use phala_inference_guard.Admission.Bounds.{AdmissionBounds}
use phala_inference_guard.Admission.Window.Observe.{spread, Spread, spread_fuel}
use phala_inference_guard.Admission.Window.Buckets.{
  bucket_index, new_tps_window, TpsWindow, tps_window_bucket_count,
}
use phala_inference_guard.Admission.Controller.Update.{no_error, update_policy}
use phala_inference_guard.Admission.Controller.Steps.{
  starts_window, admits, forwards, terminates, perform, called, closes_intake, Reachable-Inv,
}
use phala_inference_guard.Admission.Controller.Lifecycle.{
  mark_forwarded, mark_first_byte, terminate,
}
use phala_inference_guard.Admission.Controller.Debts.{publish_observation-IsPaid, IsPaid}
use phala_inference_guard.Admission.Window.Index.{bucket_index-separates}
use phala_inference_guard.Admission.Runs.{
  whole, window, observation, two, sampled, observed, loaded, handle, in_flight, answering, shut,
  loaded-Reachable, in_flight-Reachable, answering-Reachable, wider, old_debt, indebted,
  second_window, later, resampled, finished, lives,
}

-- A quiet backend with two sequences running, and the same with TPS evidence at the reference.
abbrev quiet : ProjectedState ℕ
quiet = record no_state { raw_running = pos 2; unobserved_sequences = pos 1 }

abbrev measured : TpsSnapshot ℕ
measured = record no_snapshot {
  enabled = true;
  ready = true;
  reference = 5;
  mean_active_tps = 7;
  latest = record {
    qualified = true;
    tokens = 6;
    duration_seconds = 1;
    sequence_seconds = 1;
    aggregate_tps = 6;
    mean_active_tps = 6;
  };
}

abbrev busy : ProjectedState ℕ
busy = record quiet { tps = measured; raw_waiting = pos 1 }

abbrev gate : TpsGate
gate = record { backend_tier_scheduling = true; warm_prompt_tokens = pos 100 }

abbrev limits : AdmissionBounds
limits = record { window_concurrency = pos 4; running_limit = pos 8; waiting_allowance = pos 3 }

two_valid : valid_demand two ≡ true
unfolding valid_demand
two_valid = refl

abbrev quiet_load : Load quiet two
quiet_load = record {
  running = 2;
  waiting = 0;
  unobserved = 1;
  asked = 2;
  running_eq = refl;
  waiting_eq = refl;
  unobserved_eq = refl;
  asked_eq = refl;
  demand_ok = two_valid;
}

abbrev limits_ok : Limits limits
limits_ok = record {
  window = 4;
  limit = 8;
  window_eq = refl;
  limit_eq = refl;
  window_pos = omega arith;
}

abbrev urgent : TpsRequestDemand
urgent = record two { tier = tier_priority }

urgent_valid : valid_demand urgent ≡ true
unfolding valid_demand
urgent_valid = refl

abbrev urgent_load : Load quiet urgent
urgent_load = record {
  running = 2;
  waiting = 0;
  unobserved = 1;
  asked = 2;
  running_eq = refl;
  waiting_eq = refl;
  unobserved_eq = refl;
  asked_eq = refl;
  demand_ok = urgent_valid;
}

abbrev long_prompt : TpsRequestDemand
long_prompt = record two { prefill_tokens = pos 500; prefill_known = true }

abbrev short_prompt : TpsRequestDemand
short_prompt = record two { prefill_tokens = pos 50; prefill_known = true }

measured_facts :
    (valid_tps_snapshot measured ≡ true)
    × (leb measured.reference 0 ≡ false)
    × ((evaluate_demand gate busy (pos 3) long_prompt).fits ≡ true)
    × ((evaluate_demand gate busy (pos 1) two).fits ≡ true)
unfolding valid_tps_snapshot valid_tps_interval_snapshot finite_nonnegative evaluate_demand
    evaluate_health cold_sheddable warm prompt_aware
measured_facts = (refl, refl, refl, refl)

abbrev minute : Spread ℕ
minute = record {
  until = 120_500_000_000;
  interval_seconds = 59;
  tokens_total = 600;
  sequence_total = 60;
  reliable = true;
}

abbrev one_live : Tally
one_live = record { unobserved = 2; liabilities = 2; live = 1; debts = 0; cold = 1 }

abbrev one_decoding : Tally
one_decoding = record { unobserved = 0; liabilities = 2; live = 1; debts = 0; cold = 0 }

slow_overlay-Reachable_example : slow_overlay loaded.reservations ≡ some loaded.overlay
slow_overlay-Reachable_example = slow_overlay-Reachable loaded loaded-Reachable

exposure-Reachable_example :
    (answering.exposure.active_forwarded_sequences ≡ pos (total_forwarded answering.reservations))
    × (answering.exposure.active_response_sequences ≡ pos (total_responding answering.reservations))
exposure-Reachable_example = exposure-Reachable answering answering-Reachable

reconciled_overlay-Reachable_example :
    (overlay : ReservationOverlay) × (reconciled_overlay 0 observation 200
        loaded.pending_first_byte_lease_duration loaded.reservations loaded.overlay
        (pos 0)
      ≡ some (overlay, pos (sum_by (liable 0) loaded.reservations)))
    × (is_set loaded.closed_reason ≡ false
        → slow_overlay (
            apply_reconciliation 0 observation 200 loaded.pending_first_byte_lease_duration
              loaded.reservations)
          ≡ some overlay)
reconciled_overlay-Reachable_example =
    reconciled_overlay-Reachable loaded window observation 200 loaded-Reachable

perform-Follows_example : Follows loaded (perform loaded (forwards handle 140))
perform-Follows_example = perform-Follows loaded (forwards handle 140)

perform-shut_example : perform shut (admits 300 two) ≡ shut
perform-shut_example = perform-shut shut (admits 300 two) lives.4

Reachable-shut_example : (shut.reservations ≡ []) × (shut.overlay ≡ empty_overlay)
Reachable-shut_example = Reachable-shut shut (called loaded closes_intake loaded-Reachable) lives.4

terminate-once_example :
    terminate (terminate answering 1 1 error 160).0 1 1 success 170
    ≡ ((terminate answering 1 1 error 160).0, false)
terminate-once_example =
    terminate-once answering 1 1 error success 160 170 answering-Reachable lives.3

terminate-true_example :
    (item : Reservation) × Acts answering 1 1 item
    × (is_residual_debt item.phase ≡ false)
    × ((terminate answering 1 1 error 160).0.reservations ≡ settled answering item 1 error)
terminate-true_example = terminate-true answering 1 1 error 160 lives.3

mark_forwarded-true_example :
    (item : Reservation) × Acts loaded 1 1 item
    × (is_reserved item.phase ≡ true)
    × ((mark_forwarded loaded 1 1 140).0.reservations
        ≡ insert 1
            (record item {
              phase = forwarded;
              forwarded_at = 140;
              forwarded_sequence = loaded.event_sequence + 1;
            })
            loaded.reservations)
mark_forwarded-true_example = mark_forwarded-true loaded 1 1 140 lives.1

mark_first_byte-true_example :
    (item : Reservation) × Acts in_flight 1 1 item
    × (is_forwarded item.phase ≡ true)
    × ((mark_first_byte in_flight 1 1 150).0.reservations
        ≡ insert 1
            (record item { phase = active_decode; pending_first_byte_released = true })
            in_flight.reservations)
mark_first_byte-true_example = mark_first_byte-true in_flight 1 1 150 lives.2

retired_handle_example :
    let c = performs finished (admits 300 two ∷ forwards handle 310 ∷ []) in
    (mark_forwarded c 1 1 320 ≡ (c, false))
    × (mark_first_byte c 1 1 320 ≡ (c, false))
    × (terminate c 1 1 error 320 ≡ (c, false))
retired_handle_example =
    retired_handle finished (admits 300 two ∷ forwards handle 310 ∷ []) 1 1 error 320
      (called answering (terminates handle success 160) answering-Reachable)
      (omega (arith, lives.11)) (omega (arith, lives.12)) lives.13

admit_request-cases_example :
    ((admit_request observed 130 two).0 ≡ observed)
      × ((admit_request observed 130 two).1.handle ≡ none)
    ⊎ ((is_set observed.closed_reason ≡ false)
        × (valid_demand two ≡ true)
        × (ClosesIntake observed (admit_request observed 130 two)
            ⊎ Reserves observed two (admit_request observed 130 two)))
admit_request-cases_example = admit_request-cases observed 130 two

publish_observation-once_example :
    ((publish_observation
        (publish_observation sampled window observation 120).0
        window
        observation
        130).0
      ≡ (publish_observation sampled window observation 120).0)
    × ((publish_observation
          (publish_observation sampled window observation 120).0
          window
          observation
          130).1.accepted
        ≡ false)
publish_observation-once_example =
    publish_observation-once sampled window observation observation 120 130 lives.0

update_policy-atomic_example :
    (((update_policy loaded wider).0 ≡ loaded) × ((update_policy loaded wider).2 ≢ no_error))
    ⊎ (Accepted loaded wider (update_policy loaded wider).0
        × ((update_policy loaded wider).2 ≡ no_error))
update_policy-atomic_example = update_policy-atomic loaded wider

update_policy-race_example :
    ((update_policy (update_policy loaded wider).0 wider).0 ≡ (update_policy loaded wider).0)
    × ((update_policy (update_policy loaded wider).0 wider).2 ≢ no_error)
update_policy-race_example = update_policy-race loaded wider wider lives.6 refl

evaluate_policy-sheddable_example :
    ((evaluate_policy (record { tps_gate = gate }) quiet two limits).action ≡ admit)
    ↔ (((evaluate_demand gate quiet (pos 3) two).fits ≡ true) × WithinBounds quiet_load limits_ok)
evaluate_policy-sheddable_example =
    evaluate_policy-sheddable (record { tps_gate = gate }) quiet two limits quiet_load limits_ok
      refl

evaluate_policy_priority_example :
    ((evaluate_policy (record { tps_gate = gate }) quiet urgent limits).action ≡ admit) ↔ (
      ((evaluate_demand gate quiet (pos 3) urgent).fits ≡ true) × (4 ≤ max_int64) × (3 ≤ max_int64))
evaluate_policy_priority_example =
    evaluate_policy_priority (record { tps_gate = gate }) quiet urgent limits urgent_load refl

evaluate_demand-sheddable_example :
    ((evaluate_demand gate busy (pos 3) long_prompt).fits ≡ true) ↔ (
      (ltb_ℤ (pos 3) (pos 1) ≡ false)
      × (busy.preemption_delta ≡ 0)
      × ((cold_sheddable gate long_prompt ≡ false) ⊎ (ltb_ℤ (pos 0) (pos 0) ≡ false))
      × ((leb 5 7 ≡ true) ⊎ ((leb 5 6 ≡ true) × (cold_sheddable gate long_prompt ≡ false))))
evaluate_demand-sheddable_example =
    evaluate_demand-sheddable gate busy (pos 3) long_prompt refl refl measured_facts.0
      measured_facts.1 refl refl

evaluate_demand_prompt_example : (evaluate_demand gate busy (pos 3) short_prompt).fits ≡ true
evaluate_demand_prompt_example =
    evaluate_demand_prompt gate busy (pos 3) long_prompt short_prompt refl refl (λ k. omega arith)
      measured_facts.2

evaluate_demand_allowance_example : (evaluate_demand gate busy (pos 5) two).fits ≡ true
evaluate_demand_allowance_example =
    evaluate_demand_allowance gate busy (pos 1) (pos 5) two (omega arith) measured_facts.3

spread-enough_example :
    (q : TpsWindow ℕ × Bool) × (spread spread_fuel minute 61_000_000_000 (new_tps_window 5)
      ≡ some q)
spread-enough_example = spread-enough minute 61_000_000_000 (new_tps_window 5) (omega arith)

advance-Advances_example :
    Advances
      (total_forwarded in_flight.reservations)
      (total_responding in_flight.reservations)
      170
      in_flight.exposure
      (advance in_flight.exposure 170)
advance-Advances_example =
    advance-Advances (total_forwarded in_flight.reservations)
      (total_responding in_flight.reservations) 170 in_flight.exposure
      (Reachable-Inv in_flight in_flight-Reachable).ledger

replace_overlay-Fits_example :
    replace_overlay
      (overlay_of (one_live ⊞ one_live))
      (overlay_of one_live)
      (overlay_of one_decoding)
    ≡ some (overlay_of (one_live ⊞ one_decoding))
replace_overlay-Fits_example =
    replace_overlay-Fits one_live one_live one_decoding (omega arith) (omega arith) (omega arith)
      (omega arith)

publish_observation-IsPaid_example :
    (lookup 1 (publish_observation resampled second_window later 190).0.reservations ≡ none)
    ↔ IsPaid 4 old_debt
publish_observation-IsPaid_example =
    publish_observation-IsPaid resampled second_window later 190 1 old_debt
      (called indebted (starts_window 170)
        (called answering (terminates handle error 160) answering-Reachable))
      lives.8 lives.9 lives.10

abbrev minute_gap : ℕ
minute_gap = 60

bucket_index-separates_example :
    (bucket_index (negsuc 4) < tps_window_bucket_count)
    × (bucket_index (pos 100) ≡ bucket_index (pos (100 + minute_gap)) → minute_gap ≡ 0)
bucket_index-separates_example = bucket_index-separates (negsuc 4) 100 minute_gap (omega arith)
