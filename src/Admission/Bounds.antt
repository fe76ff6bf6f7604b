-- ===== src/Admission/Bounds.antt =====
-- internal/admission/admission_bounds.go: the running and window bounds.
use phala_inference_guard.Base.{
  Bool, true, false, not, ◌&&◌, ◌||◌, Option, none, some, ℤ, pos, ltb_ℤ, leb_ℤ, if◌then◌else◌,
}
use phala_inference_guard.Admission.Types.{
  Reason, open_intake, resource_exhausted, running_limit_reached, window_concurrency_reached,
}
use phala_inference_guard.Admission.Numeric.{add_nonnegative_int64}
use phala_inference_guard.Admission.Demand.{TpsRequestDemand, valid_demand}
use phala_inference_guard.Admission.Overlay.{◌>>=◌}
use phala_inference_guard.Admission.Projection.{ProjectedState}

pub record AdmissionBoundsDecision : Type 0 where
  pub fits : Bool
  pub reason : Reason
  pub projected_running : ℤ
  pub projected_window_sequences : ℤ

pub record AdmissionBounds : Type 0 where
  pub window_concurrency : ℤ
  pub running_limit : ℤ
  pub waiting_allowance : ℤ

-- A failed addition leaves 0 in the field that it was to fill.
abbrev pub or_zero : Option ℤ → ℤ
or_zero none = pos 0
or_zero (some n) = n

abbrev pub exhausted : ℤ → AdmissionBoundsDecision
exhausted running = record {
  fits = false;
  reason = resource_exhausted;
  projected_running = running;
  projected_window_sequences = pos 0;
}

-- The tests, once both sums are there.
unfoldable pub decide_bounds : AdmissionBounds → ℤ → ℤ → AdmissionBoundsDecision
decide_bounds b running window =
    if ltb_ℤ (pos 0) b.running_limit && ltb_ℤ b.running_limit running
    then record {
      fits = false;
      reason = running_limit_reached;
      projected_running = running;
      projected_window_sequences = window;
    }
    else if ltb_ℤ b.window_concurrency window
    then record {
      fits = false;
      reason = window_concurrency_reached;
      projected_running = running;
      projected_window_sequences = window;
    }
    else record {
      fits = true;
      reason = open_intake;
      projected_running = running;
      projected_window_sequences = window;
    }

module _ {W : Type 0} where
  -- The three additions behind `decision.projectedRunning`.
  unfoldable pub running_sum : ProjectedState W → ℤ → Option ℤ
  running_sum state n = do
    raw ← add_nonnegative_int64 state.raw_running state.raw_waiting
    raw' ← add_nonnegative_int64 raw state.unobserved_sequences
    add_nonnegative_int64 raw' n

  unfoldable pub window_sum : ProjectedState W → ℤ → Option ℤ
  window_sum state n = add_nonnegative_int64 state.unobserved_sequences n

  unfoldable pub evaluate_bounds :
      AdmissionBounds → ProjectedState W → TpsRequestDemand → AdmissionBoundsDecision
  evaluate_bounds b state d =
      if not (valid_demand d)
        || (leb_ℤ b.window_concurrency (pos 0) || ltb_ℤ b.running_limit (pos 0))
      then exhausted (pos 0)
      else elim (running_sum state d.decode_sequences) [
        | none ↦ exhausted (pos 0)
        | some running ↦ elim (window_sum state d.decode_sequences) [
          | none ↦ exhausted running
          | some window ↦ decide_bounds b running window
        ]
      ]
