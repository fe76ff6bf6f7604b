-- ===== src/Admission/Tps.antt =====
-- The TPS evidence types of internal/admission/types.go, and the validity tests of tps_window.go.
use phala_inference_guard.Base.{ℕ, Bool, false, not, ◌&&◌, ◌==◌, if◌then◌else◌}
use phala_inference_guard.Go.Float.{Float64}

pub record TpsIntervalSnapshot (W : Type 0) : Type 0 where
  pub qualified : Bool
  pub tokens : ℕ
  pub duration_seconds : W
  pub sequence_seconds : W
  pub aggregate_tps : W
  pub mean_active_tps : W

pub record TpsDenominatorEvidence (W : Type 0) : Type 0 where
  pub endpoint_selections : ℕ
  pub local_forwarded_selections : ℕ
  pub local_response_selections : ℕ
  pub fallback_liability_selections : ℕ
  pub tie_selections : ℕ
  pub none_selections : ℕ
  pub endpoint_sequence_seconds : W
  pub local_forwarded_seconds : W
  pub local_response_seconds : W
  pub fallback_liability_seconds : W
  pub selected_sequence_seconds : W

pub record TpsSnapshot (W : Type 0) : Type 0 where
  pub enabled : Bool
  pub ready : Bool
  pub reference : W
  pub qualified_samples : ℕ
  pub qualified_tokens : W
  pub qualified_active_seconds : W
  pub qualified_sequence_samples : ℕ
  pub qualified_sequence_tokens : W
  pub qualified_sequence_seconds : W
  pub aggregate_tps : W
  pub mean_active_tps : W
  pub latest : TpsIntervalSnapshot W
  pub denominator : TpsDenominatorEvidence W

module _ {W : Type 0} ⦃fl : Float64 W⦄ where
  abbrev pub zero_float : W
  zero_float = fl.of_uint64 0

  unfoldable pub finite_nonnegative : W → Bool
  finite_nonnegative v = fl.le zero_float v && (not (fl.is_nan v) && not (fl.is_inf v))

  abbrev pub no_interval : TpsIntervalSnapshot W
  no_interval = record {
    qualified = false;
    tokens = 0;
    duration_seconds = zero_float;
    sequence_seconds = zero_float;
    aggregate_tps = zero_float;
    mean_active_tps = zero_float;
  }

  abbrev pub no_evidence : TpsDenominatorEvidence W
  no_evidence = record {
    endpoint_selections = 0;
    local_forwarded_selections = 0;
    local_response_selections = 0;
    fallback_liability_selections = 0;
    tie_selections = 0;
    none_selections = 0;
    endpoint_sequence_seconds = zero_float;
    local_forwarded_seconds = zero_float;
    local_response_seconds = zero_float;
    fallback_liability_seconds = zero_float;
    selected_sequence_seconds = zero_float;
  }

  -- `TPSSnapshot{}`.
  abbrev pub no_snapshot : TpsSnapshot W
  no_snapshot = record {
    enabled = false;
    ready = false;
    reference = zero_float;
    qualified_samples = 0;
    qualified_tokens = zero_float;
    qualified_active_seconds = zero_float;
    qualified_sequence_samples = 0;
    qualified_sequence_tokens = zero_float;
    qualified_sequence_seconds = zero_float;
    aggregate_tps = zero_float;
    mean_active_tps = zero_float;
    latest = no_interval;
    denominator = no_evidence;
  }

  unfoldable pub valid_tps_interval_snapshot : TpsIntervalSnapshot W → Bool
  valid_tps_interval_snapshot s =
      if not s.qualified
      then s.tokens == 0
        && (fl.eq s.duration_seconds zero_float
            && (fl.eq s.sequence_seconds zero_float
                && (fl.eq s.aggregate_tps zero_float && fl.eq s.mean_active_tps zero_float)))
      else fl.lt zero_float s.duration_seconds
        && (fl.lt zero_float s.sequence_seconds
            && (finite_nonnegative s.duration_seconds
                && (finite_nonnegative s.sequence_seconds
                    && (finite_nonnegative s.aggregate_tps
                        && finite_nonnegative s.mean_active_tps))))

  unfoldable pub valid_tps_snapshot : TpsSnapshot W → Bool
  valid_tps_snapshot s =
      finite_nonnegative s.reference
      && (finite_nonnegative s.qualified_tokens
          && (finite_nonnegative s.qualified_active_seconds
              && (finite_nonnegative s.qualified_sequence_tokens
                  && (finite_nonnegative s.qualified_sequence_seconds
                      && (finite_nonnegative s.aggregate_tps
                          && (finite_nonnegative s.mean_active_tps
                              && valid_tps_interval_snapshot s.latest))))))
