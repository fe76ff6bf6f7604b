-- ===== src/Admission/Window/Snapshot.antt =====
-- tps_window.go: `snapshot`, the aggregate over the buckets of the last minute.
use phala_inference_guard.Base.{
  ◌+◌, ◌-◌, Bool, true, false, not, ◌&&◌, ◌||◌, ltb, leb, if◌then◌else◌, List, [], ◌∷◌, Option,
  none, some,
}
use phala_inference_guard.Go.Words.{max_uint64}
use phala_inference_guard.Go.Time.{Time, is_zero}
use phala_inference_guard.Go.Float.{Float64}
use phala_inference_guard.Admission.Tps.{
  TpsSnapshot, zero_float, no_snapshot, finite_nonnegative, valid_tps_snapshot,
}
use phala_inference_guard.Admission.Window.Buckets.{
  TpsBucket, TpsWindow, enabled, ended_by, cutoff_at,
}

module _ {W : Type 0} ⦃fl : Float64 W⦄ where
  unfoldable pub tps_bucket_active_at : TpsBucket W → Time → Bool
  tps_bucket_active_at b now =
      if not b.valid || is_zero now then b.valid else not (ended_by (cutoff_at now) b)

  -- `TPSSnapshot{Reference: w.reference, Enabled: true, Denominator: denominator}`.
  abbrev pub bare : TpsWindow W → TpsSnapshot W
  bare w = record no_snapshot {
    enabled = true;
    reference = w.reference;
    denominator = w.denominator;
  }

  unfoldable pub include : TpsSnapshot W → TpsBucket W → TpsSnapshot W
  include s b = record s {
    qualified_samples = s.qualified_samples + b.samples;
    qualified_tokens = fl.add s.qualified_tokens b.tokens;
    qualified_active_seconds = fl.add s.qualified_active_seconds b.active_seconds;
    qualified_sequence_samples = s.qualified_sequence_samples + b.sequence_samples;
    qualified_sequence_tokens = fl.add s.qualified_sequence_tokens b.sequence_tokens;
    qualified_sequence_seconds = fl.add s.qualified_sequence_seconds b.sequence_seconds;
  }

  -- The loop over the buckets; `none` is the early return on an overflow.
  unfoldable pub accumulate : Time → List (TpsBucket W) → TpsSnapshot W → Option (TpsSnapshot W)
  unfolding include tps_bucket_active_at
  accumulate now [] s = some s
  accumulate now (b ∷ bs) s = elim (b.valid && tps_bucket_active_at b now) [
    | false ↦ accumulate now bs s
    | true ↦
        elim (ltb (max_uint64 - s.qualified_samples) b.samples
          || ltb (max_uint64 - s.qualified_sequence_samples) b.sequence_samples) [
            | true ↦ none
            | false ↦ accumulate now bs (include s b)
          ]
  ]

  unfoldable pub is_ready : TpsSnapshot W → Bool
  is_ready s =
      leb 4 s.qualified_sequence_samples && fl.le (fl.of_uint64 8) s.qualified_sequence_seconds

  -- The two means over the accumulated sums.
  unfoldable pub with_means : TpsSnapshot W → TpsSnapshot W
  with_means s = record s {
    aggregate_tps =
        if fl.lt zero_float s.qualified_active_seconds
        then fl.div s.qualified_tokens s.qualified_active_seconds
        else s.aggregate_tps;
    mean_active_tps =
        if fl.lt zero_float s.qualified_sequence_seconds
        then fl.div s.qualified_sequence_tokens s.qualified_sequence_seconds
        else s.mean_active_tps;
  }

  unfoldable pub conclude : TpsWindow W → TpsSnapshot W → TpsSnapshot W
  unfolding with_means is_ready
  conclude w s =
      if not (valid_tps_snapshot s)
      then bare w
      else let m = with_means s in
        if not (finite_nonnegative m.aggregate_tps) || not (finite_nonnegative m.mean_active_tps)
        then bare w
        else record m { ready = is_ready m }

  unfoldable pub snapshot : TpsWindow W → Time → TpsSnapshot W
  unfolding accumulate conclude
  snapshot w now =
      let start = record no_snapshot {
        reference = w.reference;
        enabled = enabled w;
        latest = w.latest;
        denominator = w.denominator;
      } in
      if not (enabled w)
      then start
      else elim (accumulate now w.buckets start) [ none ↦ bare w | some s ↦ conclude w s ]
