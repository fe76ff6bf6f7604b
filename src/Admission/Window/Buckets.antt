-- ===== src/Admission/Window/Buckets.antt =====
-- tps_window.go: the 61 one-second buckets, their expiry and the addition to one of them.
use phala_inference_guard.Base.{
  ℕ, suc, ◌+◌, ◌-◌, ◌%◌, ◌==◌, Bool, true, false, not, ◌&&◌, ltb, if◌then◌else◌, List, map, ℤ, pos,
  negsuc, eq_ℤ, get_or, set, replicate,
}
use phala_inference_guard.Go.Words.{max_uint64}
use phala_inference_guard.Go.Time.{Time, second, before, is_zero, of_unix}
use phala_inference_guard.Go.Float.{Float64}
use phala_inference_guard.Admission.Tps.{
  TpsIntervalSnapshot, TpsDenominatorEvidence, no_interval, no_evidence, zero_float,
  finite_nonnegative,
}

pub record TpsBucket (W : Type 0) : Type 0 where
  pub second_of : ℤ
  pub valid : Bool
  pub tokens : W
  pub active_seconds : W
  pub samples : ℕ
  pub sequence_tokens : W
  pub sequence_seconds : W
  pub sequence_samples : ℕ

pub record TpsWindow (W : Type 0) : Type 0 where
  pub reference : W
  pub buckets : List (TpsBucket W)
  pub latest : TpsIntervalSnapshot W
  pub denominator : TpsDenominatorEvidence W

abbrev pub tps_window_bucket_count : ℕ
tps_window_bucket_count = 61

-- 60 seconds.
abbrev pub tps_window_duration : ℕ
tps_window_duration = 60_000_000_000

-- `now.Add(-tpsWindowDuration)`.
abbrev pub cutoff_at : Time → Time
cutoff_at now = now - tps_window_duration

-- `second % tpsWindowBucketCount`, made nonnegative.
unfoldable pub bucket_index : ℤ → ℕ
bucket_index (pos n) = n % tps_window_bucket_count
bucket_index (negsuc n) =
    if suc n % tps_window_bucket_count == 0
    then 0
    else tps_window_bucket_count - suc n % tps_window_bucket_count

-- What one call of `add` brings.
pub record Increment (W : Type 0) : Type 0 where
  pub in_second : ℤ
  pub more_tokens : W
  pub more_active_seconds : W
  pub more_samples : ℕ
  pub more_sequence_tokens : W
  pub more_sequence_seconds : W
  pub more_sequence_samples : ℕ

module _ {W : Type 0} ⦃fl : Float64 W⦄ where
  abbrev pub empty_bucket : TpsBucket W
  empty_bucket = record {
    second_of = pos 0;
    valid = false;
    tokens = zero_float;
    active_seconds = zero_float;
    samples = 0;
    sequence_tokens = zero_float;
    sequence_seconds = zero_float;
    sequence_samples = 0;
  }

  unfoldable pub new_tps_window : W → TpsWindow W
  new_tps_window reference = record {
    reference = reference;
    buckets = replicate tps_window_bucket_count empty_bucket;
    latest = no_interval;
    denominator = no_evidence;
  }

  unfoldable pub enabled : TpsWindow W → Bool
  enabled w = fl.lt zero_float w.reference

  unfoldable pub reset : TpsWindow W → TpsWindow W
  reset w = record w {
    buckets = replicate tps_window_bucket_count empty_bucket;
    latest = no_interval;
  }

  -- The second of the bucket ends by the cutoff.
  unfoldable pub ended_by : Time → TpsBucket W → Bool
  ended_by cutoff b = not (before cutoff (of_unix b.second_of + second))

  unfoldable pub expire_bucket : Time → TpsBucket W → TpsBucket W
  unfolding ended_by
  expire_bucket cutoff b = if b.valid && ended_by cutoff b then empty_bucket else b

  unfoldable pub expire : TpsWindow W → Time → TpsWindow W
  unfolding expire_bucket
  expire w now =
      if is_zero now
      then w
      else record w { buckets = map (expire_bucket (cutoff_at now)) w.buckets }

  -- The bucket that an increment goes to, opened for its second if it was free.
  unfoldable pub open_bucket : TpsBucket W → ℤ → TpsBucket W
  open_bucket b s = if not b.valid then record empty_bucket { second_of = s; valid = true } else b

  unfoldable pub increased : TpsBucket W → Increment W → TpsBucket W
  increased b i = record b {
    tokens = fl.add b.tokens i.more_tokens;
    active_seconds = fl.add b.active_seconds i.more_active_seconds;
    samples = b.samples + i.more_samples;
    sequence_tokens = fl.add b.sequence_tokens i.more_sequence_tokens;
    sequence_seconds = fl.add b.sequence_seconds i.more_sequence_seconds;
    sequence_samples = b.sequence_samples + i.more_sequence_samples;
  }

  -- The tests on the bucket's new contents.
  unfoldable pub increase_fits : TpsBucket W → Increment W → Bool
  unfolding increased
  increase_fits b i =
      not (ltb (max_uint64 - b.samples) i.more_samples)
      && (not (ltb (max_uint64 - b.sequence_samples) i.more_sequence_samples)
          && (finite_nonnegative (increased b i).tokens
              && (finite_nonnegative (increased b i).active_seconds
                  && (finite_nonnegative (increased b i).sequence_tokens
                      && finite_nonnegative (increased b i).sequence_seconds))))

  abbrev pub well_formed_increment : Increment W → Bool
  well_formed_increment i =
      finite_nonnegative i.more_tokens
      && (finite_nonnegative i.more_active_seconds
          && (finite_nonnegative i.more_sequence_tokens
              && finite_nonnegative i.more_sequence_seconds))

  -- A bucket of another second stands in the way.
  unfoldable pub taken : TpsBucket W → ℤ → Bool
  taken b s = b.valid && not (eq_ℤ b.second_of s)

  unfoldable pub add : TpsWindow W → Increment W → TpsWindow W × Bool
  unfolding bucket_index open_bucket increased increase_fits taken
  add w i =
      if not (well_formed_increment i)
      then (w, false)
      else let index = bucket_index i.in_second in
        let bucket = get_or w.buckets index empty_bucket in
        if taken bucket i.in_second
        then (w, false)
        else let b = open_bucket bucket i.in_second in
          if not (increase_fits b i)
          then (record w { buckets = set w.buckets index b }, false)
          else (record w { buckets = set w.buckets index (increased b i) }, true)
