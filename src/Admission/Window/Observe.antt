-- ===== src/Admission/Window/Observe.antt =====
-- tps_window.go: `observe`, which spreads one metrics interval over the seconds that it covers.
use phala_inference_guard.Base.{
  ℕ, zero, suc, ◌+◌, ◌==◌, Bool, true, false, not, ◌&&◌, ◌||◌, if◌then◌else◌, List, [], ◌∷◌, ℤ, pos,
  ltb_ℤ, leb_ℤ, Option, none, some,
}
use phala_inference_guard.Go.Time.{Time, Duration, second, before, is_zero, sub_time, unix, of_unix}
use phala_inference_guard.Go.Float.{Float64, seconds}
use phala_inference_guard.Admission.Tps.{
  TpsIntervalSnapshot, zero_float, no_interval, finite_nonnegative, valid_tps_interval_snapshot,
}
use phala_inference_guard.Admission.Window.Denominator.{observe_denominator}
use phala_inference_guard.Admission.Window.Buckets.{
  TpsWindow, Increment, enabled, expire, add, cutoff_at,
}

pub record TpsSample (W : Type 0) : Type 0 where
  pub start : Time
  pub end : Time
  pub maximum_interval : Duration
  pub generated_tokens : ℕ
  pub previous_running : ℤ
  pub running : ℤ
  pub forwarded_sequence_liabilities : ℤ
  pub local_exposure_measured : Bool
  pub local_forwarded_sequence_seconds : W
  pub local_response_sequence_seconds : W

unfoldable pub maximum_int64 : List ℤ → ℤ → ℤ
maximum_int64 [] maximum = maximum
maximum_int64 (v ∷ vs) maximum = maximum_int64 vs (if ltb_ℤ maximum v then v else maximum)

-- The numbers that the loop shares between its rounds.
pub record Spread (W : Type 0) : Type 0 where
  pub until : Time
  pub interval_seconds : W
  pub tokens_total : W
  pub sequence_total : W
  pub reliable : Bool

-- Where the second of the cursor ends, held to the end of the sample.
unfoldable pub segment_end : Time → Time → Time
segment_end cursor until =
    let e = of_unix (unix cursor) + second in if before until e then until else e

-- Enough for the at most 61 seconds that a minute touches.
abbrev pub spread_fuel : ℕ
spread_fuel = 63

module _ {W : Type 0} ⦃fl : Float64 W⦄ where
  unfoldable pub maximum_float64 : List W → W → W
  maximum_float64 [] maximum = maximum
  maximum_float64 (v ∷ vs) maximum = maximum_float64 vs (if fl.lt maximum v then v else maximum)

  unfoldable pub segment_increment : Spread W → Time → Increment W
  unfolding segment_end
  segment_increment p cursor =
      let e = segment_end cursor p.until in
      let segment = seconds (sub_time e cursor) in
      let fraction = fl.div segment p.interval_seconds in
      let tokens = fl.mul p.tokens_total fraction in
      let samples : ℕ = if e == p.until then 1 else 0 in
      record {
        in_second = unix cursor;
        more_tokens = tokens;
        more_active_seconds = segment;
        more_samples = samples;
        more_sequence_tokens = if p.reliable then tokens else zero_float;
        more_sequence_seconds = if p.reliable then fl.mul p.sequence_total fraction else zero_float;
        more_sequence_samples = if p.reliable then samples else 0;
      }

  -- The loop, on fuel; `none` means that the fuel ran out. The source's test that a second ends
  -- after its beginning is `before cursor` of that end.
  unfoldable pub spread : ℕ → Spread W → Time → TpsWindow W → Option (TpsWindow W × Bool)
  unfolding segment_increment
  spread zero p cursor w = none
  spread (suc fuel) p cursor w =
      if not (before cursor p.until)
      then some (w, true)
      else if not (before cursor (of_unix (unix cursor) + second))
      then some (w, false)
      else let (w', ok) = add w (segment_increment p cursor) in
        elim ok [ false ↦ some (w', false) | true ↦ spread fuel p (segment_end cursor p.until) w' ]

  -- The latest interval of a reliable sample.
  unfoldable pub latest_of : ℕ → W → W → TpsIntervalSnapshot W
  latest_of tokens interval total = record {
    qualified = true;
    tokens = tokens;
    duration_seconds = interval;
    sequence_seconds = total;
    aggregate_tps = fl.div (fl.of_uint64 tokens) interval;
    mean_active_tps = fl.div (fl.of_uint64 tokens) total;
  }

  -- What follows the choice of the denominator: `fallback` is the fallback exposure and `total` the
  -- selected one.
  unfoldable pub record_interval : TpsWindow W → TpsSample W → W → W → W → W → TpsWindow W × Bool
  unfolding latest_of
  record_interval w sample interval endpoint_total fallback total =
      let reliable = fl.lt zero_float total in
      let latest = latest_of sample.generated_tokens interval total in
      if reliable && not (valid_tps_interval_snapshot latest)
      then (w, false)
      else let w1 = if reliable then record w { latest = latest } else w in
        let cutoff = cutoff_at sample.end in
        let cursor = if before sample.start cutoff then cutoff else sample.start in
        let p : Spread W = record {
          until = sample.end;
          interval_seconds = interval;
          tokens_total = fl.of_uint64 sample.generated_tokens;
          sequence_total = total;
          reliable = reliable;
        } in
        elim (spread spread_fuel p cursor w1) [
          | none ↦ (w1, false)
          | some (w2, done) ↦ if not done then (w2, false) else (
            record w2 {
              denominator =
                  observe_denominator w2.denominator endpoint_total
                    sample.local_forwarded_sequence_seconds sample.local_response_sequence_seconds
                    fallback total;
            },
            true,
          )
        ]

  -- The exposures of an interval that lasted `interval` seconds.
  unfoldable pub measure_interval : TpsWindow W → TpsSample W → W → TpsWindow W × Bool
  unfolding record_interval maximum_int64 maximum_float64
  measure_interval w sample interval =
      let endpoint_sequences =
        maximum_int64 (sample.previous_running ∷ sample.running ∷ []) (pos 0) in
      let endpoint_total = fl.mul interval (fl.of_int64 endpoint_sequences) in
      if not (finite_nonnegative endpoint_total)
      then (w, false)
      else let total =
          maximum_float64
            (endpoint_total ∷ sample.local_forwarded_sequence_seconds
              ∷ sample.local_response_sequence_seconds ∷ [])
            zero_float in
        let falls_back =
          not sample.local_exposure_measured
          && (fl.eq sample.local_forwarded_sequence_seconds zero_float
              && fl.eq sample.local_response_sequence_seconds zero_float) in
        let fallback = fl.mul interval (fl.of_int64 sample.forwarded_sequence_liabilities) in
        if not falls_back
        then record_interval w sample interval endpoint_total zero_float total
        else if not (finite_nonnegative fallback)
        then (w, false)
        else record_interval w sample interval endpoint_total fallback
            (maximum_float64 (total ∷ fallback ∷ []) zero_float)

  -- The tests that leave a sample out.
  unfoldable pub malformed : TpsSample W → Bool
  malformed sample =
      is_zero sample.start
      || (is_zero sample.end
          || (leb_ℤ sample.maximum_interval (pos 0)
              || (ltb_ℤ sample.previous_running (pos 0)
                  || (ltb_ℤ sample.running (pos 0)
                      || (ltb_ℤ sample.forwarded_sequence_liabilities (pos 0)
                          || (not (finite_nonnegative sample.local_forwarded_sequence_seconds)
                              || not
                                  (finite_nonnegative sample.local_response_sequence_seconds)))))))

  -- The flag is false for a numeric bound that failed, and true for a sample that was left out.
  unfoldable pub observe : TpsWindow W → TpsSample W → TpsWindow W × Bool
  unfolding measure_interval malformed
  observe w sample =
      if not (enabled w)
      then (w, true)
      else let w1 = expire (record w { latest = no_interval }) sample.end in
        let interval = sub_time sample.end sample.start in
        let interval_seconds = seconds interval in
        if malformed sample
        then (w1, true)
        else if leb_ℤ interval (pos 0) || ltb_ℤ sample.maximum_interval interval
        then (w1, true)
        else if sample.generated_tokens == 0
            && not (fl.lt zero_float sample.local_response_sequence_seconds)
        then (w1, true)
        else if not (finite_nonnegative interval_seconds) || fl.eq interval_seconds zero_float
        then (w1, false)
        else measure_interval w1 sample interval_seconds
