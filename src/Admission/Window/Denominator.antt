-- ===== src/Admission/Window/Denominator.antt =====
-- tps_window.go: which exposure an interval's denominator came from.
use phala_inference_guard.Base.{ℕ, ◌+◌, ◌==◌, not, ◌&&◌, ◌||◌, ltb, if◌then◌else◌, List, [], ◌∷◌}
use phala_inference_guard.Go.Words.{max_uint64}
use phala_inference_guard.Go.Float.{Float64}
use phala_inference_guard.Admission.Tps.{TpsDenominatorEvidence, zero_float, finite_nonnegative}

pub data TpsDenominatorSource : Type 0 where
  endpoint local_forwarded local_response fallback_liability tie no_source : TpsDenominatorSource

unfoldable pub increment_tps_denominator_selection : ℕ → ℕ
increment_tps_denominator_selection n = if ltb n max_uint64 then n + 1 else n

module _ {W : Type 0} ⦃fl : Float64 W⦄ where
  unfoldable pub add_tps_denominator_seconds : W → W → W
  add_tps_denominator_seconds current increment =
      if not (finite_nonnegative current)
        || (not (finite_nonnegative increment) || fl.lt (fl.sub fl.max_float64 current) increment)
      then current
      else fl.add current increment

  -- The loop over the candidates, with `matched` and `matches`.
  unfoldable pub match_candidates :
      W → List (TpsDenominatorSource × W) → TpsDenominatorSource → ℕ → TpsDenominatorSource × ℕ
  match_candidates selected [] matched matches = (matched, matches)
  match_candidates selected ((source, value) ∷ rest) matched matches =
      let hit = fl.lt zero_float value && fl.eq value selected in
      match_candidates selected rest (if hit then source else matched)
        (if hit then matches + 1 else matches)

  unfoldable pub tps_denominator_source_for : W → W → W → W → W → TpsDenominatorSource
  unfolding match_candidates
  tps_denominator_source_for e f r l selected =
      if fl.le selected zero_float || not (finite_nonnegative selected)
      then no_source
      else let (matched, matches) =
          match_candidates selected
            ((endpoint, e)
              ∷ (local_forwarded, f)
              ∷ (local_response, r)
              ∷ (fallback_liability, l)
              ∷ [])
            no_source 0 in
        if matches == 1 then matched else tie

  -- The switch: one selection count goes up.
  unfoldable pub count_selection :
      TpsDenominatorSource → TpsDenominatorEvidence W → TpsDenominatorEvidence W
  unfolding increment_tps_denominator_selection
  count_selection endpoint v = record v {
    endpoint_selections = increment_tps_denominator_selection v.endpoint_selections;
  }
  count_selection local_forwarded v = record v {
    local_forwarded_selections = increment_tps_denominator_selection v.local_forwarded_selections;
  }
  count_selection local_response v = record v {
    local_response_selections = increment_tps_denominator_selection v.local_response_selections;
  }
  count_selection fallback_liability v = record v {
    fallback_liability_selections =
        increment_tps_denominator_selection v.fallback_liability_selections;
  }
  count_selection tie v = record v {
    tie_selections = increment_tps_denominator_selection v.tie_selections;
  }
  count_selection no_source v = record v {
    none_selections = increment_tps_denominator_selection v.none_selections;
  }

  unfoldable pub observe_denominator :
      TpsDenominatorEvidence W → W → W → W → W → W → TpsDenominatorEvidence W
  unfolding add_tps_denominator_seconds tps_denominator_source_for count_selection
  observe_denominator v e f r l selected =
      count_selection (tps_denominator_source_for e f r l selected) (record v {
        endpoint_sequence_seconds = add_tps_denominator_seconds v.endpoint_sequence_seconds e;
        local_forwarded_seconds = add_tps_denominator_seconds v.local_forwarded_seconds f;
        local_response_seconds = add_tps_denominator_seconds v.local_response_seconds r;
        fallback_liability_seconds = add_tps_denominator_seconds v.fallback_liability_seconds l;
        selected_sequence_seconds =
            add_tps_denominator_seconds v.selected_sequence_seconds selected;
      })
