-- ===== src/Admission/Histogram.antt =====
-- internal/admission/window_concurrency_histogram.go.
use phala_inference_guard.Base.{
  ℕ, ◌+◌, ◌-◌, ◌&&◌, ltb, leb, if◌then◌else◌, List, [], ◌∷◌, ℤ, pos, ltb_ℤ, pos_part, replicate,
}
use phala_inference_guard.Go.Words.{max_uint64}

abbrev pub window_concurrency_histogram_bounds : List ℕ
window_concurrency_histogram_bounds =
    0 ∷ 1 ∷ 2 ∷ 3 ∷ 4 ∷ 5 ∷ 6 ∷ 7 ∷ 8 ∷ 9 ∷ 10 ∷ 11 ∷ 12 ∷ 13 ∷ 14 ∷ 15 ∷ 16 ∷ 20 ∷ 24 ∷ 28 ∷ 32
    ∷ 36 ∷ 40 ∷ 44 ∷ 48 ∷ 52 ∷ 56 ∷ 60 ∷ 63 ∷ []

pub record WindowConcurrencyHistogram : Type 0 where
  pub count : ℕ
  pub sum : ℕ
  pub buckets : List ℕ

abbrev pub empty_histogram : WindowConcurrencyHistogram
empty_histogram = record { count = 0; sum = 0; buckets = replicate 29 0 }

-- The loop over the bounds and the buckets.
unfoldable pub observe_buckets : ℕ → List ℕ → List ℕ → List ℕ
observe_buckets value [] buckets = buckets
observe_buckets value (bound ∷ bounds) [] = []
observe_buckets value (bound ∷ bounds) (n ∷ buckets) =
    (if leb value bound && ltb n max_uint64 then n + 1 else n)
    ∷ observe_buckets value bounds buckets

unfoldable pub observe_histogram : WindowConcurrencyHistogram → ℤ → WindowConcurrencyHistogram
unfolding observe_buckets
observe_histogram h value = if ltb_ℤ value (pos 0) then h else record {
  count = if ltb h.count max_uint64 then h.count + 1 else h.count;
  sum = if leb (pos_part value) (max_uint64 - h.sum) then h.sum + pos_part value else max_uint64;
  buckets = observe_buckets (pos_part value) window_concurrency_histogram_bounds h.buckets;
}
