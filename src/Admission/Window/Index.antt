-- ===== src/Admission/Window/Index.antt =====
-- tps_window.go, `add`: the bucket that a second goes to.
use phala_inference_guard.Base.{ℕ, ◌+◌, ◌<◌, ◌≤◌, ◌≡◌, arith, ℤ, pos, negsuc}
use phala_inference_guard.Admission.Window.Buckets.{bucket_index, tps_window_bucket_count}

-- The index of every second, before the Unix epoch too, lies in the array of buckets; and two seconds
-- from the epoch on that are at most 60 apart have the same index only if they are the same.
pub bucket_index-separates :
    (s : ℤ) (n k : ℕ)
    → k ≤ 60
    → (bucket_index s < tps_window_bucket_count)
      × (bucket_index (pos n) ≡ bucket_index (pos (n + k)) → k ≡ 0)
unfolding bucket_index
bucket_index-separates (pos m) n k h = (omega arith, λ e. omega (arith, e))
bucket_index-separates (negsuc m) n k h = (ground arith, λ e. omega (arith, e))
