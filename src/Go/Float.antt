-- ===== src/Go/Float.antt =====
-- float64 as a parameter: the operations that the source applies, with no law assumed.
use phala_inference_guard.Go.Time.{Duration, second}
use phala_inference_guard.Base.{ℕ, suc, ◌/◌, ◌%◌, ℤ, pos, negsuc, Bool, sub_ℕ}

pub record Float64 (W : Type 0) : Type 0 where
  pub lt : W → W → Bool
  pub le : W → W → Bool
  pub eq : W → W → Bool
  pub add : W → W → W
  pub sub : W → W → W
  pub mul : W → W → W
  pub div : W → W → W
  pub is_nan : W → Bool
  pub is_inf : W → Bool
  -- conversions from uint64 and int64; a whole constant is the conversion of its number
  pub of_uint64 : ℕ → W
  pub of_int64 : ℤ → W
  -- `Ldexp(x, 64)`
  pub ldexp64 : W → W
  pub max_float64 : W

module _ {W : Type 0} ⦃fl : Float64 W⦄ where
  -- `d.Seconds()`: whole seconds and the rest, both towards zero.
  unfoldable pub seconds : Duration → W
  seconds (pos n) =
      fl.add (fl.of_int64 (pos (n / second)))
        (fl.div (fl.of_int64 (pos (n % second))) (fl.of_uint64 second))
  seconds (negsuc n) =
      fl.add (fl.of_int64 (sub_ℕ 0 (suc n / second)))
        (fl.div (fl.of_int64 (sub_ℕ 0 (suc n % second))) (fl.of_uint64 second))
