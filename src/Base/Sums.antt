-- ===== src/Base/Sums.antt =====
-- Sums over a map's entries, and how one write moves them.
use phala_inference_guard.Base.Maps.{Dict, lookup, insert, erase, AllEntries}
use Prim.Native.Nat.{ℕ, ◌+◌, ◌≤◌}
use mathlib.Core.Path.{◌≡◌}
use mathlib.Core.List.{[], ◌∷◌}
use mathlib.Core.Option.{none, some}
use native.Mathlib.Omega.{arith}

module _ {V : Type 0} (f : V → ℕ) where
  abbrev pub sum_by : Dict V → ℕ
  sum_by [] = 0
  sum_by ((k, v) ∷ d) = sum_by d + f v

  pub sum_by-erase :
      (k : ℕ) (v : V) (d : Dict V) → lookup k d ≡ some v → sum_by d ≡ sum_by (erase k d) + f v
  sum_by-erase k v [] e = cc
  sum_by-erase k v ((j, w) ∷ d) e = ground (arith, sum_by-erase k v d)

  pub sum_by-insert_new :
      (k : ℕ) (v : V) (d : Dict V) → lookup k d ≡ none → sum_by (insert k v d) ≡ sum_by d + f v
  sum_by-insert_new k v [] e = omega arith
  sum_by-insert_new k v ((j, w) ∷ d) e = ground (arith, sum_by-insert_new k v d)

  pub sum_by-insert :
      (k : ℕ) (v v' : V) (d : Dict V)
      → lookup k d ≡ some v
      → sum_by (insert k v' d) ≡ sum_by (erase k d) + f v'
  sum_by-insert k v v' [] e = cc
  sum_by-insert k v v' ((j, w) ∷ d) e = ground (arith, sum_by-insert k v v' d)

pub sum_by-le :
    {V : Type 0} (f g : V → ℕ) (d : Dict V)
    → AllEntries (λ k v. f v ≤ g v) d
    → sum_by f d ≤ sum_by g d
sum_by-le f g [] h = omega arith
sum_by-le f g ((k, v) ∷ d) h = omega (arith, sum_by-le f g d h.1)
