-- ===== src/Base/Maps.antt =====
-- A Go map keyed by uint64, as an association list.
use phala_inference_guard.Base.Tests.{◌==◌, if◌then◌else◌, ==_iff, Bool-cases}
use phala_inference_guard.Base.Lists.{length}
use Prim.Native.Nat.{ℕ, ◌+◌, ◌≤◌}
use mathlib.Core.Path.{◌≡◌, refl, sym, subst}
use mathlib.Core.Logic.{◌≢◌, inl, inr}
use mathlib.Core.List.{List, [], ◌∷◌}
use mathlib.Core.Option.{Option, none, some}
use native.Mathlib.Omega.{arith}

abbrev pub Dict : Type 0 → Type 0
Dict V = List (ℕ × V)

module _ {V : Type 0} where
  abbrev pub lookup : ℕ → Dict V → Option V
  lookup k [] = none
  lookup k ((j, v) ∷ d) = if k == j then some v else lookup k d

  -- `d[k] = v`.
  abbrev pub insert : ℕ → V → Dict V → Dict V
  insert k v [] = (k, v) ∷ []
  insert k v ((j, w) ∷ d) = if k == j then (k, v) ∷ d else (j, w) ∷ insert k v d

  -- `delete(d, k)`.
  abbrev pub erase : ℕ → Dict V → Dict V
  erase k [] = []
  erase k ((j, w) ∷ d) = if k == j then d else (j, w) ∷ erase k d

  pub lookup-insert :
      (j k : ℕ) (v : V) (d : Dict V)
      → lookup j (insert k v d) ≡ (if j == k then some v else lookup j d)
  lookup-insert j k v [] = ground arith
  lookup-insert j k v ((i, w) ∷ d) = ground (arith, lookup-insert j k v d)

  pub lookup-erase_ne : (j k : ℕ) (d : Dict V) → j ≢ k → lookup j (erase k d) ≡ lookup j d
  lookup-erase_ne j k [] h = refl
  lookup-erase_ne j k ((i, w) ∷ d) h = ground (arith, lookup-erase_ne j k d h)

  -- No key stands twice.
  abbrev pub HasKeys : Dict V → Type 0
  HasKeys [] = Unit {0}
  HasKeys ((k, _) ∷ d) = (lookup k d ≡ none) × HasKeys d

  pub insert-HasKeys : (k : ℕ) (v : V) (d : Dict V) → HasKeys d → HasKeys (insert k v d)
  insert-HasKeys k v [] h = (refl, tt)
  insert-HasKeys k v ((j, w) ∷ d) h =
      ground (arith, insert-HasKeys k v d h.1, lookup-insert j k v d)

  pub erase-HasKeys : (k : ℕ) (d : Dict V) → HasKeys d → HasKeys (erase k d)
  erase-HasKeys k [] h = tt
  erase-HasKeys k ((j, w) ∷ d) h = ground (arith, erase-HasKeys k d h.1, lookup-erase_ne j k d)

  pub lookup-erase_self : (k : ℕ) (d : Dict V) → HasKeys d → lookup k (erase k d) ≡ none
  lookup-erase_self k [] h = refl
  lookup-erase_self k ((j, w) ∷ d) h = ground (arith, lookup-erase_self k d h.1)

  -- A predicate of every entry.
  abbrev pub AllEntries {κ} : (ℕ → V → Type κ) → Dict V → Type κ
  AllEntries P [] = Unit
  AllEntries P ((k, v) ∷ d) = P k v × AllEntries P d

  pub AllEntries-insert {κ} :
      (P : ℕ → V → Type κ) (k : ℕ) (v : V) (d : Dict V)
      → P k v
      → AllEntries P d
      → AllEntries P (insert k v d)
  AllEntries-insert P k v [] p h = (p, tt)
  AllEntries-insert P k v ((j, w) ∷ d) p h = elim (Bool-cases (k == j)) [
    | inl same ↦ rw same (p, h.1)
    | inr other ↦ rw other (h.0, AllEntries-insert P k v d p h.1)
  ]

  pub AllEntries-erase {κ} :
      (P : ℕ → V → Type κ) (k : ℕ) (d : Dict V) → AllEntries P d → AllEntries P (erase k d)
  AllEntries-erase P k [] h = tt
  AllEntries-erase P k ((j, w) ∷ d) h = elim (Bool-cases (k == j)) [
    | inl same ↦ rw same h.1
    | inr other ↦ rw other (h.0, AllEntries-erase P k d h.1)
  ]

  pub AllEntries-lookup {κ} :
      (P : ℕ → V → Type κ) (k : ℕ) (v : V) (d : Dict V)
      → AllEntries P d
      → lookup k d ≡ some v
      → P k v
  AllEntries-lookup P k v [] h e = cc
  AllEntries-lookup P k v ((j, w) ∷ d) h e = elim (Bool-cases (k == j)) [
    | inl same ↦
        let e' : some w ≡ some v = rw same at e in
        subst (λ i. P i v) (sym ((==_iff k j).0 same)) (subst (P j) (cc) h.0)
    | inr other ↦ AllEntries-lookup P k v d h.1 (rw other at e)
  ]

  pub AllEntries-mono {κ ℓ'} :
      (P : ℕ → V → Type κ) (Q : ℕ → V → Type ℓ') (d : Dict V)
      → ((k : ℕ) (v : V) → P k v → Q k v)
      → AllEntries P d
      → AllEntries Q d
  AllEntries-mono P Q [] f h = tt
  AllEntries-mono P Q ((k, v) ∷ d) f h = (f k v h.0, AllEntries-mono P Q d f h.1)

  pub length-insert-le : (k : ℕ) (v : V) (d : Dict V) → length (insert k v d) ≤ length d + 1
  length-insert-le k v [] = omega arith
  length-insert-le k v ((j, w) ∷ d) = ground (arith, length-insert-le k v d)
