-- ===== src/Admission/Window/Fuel.antt =====
-- tps_window.go: the loop over the seconds of an interval ends within its fuel.
use phala_inference_guard.Base.{
  ℕ, zero, suc, ◌+◌, ◌*◌, ◌/◌, ◌≤◌, ◌<◌, ◌≡◌, ◌⊎◌, inl, inr, refl, Bool, true, false, Option, some,
  arith, Bool-cases,
}
use phala_inference_guard.Go.Time.{Time, second, before, of_unix, unix}
use phala_inference_guard.Go.Float.{Float64}
use phala_inference_guard.Admission.Window.Buckets.{TpsWindow, add, tps_window_duration}
use phala_inference_guard.Admission.Window.Observe.{
  Spread, spread, spread_fuel, segment_end, segment_increment,
}

-- The beginning of the second of an instant.
of_unix-unix : (t : Time) → of_unix (unix t) ≡ (t / second) * second
of_unix-unix t = ground arith

-- The loop has `fuel` seconds to go at most.
abbrev IsNear : ℕ → Time → Time → Type 0
IsNear fuel cursor until = (until ≤ cursor) ⊎ (until ≤ (cursor / second + fuel) * second)

next_second : (t : Time) → (((t / second) * second + second) / second) ≡ t / second + 1
next_second t = omega arith

IsNear-next :
    (fuel cursor until : ℕ)
    → cursor < until
    → IsNear (suc fuel) cursor until
    → IsNear fuel (segment_end cursor until) until
unfolding segment_end
IsNear-next fuel cursor until c h =
    elim (Bool-cases (before until (of_unix (unix cursor) + second))) [
      | inl e ↦ rw e (inl (omega arith))
      | inr e ↦
          rw (e, of_unix-unix cursor, next_second cursor)
            (elim h [ inl le ↦ absurd (omega arith) | inr le ↦ inr (omega arith) ])
    ]

-- A second ends after its beginning.
ends_after : (t : Time) → before t (of_unix (unix t) + second) ≡ true
ends_after t = rw (of_unix-unix t) (ground arith)

module _ {W : Type 0} ⦃fl : Float64 W⦄ where
  abbrev Ends : Option (TpsWindow W × Bool) → Type 0
  Ends r = (q : TpsWindow W × Bool) × (r ≡ some q)

  -- One round of the loop ends if the rest does.
  spread-round :
      (fuel : ℕ) (p : Spread W) (cursor : Time) (w : TpsWindow W)
      → (cursor < p.until
          → (w' : TpsWindow W) → Ends (spread fuel p (segment_end cursor p.until) w'))
      → Ends (spread (suc fuel) p cursor w)
  unfolding spread
  spread-round fuel p cursor w h = elim (Bool-cases (before cursor p.until)) [
    | inr stop ↦ ((w, true), rw (spread, stop) refl)
    | inl more ↦ elim (Bool-cases (add w (segment_increment p cursor)).1) [
      | inr bad ↦ (
        ((add w (segment_increment p cursor)).0, false),
        rw (spread, more, ends_after cursor, bad) refl,
      )
      | inl good ↦
          rw (spread, more, ends_after cursor, good)
            (h (ground arith) (add w (segment_increment p cursor)).0)
    ]
  ]

  spread-Ends :
      (fuel : ℕ) (p : Spread W) (cursor : Time) (w : TpsWindow W)
      → IsNear fuel cursor p.until
      → Ends (spread (suc fuel) p cursor w)
  spread-Ends zero p cursor w h =
      spread-round zero p cursor w
        (λ c w'. absurd (elim h [ inl le ↦ omega arith | inr le ↦ omega arith ]))
  spread-Ends (suc fuel) p cursor w h = spread-round (suc fuel) p cursor w (λ c w'.
      spread-Ends fuel p (segment_end cursor p.until) w' (IsNear-next fuel cursor p.until c h))

  -- The loop over an interval's seconds ends within its fuel, however the buckets are filled, when
  -- the interval begins at most 60 seconds before its end.
  pub spread-enough :
      (p : Spread W) (cursor : Time) (w : TpsWindow W)
      → p.until ≤ cursor + tps_window_duration
      → Ends (spread spread_fuel p cursor w)
  spread-enough p cursor w h = spread-Ends 62 p cursor w (inr (omega arith))
