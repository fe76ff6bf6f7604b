-- ===== src/Admission/Overlay/Laws.antt =====
-- Overlays as tallies of natural numbers: the arithmetic of reservation.go is exact on them.
use phala_inference_guard.Base.{ℕ, ◌+◌, ◌≤◌, ◌≡◌, true, false, some, arith, pos, ◌-ℤ◌}
use phala_inference_guard.Go.Words.{max_int64}
use phala_inference_guard.Admission.Numeric.{add_fits, add_overflows}
use phala_inference_guard.Admission.Overlay.{
  ReservationOverlay, valid_overlay, checked, add_overlay, subtract_overlay, replace_overlay,
  exceeds, difference,
}

-- The meaning of an overlay: five counts.
pub record Tally : Type 0 where
  pub unobserved : ℕ
  pub liabilities : ℕ
  pub live : ℕ
  pub debts : ℕ
  pub cold : ℕ

abbrev pub zero_tally : Tally
zero_tally = record { unobserved = 0; liabilities = 0; live = 0; debts = 0; cold = 0 }

infixl 65 ◌⊞◌
abbrev pub ◌⊞◌ : Tally → Tally → Tally
s ⊞ t = record {
  unobserved = s.unobserved + t.unobserved;
  liabilities = s.liabilities + t.liabilities;
  live = s.live + t.live;
  debts = s.debts + t.debts;
  cold = s.cold + t.cold;
}

-- The overlay that holds a tally.
abbrev pub overlay_of : Tally → ReservationOverlay
overlay_of t = record {
  unobserved_sequences = pos t.unobserved;
  sequence_liabilities = pos t.liabilities;
  live_reservations = pos t.live;
  residual_debts = pos t.debts;
  cold_sheddable_pending = pos t.cold;
}

-- What `valid` asks of a tally.
pub record IsSound (t : Tally) : Type 0 where
  pub unobserved_le : t.unobserved ≤ t.liabilities
  pub cold_le : t.cold ≤ t.live

-- Every count is an int64.
pub record Fits (t : Tally) : Type 0 where
  pub unobserved_fits : t.unobserved ≤ max_int64
  pub liabilities_fits : t.liabilities ≤ max_int64
  pub live_fits : t.live ≤ max_int64
  pub debts_fits : t.debts ≤ max_int64
  pub cold_fits : t.cold ≤ max_int64

pub valid-overlay_of : (t : Tally) → IsSound t → valid_overlay (overlay_of t) ≡ true
unfolding valid_overlay
valid-overlay_of t s = ground arith

pub ⊞-IsSound : (s t : Tally) → IsSound s → IsSound t → IsSound (s ⊞ t)
⊞-IsSound s t hs ht = omega arith

-- Adding two tallies is exact as long as every count stays an int64.
pub add_overlay-Fits :
    (s t : Tally)
    → IsSound s
    → IsSound t
    → Fits (s ⊞ t)
    → add_overlay (overlay_of s) (overlay_of t) ≡ some (overlay_of (s ⊞ t))
unfolding add_overlay checked
add_overlay-Fits s t hs ht f = ground (
  arith,
  add_fits s.unobserved t.unobserved,
  add_fits s.liabilities t.liabilities,
  add_fits s.live t.live,
  add_fits s.debts t.debts,
  add_fits s.cold t.cold,
  valid-overlay_of (s ⊞ t) (⊞-IsSound s t hs ht),
)

-- A sum that the code gives is the exact one, and then every count fits.
pub add_overlay-some :
    (s t : Tally) (o : ReservationOverlay)
    → add_overlay (overlay_of s) (overlay_of t) ≡ some o
    → (o ≡ overlay_of (s ⊞ t)) × Fits (s ⊞ t)
unfolding add_overlay checked
add_overlay-some s t o h = ground (
  arith,
  add_fits s.unobserved t.unobserved,
  add_overflows s.unobserved t.unobserved,
  add_fits s.liabilities t.liabilities,
  add_overflows s.liabilities t.liabilities,
  add_fits s.live t.live,
  add_overflows s.live t.live,
  add_fits s.debts t.debts,
  add_overflows s.debts t.debts,
  add_fits s.cold t.cold,
  add_overflows s.cold t.cold,
)

sub_back : (a b : ℕ) → pos (a + b) -ℤ pos b ≡ pos a
sub_back a b = ground arith

difference-⊞ : (s t : Tally) → difference (overlay_of (s ⊞ t)) (overlay_of t) ≡ overlay_of s
unfolding difference
difference-⊞ s t = λ i. record {
  unobserved_sequences = sub_back s.unobserved t.unobserved i;
  sequence_liabilities = sub_back s.liabilities t.liabilities i;
  live_reservations = sub_back s.live t.live i;
  residual_debts = sub_back s.debts t.debts i;
  cold_sheddable_pending = sub_back s.cold t.cold i;
}

exceeds-⊞ : (s t : Tally) → exceeds (overlay_of t) (overlay_of (s ⊞ t)) ≡ false
unfolding exceeds
exceeds-⊞ s t = ground arith

-- Taking a tally out of a sum gives the rest back, and never fails.
pub subtract_overlay-⊞ :
    (s t : Tally)
    → IsSound s
    → IsSound t
    → subtract_overlay (overlay_of (s ⊞ t)) (overlay_of t) ≡ some (overlay_of s)
unfolding subtract_overlay checked
subtract_overlay-⊞ s t hs ht = rw (
  valid-overlay_of (s ⊞ t) (⊞-IsSound s t hs ht),
  valid-overlay_of t ht,
  exceeds-⊞ s t,
  difference-⊞ s t,
  valid-overlay_of s hs,
)

-- Of an overlay that is a sum of two sound tallies, `replaceOverlay` of the second one by another
-- sound tally succeeds with the new sum, if every count of the new sum is an int64.
pub replace_overlay-Fits :
    (s old new : Tally)
    → IsSound s
    → IsSound old
    → IsSound new
    → Fits (s ⊞ new)
    → replace_overlay (overlay_of (s ⊞ old)) (overlay_of old) (overlay_of new)
      ≡ some (overlay_of (s ⊞ new))
unfolding replace_overlay
replace_overlay-Fits s old new hs ho hn f =
    rw (subtract_overlay-⊞ s old hs ho) (add_overlay-Fits s new hs hn f)
