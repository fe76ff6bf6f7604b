-- ===== src/Admission/Controller/Invariant/Reconciliation.antt =====
-- `reconciledOverlayLocked` and `applyReconciliationLocked` agree, and never fail on a controller
-- whose accounts hold.
use phala_inference_guard.Base.{
  ℕ, ◌+◌, ◌≤◌, ◌<◌, ◌≡◌, refl, sym, ◌∙◌, ap, ◌⊎◌, inl, inr, Bool, true, false, Option, none, some,
  arith, AllEntries, HasKeys, sum_by, ◌∷◌, [], Bool-cases, pos, ltb, leb, ◌&&◌, if◌then◌else◌,
  lookup, ◌==◌,
}
use phala_inference_guard.Go.Words.{max_int64}
use phala_inference_guard.Go.Time.{Time, Duration}
use phala_inference_guard.Admission.Numeric.{add_fits}
use phala_inference_guard.Admission.Overlay.Laws.{
  Tally, zero_tally, overlay_of, ◌⊞◌, IsSound, Fits, subtract_overlay-⊞, replace_overlay-Fits,
  ⊞-IsSound,
}
use phala_inference_guard.Admission.Projection.{BackendObservation}
use phala_inference_guard.Admission.Reservation.{
  Reservation, ReservationPhase, reserved, residual_debt, forwarded, is_forwarded, is_residual_debt,
  effective_demand,
}
use phala_inference_guard.Admission.Reservation.Laws.{
  tally_of, phase_tally, phase_forwarded, phase_responding, IsPhased, tally_of-IsSound, fanout,
  contribution-tally, valid_demand-pos,
}
use phala_inference_guard.Admission.Controller.Reconcile.{
  covered, lease_ends, add_liability, reconcile_one, apply_one, reconcile_reservation,
  reconciled_overlay, apply_reconciliation,
}
use phala_inference_guard.Admission.Controller.Sums.{
  Reservations, total_tally, total_forwarded, total_responding, liabilities_of,
}
use phala_inference_guard.Admission.Controller.Invariant.{IsEntry, tally_of-le}
use phala_inference_guard.Admission.Controller.Invariant.Exchange.{⊞-zero}

-- The sequences that a reservation forwarded by the watermark.
abbrev pub liable : ℕ → Reservation → ℕ
liable watermark item =
    if ltb 0 item.forwarded_sequence && leb item.forwarded_sequence watermark
    then fanout item
    else 0

liable-le : (watermark : ℕ) (item : Reservation) → liable watermark item ≤ fanout item
liable-le watermark item = ground arith

phase_liabilities :
    (p : ReservationPhase) (r c : Bool) (n : ℕ) → (phase_tally p r c n).liabilities ≡ n
phase_liabilities reserved r c n = refl
phase_liabilities _ r c n = refl

-- What is counted by the watermark is at most what is reserved.
pub total_liable-le :
    (watermark : ℕ) (d : Reservations) → sum_by (liable watermark) d ≤ sum_by liabilities_of d
total_liable-le watermark [] = omega arith
total_liable-le watermark ((k, r) ∷ d) =
    let rest = total_liable-le watermark d in
    let here =
      phase_liabilities r.phase r.pending_first_byte_released r.cold_sheddable (fanout r) in
    let one = liable-le watermark r in omega (arith, rest, here, one)

-- The other counts of a tally are at most its liabilities.
abbrev pub IsSmall : Tally → Type 0
IsSmall t = IsSound t × (t.live ≤ t.liabilities) × (t.debts ≤ t.liabilities)

pub small-Fits : (t : Tally) → IsSmall t → t.liabilities ≤ max_int64 → Fits t
small-Fits t s h = omega (arith, s.0)

swap_right : (a b t : ℕ) → (a + b) + t ≡ (a + t) + b
swap_right a b t = omega arith

add_assoc : (a b t : ℕ) → a + (b + t) ≡ (a + b) + t
add_assoc a b t = omega arith

pub zero-⊞ : (t : Tally) → zero_tally ⊞ t ≡ t
zero-⊞ t = ground arith

pub ⊞-swap : (a b t : Tally) → (a ⊞ b) ⊞ t ≡ (a ⊞ t) ⊞ b
⊞-swap a b t = λ i. record {
  unobserved = swap_right a.unobserved b.unobserved t.unobserved i;
  liabilities = swap_right a.liabilities b.liabilities t.liabilities i;
  live = swap_right a.live b.live t.live i;
  debts = swap_right a.debts b.debts t.debts i;
  cold = swap_right a.cold b.cold t.cold i;
}

abbrev released : Reservation → Reservation
released item = record item { pending_first_byte_released = true }

forwarded-IsPhased : (p : ReservationPhase) → is_forwarded p ≡ true → IsPhased p true
forwarded-IsPhased forwarded h = tt
forwarded-IsPhased _ h = absurd (ground arith)

pub ⊞-assoc : (a b t : Tally) → a ⊞ (b ⊞ t) ≡ (a ⊞ b) ⊞ t
⊞-assoc a b t = λ i. record {
  unobserved = add_assoc a.unobserved b.unobserved t.unobserved i;
  liabilities = add_assoc a.liabilities b.liabilities t.liabilities i;
  live = add_assoc a.live b.live t.live i;
  debts = add_assoc a.debts b.debts t.debts i;
  cold = add_assoc a.cold b.cold t.cold i;
}

pub ⊞-IsSmall : (s t : Tally) → IsSmall s → IsSmall t → IsSmall (s ⊞ t)
⊞-IsSmall s t hs ht = (⊞-IsSound s t hs.0 ht.0, omega arith, omega arith)

released-phase :
    (p : ReservationPhase) (r c : Bool) (n : ℕ)
    → is_forwarded p ≡ true
    → (phase_tally p true c n).liabilities ≡ (phase_tally p r c n).liabilities
released-phase forwarded r c n h = refl
released-phase _ r c n h = absurd (ground arith)

released-liabilities :
    (item : Reservation)
    → is_forwarded item.phase ≡ true
    → liabilities_of (released item) ≡ liabilities_of item
released-liabilities item p =
    released-phase item.phase item.pending_first_byte_released item.cold_sheddable (fanout item) p

-- What a reconciled reservation still counts for.
abbrev tally_after : Reservation → Option Reservation × Bool → Tally
tally_after item (none, changed) = zero_tally
tally_after item (some next, true) = tally_of next
tally_after item (some next, false) = tally_of item

sum_last : (n l m : ℕ) → (n + l) + m ≡ n + (m + l)
sum_last n l m = omega arith

zero_right : (n : ℕ) → n ≡ n + 0
zero_right n = omega arith

debt-exposure :
    (p : ReservationPhase) (n : ℕ)
    → is_residual_debt p ≡ true
    → (phase_forwarded p n ≡ 0) × (phase_responding p ≡ 0)
debt-exposure residual_debt n h = (refl, refl)
debt-exposure _ n h = absurd (ground arith)

module _ (epoch next : ℕ) (e : 0 < epoch) (watermark : ℕ) where
  pub entry-IsSmall : (k : ℕ) (r : Reservation) → IsEntry epoch next k r → IsSmall (tally_of r)
  entry-IsSmall k r w = let h = tally_of-le epoch next k r w in (tally_of-IsSound r, h.0, h.1)

  add_liability-some :
      (k : ℕ) (r : Reservation) (n : ℕ)
      → IsEntry epoch next k r
      → n + liable watermark r ≤ max_int64
      → add_liability watermark r (pos n) ≡ some (pos (n + liable watermark r))
  unfolding add_liability effective_demand
  add_liability-some k r n w h =
      ground (arith, valid_demand-pos r.demand w.1.demand_ok, add_fits n (fanout r))

  released-IsEntry :
      (k : ℕ) (r : Reservation)
      → IsEntry epoch next k r
      → is_forwarded r.phase ≡ true
      → IsEntry epoch next k (released r)
  released-IsEntry k r w p = (
    w.0,
    record {
      id_pos = w.1.id_pos;
      id_le = w.1.id_le;
      in_epoch = w.1.in_epoch;
      demand_ok = w.1.demand_ok;
      phased = forwarded-IsPhased r.phase p;
    },
  )

  module _ {W : Type 0} (o : BackendObservation W) (at : Time) (duration : Duration) where
    abbrev after : Reservation → Option Reservation × Bool
    after item = reconcile_reservation watermark o at duration item

    -- A reservation is a covered debt and goes, or is forwarded and is released, or stays.
    pub after-cases :
        (item : Reservation)
        → ((after item ≡ (none, true)) × (is_residual_debt item.phase ≡ true))
          ⊎ ((after item ≡ (some (released item), true)) × (is_forwarded item.phase ≡ true))
          ⊎ (after item ≡ (some item, false))
    unfolding reconcile_reservation covered lease_ends
    after-cases item = ground arith

    -- One reservation's reconciliation succeeds, and leaves what it still counts for.
    reconcile_one-⊞ :
        (s : Tally) (k : ℕ) (item : Reservation)
        → IsSmall s
        → IsEntry epoch next k item
        → s.liabilities + liabilities_of item ≤ max_int64
        → reconcile_one (after item) (overlay_of (s ⊞ tally_of item)) (overlay_of (tally_of item))
          ≡ some (overlay_of (s ⊞ tally_after item (after item)))
    unfolding reconcile_one
    reconcile_one-⊞ s k item hs w b = elim (after-cases item) [
      | inl (q, p) ↦ rw q (
          subtract_overlay-⊞ s (tally_of item) hs.0 (tally_of-IsSound item)
          ∙ ap (λ t. some (overlay_of t)) (sym (⊞-zero s)))
      | inr (inl (q, p)) ↦
          let w' = released-IsEntry k item w p in
          let small = entry-IsSmall k (released item) w' in
          rw (q, contribution-tally (released item) e w'.1)
            (replace_overlay-Fits s (tally_of item) (tally_of (released item)) hs.0
              (tally_of-IsSound item) small.0
              (small-Fits (s ⊞ tally_of (released item))
                (⊞-IsSmall s (tally_of (released item)) hs small)
                (omega (arith, b, released-liabilities item p))))
      | inr (inr q) ↦ rw q refl
    ]

    abbrev applied : Reservations → Reservations
    applied d = apply_reconciliation watermark o at duration d

    total-apply_one :
        (k : ℕ) (item : Reservation) (d : Reservations)
        → total_tally (apply_one k item (after item) d)
          ≡ total_tally d ⊞ tally_after item (after item)
    unfolding apply_one
    total-apply_one k item d = elim (after-cases item) [
      | inl (q, p) ↦ rw q (sym (⊞-zero (total_tally d)))
      | inr (inl (q, p)) ↦ rw q refl
      | inr (inr q) ↦ rw q refl
    ]

    tally_after-IsSmall :
        (k : ℕ) (item : Reservation)
        → IsEntry epoch next k item
        → IsSmall (tally_after item (after item))
          × ((tally_after item (after item)).liabilities ≤ liabilities_of item)
    tally_after-IsSmall k item w = elim (after-cases item) [
      | inl (q, p) ↦ rw q (omega arith)
      | inr (inl (q, p)) ↦ rw q (
        entry-IsSmall k (released item) (released-IsEntry k item w p),
        omega (arith, released-liabilities item p),
      )
      | inr (inr q) ↦ rw q (entry-IsSmall k item w, omega arith)
    ]

    totals-IsSmall :
        (d : Reservations) → AllEntries (IsEntry epoch next) d → IsSmall (total_tally d)
    totals-IsSmall [] h = (omega arith, omega arith, omega arith)
    totals-IsSmall ((k, item) ∷ d) (w, h) =
        ⊞-IsSmall (total_tally d) (tally_of item) (totals-IsSmall d h) (entry-IsSmall k item w)

    -- The loop over the reservations succeeds, gives the tally of those that stay, and counts the
    -- sequences that were forwarded by the watermark.
    pub reconciled_overlay-from :
        (d : Reservations) (s : Tally) (n : ℕ)
        → IsSmall s
        → AllEntries (IsEntry epoch next) d
        → s.liabilities + sum_by liabilities_of d ≤ max_int64
        → n + sum_by (liable watermark) d ≤ max_int64
        → reconciled_overlay watermark o at duration d (overlay_of (s ⊞ total_tally d)) (pos n)
          ≡ some (overlay_of (s ⊞ total_tally (applied d)), pos (n + sum_by (liable watermark) d))
    unfolding reconciled_overlay apply_reconciliation
    reconciled_overlay-from [] s n hs h b m =
        ap (λ j. some (overlay_of (s ⊞ zero_tally), pos j)) (zero_right n)
    reconciled_overlay-from ((k, item) ∷ d) s n hs (w, h) b m =
        let left = total_tally d in
        let kept = tally_after item (after item) in
        let small = tally_after-IsSmall k item w in
        let one : reconcile_one (after item) (overlay_of (s ⊞ total_tally ((k, item) ∷ d)))
              (overlay_of (tally_of item))
            ≡ some (overlay_of ((s ⊞ kept) ⊞ left)) =
          ap (λ t. reconcile_one (after item) (overlay_of t) (overlay_of (tally_of item)))
            (⊞-assoc s left (tally_of item))
          ∙ reconcile_one-⊞ (s ⊞ left) k item (⊞-IsSmall s left hs (totals-IsSmall d h)) w
              (omega (arith, b))
          ∙ ap (λ t. some (overlay_of t)) (⊞-swap s left kept) in
        let tallies : (s ⊞ kept) ⊞ total_tally (applied d)
            ≡ s ⊞ total_tally (apply_one k item (after item) (applied d)) =
          ⊞-swap s kept (total_tally (applied d))
          ∙ sym (⊞-assoc s (total_tally (applied d)) kept)
          ∙ ap (λ t. s ⊞ t) (sym (total-apply_one k item (applied d))) in
        rw
          (
            add_liability-some k item n w (omega (arith, m)),
            contribution-tally item e w.1,
            one,
            reconciled_overlay-from d (s ⊞ kept) (n + liable watermark item)
                (⊞-IsSmall s kept hs small.0) h (omega (arith, b, small.1)) (omega (arith, m)),
          )
          (λ i. some (
            overlay_of (tallies i),
            pos (sum_last n (liable watermark item) (sum_by (liable watermark) d) i),
          ))

    pub applied-entries :
        (d : Reservations)
        → AllEntries (IsEntry epoch next) d
        → AllEntries (IsEntry epoch next) (applied d)
    unfolding apply_reconciliation apply_one
    applied-entries [] h = tt
    applied-entries ((k, item) ∷ d) (w, h) = elim (after-cases item) [
      | inl (q, p) ↦ rw q (applied-entries d h)
      | inr (inl (q, p)) ↦ rw q (released-IsEntry k item w p, applied-entries d h)
      | inr (inr q) ↦ rw q (w, applied-entries d h)
    ]

    pub lookup-applied :
        (j : ℕ) (d : Reservations) → lookup j d ≡ none → lookup j (applied d) ≡ none
    unfolding apply_reconciliation apply_one
    lookup-applied j [] h = refl
    lookup-applied j ((k, item) ∷ d) h = elim (Bool-cases (j == k)) [
      | inl same ↦ absurd (ground arith)
      | inr other ↦
          let rest = lookup-applied j d (ground arith) in
          elim (after-cases item) [
            | inl (q, p) ↦ rw q rest
            | inr (inl (q, p)) ↦ rw (q, other) rest
            | inr (inr q) ↦ rw (q, other) rest
          ]
    ]

    pub applied-keys : (d : Reservations) → HasKeys d → HasKeys (applied d)
    unfolding apply_reconciliation apply_one
    applied-keys [] h = tt
    applied-keys ((k, item) ∷ d) (f, h) = elim (after-cases item) [
      | inl (q, p) ↦ rw q (applied-keys d h)
      | inr (inl (q, p)) ↦ rw q (lookup-applied k d f, applied-keys d h)
      | inr (inr q) ↦ rw q (lookup-applied k d f, applied-keys d h)
    ]

    -- Reconciliation moves nothing in the exposure ledger: a debt has left it already.
    pub applied-exposure :
        (d : Reservations)
        → (total_forwarded (applied d) ≡ total_forwarded d)
          × (total_responding (applied d) ≡ total_responding d)
    unfolding apply_reconciliation apply_one
    applied-exposure [] = (refl, refl)
    applied-exposure ((k, item) ∷ d) = elim (after-cases item) [
      | inl (q, p) ↦
          let gone = debt-exposure item.phase (fanout item) p in
          let rest = applied-exposure d in rw q (omega (arith, rest, gone))
      | inr (inl (q, p)) ↦ let rest = applied-exposure d in rw q (omega (arith, rest))
      | inr (inr q) ↦ let rest = applied-exposure d in rw q (omega (arith, rest))
    ]

    pub applied-liabilities :
        (d : Reservations)
        → AllEntries (IsEntry epoch next) d
        → sum_by liabilities_of (applied d) ≤ sum_by liabilities_of d
    unfolding apply_reconciliation apply_one
    applied-liabilities [] h = omega arith
    applied-liabilities ((k, item) ∷ d) (w, h) = elim (after-cases item) [
      | inl (q, p) ↦ let rest = applied-liabilities d h in rw q (omega (arith, rest))
      | inr (inl (q, p)) ↦
          let rest = applied-liabilities d h in
          let same = released-liabilities item p in rw q (omega (arith, rest, same))
      | inr (inr q) ↦ let rest = applied-liabilities d h in rw q (omega (arith, rest))
    ]
