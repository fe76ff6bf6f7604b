-- ===== src/Admission/Exposure/Invariant.antt =====
-- The exposure ledger keeps its counts and its two integrals in order, whatever the clock reads.
use phala_inference_guard.Base.{
  ℕ, ◌+◌, ◌-◌, ◌*◌, ◌≤◌, ◌<◌, ◌≡◌, refl, ◌⊎◌, inl, inr, Bool, true, false, Option, none, some,
  arith, pos, leb, ltb_ℤ, Bool-cases, if◌then◌else◌, subst, sym, ◌∙◌,
}
use mathlib.Core.Bool.{false≢true}
use phala_inference_guard.Go.Words.{max_int64}
use phala_inference_guard.Go.Time.{Time, sub_time, is_zero, before}
use phala_inference_guard.Admission.Exposure.{
  SequenceNanoseconds, SequenceExposureLedger, compare_nanoseconds, valid_ledger, record_integrals,
  integrate, advance, empty_ledger,
}
use phala_inference_guard.Admission.Exposure.Wide.{nanoseconds, IsWide, add_duration-Adds, Adds}

-- A ledger that holds `f` forwarded and `r` responding sequences.
pub record IsLedger (f r : ℕ) (l : SequenceExposureLedger) : Type 0 where
  pub forwarded_count : l.active_forwarded_sequences ≡ pos f
  pub response_count : l.active_response_sequences ≡ pos r
  pub response_le : r ≤ f
  pub forwarded_fits : f ≤ max_int64
  pub forwarded_wide : IsWide l.forwarded_sequence_time
  pub response_wide : IsWide l.response_sequence_time
  pub times_le : nanoseconds l.response_sequence_time ≤ nanoseconds l.forwarded_sequence_time
  pub fresh :
      l.initialized ≡ false
      → (l.last_event_at ≡ 0) × (f ≡ 0) × (nanoseconds l.forwarded_sequence_time ≡ 0)
  pub started : l.initialized ≡ true → 0 < l.last_event_at

pub empty_ledger-IsLedger : IsLedger 0 0 empty_ledger
empty_ledger-IsLedger = ground arith

le_zero :
    (n m : SequenceNanoseconds)
    → IsWide n
    → IsWide m
    → nanoseconds n ≤ nanoseconds m
    → ltb_ℤ (pos 0) (compare_nanoseconds n m) ≡ false
unfolding compare_nanoseconds
le_zero n m hn hm h = ground arith

-- The test that ends every method of the ledger never fails on such a ledger.
pub valid_ledger-IsLedger :
    {f r : ℕ} (l : SequenceExposureLedger) → IsLedger f r l → valid_ledger l ≡ true
unfolding valid_ledger
valid_ledger-IsLedger l h =
    ground (arith, le_zero l.response_sequence_time l.forwarded_sequence_time)

-- What an integration gives: the clock's reading, and the exact integrals.
abbrev pub Integrates :
    ℕ → ℕ → ℕ → Time → SequenceExposureLedger → SequenceExposureLedger × Bool → Type 0
Integrates f r e now l (l', true) =
    IsLedger f r l'
    × (l'.initialized ≡ true)
    × (l'.last_event_at ≡ now)
    × (nanoseconds l'.forwarded_sequence_time ≡ nanoseconds l.forwarded_sequence_time + e * f)
    × (nanoseconds l'.response_sequence_time ≡ nanoseconds l.response_sequence_time + e * r)
Integrates f r e now l (l', false) = l' ≡ l

mul-le : (e r f : ℕ) → r ≤ f → e * r ≤ e * f
mul-le e r f h = grind arith

record_integrals-Integrates :
    (f r e : ℕ) (now : Time) (l : SequenceExposureLedger) (x y : Option SequenceNanoseconds)
    → IsLedger f r l
    → l.initialized ≡ true
    → 0 < now
    → Adds l.forwarded_sequence_time (e * f) x
    → Adds l.response_sequence_time (e * r) y
    → Integrates f r e now l (record_integrals l now x y)
unfolding record_integrals
record_integrals-Integrates f r e now l none y h i p hx hy = refl
record_integrals-Integrates f r e now l (some x) none h i p hx hy = refl
record_integrals-Integrates f r e now l (some x) (some y) h i p hx hy =
    let ordered : nanoseconds y ≤ nanoseconds x = omega (arith, mul-le e r f h.response_le) in
    let l' : SequenceExposureLedger = record l {
      last_event_at = now;
      forwarded_sequence_time = x;
      response_sequence_time = y;
    } in
    let h' : IsLedger f r l' = ground arith in
    rw (le_zero y x hy.1 hx.1 ordered, valid_ledger-IsLedger l' h') (h', i, refl, hx.0, hy.0)

integrate-Integrates :
    (f r e : ℕ) (now : Time) (l : SequenceExposureLedger)
    → IsLedger f r l
    → l.initialized ≡ true
    → 0 < now
    → e ≤ max_int64
    → Integrates f r e now l (integrate l now (pos e))
unfolding integrate
integrate-Integrates f r e now l h i p b =
    record_integrals-Integrates f r e now l _ _ h i p
      (rw h.forwarded_count (
        add_duration-Adds l.forwarded_sequence_time e f h.forwarded_wide (omega arith)
          (omega arith)))
      (rw h.response_count (
        add_duration-Adds l.response_sequence_time e r h.response_wide (omega arith) (omega arith)))

-- What `advance` gives: the counts are kept, and between two readings of the clock that a Duration
-- can hold apart each integral grows by the time passed for every sequence that was active.
abbrev pub Advances : ℕ → ℕ → Time → SequenceExposureLedger → SequenceExposureLedger × Bool → Type 0
Advances f r now l (l', true) =
    IsLedger f r l'
    × (l'.initialized ≡ true)
    × (l'.last_event_at ≡ now)
    × (l.initialized ≡ true
        → now - l.last_event_at ≤ max_int64
        → (l.last_event_at ≤ now)
          × (nanoseconds l'.forwarded_sequence_time
              ≡ nanoseconds l.forwarded_sequence_time + (now - l.last_event_at) * f)
          × (nanoseconds l'.response_sequence_time
              ≡ nanoseconds l.response_sequence_time + (now - l.last_event_at) * r))
Advances f r now l (l', false) = l' ≡ l

-- The elapsed time as a Duration.
abbrev elapsed : Time → Time → ℕ
elapsed now last = if leb (now - last) max_int64 then now - last else max_int64

elapsed-le : (now last : Time) → elapsed now last ≤ max_int64
elapsed-le now last = ground arith

sub_time-elapsed : (now last : Time) → last ≤ now → sub_time now last ≡ pos (elapsed now last)
sub_time-elapsed now last h = ground arith

Integrates-Advances :
    (f r : ℕ) (now : Time) (l : SequenceExposureLedger) (q : SequenceExposureLedger × Bool)
    → l.initialized ≡ true
    → 0 < now
    → l.last_event_at ≤ now
    → Integrates f r (elapsed now l.last_event_at) now l q
    → Advances f r now l q
Integrates-Advances f r now l (l', false) i p b h = h
Integrates-Advances f r now l (l', true) i p b h = (
  h.0,
  h.1,
  h.2,
  λ _ near.
      let e : elapsed now l.last_event_at ≡ now - l.last_event_at = ground arith in
      (b, rw (← e) h.3, rw (← e) h.4),
)

advance_fresh :
    (f r : ℕ) (now : Time) (l : SequenceExposureLedger)
    → IsLedger f r l
    → is_zero now ≡ false
    → l.initialized ≡ false
    → Advances f r now l (advance l now)
unfolding advance
advance_fresh f r now l h nz e =
    let l' : SequenceExposureLedger = record l { initialized = true; last_event_at = now } in
    let h' : IsLedger f r l' = ground arith in
    let e' : (l', true) ≡ advance l now = ground (arith, valid_ledger-IsLedger l' h') in
    subst (Advances f r now l) e' (h', refl, refl, λ i near. absurd (false≢true (sym e ∙ i)))

advance_on :
    (now : Time) (l : SequenceExposureLedger)
    → is_zero now ≡ false
    → l.initialized ≡ true
    → before now l.last_event_at ≡ false
    → advance l now ≡ integrate l now (pos (elapsed now l.last_event_at))
unfolding advance
advance_on now l nz i on = ground arith

advance_off :
    (now : Time) (l : SequenceExposureLedger)
    → ((is_zero now ≡ true) ⊎ ((l.initialized ≡ true) × (before now l.last_event_at ≡ true)))
    → advance l now ≡ (l, false)
unfolding advance
advance_off now l h = ground arith

-- On a ledger in order with `f` forwarded and `r` responding sequences, `advance` either leaves the
-- ledger as it is and returns false, or it leaves a ledger in order at the given time with the same
-- counts; and if the ledger was initialized and the time passed is an int64 of nanoseconds, each
-- integral has grown by the time passed for each of its sequences.
pub advance-Advances :
    (f r : ℕ) (now : Time) (l : SequenceExposureLedger)
    → IsLedger f r l
    → Advances f r now l (advance l now)
advance-Advances f r now l h = elim (Bool-cases (is_zero now)) [
  | inl z ↦ rw (advance_off now l (inl z)) refl
  | inr nz ↦ elim (Bool-cases l.initialized) [
    | inr e ↦ advance_fresh f r now l h nz e
    | inl i ↦ elim (Bool-cases (before now l.last_event_at)) [
      | inl back ↦ rw (advance_off now l (inr (i, back))) refl
      | inr on ↦ subst (Advances f r now l) (sym (advance_on now l nz i on)) (
          Integrates-Advances f r now l _ i (ground arith) (ground arith)
            (integrate-Integrates f r _ now l h i (ground arith) (elapsed-le now l.last_event_at)))
    ]
  ]
]

-- The counts of a ledger, by other names.
pub IsLedger-at :
    {f f' r r' : ℕ} (l : SequenceExposureLedger)
    → f' ≡ f
    → r' ≡ r
    → IsLedger f r l
    → IsLedger f' r' l
IsLedger-at {f} {f'} {r} {r'} l p q h =
    subst (λ x. IsLedger x r' l) (sym p) (subst (λ y. IsLedger f y l) (sym q) h)
