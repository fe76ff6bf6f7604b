-- ===== src/Admission/Exposure/Moves.antt =====
-- The methods of the exposure ledger keep its counts: what enters is added, what leaves is taken out.
use phala_inference_guard.Base.{
  ℕ, ◌+◌, ◌≤◌, ◌≡◌, refl, inl, inr, Bool, true, false, ◌||◌, none, some, arith, pos, leb, ltb_ℤ,
  leb_ℤ, Bool-cases, if◌then◌else◌, subst,
}
use phala_inference_guard.Go.Words.{max_int64}
use phala_inference_guard.Go.Time.{Time}
use phala_inference_guard.Admission.Exposure.{
  SequenceExposureLedger, advance, enter_forwarded, enter_response, leave, read_exposure,
  add_forwarded, add_response, remove, snapshot_exposure, valid_exposure, exposure_of,
}
use phala_inference_guard.Admission.Exposure.Invariant.{
  IsLedger, IsLedger-at, valid_ledger-IsLedger, Advances, advance-Advances,
}
use phala_inference_guard.Admission.Exposure.Wide.{compare_nanoseconds-le}

-- What a method leaves: the new counts with the flag, the old ones without.
abbrev pub Moves : ℕ → ℕ → ℕ → ℕ → SequenceExposureLedger × Bool → Type 0
Moves f r f' r' (l, true) = IsLedger f' r' l
Moves f r f' r' (l, false) = IsLedger f r l

module _ (f r : ℕ) (l : SequenceExposureLedger) (h : IsLedger f r l)
    (i : l.initialized ≡ true) where
  enter_forwarded-Moves : (n : ℕ) → Moves f r (f + n) r (enter_forwarded (l, true) (pos n))
  enter_forwarded-Moves n = elim (Bool-cases (leb (f + n) max_int64)) [
    | inr over ↦
        let e : (l, false) ≡ enter_forwarded (l, true) (pos n) =
          unfold enter_forwarded in ground arith in
        subst (Moves f r (f + n) r) e h
    | inl fits ↦
        let l' : SequenceExposureLedger = record l { active_forwarded_sequences = pos (f + n) } in
        let h' : IsLedger (f + n) r l' = ground arith in
        let e : (l', true) ≡ enter_forwarded (l, true) (pos n) =
          unfold enter_forwarded in ground (arith, valid_ledger-IsLedger l' h') in
        subst (Moves f r (f + n) r) e h'
  ]

  enter_response-Moves : (n : ℕ) → Moves f r f (r + n) (enter_response (l, true) (pos n))
  enter_response-Moves n = elim (Bool-cases (leb (r + n) f)) [
    | inr over ↦
        let e : (l, false) ≡ enter_response (l, true) (pos n) =
          unfold enter_response in ground arith in
        subst (Moves f r f (r + n)) e h
    | inl fits ↦
        let l' : SequenceExposureLedger = record l { active_response_sequences = pos (r + n) } in
        let h' : IsLedger f (r + n) l' = ground arith in
        let e : (l', true) ≡ enter_response (l, true) (pos n) =
          unfold enter_response in ground (arith, valid_ledger-IsLedger l' h') in
        subst (Moves f r f (r + n)) e h'
  ]

leave-Moves :
    (f r m n : ℕ) (l : SequenceExposureLedger)
    → IsLedger (f + m) (r + n) l
    → l.initialized ≡ true
    → r ≤ f
    → Moves (f + m) (r + n) f r (leave (l, true) (pos m) (pos n))
leave-Moves f r m n l h i k =
    let l' : SequenceExposureLedger = record l {
      active_forwarded_sequences = pos f;
      active_response_sequences = pos r;
    } in
    let h' : IsLedger f r l' = ground arith in
    let e : (l', true) ≡ leave (l, true) (pos m) (pos n) =
      unfold leave in ground (arith, valid_ledger-IsLedger l' h') in
    subst (Moves (f + m) (r + n) f r) e h'

-- The three methods share their shape: a refusal on the arguments, `advance`, and the tail.
after_advance :
    (f r f' r' : ℕ) (now : Time) (l : SequenceExposureLedger)
    (tail : SequenceExposureLedger × Bool → SequenceExposureLedger × Bool)
    → IsLedger f r l
    → ((l' : SequenceExposureLedger) → tail (l', false) ≡ (l', false))
    → ((l' : SequenceExposureLedger)
        → IsLedger f r l'
        → l'.initialized ≡ true
        → Moves f r f' r' (tail (l', true)))
    → Moves f r f' r' (tail (advance l now))
after_advance f r f' r' now l tail h stays moves = go (advance l now) (advance-Advances f r now l h)
  where
    go : (q : SequenceExposureLedger × Bool) → Advances f r now l q → Moves f r f' r' (tail q)
    go (l', true) a = moves l' a.0 a.1
    go (l', false) e = rw (stays l', e) h

-- A forwarded request enters with its sequences, or only the clock moves.
pub add_forwarded-Moves :
    (f r n : ℕ) (now : Time) (l : SequenceExposureLedger)
    → IsLedger f r l
    → Moves f r (f + n) r (add_forwarded l now (pos n))
unfolding add_forwarded
add_forwarded-Moves f r n now l h = elim (Bool-cases (leb_ℤ (pos n) (pos 0))) [
  | inl e ↦ rw e h
  | inr e ↦ rw e (
      after_advance f r (f + n) r now l (λ q. enter_forwarded q (pos n)) h
        (λ l'. unfold enter_forwarded in refl) (λ l' h' i. enter_forwarded-Moves f r l' h' i n))
]

-- A first byte makes one more of the forwarded sequences respond, or only the clock moves.
pub add_response-Moves :
    (f r n : ℕ) (now : Time) (l : SequenceExposureLedger)
    → IsLedger f r l
    → Moves f r f (r + n) (add_response l now (pos n))
unfolding add_response
add_response-Moves f r n now l h = elim (Bool-cases (leb_ℤ (pos n) (pos 0))) [
  | inl e ↦ rw e h
  | inr e ↦ rw e (
      after_advance f r f (r + n) now l (λ q. enter_response q (pos n)) h
        (λ l'. unfold enter_response in refl) (λ l' h' i. enter_response-Moves f r l' h' i n))
]

-- What entered leaves again, or only the clock moves.
pub remove-Moves :
    (f r m n : ℕ) (now : Time) (l : SequenceExposureLedger)
    → IsLedger (f + m) (r + n) l
    → r ≤ f
    → Moves (f + m) (r + n) f r (remove l now (pos m) (pos n))
unfolding remove
remove-Moves f r m n now l h k =
    elim (Bool-cases (leb_ℤ (pos m) (pos 0) || (ltb_ℤ (pos n) (pos 0) || ltb_ℤ (pos m) (pos n)))) [
      | inl e ↦ rw e h
      | inr e ↦ rw e (
          after_advance (f + m) (r + n) f r now l (λ q. leave q (pos m) (pos n)) h
            (λ l'. unfold leave in refl) (λ l' h' i. leave-Moves f r m n l' h' i k))
    ]

-- A snapshot keeps the counts, and reads the integrals whenever the clock is accepted.
pub snapshot_exposure-IsLedger :
    (f r : ℕ) (now : Time) (l : SequenceExposureLedger)
    → IsLedger f r l
    → IsLedger f r (snapshot_exposure l now).0
      × ((snapshot_exposure l now).1
          ≡ (if (advance l now).1 then some (exposure_of (advance l now).0) else none))
unfolding snapshot_exposure
snapshot_exposure-IsLedger f r now l h = go (advance l now) (advance-Advances f r now l h)
  where
    go :
        (q : SequenceExposureLedger × Bool)
        → Advances f r now l q
        → IsLedger f r (read_exposure q).0
          × ((read_exposure q).1 ≡ (if q.1 then some (exposure_of q.0) else none))
    go (l', true) a = (
      unfold read_exposure in a.0,
      unfold read_exposure valid_exposure in
          ground (
            arith,
            compare_nanoseconds-le l'.response_sequence_time l'.forwarded_sequence_time
                a.0.response_wide a.0.forwarded_wide a.0.times_le,
          ),
    )
    go (l', false) e = (unfold read_exposure in rw e h, unfold read_exposure in refl)

-- The counts before a move, by other names.
pub Moves-at :
    (f f' r r' a b : ℕ) (q : SequenceExposureLedger × Bool)
    → f' ≡ f
    → r' ≡ r
    → Moves f r a b q
    → Moves f' r' a b q
Moves-at f f' r r' a b (l, true) p q h = h
Moves-at f f' r r' a b (l, false) p q h = IsLedger-at l p q h
