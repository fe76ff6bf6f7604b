-- ===== src/Admission/Controller/Monotone.antt =====
-- Epochs and ids only grow, so a reservation that has gone never comes back under its handle.
pub mod Calls
pub mod Retired
use phala_inference_guard.Base.{
  ℕ, ◌+◌, ◌≤◌, ◌<◌, ◌≡◌, ◌≢◌, ◌⊎◌, inl, inr, refl, sym, subst, ap, ◌∙◌, Bool, true, false, arith,
  ◌==◌, Bool-cases, ℤ, pos, Option, none, some, Option-cases, not, ◌&&◌, ◌||◌, lookup, insert,
  erase, lookup-insert, lookup-erase_ne, [], if◌then◌else◌, ltb, Dict, ◌∷◌,
}
use mathlib.Core.Option.{some-ne-none}
use phala_inference_guard.Go.Words.{max_uint64}
use phala_inference_guard.Go.Time.{Time}
use phala_inference_guard.Go.Float.{Float64}
use phala_inference_guard.Admission.Types.{is_set, Reason}
use phala_inference_guard.Admission.Controller.State.{AdmissionController, fail_closed}
use phala_inference_guard.Admission.Types.{TerminalCause, valid_cause}
use phala_inference_guard.Admission.Demand.{TpsRequestDemand}
use phala_inference_guard.Admission.Overlay.{ReservationOverlay}
use phala_inference_guard.Admission.Reservation.{Reservation, forwarded, residual_debt}
use phala_inference_guard.Admission.Exposure.{SequenceExposureLedger}
use phala_inference_guard.Admission.Controller.Lifecycle.{
  mark_forwarded, mark_first_byte, terminate, forward_item, respond_item, exchange, settle,
  commit_forwarded, commit_first_byte, commit_terminated, terminate_item, decoding, removes,
}
use phala_inference_guard.Admission.Controller.Outcomes.{
  stepped, mark_forwarded-cases, mark_first_byte-cases, terminate-cases, forward_item-outcomes,
  respond_item-outcomes, terminate_item-outcomes,
}
use phala_inference_guard.Admission.Controller.Decide.{admit_request, new_reservation}
use phala_inference_guard.Admission.Controller.Admissions.{admit_request-cases, with_reservation}

-- A reservation that is there is replaced.
lookup-replaced :
    {V : Type 0} (id k : ℕ) (v v' : V) (d : Dict V)
    → lookup k d ≡ some v
    → lookup id d ≡ none
    → lookup id (insert k v' d) ≡ none
lookup-replaced id k v v' d f e = elim (Bool-cases (id == k)) [
  | inl same ↦
      let eq : id ≡ k = ground arith in
      absurd (some-ne-none v (sym f ∙ ap (λ j. lookup j d) (sym eq) ∙ e))
  | inr other ↦ rw (lookup-insert id k v' d, other) e
]

pub lookup-removed :
    {V : Type 0} (id k : ℕ) (d : Dict V) → lookup id d ≡ none → lookup id (erase k d) ≡ none
lookup-removed id k [] e = refl
lookup-removed id k ((j, w) ∷ d) e = ground (arith, lookup-removed id k d)

module _ {W : Type 0} ⦃fl : Float64 W⦄ where
  -- The epoch and the last id do not fall; and an id that was given out and whose reservation has
  -- gone stays without one.
  abbrev pub Follows : AdmissionController W → AdmissionController W → Type 0
  Follows c c' =
      (c.runtime_epoch ≤ c'.runtime_epoch)
      × (c.next_reservation_id ≤ c'.next_reservation_id)
      × ((id : ℕ)
          → id ≤ c.next_reservation_id
          → lookup id c.reservations ≡ none
          → lookup id c'.reservations ≡ none)

  pub Follows-refl : (c : AdmissionController W) → Follows c c
  Follows-refl c = (omega arith, omega arith, λ id h e. e)

  pub Follows-trans : (a b c : AdmissionController W) → Follows a b → Follows b c → Follows a c
  Follows-trans a b c f g = (
    omega (arith, f.0, g.0),
    omega (arith, f.1, g.1),
    λ id h e. g.2 id (omega (arith, h, f.1)) (f.2 id h e),
  )

  pub fail_closed-Follows :
      (c : AdmissionController W) (why : Reason) → Follows c (fail_closed c why)
  unfolding fail_closed
  fail_closed-Follows c why = elim (Bool-cases (is_set c.closed_reason)) [
    | inl shut ↦ rw (fail_closed, shut) (Follows-refl c)
    | inr intake ↦ rw (fail_closed, intake) (ground arith, omega arith, λ id h e. refl)
  ]

  module _ (c : AdmissionController W) (id : ℕ) (item : Reservation)
      (found : lookup id c.reservations ≡ some item) where
    replaced-Follows :
        (item' : Reservation) (k : ℕ)
        → k ≤ c.next_reservation_id
        → lookup k c.reservations ≡ none
        → lookup k (insert id item' c.reservations) ≡ none
    replaced-Follows item' k h e = lookup-replaced k id item item' c.reservations found e

    pub commit_forwarded-Follows :
        (sequence : ℕ) (at : Time) (q : SequenceExposureLedger × Bool)
        → Follows c (commit_forwarded c item id sequence at q).0
    unfolding commit_forwarded
    commit_forwarded-Follows sequence at (l, false) =
        fail_closed-Follows (record c { exposure = l }) _
    commit_forwarded-Follows sequence at (l, true) = (
      omega arith,
      omega arith,
      replaced-Follows
          (record item { phase = forwarded; forwarded_at = at; forwarded_sequence = sequence }),
    )

    pub commit_first_byte-Follows :
        (o : ReservationOverlay) (q : SequenceExposureLedger × Bool)
        → Follows c (commit_first_byte c (decoding item) id o q).0
    unfolding commit_first_byte
    commit_first_byte-Follows o (l, false) = fail_closed-Follows (record c { exposure = l }) _
    commit_first_byte-Follows o (l, true) =
        (omega arith, omega arith, replaced-Follows (decoding item))

    pub commit_terminated-Follows :
        (sequence : ℕ) (gone : Bool) (o : ReservationOverlay) (q : SequenceExposureLedger × Bool)
        → Follows c (commit_terminated c item id sequence gone o q).0
    unfolding commit_terminated
    commit_terminated-Follows sequence gone o (l, false) =
        fail_closed-Follows (record c { exposure = l }) _
    commit_terminated-Follows sequence true o (l, true) =
        (omega arith, omega arith, λ k h e. lookup-removed k id c.reservations e)
    commit_terminated-Follows sequence false o (l, true) = (
      omega arith,
      omega arith,
      replaced-Follows (record item { phase = residual_debt; terminal_sequence = sequence }),
    )
