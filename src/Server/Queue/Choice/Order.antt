-- ===== src/Server/Queue/Choice/Order.antt =====
-- The order in which `chooseIndex` serves the queue.
use mathlib.Core.Bool.{true≢false}
use phala_inference_guard.Base.{
  ℕ, ◌-◌, ◌≤◌, ◌<◌, ◌≡◌, ◌⊎◌, ◌↔◌, leb_ℤ, refl, sym, ◌∙◌, subst, ap, true, false, Option, none,
  some, List, ◌∷◌, All, All-map, arith, get_elem?,
}
use phala_inference_guard.Go.Time.{Time, Duration, sub_time}
use phala_inference_guard.Admission.Demand.{rank, sheddable}
use phala_inference_guard.Server.Queue.{PriorityAdmissionRequest, PriorityAdmissionService}
use phala_inference_guard.Server.Queue.Choice.{older, outranks, waited, half, aged, choose_index}
use phala_inference_guard.Server.Queue.Choice.Pick.{Picks, nothing_eligible, unbeaten, pick-Picks}

older-irreflexive : (x : PriorityAdmissionRequest) → older x x ≡ false
older-irreflexive x = ground arith

older-replaces :
    (x y z : PriorityAdmissionRequest) → older x y ≡ true → older z y ≡ false → older z x ≡ false
older-replaces x y z h k = ground arith

outranks-irreflexive : (x : PriorityAdmissionRequest) → outranks x x ≡ false
outranks-irreflexive x = ground arith

outranks-replaces :
    (x y z : PriorityAdmissionRequest)
    → outranks x y ≡ true
    → outranks z y ≡ false
    → outranks z x ≡ false
outranks-replaces x y z h k = ground arith

from_start :
    {x : PriorityAdmissionRequest} (xs : List PriorityAdmissionRequest) (i : ℕ)
    → get_elem? xs (i - 0) ≡ some x
    → get_elem? xs i ≡ some x
from_start xs i h = let e : i - 0 ≡ i = omega arith in sym (ap (get_elem? xs) e) ∙ h

-- One item came no later than another.
abbrev pub NoLater : PriorityAdmissionRequest → PriorityAdmissionRequest → Type 0
NoLater x y = x.enqueued_at ≤ y.enqueued_at

-- One item is of a higher tier than another, or of the same and came no later.
abbrev pub NoLower : PriorityAdmissionRequest → PriorityAdmissionRequest → Type 0
NoLower x y =
    (rank y.demand.tier < rank x.demand.tier)
    ⊎ ((rank y.demand.tier ≡ rank x.demand.tier) × NoLater x y)

-- An item has waited for a time.
abbrev pub HasWaited : Duration → Time → PriorityAdmissionRequest → Type 0
HasWaited least now x = leb_ℤ least (sub_time now x.enqueued_at) ≡ true

-- An item of a tier that may be shed has waited for half of a time.
abbrev pub HasAged : Duration → Time → PriorityAdmissionRequest → Type 0
HasAged max_wait now x = (sheddable x.demand.tier ≡ true) × HasWaited (half max_wait) now x

-- Why an item of a queue is served next.
pub data Serves (max_wait : Duration) (now : Time) (xs : List PriorityAdmissionRequest)
    (x : PriorityAdmissionRequest) : Type 0 where
  -- it has waited for the whole bound, and no older one has
  expired :
      HasWaited max_wait now x
      → All (λ y. HasWaited max_wait now y → NoLater x y) xs
      → Serves max_wait now xs x
  -- nothing has, and it is sheddable and has waited for half, as no older one
  promoted :
      All (λ y. ¬ HasWaited max_wait now y) xs
      → HasAged max_wait now x
      → All (λ y. HasAged max_wait now y → NoLater x y) xs
      → Serves max_wait now xs x
  -- nothing has, none is sheddable and has waited for half, and none is of a higher tier, or older in
  -- the same
  ranked :
      All (λ y. ¬ HasWaited max_wait now y) xs
      → All (λ y. ¬ HasAged max_wait now y) xs
      → All (λ y. NoLower x y) xs
      → Serves max_wait now xs x

older-NoLater : (x y : PriorityAdmissionRequest) → older y x ≡ false → NoLater x y
older-NoLater x y h = ground arith

outranks-NoLower : (x y : PriorityAdmissionRequest) → outranks y x ≡ false → NoLower x y
outranks-NoLower x y h = ground arith

waited-HasWaited :
    (max_wait : Duration) (now : Time) (x : PriorityAdmissionRequest)
    → waited max_wait now x ≡ false
    → ¬ HasWaited max_wait now x
waited-HasWaited max_wait now x h k = true≢false (sym k ∙ h)

aged-HasAged :
    (max_wait : Duration) (now : Time) (x : PriorityAdmissionRequest)
    → (aged max_wait now x ≡ true) ↔ HasAged max_wait now x
aged-HasAged max_wait now x = ground arith

not_aged-HasAged :
    (max_wait : Duration) (now : Time) (x : PriorityAdmissionRequest)
    → aged max_wait now x ≡ false
    → ¬ HasAged max_wait now x
not_aged-HasAged max_wait now x h k = true≢false (sym ((aged-HasAged max_wait now x).1 k) ∙ h)

module _ {S : Type 0} where
  -- An index of the queue is chosen, and for a reason.
  abbrev pub Chooses :
      PriorityAdmissionService S → Time → Option (ℕ × PriorityAdmissionRequest) → Type 0
  Chooses s now o =
      (i : ℕ) × (x : PriorityAdmissionRequest) × (o ≡ some (i, x))
      × (get_elem? s.queue i ≡ some x)
      × Serves s.max_wait now s.queue x

  module _ (s : PriorityAdmissionService S) (now : Time) (y : PriorityAdmissionRequest)
      (ys : List PriorityAdmissionRequest) (q : s.queue ≡ y ∷ ys) where
    Chooses-ranked :
        (o : Option (ℕ × PriorityAdmissionRequest))
        → All (λ z. waited s.max_wait now z ≡ false) s.queue
        → All (λ z. aged s.max_wait now z ≡ false) s.queue
        → Picks (λ z. true) outranks s.queue 0 o
        → Chooses s now o
    Chooses-ranked o h k (nothing_eligible n) = absurd (true≢false (subst (All _) q n).0)
    Chooses-ranked o h k (unbeaten i x e top le found) = (
      i,
      x,
      refl,
      from_start s.queue i found,
      ranked (All-map _ _ s.queue (waited-HasWaited s.max_wait now) h)
          (All-map _ _ s.queue (not_aged-HasAged s.max_wait now) k)
          (All-map _ _ s.queue (λ z t. outranks-NoLower x z (t refl)) top),
    )

    Chooses-aged :
        (o o' : Option (ℕ × PriorityAdmissionRequest))
        → All (λ z. waited s.max_wait now z ≡ false) s.queue
        → Picks (aged s.max_wait now) older s.queue 0 o
        → Picks (λ z. true) outranks s.queue 0 o'
        → Chooses s now (elim o [ some chosen ↦ some chosen | none ↦ o' ])
    Chooses-aged o o' h (nothing_eligible k) p = Chooses-ranked o' h k p
    Chooses-aged o o' h (unbeaten i x e top le found) p = (
      i,
      x,
      refl,
      from_start s.queue i found,
      promoted (All-map _ _ s.queue (waited-HasWaited s.max_wait now) h)
          ((aged-HasAged s.max_wait now x).0 e)
          (All-map _ _ s.queue
            (λ z t k. older-NoLater x z (t ((aged-HasAged s.max_wait now z).1 k))) top),
    )

    Chooses-first :
        (o o' o'' : Option (ℕ × PriorityAdmissionRequest))
        → Picks (waited s.max_wait now) older s.queue 0 o
        → Picks (aged s.max_wait now) older s.queue 0 o'
        → Picks (λ z. true) outranks s.queue 0 o''
        → Chooses s now (elim o [
          | some chosen ↦ some chosen
          | none ↦ elim o' [ some chosen ↦ some chosen | none ↦ o'' ]
        ])
    Chooses-first o o' o'' (nothing_eligible h) p r = Chooses-aged o' o'' h p r
    Chooses-first o o' o'' (unbeaten i x e top le found) p r = (
      i,
      x,
      refl,
      from_start s.queue i found,
      expired e (All-map _ _ s.queue (λ z t k. older-NoLater x z (t k)) top),
    )

  -- When something is queued, `chooseIndex` gives an index of the queue. Its item is the oldest that
  -- has waited for the whole bound; if none has, the oldest sheddable one that has waited for half;
  -- if none has either, one that no other is above in tier, nor older than in the same tier.
  pub choose_index-Serves :
      (s : PriorityAdmissionService S) (now : Time) (y : PriorityAdmissionRequest)
      (ys : List PriorityAdmissionRequest)
      → s.queue ≡ y ∷ ys
      → (i : ℕ) × (x : PriorityAdmissionRequest) × (choose_index s now ≡ some (i, x))
        × (get_elem? s.queue i ≡ some x)
        × Serves s.max_wait now s.queue x
  unfolding choose_index
  choose_index-Serves s now y ys q =
      Chooses-first s now y ys q _ _ _
        (pick-Picks _ older older-irreflexive older-replaces s.queue 0)
        (pick-Picks _ older older-irreflexive older-replaces s.queue 0)
        (pick-Picks _ outranks outranks-irreflexive outranks-replaces s.queue 0)
