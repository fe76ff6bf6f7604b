-- ===== src/Server/Queue/Choice.antt =====
-- priority_admission.go: `next` and `chooseIndex`, the order in which queued requests are served.
pub mod Pick
pub mod Order
use phala_inference_guard.Base.{
  ℕ, zero, suc, ◌/◌, Bool, true, false, ◌&&◌, ◌||◌, ◌==◌, ltb, if◌then◌else◌, Option, none, some,
  List, [], ◌∷◌, ℤ, pos, negsuc, sub_ℕ, leb_ℤ,
}
use phala_inference_guard.Go.Time.{Time, Duration, before, sub_time, add_time}
use phala_inference_guard.Admission.Demand.{rank, sheddable}
use phala_inference_guard.Server.Queue.{PriorityAdmissionRequest, PriorityAdmissionService}

-- `enqueuedAt.Before`.
abbrev pub older : PriorityAdmissionRequest → PriorityAdmissionRequest → Bool
older x y = before x.enqueued_at y.enqueued_at

-- A higher tier, or the same and older.
abbrev pub outranks : PriorityAdmissionRequest → PriorityAdmissionRequest → Bool
outranks x y =
    ltb (rank y.demand.tier) (rank x.demand.tier)
    || (rank x.demand.tier == rank y.demand.tier && older x y)

-- The wait reaches a bound.
abbrev pub waited : Duration → Time → PriorityAdmissionRequest → Bool
waited bound now x = leb_ℤ bound (sub_time now x.enqueued_at)

-- Whether a loop of `chooseIndex` selects an item over the one it holds, -1 being none.
abbrev pub selects :
    (PriorityAdmissionRequest → PriorityAdmissionRequest → Bool)
    → PriorityAdmissionRequest
    → Option (ℕ × PriorityAdmissionRequest)
    → Bool
selects beats x none = true
selects beats x (some (j, y)) = beats x y

-- A loop of `chooseIndex`, from an index on: what it holds is the selected index with its item.
abbrev pub pick :
    (PriorityAdmissionRequest → Bool)
    → (PriorityAdmissionRequest → PriorityAdmissionRequest → Bool)
    → List PriorityAdmissionRequest
    → ℕ
    → Option (ℕ × PriorityAdmissionRequest)
    → Option (ℕ × PriorityAdmissionRequest)
pick eligible beats [] i held = held
pick eligible beats (x ∷ xs) i held =
    pick eligible beats xs (suc i)
      (if eligible x && selects beats x held then some (i, x) else held)

-- Go divides a negative duration towards zero.
abbrev pub half : Duration → Duration
half (pos n) = pos (n / 2)
half (negsuc n) = sub_ℕ 0 (suc n / 2)

abbrev pub aged : Duration → Time → PriorityAdmissionRequest → Bool
aged max_wait now x = sheddable x.demand.tier && waited (half max_wait) now x

abbrev pub oldest_from : Time → List PriorityAdmissionRequest → Time
oldest_from t [] = t
oldest_from t (x ∷ xs) = oldest_from (if before x.enqueued_at t then x.enqueued_at else t) xs

-- `append(queue[:i], queue[i+1:]...)`.
abbrev pub remove_at : ℕ → List PriorityAdmissionRequest → List PriorityAdmissionRequest
remove_at i [] = []
remove_at zero (x ∷ xs) = xs
remove_at (suc i) (x ∷ xs) = x ∷ remove_at i xs

-- What `next` returns: an item, how long to wait, and whether the service is closed.
abbrev pub Turn : Type 0
Turn = Option PriorityAdmissionRequest × Duration × Bool

module _ {S : Type 0} where
  -- The selected index with its item; `none` is -1, which only an empty queue gives.
  unfoldable pub choose_index :
      PriorityAdmissionService S → Time → Option (ℕ × PriorityAdmissionRequest)
  choose_index s now = elim (pick (waited s.max_wait now) older s.queue 0 none) [
    | some chosen ↦ some chosen
    | none ↦ elim (pick (aged s.max_wait now) older s.queue 0 none) [
      | some chosen ↦ some chosen
      | none ↦ pick (λ x. true) outranks s.queue 0 none
    ]
  ]

  unfoldable pub take_chosen :
      PriorityAdmissionService S
      → Option (ℕ × PriorityAdmissionRequest)
      → Turn × PriorityAdmissionService S
  take_chosen s none = ((none, pos 0, false), s)
  take_chosen s (some (i, x)) = ((some x, pos 0, false), record s { queue = remove_at i s.queue })

  unfoldable pub next_ready :
      PriorityAdmissionService S → Time → Time → Turn × PriorityAdmissionService S
  unfolding choose_index take_chosen
  next_ready s oldest now =
      let ready_at = add_time oldest s.coalesce in
      if before now ready_at
      then ((none, sub_time ready_at now, false), s)
      else take_chosen s (choose_index s now)

  unfoldable pub next_queued :
      PriorityAdmissionService S
      → List PriorityAdmissionRequest
      → Time
      → Turn × PriorityAdmissionService S
  unfolding next_ready
  next_queued s [] now = ((none, pos 0, false), s)
  next_queued s (x ∷ xs) now = next_ready s (oldest_from x.enqueued_at xs) now

  unfoldable pub next_item : PriorityAdmissionService S → Time → Turn × PriorityAdmissionService S
  unfolding next_queued
  next_item s now = if s.is_closed then ((none, pos 0, true), s) else next_queued s s.queue now
