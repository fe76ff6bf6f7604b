-- ===== src/Server/Queue/Turns.antt =====
-- What `next` gives the worker, by cases.
use mathlib.Core.List.Perm
use mathlib.Core.List.{Perm}
use phala_inference_guard.Base.{
  ℕ, zero, suc, ◌≡◌, refl, sym, ◌∙◌, ap, subst, inl, inr, Bool, true, false, if◌then◌else◌, if-both,
  All, Option, none, some, List, [], ◌∷◌, pos, Bool-cases, get_elem?, length,
}
use phala_inference_guard.Go.Time.{Time, Duration, before, add_time}
use phala_inference_guard.Server.Queue.{PriorityAdmissionRequest, PriorityAdmissionService}
use phala_inference_guard.Server.Queue.Choice.{
  oldest_from, remove_at, Turn, take_chosen, next_ready, next_queued, next_item,
}
use phala_inference_guard.Server.Queue.Choice.Order.{Serves, Chooses, choose_index-Serves}

Perm-remove_at :
    {x : PriorityAdmissionRequest} (i : ℕ) (xs : List PriorityAdmissionRequest)
    → get_elem? xs i ≡ some x
    → Perm (x ∷ remove_at i xs) xs
Perm-remove_at i [] e = cc
Perm-remove_at zero (y ∷ ys) e = subst (λ z. Perm (z ∷ ys) (y ∷ ys)) (cc) (Perm.refl (y ∷ ys))
Perm-remove_at (suc i) (y ∷ ys) e =
    Perm.trans (Perm.swap _ _ _) (Perm.cons y (Perm-remove_at i ys e))

length-remove_at :
    {x : PriorityAdmissionRequest} (i : ℕ) (xs : List PriorityAdmissionRequest)
    → get_elem? xs i ≡ some x
    → suc (length (remove_at i xs)) ≡ length xs
length-remove_at i [] e = cc
length-remove_at zero (y ∷ ys) e = refl
length-remove_at (suc i) (y ∷ ys) e = ap suc (length-remove_at i ys e)

oldest_from-due :
    (P : Time → Type 0) (t : Time) (xs : List PriorityAdmissionRequest)
    → P t
    → All (λ x. P x.enqueued_at) xs
    → P (oldest_from t xs)
oldest_from-due P t [] p h = p
oldest_from-due P t (x ∷ xs) p h =
    oldest_from-due P (if before x.enqueued_at t then x.enqueued_at else t) xs
      (if-both P (before x.enqueued_at t) h.0 p) h.1

module _ {S : Type 0} where
  -- The service is closed; or nothing is due; or one item leaves the queue, the one to serve.
  pub data Turns (s : PriorityAdmissionService S) (now : Time)
      : Turn × PriorityAdmissionService S → Type 0 where
    stops : s.is_closed ≡ true → Turns s now ((none, pos 0, true), s)
    idles : (wait : Duration) → s.is_closed ≡ false → Turns s now ((none, wait, false), s)
    takes :
        (x : PriorityAdmissionRequest) (others : List PriorityAdmissionRequest)
        → s.is_closed ≡ false
        → Perm (x ∷ others) s.queue
        → suc (length others) ≡ length s.queue
        → Serves s.max_wait now s.queue x
        → Turns s now ((some x, pos 0, false), record s { queue = others })

  Turns-chosen :
      (s : PriorityAdmissionService S) (now : Time)
      → s.is_closed ≡ false
      → (o : Option (ℕ × PriorityAdmissionRequest)) → Chooses s now o
      → Turns s now (take_chosen s o)
  unfolding take_chosen
  Turns-chosen s now h o (i, x, e, found, why) =
      subst (λ o. Turns s now (take_chosen s o)) (sym e)
        (takes x (remove_at i s.queue) h (Perm-remove_at i s.queue found)
          (length-remove_at i s.queue found) why)

  Turns-queued :
      (s : PriorityAdmissionService S) (now : Time)
      → s.is_closed ≡ false
      → (xs : List PriorityAdmissionRequest) → s.queue ≡ xs
      → Turns s now (next_queued s xs now)
  unfolding next_queued next_ready
  Turns-queued s now h [] q = idles (pos 0) h
  Turns-queued s now h (y ∷ ys) q =
      elim (Bool-cases (before now (add_time (oldest_from y.enqueued_at ys) s.coalesce))) [
        | inl early ↦ rw early (idles _ h)
        | inr due ↦ rw due (Turns-chosen s now h _ (choose_index-Serves s now y ys q))
      ]

  Turns-intake :
      (s : PriorityAdmissionService S) (now : Time) (b : Bool)
      → s.is_closed ≡ b
      → Turns s now (if b then ((none, pos 0, true), s) else next_queued s s.queue now)
  Turns-intake s now true h = stops h
  Turns-intake s now false h = Turns-queued s now h s.queue refl

  -- What `next` returns on any service.
  pub next_item-Turns :
      (s : PriorityAdmissionService S) (now : Time) → Turns s now (next_item s now)
  unfolding next_item
  next_item-Turns s now = Turns-intake s now s.is_closed refl

  -- An open service gives an item when each one queued is past the coalescing delay.
  pub next_item_due :
      (s : PriorityAdmissionService S) (now : Time) (y : PriorityAdmissionRequest)
      (ys : List PriorityAdmissionRequest)
      → s.is_closed ≡ false
      → s.queue ≡ y ∷ ys
      → All (λ x. before now (add_time x.enqueued_at s.coalesce) ≡ false) (y ∷ ys)
      → (x : PriorityAdmissionRequest) × (others : List PriorityAdmissionRequest) × (next_item s now
          ≡ ((some x, pos 0, false), record s { queue = others }))
        × Perm (x ∷ others) s.queue
        × Serves s.max_wait now s.queue x
  unfolding next_item next_queued next_ready take_chosen
  next_item_due s now y ys intake q due =
      let (i, x, e, found, why) = choose_index-Serves s now y ys q in
      let past =
        oldest_from-due (λ t. before now (add_time t s.coalesce) ≡ false) y.enqueued_at ys due.0
          due.1 in
      let run : next_queued s (y ∷ ys) now
          ≡ ((some x, pos 0, false), record s { queue = remove_at i s.queue }) =
        rw (next_queued, next_ready, past, e) refl in
      (
        x,
        remove_at i s.queue,
        ap (λ b. if b then ((none, pos 0, true), s) else next_queued s s.queue now) intake
            ∙ ap (λ l. next_queued s l now) q
            ∙ run,
        Perm-remove_at i s.queue found,
        why,
      )
