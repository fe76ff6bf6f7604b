-- ===== src/Server/Queue/Choice/Pick.antt =====
-- The three loops of `chooseIndex`: what one of them selects.
use mathlib.Core.Bool.{true≢false}
use phala_inference_guard.Base.{
  ℕ, suc, ◌-◌, ◌≤◌, ◌≡◌, refl, sym, ◌∙◌, subst, ap, ◌⊎◌, inl, inr, Bool, true, false, ◌&&◌, Option,
  none, some, List, [], ◌∷◌, All, arith, Bool-cases, &&-true, get_elem?,
}
use phala_inference_guard.Server.Queue.{PriorityAdmissionRequest}
use phala_inference_guard.Server.Queue.Choice.{pick}

-- What a loop of `chooseIndex` finds in a list, from an index on: nothing eligible, or the index of
-- an eligible item that no eligible one beats.
pub data Picks (eligible : PriorityAdmissionRequest → Bool)
    (beats : PriorityAdmissionRequest → PriorityAdmissionRequest → Bool)
    (xs : List PriorityAdmissionRequest) (i : ℕ)
    : Option (ℕ × PriorityAdmissionRequest) → Type 0 where
  nothing_eligible : All (λ y. eligible y ≡ false) xs → Picks eligible beats xs i none
  unbeaten :
      (k : ℕ) (x : PriorityAdmissionRequest)
      → eligible x ≡ true
      → All (λ y. eligible y ≡ true → beats y x ≡ false) xs
      → i ≤ k
      → get_elem? xs (k - i) ≡ some x
      → Picks eligible beats xs i (some (k, x))

get_elem?-later :
    (y : PriorityAdmissionRequest) (ys : List PriorityAdmissionRequest) (i k : ℕ)
    → suc i ≤ k
    → get_elem? (y ∷ ys) (k - i) ≡ get_elem? ys (k - suc i)
get_elem?-later y ys i k h =
    let e : k - i ≡ suc (k - suc i) = omega arith in ap (get_elem? (y ∷ ys)) e

get_elem?-here :
    (y : PriorityAdmissionRequest) (ys : List PriorityAdmissionRequest) (i : ℕ)
    → get_elem? (y ∷ ys) (i - i) ≡ some y
get_elem?-here y ys i = let e : i - i ≡ 0 = omega arith in ap (get_elem? (y ∷ ys)) e

-- The item that a loop ends with, when it runs over a list from an index on and holds an item.
record Wins (eligible : PriorityAdmissionRequest → Bool)
    (beats : PriorityAdmissionRequest → PriorityAdmissionRequest → Bool)
    (xs : List PriorityAdmissionRequest) (i j : ℕ) (held : PriorityAdmissionRequest) (k : ℕ)
    (x : PriorityAdmissionRequest) : Type 0 where
  fits : eligible x ≡ true
  improves : (z : PriorityAdmissionRequest) → beats z held ≡ false → beats z x ≡ false
  tops : All (λ y. eligible y ≡ true → beats y x ≡ false) xs
  place : ((k ≡ j) × (x ≡ held)) ⊎ ((i ≤ k) × (get_elem? xs (k - i) ≡ some x))

module _ (eligible : PriorityAdmissionRequest → Bool)
    (beats : PriorityAdmissionRequest → PriorityAdmissionRequest → Bool)
    (irreflexive : (x : PriorityAdmissionRequest) → beats x x ≡ false)
    (replaces : (x y z : PriorityAdmissionRequest)
      → beats x y ≡ true
      → beats z y ≡ false
      → beats z x ≡ false) where
  Wins-replaced :
      (y : PriorityAdmissionRequest) (ys : List PriorityAdmissionRequest) (i j : ℕ)
      (held : PriorityAdmissionRequest) (k : ℕ) (x : PriorityAdmissionRequest)
      → beats y held ≡ true
      → Wins eligible beats ys (suc i) i y k x
      → Wins eligible beats (y ∷ ys) i j held k x
  Wins-replaced y ys i j held k x b w = record {
    fits = w.fits;
    improves = λ z h. w.improves z (replaces y held z b h);
    tops = (λ e. w.improves y (irreflexive y), w.tops);
    place = elim w.place [
      | inl (at, same) ↦ inr (
        omega arith,
        subst (λ n. get_elem? (y ∷ ys) (n - i) ≡ some x) (sym at)
            (get_elem?-here y ys i ∙ ap some (sym same)),
      )
      | inr (le, found) ↦ inr (omega arith, get_elem?-later y ys i k le ∙ found)
    ];
  }

  Wins-kept :
      (y : PriorityAdmissionRequest) (ys : List PriorityAdmissionRequest) (i j : ℕ)
      (held : PriorityAdmissionRequest) (k : ℕ) (x : PriorityAdmissionRequest)
      → (eligible y && beats y held) ≡ false
      → Wins eligible beats ys (suc i) j held k x
      → Wins eligible beats (y ∷ ys) i j held k x
  Wins-kept y ys i j held k x b w = record {
    fits = w.fits;
    improves = w.improves;
    tops = (λ e. w.improves y (rw e at b), w.tops);
    place = elim w.place [
      | inl same ↦ inl same
      | inr (le, found) ↦ inr (omega arith, get_elem?-later y ys i k le ∙ found)
    ];
  }

  pick-Wins :
      (xs : List PriorityAdmissionRequest) (i j : ℕ) (held : PriorityAdmissionRequest)
      → eligible held ≡ true
      → (k : ℕ) × (x : PriorityAdmissionRequest) × (pick eligible beats xs i (some (j, held))
          ≡ some (k, x))
        × Wins eligible beats xs i j held k x
  pick-Wins [] i j held e =
      (j, held, refl, record { fits = e; improves = λ z h. h; tops = tt; place = inl (refl, refl) })
  pick-Wins (y ∷ ys) i j held e = elim (Bool-cases (eligible y && beats y held)) [
    | inl takes_y ↦
        let (k, x, run, w) = pick-Wins ys (suc i) i y (&&-true (eligible y) _ takes_y).0 in
        (k, x, rw takes_y run, Wins-replaced y ys i j held k x (&&-true (eligible y) _ takes_y).1 w)
    | inr keeps ↦
        let (k, x, run, w) = pick-Wins ys (suc i) j held e in
        (k, x, rw keeps run, Wins-kept y ys i j held k x keeps w)
  ]

  -- The loop over a list after an item that it does not select.
  Picks-skip :
      (y : PriorityAdmissionRequest) (ys : List PriorityAdmissionRequest) (i : ℕ)
      (o : Option (ℕ × PriorityAdmissionRequest))
      → eligible y ≡ false
      → Picks eligible beats ys (suc i) o
      → Picks eligible beats (y ∷ ys) i o
  Picks-skip y ys i o refused (nothing_eligible h) = nothing_eligible (refused, h)
  Picks-skip y ys i o refused (unbeaten k x e h le found) =
      unbeaten k x e (λ m. absurd (true≢false (sym m ∙ refused)), h) (omega arith)
        (get_elem?-later y ys i k le ∙ found)

  Picks-first :
      (y : PriorityAdmissionRequest) (ys : List PriorityAdmissionRequest) (i k : ℕ)
      (x : PriorityAdmissionRequest)
      → Wins eligible beats ys (suc i) i y k x
      → Picks eligible beats (y ∷ ys) i (some (k, x))
  Picks-first y ys i k x w =
      unbeaten k x w.fits (λ e. w.improves y (irreflexive y), w.tops)
        (elim w.place [ inl (at, same) ↦ omega arith | inr (le, found) ↦ omega arith ])
        (elim w.place [
          | inl (at, same) ↦
              subst (λ n. get_elem? (y ∷ ys) (n - i) ≡ some x) (sym at)
                (get_elem?-here y ys i ∙ ap some (sym same))
          | inr (le, found) ↦ get_elem?-later y ys i k le ∙ found
        ])

  pub pick-Picks :
      (xs : List PriorityAdmissionRequest) (i : ℕ)
      → Picks eligible beats xs i (pick eligible beats xs i none)
  pick-Picks [] i = nothing_eligible tt
  pick-Picks (y ∷ ys) i = elim (Bool-cases (eligible y)) [
    | inl fits ↦
        let (k, x, run, w) = pick-Wins ys (suc i) i y fits in
        rw (fits, run) (Picks-first y ys i k x w)
    | inr refused ↦ rw refused (Picks-skip y ys i _ refused (pick-Picks ys (suc i)))
  ]
