-- ===== src/Request/Classifier/Bounds.antt =====
-- The bounds on scanners and on the bytes that they hold, under any interleaving of their steps.
use mathlib.Core.Bool.{true≢false}
use phala_inference_guard.Base.{
  ℕ, ◌+◌, ◌-◌, ◌≤◌, ◌≡◌, refl, sym, ◌∙◌, ap, subst, Bool, true, false, ◌||◌, ltb, if◌then◌else◌,
  if-both, if-cases, ℤ, pos, negsuc, pos_part, ltb_ℤ, leb_ℤ, eq_ℤ, ◌+ℤ◌, ◌-ℤ◌, arith,
}
use phala_inference_guard.Request.Classifier.{
  ClassifierConfig, Classifier, outstanding_body_budget, new_classifier, take_token, return_token,
  reserve_body_bytes, release_body_bytes, reject, admit_scanner, reserve_scanner,
  body_reservation_bytes, acquire,
}

-- The steps of the scanners' calls, each one operation on a channel or on an atomic counter.
pub data ScannerStep : Type 0 where
  takes_token returns_token counts_in counts_out counts_rejected : ScannerStep
  reserves releases : ℤ → ScannerStep

unfoldable pub scanner_step : Classifier → ScannerStep → Classifier
scanner_step c takes_token = (take_token c).0
scanner_step c returns_token = return_token c
scanner_step c counts_in = record c { inflight = c.inflight +ℤ pos 1 }
scanner_step c counts_out = record c { inflight = c.inflight -ℤ pos 1 }
scanner_step c counts_rejected = reject c
scanner_step c (reserves bytes) = (reserve_body_bytes c bytes).0
scanner_step c (releases bytes) = (release_body_bytes c bytes).0

-- The classifiers that a new one can come to.
pub data ScannerReached (cfg : ClassifierConfig) : Classifier → Type 0 where
  made : ScannerReached cfg (new_classifier cfg)
  stepped :
      (c : Classifier) (k : ScannerStep)
      → ScannerReached cfg c
      → ScannerReached cfg (scanner_step c k)

record Bounded (cfg : ClassifierConfig) (c : Classifier) : Type 0 where
  capacity_eq : c.token_capacity ≡ pos_part cfg.maximum_concurrent
  budget_eq : c.maximum_reserved_body_bytes ≡ outstanding_body_budget cfg
  tokens_le : c.tokens_held ≤ c.token_capacity
  reserved_le :
      (r : ℕ) × (c.reserved_body_bytes ≡ pos r) × (r ≤ pos_part c.maximum_reserved_body_bytes)

reserve_le :
    (m : ℤ) (r : ℕ) (b : ℤ)
    → ltb_ℤ b (pos 0) ≡ false
    → r ≤ pos_part m
    → ltb_ℤ (m -ℤ pos r) b ≡ false
    → leb_ℤ m (pos 0) ≡ false
    → (n : ℕ) × (pos r +ℤ b ≡ pos n) × (n ≤ pos_part m)
reserve_le (pos m) r (pos b) h l k p = (r + b, ground arith, ground arith)
reserve_le (negsuc m) r (pos b) h l k p = absurd (ground arith)
reserve_le m r (negsuc b) h l k p = absurd (ground arith)

release_le :
    (m : ℤ) (r : ℕ) (b : ℤ)
    → ltb_ℤ b (pos 0) ≡ false
    → r ≤ pos_part m
    → ltb_ℤ (pos r) b ≡ false
    → (n : ℕ) × (pos r -ℤ b ≡ pos n) × (n ≤ pos_part m)
release_le m r (pos b) h l k = (r - b, ground arith, ground arith)
release_le m r (negsuc b) h l k = absurd (ground arith)

or_false : (a b : Bool) → (a || b) ≡ false → (a ≡ false) × (b ≡ false)
or_false false b h = (refl, h)
or_false true b h = cc

-- A write of the reserved bytes within the budget.
Bounded-reserved :
    (cfg : ClassifierConfig) (c : Classifier) (z : ℤ)
    → Bounded cfg c
    → (n : ℕ) × (z ≡ pos n) × (n ≤ pos_part c.maximum_reserved_body_bytes)
    → Bounded cfg (record c { reserved_body_bytes = z })
Bounded-reserved cfg c z v h = record {
  capacity_eq = v.capacity_eq;
  budget_eq = v.budget_eq;
  tokens_le = v.tokens_le;
  reserved_le = h;
}

Bounded-tokens :
    (cfg : ClassifierConfig) (c : Classifier) (n : ℕ)
    → Bounded cfg c
    → n ≤ c.token_capacity
    → Bounded cfg (record c { tokens_held = n })
Bounded-tokens cfg c n v h = record {
  capacity_eq = v.capacity_eq;
  budget_eq = v.budget_eq;
  tokens_le = h;
  reserved_le = v.reserved_le;
}

take_token-Bounded :
    (cfg : ClassifierConfig) (c : Classifier) → Bounded cfg c → Bounded cfg (take_token c).0
unfolding take_token
take_token-Bounded cfg c v =
    let P : Classifier × Bool → Type 0 = λ q. Bounded cfg q.0 in
    if-both P c.limited
      (if-cases P (ltb c.tokens_held c.token_capacity)
        (λ room. Bounded-tokens cfg c (c.tokens_held + 1) v (ground arith)) (λ none_left. v))
      v

return_token-Bounded :
    (cfg : ClassifierConfig) (c : Classifier) → Bounded cfg c → Bounded cfg (return_token c)
return_token-Bounded cfg c v =
    let le = v.tokens_le in
    Bounded-tokens cfg c (if c.limited then c.tokens_held - 1 else c.tokens_held) v
      (if-both (λ n. n ≤ c.token_capacity) c.limited (omega arith) le)

reserve_body_bytes-Bounded :
    (cfg : ClassifierConfig) (c : Classifier) (b : ℤ)
    → Bounded cfg c
    → Bounded cfg (reserve_body_bytes c b).0
unfolding reserve_body_bytes
reserve_body_bytes-Bounded cfg c b v =
    let P : Classifier × Bool → Type 0 = λ q. Bounded cfg q.0 in
    let m = c.maximum_reserved_body_bytes in
    let (r, e, le) = v.reserved_le in
    if-cases P (ltb_ℤ b (pos 0)) (λ h. v)
      λ whole.
        if-cases P (eq_ℤ b (pos 0) || leb_ℤ m (pos 0)) (λ h. v)
          λ counted.
            if-cases P
              (ltb_ℤ c.reserved_body_bytes (pos 0)
                || (ltb_ℤ m c.reserved_body_bytes || ltb_ℤ (m -ℤ c.reserved_body_bytes) b))
              (λ h. v)
              λ fits.
                let room = (or_false _ _ (or_false _ _ fits).1).1 in
                Bounded-reserved cfg c (c.reserved_body_bytes +ℤ b) v (
                  subst (λ z. (n : ℕ) × (z +ℤ b ≡ pos n) × (n ≤ pos_part m)) (sym e)
                    (reserve_le m r b whole le (subst (λ z. ltb_ℤ (m -ℤ z) b ≡ false) e room)
                      (or_false _ _ counted).1))

release_body_bytes-Bounded :
    (cfg : ClassifierConfig) (c : Classifier) (b : ℤ)
    → Bounded cfg c
    → Bounded cfg (release_body_bytes c b).0
unfolding release_body_bytes
release_body_bytes-Bounded cfg c b v =
    let P : Classifier × Bool → Type 0 = λ q. Bounded cfg q.0 in
    let m = c.maximum_reserved_body_bytes in
    let (r, e, le) = v.reserved_le in
    if-cases P (ltb_ℤ b (pos 0)) (λ h. v)
      λ whole.
        if-cases P (eq_ℤ b (pos 0) || leb_ℤ m (pos 0)) (λ h. v)
          λ counted.
            if-cases P (ltb_ℤ c.reserved_body_bytes b) (λ h. v)
              λ held. Bounded-reserved cfg c (c.reserved_body_bytes -ℤ b) v (
                subst (λ z. (n : ℕ) × (z -ℤ b ≡ pos n) × (n ≤ pos_part m)) (sym e)
                  (release_le m r b whole le (subst (λ z. ltb_ℤ z b ≡ false) e held)))

scanner_step-Bounded :
    (cfg : ClassifierConfig) (c : Classifier) (k : ScannerStep)
    → Bounded cfg c
    → Bounded cfg (scanner_step c k)
unfolding scanner_step
scanner_step-Bounded cfg c takes_token v = take_token-Bounded cfg c v
scanner_step-Bounded cfg c returns_token v = return_token-Bounded cfg c v
scanner_step-Bounded cfg c (reserves b) v = reserve_body_bytes-Bounded cfg c b v
scanner_step-Bounded cfg c (releases b) v = release_body_bytes-Bounded cfg c b v
scanner_step-Bounded cfg c counts_in v = record {
  capacity_eq = v.capacity_eq;
  budget_eq = v.budget_eq;
  tokens_le = v.tokens_le;
  reserved_le = v.reserved_le;
}
scanner_step-Bounded cfg c counts_out v = record {
  capacity_eq = v.capacity_eq;
  budget_eq = v.budget_eq;
  tokens_le = v.tokens_le;
  reserved_le = v.reserved_le;
}
scanner_step-Bounded cfg c counts_rejected v = record {
  capacity_eq = v.capacity_eq;
  budget_eq = v.budget_eq;
  tokens_le = v.tokens_le;
  reserved_le = v.reserved_le;
}

Bounded-Reached : (cfg : ClassifierConfig) (c : Classifier) → ScannerReached cfg c → Bounded cfg c
unfolding new_classifier
Bounded-Reached cfg c made = record {
  capacity_eq = refl;
  budget_eq = refl;
  tokens_le = omega arith;
  reserved_le = (0, refl, omega arith);
}
Bounded-Reached cfg c (stepped d k r) = scanner_step-Bounded cfg d k (Bounded-Reached cfg d r)

-- However the steps of concurrent scanners are interleaved, no more tokens are held than scanners may
-- run, and the bytes reserved are never negative nor above the budget of the configuration.
pub reserved_bytes-Reached :
    (cfg : ClassifierConfig) (c : Classifier)
    → ScannerReached cfg c
    → (c.tokens_held ≤ pos_part cfg.maximum_concurrent)
      × ((r : ℕ) × (c.reserved_body_bytes ≡ pos r) × (r ≤ pos_part (outstanding_body_budget cfg)))
reserved_bytes-Reached cfg c reached =
    let v = Bounded-Reached cfg c reached in
    let (r, e, le) = v.reserved_le in
    (
      subst (λ n. c.tokens_held ≤ n) v.capacity_eq v.tokens_le,
      (r, e, subst (λ z. r ≤ pos_part z) v.budget_eq le),
    )

admit_scanner-true :
    (q : Classifier × Bool)
    → (admit_scanner q).1 ≡ true
    → (admit_scanner q).0 ≡ scanner_step q.0 counts_in
unfolding admit_scanner scanner_step
admit_scanner-true (c, true) h = refl
admit_scanner-true (c, false) h = absurd (true≢false (sym h))

reserve_scanner-true :
    (q : Classifier × Bool) (b : ℤ)
    → (reserve_scanner q b).1 ≡ true
    → (reserve_scanner q b).0 ≡ scanner_step (scanner_step q.0 (reserves b)) counts_in
unfolding reserve_scanner scanner_step
reserve_scanner-true (c, true) b h = admit_scanner-true (reserve_body_bytes c b) h
reserve_scanner-true (c, false) b h = absurd (true≢false (sym h))

-- A call that admits a scanner takes a token, reserves its bytes and counts it, one after another.
pub acquire-steps :
    (c : Classifier) (n : ℤ)
    → (acquire c n).2 ≡ true
    → (acquire c n).0
      ≡ scanner_step
          (scanner_step (scanner_step c takes_token) (reserves (body_reservation_bytes c n)))
          counts_in
unfolding acquire scanner_step
acquire-steps c n h = reserve_scanner-true (take_token c) (body_reservation_bytes c n) h

-- A reservation that is refused changes nothing.
reserve_body_bytes-false :
    (c : Classifier) (b : ℤ) → (reserve_body_bytes c b).1 ≡ false → (reserve_body_bytes c b).0 ≡ c
unfolding reserve_body_bytes
reserve_body_bytes-false c b =
    let P : Classifier × Bool → Type 0 = λ q. q.1 ≡ false → q.0 ≡ c in
    if-both P (ltb_ℤ b (pos 0)) (λ h. refl)
      (if-both P (eq_ℤ b (pos 0) || leb_ℤ c.maximum_reserved_body_bytes (pos 0)) (λ h. refl)
        (if-both P
          (ltb_ℤ c.reserved_body_bytes (pos 0)
            || (ltb_ℤ c.maximum_reserved_body_bytes c.reserved_body_bytes
                || ltb_ℤ (c.maximum_reserved_body_bytes -ℤ c.reserved_body_bytes) b))
          (λ h. refl) (λ h. absurd (true≢false h))))

admit_scanner-false :
    (c : Classifier) (q : Classifier × Bool)
    → (q.1 ≡ false → q.0 ≡ c)
    → (admit_scanner q).1 ≡ false
    → (admit_scanner q).0 ≡ reject (return_token c)
unfolding admit_scanner
admit_scanner-false c (d, true) k h = absurd (true≢false h)
admit_scanner-false c (d, false) k h = ap (λ e. reject (return_token e)) (k refl)

reserve_scanner-false :
    (c : Classifier) (q : Classifier × Bool) (b : ℤ)
    → (q.1 ≡ false → q.0 ≡ c)
    → (q.1 ≡ true → return_token q.0 ≡ c)
    → (reserve_scanner q b).1 ≡ false
    → (reserve_scanner q b).0 ≡ reject c
unfolding reserve_scanner
reserve_scanner-false c (d, false) b k j h = ap reject (k refl)
reserve_scanner-false c (d, true) b k j h =
    admit_scanner-false d (reserve_body_bytes d b) (reserve_body_bytes-false d b) h
    ∙ ap reject (j refl)

-- A token that is taken can be returned.
return_token-take_token :
    (c : Classifier)
    → ((take_token c).1 ≡ false → (take_token c).0 ≡ c)
      × ((take_token c).1 ≡ true → return_token (take_token c).0 ≡ c)
unfolding take_token
return_token-take_token c =
    let P : Classifier × Bool → Type 0 =
      λ q. (q.1 ≡ false → q.0 ≡ c) × (q.1 ≡ true → return_token q.0 ≡ c) in
    let write : ℕ → Classifier = λ k. record c { tokens_held = k } in
    let back : c.tokens_held + 1 - 1 ≡ c.tokens_held = omega arith in
    if-cases P c.limited
      (λ channel.
        if-both P (ltb c.tokens_held c.token_capacity)
          (
            λ h. absurd (true≢false h),
            λ h.
                ap write
                  (ap (λ b. if b then c.tokens_held + 1 - 1 else c.tokens_held + 1) channel ∙ back),
          )
          (λ h. refl, λ h. absurd (true≢false (sym h))))
      λ free. (
        λ h. absurd (true≢false h),
        λ h. ap write (ap (λ b. if b then c.tokens_held - 1 else c.tokens_held) free),
      )

-- A call that admits no scanner changes nothing but the number of rejections: what it took, it gives
-- back.
pub acquire_refused :
    (c : Classifier) (n : ℤ) → (acquire c n).2 ≡ false → (acquire c n).0 ≡ reject c
unfolding acquire
acquire_refused c n h =
    let t = return_token-take_token c in
    reserve_scanner-false c (take_token c) (body_reservation_bytes c n) t.0 t.1 h
