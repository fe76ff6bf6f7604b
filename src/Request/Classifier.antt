-- ===== src/Request/Classifier.antt =====
-- internal/app/request/classifier.go and types.go: how many scanners run at once, and how many bytes
-- of request bodies they hold. The channel of tokens is its capacity and the number of tokens in it.
pub mod Bounds
use phala_inference_guard.Base.{
  ℕ, ◌+◌, ◌-◌, ◌*◌, ◌/◌, ◌%◌, Bool, true, false, ◌&&◌, ◌||◌, ltb, leb, if◌then◌else◌, ℤ, pos,
  pos_part, ltb_ℤ, leb_ℤ, eq_ℤ, ◌+ℤ◌, ◌-ℤ◌,
}
use phala_inference_guard.Go.Words.{word}

abbrev pub maximum_retained_body_buffer_bytes : ℕ
maximum_retained_body_buffer_bytes = 33_554_432

abbrev pub maximum_outstanding_body_bytes : ℕ
maximum_outstanding_body_bytes = 33_554_432

-- `bytes.MinRead`.
abbrev pub min_read : ℕ
min_read = 512

pub record ClassifierConfig : Type 0 where
  pub maximum_body_bytes : ℤ
  pub maximum_concurrent : ℤ

pub record Classifier : Type 0 where
  pub cfg : ClassifierConfig
  -- whether there is a channel: without one, no token is taken
  pub limited : Bool
  pub token_capacity : ℕ
  pub tokens_held : ℕ
  pub retained_buffers : ℕ
  pub maximum_reserved_body_bytes : ℤ
  pub inflight : ℤ
  pub reserved_body_bytes : ℤ
  pub rejected_total : ℕ

-- The product of a body's bound and the number of scanners, held to a maximum.
abbrev pub budget_of : ℕ → ℕ → ℕ → ℕ
budget_of maximum body concurrent =
    if ltb (maximum / concurrent) body
    then maximum
    else if ltb (body * concurrent) maximum
    then body * concurrent
    else maximum

unfoldable pub outstanding_body_budget : ClassifierConfig → ℤ
outstanding_body_budget cfg =
    if leb_ℤ cfg.maximum_body_bytes (pos 0)
    then pos 0
    else let body = pos_part cfg.maximum_body_bytes in
      let maximum =
        if ltb maximum_outstanding_body_bytes body then body else maximum_outstanding_body_bytes in
      if leb_ℤ cfg.maximum_concurrent (pos 0)
      then pos maximum
      else pos (budget_of maximum body (pos_part cfg.maximum_concurrent))

unfoldable pub retained_body_buffer_count : ClassifierConfig → ℕ
retained_body_buffer_count cfg =
    if leb_ℤ cfg.maximum_body_bytes (pos 0)
      || ltb_ℤ (pos (maximum_retained_body_buffer_bytes - min_read)) cfg.maximum_body_bytes
    then 0
    else let concurrent =
        if ltb_ℤ cfg.maximum_concurrent (pos 1) then 1 else pos_part cfg.maximum_concurrent in
      let retained =
        maximum_retained_body_buffer_bytes / (pos_part cfg.maximum_body_bytes + min_read) in
      if ltb concurrent retained then concurrent else retained

unfoldable pub new_classifier : ClassifierConfig → Classifier
unfolding outstanding_body_budget retained_body_buffer_count
new_classifier cfg = record {
  cfg = cfg;
  limited = ltb_ℤ (pos 0) cfg.maximum_concurrent;
  token_capacity = pos_part cfg.maximum_concurrent;
  tokens_held = 0;
  retained_buffers = retained_body_buffer_count cfg;
  maximum_reserved_body_bytes = outstanding_body_budget cfg;
  inflight = pos 0;
  reserved_body_bytes = pos 0;
  rejected_total = 0;
}

-- The token that a scanner takes without waiting, if there is a limit.
unfoldable pub take_token : Classifier → Classifier × Bool
take_token c =
    if c.limited
    then if ltb c.tokens_held c.token_capacity
      then (record c { tokens_held = c.tokens_held + 1 }, true)
      else (c, false)
    else (c, true)

-- `<-c.tokens`, if there is a limit.
abbrev pub return_token : Classifier → Classifier
return_token c = record c { tokens_held = if c.limited then c.tokens_held - 1 else c.tokens_held }

unfoldable pub body_reservation_bytes : Classifier → ℤ → ℤ
body_reservation_bytes c content_length =
    if leb_ℤ c.cfg.maximum_body_bytes (pos 0)
    then pos 0
    else if leb_ℤ content_length (pos 0) || ltb_ℤ c.cfg.maximum_body_bytes content_length
    then c.cfg.maximum_body_bytes
    else content_length

-- The compare-and-swap loop is one step: it ends at a value that no other call has changed.
unfoldable pub reserve_body_bytes : Classifier → ℤ → Classifier × Bool
reserve_body_bytes c bytes =
    if ltb_ℤ bytes (pos 0)
    then (c, false)
    else if eq_ℤ bytes (pos 0) || leb_ℤ c.maximum_reserved_body_bytes (pos 0)
    then (c, true)
    else if ltb_ℤ c.reserved_body_bytes (pos 0)
        || (ltb_ℤ c.maximum_reserved_body_bytes c.reserved_body_bytes
            || ltb_ℤ (c.maximum_reserved_body_bytes -ℤ c.reserved_body_bytes) bytes)
    then (c, false)
    else (record c { reserved_body_bytes = c.reserved_body_bytes +ℤ bytes }, true)

unfoldable pub release_body_bytes : Classifier → ℤ → Classifier × Bool
release_body_bytes c bytes =
    if ltb_ℤ bytes (pos 0)
    then (c, false)
    else if eq_ℤ bytes (pos 0) || leb_ℤ c.maximum_reserved_body_bytes (pos 0)
    then (c, true)
    else if ltb_ℤ c.reserved_body_bytes bytes
    then (c, false)
    else (record c { reserved_body_bytes = c.reserved_body_bytes -ℤ bytes }, true)

abbrev pub reject : Classifier → Classifier
reject c = record c { rejected_total = (c.rejected_total + 1) % word }

-- What follows the reservation: the scanner is counted, or its token is returned.
unfoldable pub admit_scanner : Classifier × Bool → Classifier × Bool
admit_scanner (c, true) = (record c { inflight = c.inflight +ℤ pos 1 }, true)
admit_scanner (c, false) = (reject (return_token c), false)

unfoldable pub reserve_scanner : Classifier × Bool → ℤ → Classifier × Bool
unfolding admit_scanner reserve_body_bytes
reserve_scanner (c, false) bytes = (reject c, false)
reserve_scanner (c, true) bytes = admit_scanner (reserve_body_bytes c bytes)

-- The classifier, the bytes reserved and whether a scanner is admitted.
unfoldable pub acquire : Classifier → ℤ → Classifier × ℤ × Bool
unfolding take_token body_reservation_bytes reserve_scanner
acquire c content_length =
    let bytes = body_reservation_bytes c content_length in
    let q = reserve_scanner (take_token c) bytes in (q.0, if q.1 then bytes else pos 0, q.1)

unfoldable pub release_scanner : Classifier → Classifier
release_scanner c = let c1 = return_token c in record c1 { inflight = c1.inflight -ℤ pos 1 }
