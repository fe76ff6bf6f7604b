-- ===== src/Admission/Exposure.antt =====
-- internal/admission/sequence_exposure.go: 128-bit sequence time and the exposure ledger.
pub mod Wide
pub mod Invariant
pub mod Moves
use phala_inference_guard.Base.{
  ℕ, ◌+◌, ◌==◌, Bool, true, false, not, ◌&&◌, ◌||◌, Option, none, some, ℤ, pos, pos_part, ltb, leb,
  ltb_ℤ, leb_ℤ, eq_ℤ, ◌+ℤ◌, ◌-ℤ◌, if◌then◌else◌, negsuc,
}
use phala_inference_guard.Go.Words.{max_int64, mul64, add64, sub64}
use phala_inference_guard.Go.Time.{Time, Duration, is_zero, before, sub_time}

pub record SequenceNanoseconds : Type 0 where
  pub high : ℕ
  pub low : ℕ

abbrev pub no_nanoseconds : SequenceNanoseconds
no_nanoseconds = record { high = 0; low = 0 }

-- `none` is the false flag.
unfoldable pub add_duration : SequenceNanoseconds → Duration → ℤ → Option SequenceNanoseconds
add_duration n duration sequences =
    if ltb_ℤ duration (pos 0) || ltb_ℤ sequences (pos 0)
    then none
    else let (h, l) = mul64 (pos_part duration) (pos_part sequences) in
      let (low', carry) = add64 n.low l 0 in
      let (high', overflow) = add64 n.high h carry in
      if not (overflow == 0) then none else some (record { high = high'; low = low' })

unfoldable pub subtract : SequenceNanoseconds → SequenceNanoseconds → Option SequenceNanoseconds
subtract n previous =
    let (low', borrow) = sub64 n.low previous.low 0 in
    let (high', underflow) = sub64 n.high previous.high borrow in
    if not (underflow == 0) then none else some (record { high = high'; low = low' })

-- -1, 0 or 1.
unfoldable pub compare_nanoseconds : SequenceNanoseconds → SequenceNanoseconds → ℤ
compare_nanoseconds n other =
    if ltb n.high other.high || (n.high == other.high && ltb n.low other.low)
    then negsuc 0
    else if n.high == other.high && n.low == other.low
    then pos 0
    else pos 1

pub record SequenceExposureSnapshot : Type 0 where
  pub forwarded_nanoseconds : SequenceNanoseconds
  pub response_nanoseconds : SequenceNanoseconds

abbrev pub empty_exposure : SequenceExposureSnapshot
empty_exposure = record {
  forwarded_nanoseconds = no_nanoseconds;
  response_nanoseconds = no_nanoseconds;
}

unfoldable pub valid_exposure : SequenceExposureSnapshot → Bool
valid_exposure s =
    leb_ℤ (compare_nanoseconds s.response_nanoseconds s.forwarded_nanoseconds) (pos 0)

-- The source returns the result with the flag `result.valid()`; its caller drops it when false.
unfoldable pub subtract_exposure :
    SequenceExposureSnapshot → SequenceExposureSnapshot → Option SequenceExposureSnapshot
subtract_exposure s previous =
    if not (valid_exposure s) || not (valid_exposure previous)
    then none
    else elim (subtract s.forwarded_nanoseconds previous.forwarded_nanoseconds) [
      | none ↦ none
      | some f ↦ elim (subtract s.response_nanoseconds previous.response_nanoseconds) [
        | none ↦ none
        | some r ↦
            let result : SequenceExposureSnapshot = record {
              forwarded_nanoseconds = f;
              response_nanoseconds = r;
            } in
            if valid_exposure result then some result else none
      ]
    ]

pub record SequenceExposureLedger : Type 0 where
  pub initialized : Bool
  pub last_event_at : Time
  pub active_forwarded_sequences : ℤ
  pub active_response_sequences : ℤ
  pub forwarded_sequence_time : SequenceNanoseconds
  pub response_sequence_time : SequenceNanoseconds

-- `sequenceExposureLedger{}`, which `reset` restores.
abbrev pub empty_ledger : SequenceExposureLedger
empty_ledger = record {
  initialized = false;
  last_event_at = 0;
  active_forwarded_sequences = pos 0;
  active_response_sequences = pos 0;
  forwarded_sequence_time = no_nanoseconds;
  response_sequence_time = no_nanoseconds;
}

abbrev pub is_no_time : SequenceNanoseconds → Bool
is_no_time n = n.high == 0 && n.low == 0

unfoldable pub valid_ledger : SequenceExposureLedger → Bool
valid_ledger l =
    if ltb_ℤ l.active_forwarded_sequences (pos 0)
      || (ltb_ℤ l.active_response_sequences (pos 0)
          || (ltb_ℤ l.active_forwarded_sequences l.active_response_sequences
              || ltb_ℤ (pos 0)
                  (compare_nanoseconds l.response_sequence_time l.forwarded_sequence_time)))
    then false
    else if not l.initialized
    then is_zero l.last_event_at
      && (eq_ℤ l.active_forwarded_sequences (pos 0)
          && (eq_ℤ l.active_response_sequences (pos 0)
              && (is_no_time l.forwarded_sequence_time && is_no_time l.response_sequence_time)))
    else not (is_zero l.last_event_at)

-- A method returns the ledger as it leaves it, and its flag.
abbrev flagged : SequenceExposureLedger → SequenceExposureLedger × Bool
flagged l = (l, valid_ledger l)

-- The tail of `advance`: both integrals have to be there, and in order.
unfoldable pub record_integrals :
    SequenceExposureLedger
    → Time
    → Option SequenceNanoseconds
    → Option SequenceNanoseconds
    → SequenceExposureLedger × Bool
record_integrals l now none response = (l, false)
record_integrals l now (some f) none = (l, false)
record_integrals l now (some f) (some r) =
    if ltb_ℤ (pos 0) (compare_nanoseconds r f)
    then (l, false)
    else flagged
        (record l { last_event_at = now; forwarded_sequence_time = f; response_sequence_time = r })

unfoldable pub integrate : SequenceExposureLedger → Time → Duration → SequenceExposureLedger × Bool
integrate l now elapsed =
    record_integrals l now
      (add_duration l.forwarded_sequence_time elapsed l.active_forwarded_sequences)
      (add_duration l.response_sequence_time elapsed l.active_response_sequences)

unfoldable pub advance : SequenceExposureLedger → Time → SequenceExposureLedger × Bool
advance l now =
    if is_zero now
    then (l, false)
    else if not l.initialized
    then flagged (record l { initialized = true; last_event_at = now })
    else if before now l.last_event_at
    then (l, false)
    else let elapsed = sub_time now l.last_event_at in
      if ltb_ℤ elapsed (pos 0) then (l, false) else integrate l now elapsed

-- The rest of `addForwarded`, once `advance` has left the ledger with its flag.
unfoldable pub enter_forwarded : SequenceExposureLedger × Bool → ℤ → SequenceExposureLedger × Bool
enter_forwarded (l, false) sequences = (l, false)
enter_forwarded (l, true) sequences =
    if ltb_ℤ (pos max_int64 -ℤ sequences) l.active_forwarded_sequences
    then (l, false)
    else flagged
        (record l { active_forwarded_sequences = l.active_forwarded_sequences +ℤ sequences })

unfoldable pub add_forwarded : SequenceExposureLedger → Time → ℤ → SequenceExposureLedger × Bool
add_forwarded l now sequences =
    if leb_ℤ sequences (pos 0) then (l, false) else enter_forwarded (advance l now) sequences

unfoldable pub enter_response : SequenceExposureLedger × Bool → ℤ → SequenceExposureLedger × Bool
enter_response (l, false) sequences = (l, false)
enter_response (l, true) sequences =
    if ltb_ℤ (pos max_int64 -ℤ sequences) l.active_response_sequences
      || ltb_ℤ l.active_forwarded_sequences (l.active_response_sequences +ℤ sequences)
    then (l, false)
    else flagged (record l { active_response_sequences = l.active_response_sequences +ℤ sequences })

unfoldable pub add_response : SequenceExposureLedger → Time → ℤ → SequenceExposureLedger × Bool
add_response l now sequences =
    if leb_ℤ sequences (pos 0) then (l, false) else enter_response (advance l now) sequences

unfoldable pub leave : SequenceExposureLedger × Bool → ℤ → ℤ → SequenceExposureLedger × Bool
leave (l, false) forwarded response = (l, false)
leave (l, true) forwarded response =
    if ltb_ℤ l.active_forwarded_sequences forwarded || ltb_ℤ l.active_response_sequences response
    then (l, false)
    else flagged (record l {
      active_forwarded_sequences = l.active_forwarded_sequences -ℤ forwarded;
      active_response_sequences = l.active_response_sequences -ℤ response;
    })

unfoldable pub remove : SequenceExposureLedger → Time → ℤ → ℤ → SequenceExposureLedger × Bool
remove l now forwarded response =
    if leb_ℤ forwarded (pos 0) || (ltb_ℤ response (pos 0) || ltb_ℤ forwarded response)
    then (l, false)
    else leave (advance l now) forwarded response

abbrev pub exposure_of : SequenceExposureLedger → SequenceExposureSnapshot
exposure_of l = record {
  forwarded_nanoseconds = l.forwarded_sequence_time;
  response_nanoseconds = l.response_sequence_time;
}

unfoldable pub read_exposure :
    SequenceExposureLedger × Bool → SequenceExposureLedger × Option SequenceExposureSnapshot
read_exposure (l, false) = (l, none)
read_exposure (l, true) = (l, if valid_exposure (exposure_of l) then some (exposure_of l) else none)

unfoldable pub snapshot_exposure :
    SequenceExposureLedger → Time → SequenceExposureLedger × Option SequenceExposureSnapshot
snapshot_exposure l now = read_exposure (advance l now)
