-- ===== src/Admission/Controller/Sums.antt =====
-- What all reservations of a controller count for together, and how one change moves the sums.
use phala_inference_guard.Base.{
  ℕ, ◌≡◌, none, some, arith, Dict, lookup, insert, erase, sum_by, sum_by-erase, sum_by-insert_new,
  sum_by-insert, [], ◌∷◌,
}
use phala_inference_guard.Admission.Overlay.Laws.{Tally, ◌⊞◌, IsSound}
use phala_inference_guard.Admission.Reservation.{Reservation}
use phala_inference_guard.Admission.Reservation.Laws.{
  tally_of, tally_of-IsSound, forwarded_of, responding_of,
}

abbrev pub Reservations : Type 0
Reservations = Dict Reservation

abbrev pub unobserved_of : Reservation → ℕ
unobserved_of r = (tally_of r).unobserved

abbrev pub liabilities_of : Reservation → ℕ
liabilities_of r = (tally_of r).liabilities

abbrev pub live_of : Reservation → ℕ
live_of r = (tally_of r).live

abbrev pub debts_of : Reservation → ℕ
debts_of r = (tally_of r).debts

abbrev pub cold_of : Reservation → ℕ
cold_of r = (tally_of r).cold

abbrev pub total_tally : Reservations → Tally
total_tally d = record {
  unobserved = sum_by unobserved_of d;
  liabilities = sum_by liabilities_of d;
  live = sum_by live_of d;
  debts = sum_by debts_of d;
  cold = sum_by cold_of d;
}

abbrev pub total_forwarded : Reservations → ℕ
total_forwarded d = sum_by forwarded_of d

abbrev pub total_responding : Reservations → ℕ
total_responding d = sum_by responding_of d

pub total_tally-IsSound : (d : Reservations) → IsSound (total_tally d)
total_tally-IsSound [] = omega arith
total_tally-IsSound ((k, r) ∷ d) = omega (arith, total_tally-IsSound d, tally_of-IsSound r)

-- An entry splits off the sum.
pub total_tally-erase :
    (k : ℕ) (r : Reservation) (d : Reservations)
    → lookup k d ≡ some r
    → total_tally d ≡ total_tally (erase k d) ⊞ tally_of r
total_tally-erase k r d e = λ i. record {
  unobserved = sum_by-erase unobserved_of k r d e i;
  liabilities = sum_by-erase liabilities_of k r d e i;
  live = sum_by-erase live_of k r d e i;
  debts = sum_by-erase debts_of k r d e i;
  cold = sum_by-erase cold_of k r d e i;
}

pub total_tally-insert_new :
    (k : ℕ) (r : Reservation) (d : Reservations)
    → lookup k d ≡ none
    → total_tally (insert k r d) ≡ total_tally d ⊞ tally_of r
total_tally-insert_new k r d e = λ i. record {
  unobserved = sum_by-insert_new unobserved_of k r d e i;
  liabilities = sum_by-insert_new liabilities_of k r d e i;
  live = sum_by-insert_new live_of k r d e i;
  debts = sum_by-insert_new debts_of k r d e i;
  cold = sum_by-insert_new cold_of k r d e i;
}

pub total_tally-insert :
    (k : ℕ) (r r' : Reservation) (d : Reservations)
    → lookup k d ≡ some r
    → total_tally (insert k r' d) ≡ total_tally (erase k d) ⊞ tally_of r'
total_tally-insert k r r' d e = λ i. record {
  unobserved = sum_by-insert unobserved_of k r r' d e i;
  liabilities = sum_by-insert liabilities_of k r r' d e i;
  live = sum_by-insert live_of k r r' d e i;
  debts = sum_by-insert debts_of k r r' d e i;
  cold = sum_by-insert cold_of k r r' d e i;
}
