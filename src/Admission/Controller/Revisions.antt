-- ===== src/Admission/Controller/Revisions.antt =====
-- The revisions of the policy: an update is a compare-and-set on the revision.
use phala_inference_guard.Base.{
  ◌+◌, ◌%◌, ℤ, true, false, none, some, ◌≡◌, ◌≢◌, ◌⊎◌, inl, inr, refl, sym, subst, arith,
}
use phala_inference_guard.Go.Float.{Float64}
use phala_inference_guard.Go.Words.{word}
use phala_inference_guard.Admission.Types.{source_admin}
use phala_inference_guard.Admission.Window.Buckets.{new_tps_window}
use phala_inference_guard.Admission.Controller.State.{AdmissionController}
use phala_inference_guard.Admission.Controller.Update.{
  PolicyUpdate, no_error, update_policy, updated, replaced_window, or_else,
}

module _ {W : Type 0} ⦃fl : Float64 W⦄ where
  -- What an update that is accepted does. The three bounds are the ones given, or as before. The TPS
  -- reference that is in force is the one given, unless the two are equal as floats: then the window
  -- stays, and else a new one starts under the next policy epoch, with its denominator's evidence
  -- kept. A running limit that is given has the administrator as its source. The revision is the
  -- next, and the time is the update's. All else stays.
  pub record Accepted (c : AdmissionController W) (u : PolicyUpdate W) (c' : AdmissionController W)
      : Type 0 where
    pub at_revision : u.expected_revision ≡ c.policy_revision
    pub next_revision : c'.policy_revision ≡ c.policy_revision + 1
    pub window_given : c'.window_concurrency ≡ or_else u.new_window_concurrency c.window_concurrency
    pub limit_given : c'.running_limit ≡ or_else u.new_running_limit c.running_limit
    pub allowance_given : c'.waiting_allowance ≡ or_else u.new_waiting_allowance c.waiting_allowance
    pub same_source : u.new_running_limit ≡ none → c'.running_limit_source ≡ c.running_limit_source
    pub admin_source :
        (n : ℤ) → u.new_running_limit ≡ some n → c'.running_limit_source ≡ source_admin
    pub stamped : c'.policy_updated_at ≡ u.at
    pub same_reference :
        fl.eq (or_else u.new_tps_reference c.tps_window.reference) c.tps_window.reference ≡ true
        → (c'.tps_window ≡ c.tps_window) × (c'.tps_policy_epoch ≡ c.tps_policy_epoch)
    pub other_reference :
        fl.eq (or_else u.new_tps_reference c.tps_window.reference) c.tps_window.reference ≡ false
        → (c'.tps_window
            ≡ record (new_tps_window (or_else u.new_tps_reference c.tps_window.reference)) {
              denominator = c.tps_window.denominator;
            })
          × (c'.tps_policy_epoch ≡ (c.tps_policy_epoch + 1) % word)
    pub all_else : c' ≡ record c {
      window_concurrency = c'.window_concurrency;
      running_limit = c'.running_limit;
      waiting_allowance = c'.waiting_allowance;
      running_limit_source = c'.running_limit_source;
      policy_revision = c'.policy_revision;
      policy_updated_at = c'.policy_updated_at;
      tps_window = c'.tps_window;
      tps_policy_epoch = c'.tps_policy_epoch;
    }

  updated-Accepted :
      (c : AdmissionController W) (u : PolicyUpdate W)
      → u.expected_revision ≡ c.policy_revision
      → Accepted c u (updated c u)
  unfolding updated replaced_window
  updated-Accepted c u e = record {
    at_revision = e;
    next_revision = refl;
    window_given = refl;
    limit_given = refl;
    allowance_given = refl;
    same_source = λ g. rw g refl;
    admin_source = λ n g. rw g refl;
    stamped = refl;
    same_reference = λ same. rw same (refl, refl);
    other_reference = λ other. rw other (refl, refl);
    all_else = refl;
  }

  update_policy-shape :
      (c : AdmissionController W) (u : PolicyUpdate W)
      → (((update_policy c u).0 ≡ c) × ((update_policy c u).2 ≢ no_error))
        ⊎ (((update_policy c u).0 ≡ updated c u)
            × ((update_policy c u).2 ≡ no_error)
            × (u.expected_revision ≡ c.policy_revision))
  unfolding update_policy
  update_policy-shape c u = ground arith

  -- An update either is refused and changes nothing, or names the current revision and is accepted
  -- whole: the bounds, the TPS reference and its window, the running limit's source, the revision and
  -- the time are as the update says, and all else stays.
  pub update_policy-atomic :
      (c : AdmissionController W) (u : PolicyUpdate W)
      → (((update_policy c u).0 ≡ c) × ((update_policy c u).2 ≢ no_error))
        ⊎ (Accepted c u (update_policy c u).0 × ((update_policy c u).2 ≡ no_error))
  update_policy-atomic c u = elim (update_policy-shape c u) [
    | inl e ↦ inl e
    | inr (e, ok, at) ↦ inr (subst (Accepted c u) (sym e) (updated-Accepted c u at), ok)
  ]

  -- Of two updates that name the same revision, the one that comes after an accepted one is refused
  -- and changes nothing.
  pub update_policy-race :
      (c : AdmissionController W) (u u' : PolicyUpdate W)
      → (update_policy c u).2 ≡ no_error
      → u'.expected_revision ≡ u.expected_revision
      → ((update_policy (update_policy c u).0 u').0 ≡ (update_policy c u).0)
        × ((update_policy (update_policy c u).0 u').2 ≢ no_error)
  update_policy-race c u u' ok same = elim (update_policy-atomic c u) [
    | inl (e, bad) ↦ absurd (bad ok)
    | inr (a, _) ↦ elim (update_policy-atomic (update_policy c u).0 u') [
      | inl q ↦ q
      | inr (b, _) ↦ absurd (omega (arith, same, a.at_revision, a.next_revision, b.at_revision))
    ]
  ]
