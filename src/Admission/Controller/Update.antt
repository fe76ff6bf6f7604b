-- ===== src/Admission/Controller/Update.antt =====
-- policy_update.go: the revisioned policy update.
use phala_inference_guard.Base.{
  ℕ, ◌+◌, ◌%◌, Bool, true, false, not, ◌&&◌, ◌||◌, ◌==◌, if◌then◌else◌, Option, none, some, ℤ, pos,
  leb_ℤ,
}
use phala_inference_guard.Go.Words.{max_uint64, word}
use phala_inference_guard.Go.Time.{Time, is_zero}
use phala_inference_guard.Go.Float.{Float64}
use phala_inference_guard.Admission.Types.{RunningLimitSource, source_admin, is_set}
use phala_inference_guard.Admission.Tps.{finite_nonnegative}
use phala_inference_guard.Admission.Window.Buckets.{TpsWindow, new_tps_window}
use phala_inference_guard.Admission.Controller.State.{AdmissionController, maximum_tps_reservations}

pub data PolicyError : Type 0 where
  no_error err_policy_invalid err_policy_revision_conflict err_policy_unavailable : PolicyError

pub record PolicySnapshot (W : Type 0) : Type 0 where
  pub revision : ℕ
  pub tps_reference : W
  pub window_concurrency : ℤ
  pub running_limit : ℤ
  pub waiting_allowance : ℤ
  pub running_limit_source : RunningLimitSource
  pub updated_at : Time

pub record PolicyUpdate (W : Type 0) : Type 0 where
  pub expected_revision : ℕ
  pub new_tps_reference : Option W
  pub new_window_concurrency : Option ℤ
  pub new_running_limit : Option ℤ
  pub new_waiting_allowance : Option ℤ
  pub at : Time

pub record PolicyUpdateResult (W : Type 0) : Type 0 where
  pub policy : PolicySnapshot W
  pub previous_policy : PolicySnapshot W
  pub tps_window_reset : Bool

abbrev pub or_else {ℓ} : {A : Type ℓ} → Option A → A → A
or_else none a = a
or_else (some b) a = b

abbrev pub is_some {ℓ} : {A : Type ℓ} → Option A → Bool
is_some none = false
is_some (some _) = true

-- A field that is given lies in its range.
abbrev pub in_range : ℤ → Option ℤ → Bool
in_range lowest none = true
in_range lowest (some n) = leb_ℤ lowest n && leb_ℤ n maximum_tps_reservations

module _ {W : Type 0} ⦃fl : Float64 W⦄ where
  unfoldable pub policy_snapshot : AdmissionController W → PolicySnapshot W
  policy_snapshot c = record {
    revision = c.policy_revision;
    tps_reference = c.tps_window.reference;
    window_concurrency = c.window_concurrency;
    running_limit = c.running_limit;
    waiting_allowance = c.waiting_allowance;
    running_limit_source = c.running_limit_source;
    updated_at = c.policy_updated_at;
  }

  abbrev reference_in_range : Option W → Bool
  reference_in_range none = true
  reference_in_range (some r) = finite_nonnegative r && not (fl.lt (fl.of_uint64 1_000_000) r)

  unfoldable pub valid_policy_update : PolicyUpdate W → Bool
  valid_policy_update u =
      not (u.expected_revision == 0)
      && (not (is_zero u.at)
          && ((is_some u.new_tps_reference
                || (is_some u.new_window_concurrency
                    || (is_some u.new_running_limit || is_some u.new_waiting_allowance)))
              && (reference_in_range u.new_tps_reference
                  && (in_range (pos 1) u.new_window_concurrency
                      && (in_range (pos 0) u.new_running_limit
                          && in_range (pos 0) u.new_waiting_allowance)))))

  -- The window for the new reference, with the denominator evidence of the old one.
  unfoldable pub replaced_window : TpsWindow W → W → TpsWindow W
  replaced_window w reference = record (new_tps_window reference) { denominator = w.denominator }

  -- The state that an accepted update leaves.
  unfoldable pub updated : AdmissionController W → PolicyUpdate W → AdmissionController W
  unfolding replaced_window
  updated c u =
      let reference = or_else u.new_tps_reference c.tps_window.reference in
      let changes = not (fl.eq reference c.tps_window.reference) in
      record c {
        policy_revision = c.policy_revision + 1;
        policy_updated_at = u.at;
        window_concurrency = or_else u.new_window_concurrency c.window_concurrency;
        running_limit = or_else u.new_running_limit c.running_limit;
        waiting_allowance = or_else u.new_waiting_allowance c.waiting_allowance;
        running_limit_source =
            if is_some u.new_running_limit then source_admin else c.running_limit_source;
        tps_policy_epoch = if changes then (c.tps_policy_epoch + 1) % word else c.tps_policy_epoch;
        tps_window = if changes then replaced_window c.tps_window reference else c.tps_window;
      }

  abbrev pub refused :
      AdmissionController W
      → PolicyError
      → AdmissionController W × PolicyUpdateResult W × PolicyError
  refused c e = (
    c,
    record {
      policy = policy_snapshot c;
      previous_policy = policy_snapshot c;
      tps_window_reset = false;
    },
    e,
  )

  unfoldable pub update_policy :
      AdmissionController W
      → PolicyUpdate W
      → AdmissionController W × PolicyUpdateResult W × PolicyError
  unfolding policy_snapshot valid_policy_update updated
  update_policy c u =
      if not (valid_policy_update u)
      then refused c err_policy_invalid
      else if is_set c.closed_reason || c.policy_revision == max_uint64
      then refused c err_policy_unavailable
      else if not (u.expected_revision == c.policy_revision)
      then refused c err_policy_revision_conflict
      else (
        updated c u,
        record {
          policy = policy_snapshot (updated c u);
          previous_policy = policy_snapshot c;
          tps_window_reset =
              not
                (fl.eq (or_else u.new_tps_reference c.tps_window.reference) c.tps_window.reference);
        },
        no_error,
      )
