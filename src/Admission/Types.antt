-- ===== src/Admission/Types.antt =====
-- internal/admission/types.go: actions, reasons, scopes, decision results and causes.
use phala_inference_guard.Base.{Bool, true, false}

-- An action is a string; `other_action` is any string but the two.
pub data Action : Type 0 where
  admit protect other_action : Action

-- `no_reason` is the empty string, which a controller that is not closed holds.
pub data Reason : Type 0 where
  no_reason open_intake controller_unavailable observation_missing : Reason
  observation_invalid observation_stale invalid_request tps_reference : Reason
  running_limit_reached window_concurrency_reached runtime_identity_drift : Reason
  resource_exhausted priority_queue_full priority_queue_timeout : Reason
  priority_queue_canceled counter_overflow closed : Reason

pub data ProtectionScope : Type 0 where
  protection_none protection_request protection_load protection_availability : ProtectionScope

pub data TpsDecisionResult : Type 0 where
  result_unknown result_disabled result_admit result_protect result_invalid : TpsDecisionResult

pub data TpsDecisionSubreason : Type 0 where
  sub_unknown sub_disabled sub_invalid_state sub_waiting sub_preemption : TpsDecisionSubreason
  sub_warming sub_no_current_evidence sub_healthy_window : TpsDecisionSubreason
  sub_recovered_current sub_below_reference sub_backend_scheduled : TpsDecisionSubreason
  sub_warm_prompt sub_cold_prompt sub_cold_prompt_pending : TpsDecisionSubreason

-- A running limit's source is a string; `other_source` is any string outside the four.
pub data RunningLimitSource : Type 0 where
  source_empty source_unknown source_environment : RunningLimitSource
  source_sglang_server_info source_admin other_source : RunningLimitSource

abbrev pub valid_source : RunningLimitSource → Bool
valid_source source_empty = false
valid_source other_source = false
valid_source _ = true

-- `other_cause` is any string outside the six.
pub data TerminalCause : Type 0 where
  success error cancel disconnect timeout shutdown other_cause : TerminalCause

abbrev pub valid_cause : TerminalCause → Bool
valid_cause other_cause = false
valid_cause _ = true

-- `closedReason != ""`.
abbrev pub is_set : Reason → Bool
is_set no_reason = false
is_set _ = true

abbrev pub is_tps_reference : Reason → Bool
is_tps_reference tps_reference = true
is_tps_reference _ = false

-- `reason == ReasonRunningLimit || reason == ReasonWindowConcurrency`.
abbrev pub is_bound_reason : Reason → Bool
is_bound_reason running_limit_reached = true
is_bound_reason window_concurrency_reached = true
is_bound_reason _ = false

abbrev pub is_admit : Action → Bool
is_admit admit = true
is_admit _ = false

abbrev pub is_protect : Action → Bool
is_protect protect = true
is_protect _ = false
