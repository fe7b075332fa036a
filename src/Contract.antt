-- ===== src/Contract.antt =====
-- proto/yoke/plugin/v1: the enumerations of the contract that the Core answers with. A code is one
-- constructor, in the order of codes.proto; a stage carries its number, which the Core compares.
use yoke.Prelude.{ℕ}

pub data Code : Type 0 where
  unspecified : Code
  structural_malformed identity_unknown_plugin identity_unknown_unit state_disabled : Code
  auth_invalid auth_expired auth_consumed compat_unsupported consistency_divergent : Code
  conflict_unit_live session_unavailable : Code
  session_unknown session_revoked message_malformed message_duplicate direction : Code
  correlation_missing correlation_unknown scope_withheld scope_undeclared : Code
  stream_inactive command_unknown query_unknown : Code

pub data Stage : Type 0 where
  structural identity administrative_state authentication compatibility : Stage
  declaration_consistency authorisation unit_conflict session_preparation : Stage

abbrev pub stage_number : Stage → ℕ
stage_number structural = 1
stage_number identity = 2
stage_number administrative_state = 3
stage_number authentication = 4
stage_number compatibility = 5
stage_number declaration_consistency = 6
stage_number authorisation = 7
stage_number unit_conflict = 8
stage_number session_preparation = 9

-- Why the Core revoked a Session.
pub data Cause : Type 0 where
  no_cause liveness_lost plugin_disabled scope_exceeded protocol_failure : Cause
