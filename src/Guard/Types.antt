-- ===== src/Guard/Types.antt =====
-- service_transition_guard.h and service_events.h: the states, stages and failures of the guard.
use pokrov_app.Base.{Bool, false, true, ℕ}

pub data GuardState : Type 0 where
  off armed incomplete : GuardState

pub data GuardOperation : Type 0 where
  start_operation finish_operation : GuardOperation

pub data GuardStage : Type 0 where
  engine_open identity read_begin read_query read_verify install_begin : GuardStage
  install_apply install_commit remove_begin remove_apply remove_commit remove_verify : GuardStage

pub record GuardFailure : Type 0 where
  pub stage : GuardStage
  pub wfp_error : ℕ

abbrev pub is_armed_state : GuardState → Bool
is_armed_state armed = true
is_armed_state _ = false

abbrev pub is_off_state : GuardState → Bool
is_off_state off = true
is_off_state _ = false
