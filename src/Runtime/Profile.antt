-- ===== src/Runtime/Profile.antt =====
-- service_runtime.cpp: `StageProfile` and `ReplaceManagedProfile`. Reading the bundle, writing and
-- securing its files, and the digest are the world's; a failure there tells whether the event of a
-- failed stage is recorded.
use pokrov_app.Events.Lines.{is_ok}
use pokrov_app.Runtime.Lifecycle.{disconnect_host, initialize_host}
use pokrov_app.Base.{
  bytes_eq, get_or, if◌then◌else◌, is_empty, leb, length, not, text, ◌&&◌, ◌==◌, ◌||◌, ℕ, List,
  Bool, none, some, [], true, false,
}
use pokrov_app.Protocol.Types.{Status}
use pokrov_app.Events.Types.{ServiceEvent, attempted, succeeded, failed}
use pokrov_app.Runtime.Types.{RuntimeResult}
use pokrov_app.Runtime.Host.{
  snapshot, fail, is_recovery_required, is_running, note, World, RuntimeHost, Phase,
}
use pokrov_app.Runtime.Connect.{ended, is_none, then_step, Step}
use pokrov_app.Runtime.ConnectRun.{conclude, connect_impl}

module _ {W : Type 0} (world : World W) where
  unfoldable pub fail_stage : Status → List ℕ → Bool → RuntimeHost W → RuntimeHost W × RuntimeResult
  fail_stage status failure noted h =
      fail world status failure
        (if noted then note world ServiceEvent.runtime_profile_stage failed h else h)

  unfoldable pub adopt_profile : Bool → List ℕ → RuntimeHost W → RuntimeHost W × RuntimeResult
  adopt_profile bound digest h =
      let h1 = note world ServiceEvent.runtime_profile_stage succeeded (record h {
        staged_profile_digest = digest;
        requires_bound_connect = bound;
        effective_profile_digest = [];
        profile_staged = true;
        phase = Phase.config_staged;
        failure = [];
      }) in
      (h1, snapshot world h1)

  unfoldable pub stage_files_of : List ℕ → Bool → RuntimeHost W → RuntimeHost W × RuntimeResult
  stage_files_of body bound h =
      let (w, refused) = world.stage_files body h.world in
      let h1 = record h { world = w } in
      elim refused [
        | none ↦ adopt_profile bound (world.profile_digest h.world body) h1
        | some (status, failure, noted) ↦ fail_stage status failure noted h1
      ]

  unfoldable pub is_stage_body : List ℕ → Bool
  is_stage_body body =
      leb 4 (length body)
      && ((get_or body 0 0 == 48) || (get_or body 0 0 == 49))
      && (get_or body 1 0 == 10)

  unfoldable pub stage_initialized : List ℕ → Bool → RuntimeHost W → RuntimeHost W × RuntimeResult
  stage_initialized body bound h =
      if is_running h.phase || is_recovery_required h.phase || not (is_stage_body body)
      then fail_stage Status.invalid (text "profile_request_invalid") true h
      else if is_empty (world.profile_digest h.world body)
      then fail world Status.not_ready (text "profile_identity_failed") h
      else stage_files_of body bound h

  unfoldable pub stage_behind :
      List ℕ → Bool → RuntimeHost W × RuntimeResult → RuntimeHost W × RuntimeResult
  stage_behind body bound (h, answer) =
      if not (is_ok answer.status)
      then (note world ServiceEvent.runtime_profile_stage failed h, answer)
      else stage_initialized body bound h

  -- `Initialize` answers at once when the runtime is initialized.
  unfoldable pub stage_profile_of : List ℕ → Bool → RuntimeHost W → RuntimeHost W × RuntimeResult
  stage_profile_of body bound h =
      let h1 = note world ServiceEvent.runtime_profile_stage attempted h in
      if not h1.is_initialized
      then stage_behind body bound (initialize_host world h1)
      else stage_initialized body bound h1

  unfoldable pub refuse_handoff : List ℕ → RuntimeHost W → Step W
  refuse_handoff failure h = ended (fail world Status.not_ready failure h)

  abbrev pub answered : RuntimeHost W × RuntimeResult → Step W
  answered (h, answer) = if is_ok answer.status then (h, none) else (h, some answer)

  unfoldable pub check_handoff : RuntimeHost W → Step W
  check_handoff h =
      if not h.has_guard
        || h.requires_bound_connect
        || (not (is_running h.phase) && not (world.guard_armed h.world))
      then refuse_handoff (text "protected_handoff_unavailable") h
      else (h, none)

  unfoldable pub arm_guard : RuntimeHost W → Step W
  arm_guard h =
      let (w, error) = world.guard_start h.world in
      let h1 = record h { world = w } in
      if not (is_empty error)
      then refuse_handoff (text "transition_guard_failed") h1
      else (h1, none)

  unfoldable pub check_cancelled : RuntimeHost W → Step W
  check_cancelled h =
      let (w, reason) = world.interrupted h.world in
      let h1 = record h { world = w } in
      if is_none world reason then (h1, none) else refuse_handoff (text "operation_cancelled") h1

  unfoldable pub check_live : List ℕ → RuntimeHost W → Step W
  check_live body h =
      if not (is_running h.phase)
        || not h.core_egress_validated
        || not (bytes_eq h.effective_profile_digest (world.profile_digest h.world body))
      then refuse_handoff (text "protected_handoff_unavailable") h
      else (h, none)

  unfoldable pub cancel_behind : RuntimeHost W × RuntimeResult → Step W
  cancel_behind (h, stopped) =
      if is_ok stopped.status
      then refuse_handoff (text "operation_cancelled") h
      else (h, some stopped)

  unfoldable pub cancel_live : RuntimeHost W → Step W
  cancel_live h =
      let (w, reason) = world.interrupted h.world in
      let h1 = record h { world = w } in
      if is_none world reason then (h1, none) else cancel_behind (disconnect_host world false h1)

  unfoldable pub disarm_guard : RuntimeHost W → RuntimeHost W × RuntimeResult
  disarm_guard h =
      let (w, error) = world.guard_finish h.world in
      let h1 = record h { world = w } in
      if not (is_empty error)
      then fail world Status.not_ready (text "transition_guard_failed")
          (record h1 { core_egress_validated = false })
      else (h1, snapshot world h1)

  unfoldable pub replace_steps : List ℕ → RuntimeHost W → Step W
  replace_steps body h = then_step (check_handoff h) (λ h1. then_step (arm_guard h1) (λ h2.
      then_step (answered (disconnect_host world false h2)) (λ h3.
        then_step (check_cancelled h3) (λ h4.
          then_step (answered (stage_profile_of body false h4)) (λ h5.
            then_step
              (answered (connect_impl world [] (world.profile_digest h5.world body) false h5))
              (λ h6. then_step (check_live body h6) cancel_live))))))

  unfoldable pub replace_managed_profile_of : List ℕ → RuntimeHost W → RuntimeHost W × RuntimeResult
  replace_managed_profile_of body h = conclude world [] (replace_steps body h) disarm_guard
