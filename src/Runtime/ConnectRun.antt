-- ===== src/Runtime/ConnectRun.antt =====
-- service_runtime.cpp: `ConnectImpl` from the Core's start on, the whole call, and `Connect` and
-- `ConnectWithIdentity`. The preparation and the proofs of the local DPI and Telegram extensions are
-- the world's.
use pokrov_app.Runtime.Rollback.{}
use pokrov_app.Protocol.Chars.{}
use pokrov_app.Base.{
  if◌then◌else◌, is_empty, not, text, ◌&&◌, ◌||◌, ℕ, List, Bool, none, some, [], true, false,
}
use pokrov_app.Protocol.Types.{Status}
use pokrov_app.Protocol.Requests.{encode_bound_connect, BoundConnectTarget}
use pokrov_app.Events.Types.{ServiceEvent, ServiceEventOutcome, attempted, succeeded, failed}
use pokrov_app.Recovery.Machine.{}
use pokrov_app.Recovery.Stage.{RecoveryStage}
use pokrov_app.Dispatcher.Observing.{}
use pokrov_app.Runtime.Types.{RuntimeResult, result}
use pokrov_app.Runtime.Host.{
  snapshot, fail, is_recovery_required, is_running, note, World, RuntimeHost, Phase,
}
use pokrov_app.Runtime.Connect.{
  Step, then_step, safe_egress_failure, give_up, give_up_silently, give_up_proven, interruption,
  check_identity, check_start, write_profile, prepare, begin_step, record_step,
}

module _ {W : Type 0} (world : World W) where
  module _ (expected_core : List ℕ) where
    -- The five events of a start, with the outcome of the first and of the others.
    unfoldable pub note_start :
        ServiceEventOutcome → ServiceEventOutcome → RuntimeHost W → RuntimeHost W
    note_start core others h = note world ServiceEvent.runtime_dns_apply others (
        note world ServiceEvent.runtime_route_apply others (
          note world ServiceEvent.runtime_adapter_apply others (
            note world ServiceEvent.runtime_wintun_start others
              (note world ServiceEvent.runtime_core_start core h))))

    unfoldable pub start_core : RuntimeHost W → Step W
    start_core h =
        let (w, error) = world.core_start (not (is_empty expected_core)) h.world in
        let h1 = record h { world = w; core_started = true } in
        if not (is_empty error)
        then then_step (interruption world expected_core true h1) (λ h2.
          give_up world Status.not_ready (text "core_start_failed") (note_start failed failed h2))
        else (h1, none)

    -- The egress probe, for a connection without a bound identity.
    unfoldable pub judge_egress : List ℕ → RuntimeHost W → Step W
    judge_egress error h =
        if not (is_empty error)
        then give_up_proven world Status.not_ready (safe_egress_failure error)
            (note world ServiceEvent.runtime_egress_verify failed h)
        else (note world ServiceEvent.runtime_egress_verify succeeded h, none)

    unfoldable pub verify_egress : RuntimeHost W → Step W
    verify_egress h =
        let (w, error) =
          world.verify_egress false
            (note world ServiceEvent.runtime_egress_verify attempted h).world in
        let h1 = record (note world ServiceEvent.runtime_egress_verify attempted h) { world = w } in
        if h.requires_bound_connect
        then (h, none)
        else then_step (interruption world expected_core true h1) (judge_egress error)

    unfoldable pub prove_extensions : RuntimeHost W → Step W
    prove_extensions h =
        let (w, error) = world.prove_local_dpi h.world in
        let h1 = record h { world = w } in
        if not (is_empty error) then give_up_silently world error h1 else (h1, none)

    -- Both stages at the end, under one handler.
    unfoldable pub commit : RuntimeHost W → Step W
    commit h =
        let abandon = λ (error : List ℕ) (h1 : RuntimeHost W).
          give_up_proven world Status.not_ready error
            (note world ServiceEvent.runtime_commit failed h1) in
        then_step
          (record_step world expected_core RecoveryStage.verified (λ h1. h1) abandon
            (note world ServiceEvent.runtime_commit attempted h))
          (λ h1.
            then_step (interruption world expected_core true h1)
              (record_step world expected_core RecoveryStage.committed (λ h2. h2) abandon))

    unfoldable pub go_live : RuntimeHost W → RuntimeHost W
    go_live h = note world ServiceEvent.runtime_commit succeeded (record h {
      world = world.admit_telegram h.world;
      effective_profile_digest = h.staged_profile_digest;
      core_egress_validated = not h.requires_bound_connect;
      phase = Phase.running;
      failure = [];
    })

    unfoldable pub finish_guard : Bool → RuntimeHost W → RuntimeHost W × RuntimeResult
    finish_guard wanted h =
        let (w, error) = world.guard_finish h.world in
        let h1 = record h { world = w } in
        if wanted && h.core_egress_validated && h.has_guard && world.guard_armed h.world
        then if not (is_empty error)
          then fail world Status.not_ready (text "transition_guard_failed")
              (record h1 { core_egress_validated = false })
          else (h1, snapshot world h1)
        else (h, snapshot world h)

    -- The steps ahead of `Begin`, each of which ends the call without a rollback.
    unfoldable pub admit : List ℕ → RuntimeHost W → Step W
    admit expected_profile h =
        then_step (check_identity world expected_core expected_profile h) (λ h1.
          then_step (interruption world expected_core false h1) (λ h2.
            then_step (check_start world expected_core h2) (λ h3.
              then_step (write_profile world expected_core h3) (prepare world expected_core))))

    -- From the journal's first entry to the Core's start.
    unfoldable pub launch : RuntimeHost W → Step W
    launch h = then_step (interruption world expected_core true h) (λ h1.
        then_step
          (record_step world expected_core RecoveryStage.core_started (λ h2. h2)
            (give_up world Status.not_ready) h1)
          (λ h2. then_step (interruption world expected_core true h2) (λ h3.
            then_step (interruption world expected_core true (note_start attempted attempted h3))
              start_core)))

    -- From the Core's start to the commit.
    unfoldable pub apply : RuntimeHost W → Step W
    apply h = then_step (interruption world expected_core true h) (λ h1.
        then_step
          (record_step world expected_core RecoveryStage.network_applied
            (note_start succeeded failed) (give_up world Status.not_ready) h1)
          (λ h2.
            then_step (interruption world expected_core true (note_start succeeded succeeded h2))
              (λ h3. then_step (verify_egress h3) prove_extensions)))

    unfoldable pub connect_steps : List ℕ → RuntimeHost W → Step W
    connect_steps expected_profile h = then_step (admit expected_profile h) (λ h1.
        then_step (begin_step world expected_core h1) (λ h2. then_step (launch h2) (λ h3.
          then_step (apply h3)
            (λ h4. then_step (commit h4) (interruption world expected_core true)))))

    abbrev pub conclude :
        Step W → (RuntimeHost W → RuntimeHost W × RuntimeResult) → RuntimeHost W × RuntimeResult
    conclude (h, some answer) last = (h, answer)
    conclude (h, none) last = last h

    -- `ConnectImpl`; `wanted` is `finish_transition_guard`.
    unfoldable pub connect_impl : List ℕ → Bool → RuntimeHost W → RuntimeHost W × RuntimeResult
    connect_impl expected_profile wanted h =
        conclude (connect_steps expected_profile h) (λ h1. finish_guard wanted (go_live h1))

  unfoldable pub connect_profile : List ℕ → RuntimeHost W → RuntimeHost W × RuntimeResult
  connect_profile expected_profile h =
      if h.requires_bound_connect
      then fail world Status.not_ready (text "profile_identity_mismatch") h
      else connect_impl [] expected_profile true h

  -- `ConnectWithIdentity`; the target's deadline is part of the world's interruptions.
  unfoldable pub connect_with_identity_of :
      BoundConnectTarget → RuntimeHost W → RuntimeHost W × RuntimeResult
  connect_with_identity_of target h =
      if is_empty (encode_bound_connect target)
      then (h, result Status.invalid (text "invalid_connect_identity"))
      else if is_running h.phase || is_recovery_required h.phase
      then (h, result Status.not_ready (text "runtime_busy"))
      else connect_impl target.core_module_sha256 target.profile_digest true h
