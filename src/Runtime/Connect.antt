-- ===== src/Runtime/Connect.antt =====
-- service_runtime.cpp: `ConnectImpl` up to the journal's records. A step of `ConnectImpl` goes on, or
-- ends the call with an answer.
use pokrov_app.Runtime.Rollback.{rollback_runtime}
use pokrov_app.Protocol.Chars.{is_profile_digest}
use pokrov_app.Base.{
  bytes_eq, if◌then◌else◌, is_empty, is_some, not, text, ◌&&◌, ◌||◌, ℕ, List, Option, Bool, none,
  some, [], ◌∷◌, true, false,
}
use pokrov_app.Protocol.Types.{Status}
use pokrov_app.Protocol.Requests.{}
use pokrov_app.Events.Types.{ServiceEvent, attempted, succeeded, failed}
use pokrov_app.Recovery.Machine.{begin, record_stage, Recovery}
use pokrov_app.Recovery.Stage.{RecoveryStage}
use pokrov_app.Dispatcher.Observing.{OperationInterruption}
use pokrov_app.Runtime.Types.{RuntimeResult}
use pokrov_app.Runtime.Host.{
  snapshot, fail, is_recovery_required, is_running, note, World, RuntimeHost, Phase,
}

-- Whether a step goes on.
abbrev pub Step : Type 0 → Type 0
Step W = RuntimeHost W × Option RuntimeResult

abbrev pub then_step : {W : Type 0} → Step W → (RuntimeHost W → Step W) → Step W
then_step (h, none) next = next h
then_step (h, some answer) next = (h, some answer)

abbrev pub ended : {W : Type 0} → RuntimeHost W × RuntimeResult → Step W
ended (h, answer) = (h, some answer)

abbrev one_of : List (List ℕ) → List ℕ → Bool
one_of [] failure = false
one_of (known ∷ rest) failure = bytes_eq failure known || one_of rest failure

-- `SafeEgressFailure`.
unfoldable pub safe_egress_failure : List ℕ → List ℕ
safe_egress_failure failure =
    if one_of
      (text "core_egress_dns_failed"
        ∷ text "core_egress_connect_failed"
        ∷ text "core_egress_tls_failed"
        ∷ text "core_egress_tls_timeout"
        ∷ text "core_egress_response_timeout"
        ∷ text "core_egress_timeout"
        ∷ text "core_egress_probe_unavailable"
        ∷ text "core_smart_access_lease_expired"
        ∷ text "profile_payload_invalid"
        ∷ [])
      failure
    then failure
    else text "core_egress_probe_failed"

module _ {W : Type 0} (world : World W) where
  -- `RollbackRuntime` with the phase that follows, and the answer for the error `cause`.
  unfoldable pub rolled_back : RuntimeHost W × List ℕ → RuntimeHost W
  rolled_back (h, error) = record h {
    phase = if is_empty error then Phase.config_staged else Phase.recovery_required;
  }

  unfoldable pub answer_rollback : Status → List ℕ → RuntimeHost W × List ℕ → Step W
  answer_rollback status cause (h, error) =
      if not (is_empty error)
      then ended (
          fail world Status.not_ready error
            (note world ServiceEvent.runtime_recovery_required failed (rolled_back (h, error))))
      else ended (fail world status cause (rolled_back (h, error)))

  unfoldable pub give_up : Status → List ℕ → RuntimeHost W → Step W
  give_up status cause h = answer_rollback status cause (rollback_runtime world h)

  -- The same without the event.
  unfoldable pub give_up_silently : List ℕ → RuntimeHost W → Step W
  give_up_silently cause h =
      let (h1, error) = rollback_runtime world h in
      ended (
        fail world Status.not_ready (if is_empty error then cause else error)
          (rolled_back (h1, error)))

  -- The same as `give_up`, where the proof of the connection is withdrawn too.
  unfoldable pub give_up_proven : Status → List ℕ → RuntimeHost W → Step W
  give_up_proven status cause h =
      let (h1, error) = rollback_runtime world h in
      answer_rollback status cause
        (record h1 { effective_profile_digest = []; core_egress_validated = false }, error)

  abbrev pub is_none : OperationInterruption → Bool
  is_none OperationInterruption.uninterrupted = true
  is_none _ = false

  abbrev pub is_late : OperationInterruption → Bool
  is_late OperationInterruption.deadline_exceeded = true
  is_late _ = false

  module _ (expected_core : List ℕ) where
    unfoldable pub is_mismatch : RuntimeHost W → Bool
    is_mismatch h =
        not (is_empty expected_core)
        && not (bytes_eq (world.facts h.world).core_module_sha256 expected_core)

    unfoldable pub interruption_status : Bool → OperationInterruption → Status
    interruption_status mismatch reason =
        if not mismatch && is_late reason then Status.deadline_exceeded else Status.not_ready

    unfoldable pub interruption_cause : Bool → OperationInterruption → List ℕ
    interruption_cause mismatch reason =
        if mismatch
        then text "core_identity_mismatch"
        else if is_late reason
        then if is_empty expected_core then text "deadline_exceeded" else text "connect_deadline"
        else text "operation_cancelled"

    -- The function `interruption`.
    unfoldable pub interruption : Bool → RuntimeHost W → Step W
    interruption rollback h =
        let (w, reason) = world.interrupted h.world in
        let h1 = record h { world = w } in
        let status = interruption_status (is_mismatch h1) reason in
        let cause = interruption_cause (is_mismatch h1) reason in
        if is_none reason && not (is_mismatch h1)
        then (h1, none)
        else if rollback
        then give_up_proven status cause h1
        else ended (fail world status cause h1)

    -- The checks of `ConnectImpl` ahead of any change.
    unfoldable pub check_start : RuntimeHost W → Step W
    check_start h =
        if not (is_empty expected_core) && not (world.supports_interruptible_start h.world)
        then ended (fail world Status.not_ready (text "core_abi_incompatible") h)
        else if is_running h.phase
        then (h, some (snapshot world h))
        else if is_recovery_required h.phase
        then ended (fail world Status.not_ready (text "recovery_required") h)
        else if not (is_some h.recovery)
        then ended (fail world Status.not_ready (text "recovery_unavailable") h)
        else (h, none)

    unfoldable pub check_identity : List ℕ → RuntimeHost W → Step W
    check_identity expected_profile h =
        if not h.is_initialized || not h.profile_staged
        then ended (fail world Status.not_ready (text "profile_not_staged") h)
        else if not (is_profile_digest expected_profile)
            || not (bytes_eq expected_profile h.staged_profile_digest)
        then ended (fail world Status.not_ready (text "profile_identity_mismatch") h)
        else (h, none)

    unfoldable pub write_profile : RuntimeHost W → Step W
    write_profile h =
        let (w, error) = world.write_staged_profile h.world in
        let h1 = record h { world = w } in
        if not (is_empty error) then ended (fail world Status.not_ready error h1) else (h1, none)

    unfoldable pub prepare : RuntimeHost W → Step W
    prepare h =
        let (w, refused) = world.prepare_extensions h.world in
        let h1 = record h { world = w } in
        elim refused [
          | none ↦ (h1, none)
          | some (status, failure) ↦ ended (fail world status failure h1)
        ]

    -- `recovery_->Begin()`.
    unfoldable pub begin_journal : Recovery → RuntimeHost W → RuntimeHost W × List ℕ
    begin_journal r h =
        let (w1, random) = world.random_bytes h.world in
        let (w2, captured) = world.capture_network w1 in
        let (w3, outcome) = world.write_outcome w2 in
        let (r1, error) = begin random captured outcome r in
        (record h { world = w3; recovery = some r1 }, error)

    unfoldable pub judge_begin : RuntimeHost W × List ℕ → Step W
    judge_begin (h, error) =
        if not (is_empty error)
        then ended (
            fail world Status.not_ready error
              (note world ServiceEvent.runtime_network_snapshot failed h))
        else (note world ServiceEvent.runtime_network_snapshot succeeded h, none)

    -- A null journal was refused in `check_start`.
    unfoldable pub begin_step : RuntimeHost W → Step W
    begin_step h = elim (h.recovery) [
      | none ↦ ended (fail world Status.not_ready (text "recovery_unavailable") h)
      | some r ↦
          judge_begin
            (begin_journal r (note world ServiceEvent.runtime_network_snapshot attempted h))
    ]

    -- `recovery_->Record(next)`, with the error.
    unfoldable pub record_journal : RecoveryStage → RuntimeHost W → RuntimeHost W × List ℕ
    record_journal next h = elim (h.recovery) [
      | none ↦ (h, text "recovery_unavailable")
      | some r ↦
          let (w, outcome) = world.write_outcome h.world in
          let (r1, error) = record_stage outcome r next in
          (record h { world = w; recovery = some r1 }, error)
    ]

    -- A stage that cannot be recorded ends the call behind a rollback.
    unfoldable pub record_step :
        RecoveryStage
        → (RuntimeHost W → RuntimeHost W)
        → (List ℕ → RuntimeHost W → Step W)
        → RuntimeHost W
        → Step W
    record_step next noted abandon h =
        let (h1, error) = record_journal next h in
        if not (is_empty error) then abandon error (noted h1) else (h1, none)
