-- ===== src/Runtime/Host.antt =====
-- service_runtime.h and service_runtime.cpp: the state of `RuntimeHost` as far as its life cycle uses
-- it. What stands outside is the world `W`: the Core and the proofs, the files, the clock and the
-- checks of the caller, the egress probe, the transition guard and the local DPI executor. A text
-- that comes back is an error, and empty for success.
use pokrov_app.Protocol.Decimal.{to_string}
use pokrov_app.Base.{
  if◌then◌else◌, is_empty, is_some, not, starts_with, text, ◌&&◌, ◌++◌, ℕ, List, Option, Bool, none,
  some, [], ◌∷◌, true, false,
}
use pokrov_app.Protocol.Types.{is_connect_command, Command, Status}
use pokrov_app.Events.Types.{ServiceEvent, ServiceEventOutcome}
use pokrov_app.Recovery.Machine.{Recovery, WriteOutcome, Capture}
use pokrov_app.Dispatcher.Observing.{OperationInterruption}
use pokrov_app.Runtime.Types.{RuntimeResult, result}

pub data Phase : Type 0 where
  artifact_missing artifact_ready initialized config_staged running recovery_required : Phase

unfoldable pub phase_name : Phase → List ℕ
phase_name artifact_missing = text "artifact_missing"
phase_name artifact_ready = text "artifact_ready"
phase_name initialized = text "initialized"
phase_name config_staged = text "config_staged"
phase_name running = text "running"
phase_name recovery_required = text "recovery_required"

-- What the Core, the probe and the executor tell for the text of a snapshot.
pub record CoreFacts : Type 0 where
  pub routing_catalog_window_version : ℕ
  pub smart_access_lease_version : ℕ
  pub routing_catalog_control_version : ℕ
  pub smart_access_runtime_control_version : ℕ
  pub transport_capabilities : List ℕ
  pub core_module_sha256 : List ℕ
  pub core_version : List ℕ
  pub slipstream_client_ready : Bool
  pub local_dpi_ready : Bool
  pub local_dpi_observation : List ℕ
  pub egress_failure_observation : List ℕ

pub record World (W : Type 0) : Type 0 where
  pub facts : W → CoreFacts
  pub interrupted : W → W × OperationInterruption
  pub prepare_directories : W → W × Bool
  pub core_initialize : W → W × List ℕ
  pub supports_interruptible_start : W → Bool
  pub core_start : Bool → W → W × List ℕ
  pub core_stop : W → W × List ℕ
  pub write_outcome : W → W × WriteOutcome
  pub random_bytes : W → W × Option (List ℕ)
  pub capture_network : W → W × Capture
  pub restore_network : W → List ℕ → List ℕ
  pub write_staged_profile : W → W × List ℕ
  pub profile_digest : W → List ℕ → List ℕ
  pub stage_files : List ℕ → W → W × Option (Status × List ℕ × Bool)
  pub verify_egress : Bool → W → W × List ℕ
  pub prepare_extensions : W → W × Option (Status × List ℕ)
  pub prove_local_dpi : W → W × List ℕ
  pub admit_telegram : W → W
  pub withdraw_extensions : W → W
  pub stop_local_dpi : W → W × Bool
  pub clear_local_dpi : W → W × Bool
  pub guard_start : W → W × List ℕ
  pub guard_finish : W → W × List ℕ
  pub guard_off : W → W × List ℕ
  pub guard_armed : W → Bool

-- `recorded` is what the event sink got, in order. `core_started` is true from a call of the Core's
-- Start until a Stop that succeeded.
pub record RuntimeHost (W : Type 0) : Type 0 where
  pub world : W
  pub has_core : Bool
  pub has_root : Bool
  pub has_guard : Bool
  pub has_events : Bool
  pub recovery : Option Recovery
  pub phase : Phase
  pub is_initialized : Bool
  pub profile_staged : Bool
  pub requires_bound_connect : Bool
  pub staged_profile_digest : List ℕ
  pub effective_profile_digest : List ℕ
  pub core_egress_validated : Bool
  pub failure : List ℕ
  pub recorded : List (ServiceEvent × ServiceEventOutcome)
  pub core_started : Bool

abbrev pub is_running : Phase → Bool
is_running running = true
is_running _ = false

abbrev pub is_recovery_required : Phase → Bool
is_recovery_required recovery_required = true
is_recovery_required _ = false

abbrev pub is_config_staged : Phase → Bool
is_config_staged config_staged = true
is_config_staged _ = false

abbrev one : Bool → List ℕ
one flag = if flag then text "1" else text "0"

abbrev or_none : List ℕ → List ℕ
or_none value = if is_empty value then text "none" else value

unfoldable pub number : Bool → ℕ → List ℕ
number ready n = to_string (if ready then n else 0)

module _ {W : Type 0} (world : World W) where
  -- `SnapshotBody`; `pending` is its phase name, or `none` for a null pointer.
  unfoldable pub failure_text : RuntimeHost W → Bool → List ℕ
  failure_text h guarded =
      if is_empty h.failure
      then if guarded then text "transition_guard_active" else text "none"
      else h.failure

  unfoldable pub snapshot_lifecycle : Option (List ℕ) → RuntimeHost W → List ℕ
  snapshot_lifecycle pending h =
      let settled = not (is_some pending) in
      let guarded = h.has_guard && world.guard_armed h.world in
      let proven = settled && not guarded && h.core_egress_validated in
      text ";core_ready="
      ++ (one h.is_initialized
          ++ (text ";can_initialize="
              ++ (one (settled && h.has_core && h.has_root)
                  ++ (text ";can_connect="
                      ++ (one (
                            settled
                            && h.is_initialized
                            && h.profile_staged
                            && not h.requires_bound_connect
                            && is_config_staged h.phase)
                          ++ (text ";running="
                              ++ (one (settled && is_running h.phase)
                                  ++ (text ";core_egress_validated="
                                      ++ (one proven ++ (text ";dns_ready=" ++ one proven))))))))))

  unfoldable pub snapshot_identity : Option (List ℕ) → RuntimeHost W → List ℕ
  snapshot_identity pending h =
      let settled = not (is_some pending) in
      let guarded = h.has_guard && world.guard_armed h.world in
      text ";staged_profile_digest="
      ++ (or_none h.staged_profile_digest
          ++ (text ";effective_profile_digest="
              ++ ((if settled then or_none h.effective_profile_digest else text "none")
                  ++ (text ";failure="
                      ++ (if settled then failure_text h guarded else text "none")))))

  unfoldable pub snapshot_core : RuntimeHost W → List ℕ
  snapshot_core h =
      let facts = world.facts h.world in
      let ready = h.is_initialized in
      text ";routing_catalog_window_version="
      ++ (number ready facts.routing_catalog_window_version
          ++ (text ";smart_access_lease_version="
              ++ (number ready facts.smart_access_lease_version
                  ++ (text ";routing_catalog_control_version="
                      ++ (number ready facts.routing_catalog_control_version
                          ++ (text ";smart_access_runtime_control_version="
                              ++ (number ready facts.smart_access_runtime_control_version
                                  ++ (text ";transport_capabilities="
                                      ++ (if ready
                                          then or_none facts.transport_capabilities
                                          else text "none")))))))))

  unfoldable pub snapshot_module : Option (List ℕ) → RuntimeHost W → List ℕ
  snapshot_module pending h =
      let facts = world.facts h.world in
      let ready = h.is_initialized in
      let settled = not (is_some pending) in
      text ";core_module_sha256="
      ++ ((if ready then or_none facts.core_module_sha256 else text "none")
          ++ (text ";core_version="
              ++ ((if ready then or_none facts.core_version else text "none")
                  ++ (text ";slipstream_client_ready="
                      ++ (one (ready && facts.slipstream_client_ready)
                          ++ (text ";protection_retained="
                              ++ (one (h.has_guard && world.guard_armed h.world)
                                  ++ (text ";windows_local_dpi_admission_version="
                                      ++ (one facts.local_dpi_ready
                                          ++ ((if settled then facts.local_dpi_observation else [])
                                              ++ (if settled
                                                    && starts_with (text "core_egress_") h.failure
                                                  then facts.egress_failure_observation
                                                  else [])))))))))))

  unfoldable pub snapshot_body : Option (List ℕ) → RuntimeHost W → List ℕ
  snapshot_body pending h =
      text "phase="
      ++ (elim pending [ none ↦ phase_name h.phase | some name ↦ name ]
          ++ (snapshot_lifecycle pending h
              ++ (snapshot_identity pending h ++ (snapshot_core h ++ snapshot_module pending h))))

  unfoldable pub snapshot : RuntimeHost W → RuntimeResult
  snapshot h = result Status.ok (snapshot_body none h)

  unfoldable pub pending_snapshot : Command → RuntimeHost W → RuntimeResult
  pending_snapshot command h = result Status.ok (
      snapshot_body (some (if is_connect_command command then text "connecting" else text "busy"))
        h)

  -- `Fail`.
  unfoldable pub fail : Status → List ℕ → RuntimeHost W → RuntimeHost W × RuntimeResult
  fail status failure h =
      let h1 = record h { failure = failure } in (h1, result status (snapshot_body none h1))

  -- `RecordEvent`.
  unfoldable pub note : ServiceEvent → ServiceEventOutcome → RuntimeHost W → RuntimeHost W
  note event outcome h = record h {
    recorded = if h.has_events then h.recorded ++ (event, outcome) ∷ [] else h.recorded;
  }
