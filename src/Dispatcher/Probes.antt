-- ===== src/Dispatcher/Probes.antt =====
-- service_dispatcher.cpp: the registry of candidate probes. `ProbeCandidate` enters it, waits for the
-- Core, and leaves; `CancelCandidateProbe` may come at any time between.
use pokrov_app.Dispatcher.Types.{same_target}
use pokrov_app.Protocol.Targets.{decode_cancellation_target}
use pokrov_app.Base.{
  all_of, bytes_eq, false, if◌then◌else◌, is_empty, leb, length, not, text, true, ◌&&◌, ◌++◌, ◌==◌,
  ◌||◌, ℕ, List, Option, Bool, none, some, [], ◌∷◌,
}
use pokrov_app.Protocol.Types.{Status, CancellationTarget}
use pokrov_app.Runtime.Types.{RuntimeResult, result}

pub record ActiveProbe : Type 0 where
  pub number : ℕ
  pub target : CancellationTarget
  pub id : List ℕ
  pub cancelled : Bool

unfoldable pub probe_failed : List ℕ → RuntimeResult
probe_failed kind =
    result Status.ok
      (text "{\"success\":false,\"failure_kind\":\"" ++ (kind ++ text "\",\"duration_ms\":0}"))

unfoldable pub has_id : List ℕ → List ActiveProbe → Bool
has_id id [] = false
has_id id (probe ∷ rest) = bytes_eq probe.id id || has_id id rest

-- `none` is a probe that was refused.
unfoldable pub enter_probe : ActiveProbe → List ActiveProbe → Option (List ActiveProbe)
enter_probe probe probes =
    if leb 4 (length probes) || has_id probe.id probes then none else some (probes ++ probe ∷ [])

-- `std::remove` of the operation by its identity.
unfoldable pub leave_probe : ℕ → List ActiveProbe → List ActiveProbe
leave_probe number [] = []
leave_probe number (probe ∷ rest) =
    let others = leave_probe number rest in
    if probe.number == number then others else probe ∷ others

-- The first probe with the target is cancelled.
unfoldable pub cancel_probe : CancellationTarget → List ActiveProbe → Option (List ActiveProbe)
cancel_probe target [] = none
cancel_probe target (probe ∷ rest) =
    let others = cancel_probe target rest in
    if same_target probe.target target
    then some (record probe { cancelled = true } ∷ rest)
    else elim others [ none ↦ none | some changed ↦ some (probe ∷ changed) ]

unfoldable pub cancel_candidate_probe_target :
    CancellationTarget → List ActiveProbe → List ActiveProbe × RuntimeResult
cancel_candidate_probe_target target probes = elim (cancel_probe target probes) [
  | none ↦ (probes, result Status.not_ready (text "operation_not_active"))
  | some changed ↦ (changed, result Status.ok (text "cancel_requested"))
]

unfoldable pub cancel_candidate_probe : List ℕ → List ActiveProbe → List ActiveProbe × RuntimeResult
cancel_candidate_probe body probes = elim (decode_cancellation_target body) [
  | none ↦ (probes, result Status.invalid (text "invalid_cancel_target"))
  | some target ↦ cancel_candidate_probe_target target probes
]

-- What the rest of `ProbeCandidate` finds: whether there is a Core, the reference of the physical
-- network, the Core's result, whether the network is another afterwards, and what the Core's result
-- reads like when it is marked as cancelled.
pub record ProbeRun : Type 0 where
  pub has_core : Bool
  pub network_reference : Option (List ℕ)
  pub core_result : List ℕ
  pub network_changed : Bool
  pub as_cancelled : List ℕ

abbrev pub max_probe_result_size : ℕ
max_probe_result_size = 2048

unfoldable pub is_probe_result : List ℕ → Bool
is_probe_result body =
    not (is_empty body)
    && leb (length body) max_probe_result_size
    && all_of (λ c. leb 32 c && leb c 126) body

-- Behind the Core's call; `was_cancelled` is the probe's flag by then.
unfoldable pub judge_probe : Bool → ProbeRun → RuntimeResult
judge_probe was_cancelled found =
    if not (is_probe_result found.core_result)
    then probe_failed (
        if found.network_changed
        then text "network_changed"
        else if was_cancelled
        then text "cancelled"
        else text "unavailable")
    else if found.network_changed || was_cancelled
    then if is_empty found.as_cancelled
      then probe_failed (if found.network_changed then text "network_changed" else text "cancelled")
      else result Status.ok found.as_cancelled
    else result Status.ok found.core_result

unfoldable pub run_probe : List ℕ → Bool → ProbeRun → RuntimeResult
run_probe network_context_ref was_cancelled found =
    if not found.has_core
    then probe_failed (text "unavailable")
    else elim (found.network_reference) [
      | none ↦ probe_failed (text "network_changed")
      | some reference ↦
          if not (bytes_eq reference network_context_ref)
          then probe_failed (text "network_changed")
          else judge_probe was_cancelled found
    ]

-- The critical sections of several calls, in the order in which they happen.
pub data ProbeAction : Type 0 where
  enters : ActiveProbe → ProbeAction
  leaves : ℕ → ProbeAction
  cancels : List ℕ → ProbeAction

unfoldable pub probe_step : ProbeAction → List ActiveProbe → List ActiveProbe
probe_step (enters probe) probes = elim (enter_probe probe probes) [
  | none ↦ probes
  | some entered ↦ entered
]
probe_step (leaves number) probes = leave_probe number probes
probe_step (cancels body) probes = (cancel_candidate_probe body probes).0

unfoldable pub probe_run : List ProbeAction → List ActiveProbe → List ActiveProbe
probe_run [] probes = probes
probe_run (action ∷ actions) probes = probe_run actions (probe_step action probes)
