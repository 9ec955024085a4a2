-- ===== src/Dispatcher/Types.antt =====
-- service_dispatcher.h: the operation that connects, and the state under `state_lock_`.
use pokrov_app.Base.{
  none, some, bytes_eq, false, if◌then◌else◌, text, true, ◌&&◌, ◌||◌, ℕ, List, Option, Bool,
}
use pokrov_app.Protocol.Types.{Status, CancellationTarget}
use pokrov_app.Protocol.Requests.{BoundConnectTarget}
use pokrov_app.Runtime.Types.{RuntimeResult}

pub data Interruption : Type 0 where
  not_interrupted cancelled owner_changed network_changed deadline : Interruption

-- A null `interruption`.
abbrev pub is_untouched : Interruption → Bool
is_untouched not_interrupted = true
is_untouched _ = false

abbrev pub is_deadline : Interruption → Bool
is_deadline deadline = true
is_deadline _ = false

-- `number` tells one shared object from another. The process handle is left out: whether the
-- client still runs is an argument of each call that asks for it.
pub record ActiveConnect : Type 0 where
  pub number : ℕ
  pub target : CancellationTarget
  pub interruption : Interruption
  pub cancelled : Bool
  pub deadline_expired : Bool
  pub bound : Option BoundConnectTarget
  pub requires_transport_lease : Bool
  pub ordinary_control_handoff : Bool
  pub promoted_until_elapsed_ms : ℕ
  pub transport_terminated : Bool
  pub promoted_lease_ref : List ℕ
  pub network_revision : Option ℕ
  pub stopping_snapshot : RuntimeResult
  pub cleanup_attempted : Bool
  pub protected_handoff : Bool
  pub local_dpi_owner : Bool
  pub local_dpi_cancelled : Bool
  pub local_dpi_maintenance_active : Bool
  pub telegram_ws_owner : Bool
  pub telegram_ws_network_revision : Option ℕ
  pub telegram_ws_cancelled : Bool

-- The first cause is kept; the flags follow every cause.
unfoldable pub interrupt : Interruption → ActiveConnect → ActiveConnect
interrupt cause op =
    let first = if is_untouched op.interruption then cause else op.interruption in
    if is_deadline cause
    then record op { interruption = first; deadline_expired = true }
    else record op { interruption = first; cancelled = true }

abbrev pub failure_code_of : Interruption → Option BoundConnectTarget → List ℕ
failure_code_of owner_changed bound = text "connect_owner_changed"
failure_code_of network_changed bound = text "network_context_unavailable"
failure_code_of deadline none = text "deadline_exceeded"
failure_code_of deadline (some target) = text "connect_deadline"
failure_code_of _ bound = text "operation_cancelled"

unfoldable pub failure_code : ActiveConnect → List ℕ
failure_code op = failure_code_of op.interruption op.bound

unfoldable pub failure_status : ActiveConnect → Status
failure_status op =
    if is_deadline op.interruption then Status.deadline_exceeded else Status.not_ready

-- An operation that has to stop.
unfoldable pub must_stop : ActiveConnect → Bool
must_stop op = op.cancelled || op.deadline_expired

unfoldable pub same_target : CancellationTarget → CancellationTarget → Bool
same_target left right =
    bytes_eq left.session_token right.session_token
    && bytes_eq left.operation_nonce right.operation_nonce

-- What `state_lock_` guards, as far as the operations below use it.
pub record Dispatcher : Type 0 where
  pub snapshot : RuntimeResult
  pub active_connect : Option ActiveConnect
  pub stopped_connect : Option CancellationTarget
