-- ===== src/Runtime/HostHistory.antt =====
-- service_runtime.cpp: the operations of the runtime in any order.
use pokrov_app.Runtime.ConnectRun.{connect_profile, connect_with_identity_of}
use pokrov_app.Runtime.Profile.{replace_managed_profile_of, stage_profile_of}
use pokrov_app.Runtime.Lifecycle.{
  cancel_protected_handoff, disconnect_host, initialize_host, invalidate_profile,
  recover_on_startup, shutdown,
}
use pokrov_app.Base.{ℕ, List, Bool, [], ◌∷◌}
use pokrov_app.Protocol.Requests.{BoundConnectTarget}
use pokrov_app.Runtime.Host.{World, RuntimeHost}

pub data HostCall : Type 0 where
  initializes starts_up invalidates hands_off_cancel shuts_down : HostCall
  stages : List ℕ → Bool → HostCall
  connects : List ℕ → HostCall
  connects_bound : BoundConnectTarget → HostCall
  disconnects : Bool → HostCall
  replaces : List ℕ → HostCall

module _ {W : Type 0} (world : World W) where
  unfoldable pub host_step : RuntimeHost W → HostCall → RuntimeHost W
  host_step h HostCall.initializes = (initialize_host world h).0
  host_step h HostCall.starts_up = (recover_on_startup world h).0
  host_step h HostCall.invalidates = (invalidate_profile world h).0
  host_step h HostCall.hands_off_cancel = (cancel_protected_handoff world h).0
  host_step h HostCall.shuts_down = shutdown world h
  host_step h (HostCall.stages body bound) = (stage_profile_of world body bound h).0
  host_step h (HostCall.connects digest) = (connect_profile world digest h).0
  host_step h (HostCall.connects_bound target) = (connect_with_identity_of world target h).0
  host_step h (HostCall.disconnects explicit) = (disconnect_host world explicit h).0
  host_step h (HostCall.replaces body) = (replace_managed_profile_of world body h).0

  unfoldable pub host_run : RuntimeHost W → List HostCall → RuntimeHost W
  host_run h [] = h
  host_run h (call ∷ calls) = host_run (host_step h call) calls
