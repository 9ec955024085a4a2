-- ===== src/Protocol/Types.antt =====
-- service_protocol.h: the sizes, the enumerations and the frame.
use pokrov_app.Base.{◌||◌, ℕ, ◌*◌, ◌+◌, Bool, true, false, List, [], ◌∷◌, get_or, all_of, ◌==◌}

abbrev pub frame_magic : ℕ
frame_magic = 0x49534B50

abbrev pub protocol_version : ℕ
protocol_version = 1

abbrev pub frame_header_size : ℕ
frame_header_size = 80

abbrev pub max_control_body_size : ℕ
max_control_body_size = 512

abbrev pub max_candidate_probe_result_body_size : ℕ
max_candidate_probe_result_body_size = 2048

abbrev pub max_runtime_snapshot_body_size : ℕ
max_runtime_snapshot_body_size = 8192

abbrev pub max_restriction_snapshot_body_size : ℕ
max_restriction_snapshot_body_size = 1024 * 1024

abbrev pub max_smart_access_leases_body_size : ℕ
max_smart_access_leases_body_size = 65536

abbrev pub max_profile_body_size : ℕ
max_profile_body_size = 256 * 1024

abbrev pub max_body_size : ℕ
max_body_size = max_restriction_snapshot_body_size

abbrev pub max_frame_size : ℕ
max_frame_size = frame_header_size + max_body_size

-- std::array<std::uint8_t, 16>: sixteen bytes, where a statement needs it by hypothesis.
abbrev pub Identifier : Type 0
Identifier = List ℕ

unfoldable pub is_zero_identifier : Identifier → Bool
is_zero_identifier value = all_of (λ byte. byte == 0) value

pub data FrameKind : Type 0 where
  hello_request request response : FrameKind

-- A `Command` read from the wire may be any uint16_t: `unnamed` is a value with no enumerator.
pub data Command : Type 0 where
  hello status connect disconnect cancel recover diagnostic_state initialize : Command
  stage_profile invalidate_profile revoke_smart_access_lease revoke_routing_catalog : Command
  revoke_smart_access_policy revoke_routing_catalog_service renew_smart_access_lease : Command
  configure_smart_access_runtime_control read_smart_access_restrictions : Command
  acknowledge_smart_access_restrictions read_smart_access_leases : Command
  configure_smart_access_renewal read_boot_clock connect_with_identity : Command
  cancel_connect_and_confirm configure_bound_smart_access_runtime_control : Command
  read_transport_network_context stage_bound_profile promote_transport_lease : Command
  revoke_transport_lease read_candidate_network probe_candidate cancel_candidate_probe : Command
  replace_managed_profile observe_network_context : Command
  unnamed : ℕ → Command

pub data Status : Type 0 where
  none_yet ok invalid unauthorized unsupported not_ready replay deadline_exceeded : Status
  unnamed : ℕ → Status

-- `static_cast<std::uint16_t>` of each enumeration.
unfoldable pub kind_code : FrameKind → ℕ
kind_code hello_request = 1
kind_code request = 2
kind_code response = 3

unfoldable pub command_code : Command → ℕ
command_code hello = 0
command_code status = 1
command_code connect = 2
command_code disconnect = 3
command_code cancel = 4
command_code recover = 5
command_code diagnostic_state = 6
command_code initialize = 7
command_code stage_profile = 8
command_code invalidate_profile = 9
command_code revoke_smart_access_lease = 10
command_code revoke_routing_catalog = 11
command_code revoke_smart_access_policy = 12
command_code revoke_routing_catalog_service = 13
command_code renew_smart_access_lease = 14
command_code configure_smart_access_runtime_control = 15
command_code read_smart_access_restrictions = 16
command_code acknowledge_smart_access_restrictions = 17
command_code read_smart_access_leases = 18
command_code configure_smart_access_renewal = 19
command_code read_boot_clock = 20
command_code connect_with_identity = 21
command_code cancel_connect_and_confirm = 22
command_code configure_bound_smart_access_runtime_control = 23
command_code read_transport_network_context = 24
command_code stage_bound_profile = 25
command_code promote_transport_lease = 26
command_code revoke_transport_lease = 27
command_code read_candidate_network = 28
command_code probe_candidate = 29
command_code cancel_candidate_probe = 30
command_code replace_managed_profile = 31
command_code observe_network_context = 32
command_code (Command.unnamed n) = n

unfoldable pub status_code : Status → ℕ
status_code none_yet = 0
status_code ok = 1
status_code invalid = 2
status_code unauthorized = 3
status_code unsupported = 4
status_code not_ready = 5
status_code replay = 6
status_code deadline_exceeded = 7
status_code (Status.unnamed n) = n

-- The enumerators in the order of their codes.
abbrev commands : List Command
commands =
    hello ∷ status ∷ connect ∷ disconnect ∷ cancel ∷ recover ∷ diagnostic_state ∷ initialize
    ∷ stage_profile ∷ invalidate_profile ∷ revoke_smart_access_lease ∷ revoke_routing_catalog
    ∷ revoke_smart_access_policy ∷ revoke_routing_catalog_service ∷ renew_smart_access_lease
    ∷ configure_smart_access_runtime_control ∷ read_smart_access_restrictions
    ∷ acknowledge_smart_access_restrictions ∷ read_smart_access_leases
    ∷ configure_smart_access_renewal ∷ read_boot_clock ∷ connect_with_identity
    ∷ cancel_connect_and_confirm ∷ configure_bound_smart_access_runtime_control
    ∷ read_transport_network_context ∷ stage_bound_profile ∷ promote_transport_lease
    ∷ revoke_transport_lease ∷ read_candidate_network ∷ probe_candidate ∷ cancel_candidate_probe
    ∷ replace_managed_profile ∷ observe_network_context ∷ []

abbrev statuses : List Status
statuses =
    none_yet ∷ ok ∷ invalid ∷ unauthorized ∷ unsupported ∷ not_ready ∷ replay ∷ deadline_exceeded
    ∷ []

-- `static_cast<Command>(raw)` and `static_cast<Status>(raw)`.
unfoldable pub command_of : ℕ → Command
command_of raw = get_or commands raw (Command.unnamed raw)

unfoldable pub status_of : ℕ → Status
status_of raw = get_or statuses raw (Status.unnamed raw)

unfoldable pub is_known_command : Command → Bool
is_known_command (Command.unnamed n) = false
is_known_command _ = true

unfoldable pub is_known_status : Status → Bool
is_known_status (Status.unnamed n) = false
is_known_status _ = true

pub record Frame : Type 0 where
  pub kind : FrameKind
  pub command : Command
  pub status : Status
  pub correlation_id : Identifier
  pub session_token : Identifier
  pub operation_nonce : Identifier
  pub deadline_unix_ms : ℕ
  pub capabilities : ℕ
  pub body : List ℕ

pub record CancellationTarget : Type 0 where
  pub session_token : Identifier
  pub operation_nonce : Identifier

-- `left == right` on the enumeration.
unfoldable pub is : Command → Command → Bool
is left right = command_code left == command_code right

-- `IsConnectCommand`.
unfoldable pub is_connect_command : Command → Bool
is_connect_command command =
    is command connect || is command connect_with_identity || is command replace_managed_profile
