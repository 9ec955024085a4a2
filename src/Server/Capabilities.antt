-- ===== src/Server/Capabilities.antt =====
-- service_protocol.h and service_server.cpp: the capabilities, and which a command requires.
use pokrov_app.Base.{
  if◌then◌else◌, not, text, ◌%◌, ◌&&◌, ◌*◌, ◌+◌, ◌/◌, ◌==◌, ◌^◌, ◌||◌, ℕ, List, Option, Bool, some,
  none, [], ◌∷◌, suc, zero,
}
use pokrov_app.Protocol.Types.{
  is_connect_command, is, Command, disconnect, cancel, diagnostic_state, initialize, stage_profile,
  invalidate_profile, revoke_smart_access_lease, revoke_routing_catalog, revoke_smart_access_policy,
  revoke_routing_catalog_service, renew_smart_access_lease, configure_smart_access_runtime_control,
  read_smart_access_restrictions, acknowledge_smart_access_restrictions, read_smart_access_leases,
  configure_smart_access_renewal, read_boot_clock, connect_with_identity,
  cancel_connect_and_confirm, configure_bound_smart_access_runtime_control,
  read_transport_network_context, stage_bound_profile, promote_transport_lease,
  revoke_transport_lease, read_candidate_network, probe_candidate, cancel_candidate_probe,
  replace_managed_profile, observe_network_context,
}

abbrev pub capability_protocol_v1 : ℕ
capability_protocol_v1 = 2 ^ 0

abbrev pub capability_status : ℕ
capability_status = 2 ^ 1

abbrev pub capability_runtime_control : ℕ
capability_runtime_control = 2 ^ 2

abbrev pub capability_recovery : ℕ
capability_recovery = 2 ^ 3

abbrev pub capability_sanitized_diagnostic : ℕ
capability_sanitized_diagnostic = 2 ^ 4

abbrev pub capability_profile_identity : ℕ
capability_profile_identity = 2 ^ 5

abbrev pub capability_cancellation : ℕ
capability_cancellation = 2 ^ 6

abbrev pub capability_routing_catalog_window : ℕ
capability_routing_catalog_window = 2 ^ 7

abbrev pub capability_smart_access_lease : ℕ
capability_smart_access_lease = 2 ^ 8

abbrev pub capability_routing_catalog_control : ℕ
capability_routing_catalog_control = 2 ^ 9

abbrev pub capability_smart_access_policy_control : ℕ
capability_smart_access_policy_control = 2 ^ 10

abbrev pub capability_routing_catalog_service_control : ℕ
capability_routing_catalog_service_control = 2 ^ 11

abbrev pub capability_smart_access_renewal : ℕ
capability_smart_access_renewal = 2 ^ 12

abbrev pub capability_smart_access_runtime_control : ℕ
capability_smart_access_runtime_control = 2 ^ 13

abbrev pub capability_boot_clock : ℕ
capability_boot_clock = 2 ^ 14

abbrev pub capability_bound_connect : ℕ
capability_bound_connect = 2 ^ 15

abbrev pub capability_connect_settlement : ℕ
capability_connect_settlement = 2 ^ 16

abbrev pub capability_bound_runtime_control : ℕ
capability_bound_runtime_control = 2 ^ 17

abbrev pub capability_transport_network_context : ℕ
capability_transport_network_context = 2 ^ 18

abbrev pub capability_bound_profile_stage : ℕ
capability_bound_profile_stage = 2 ^ 19

abbrev pub capability_transport_lease_handoff : ℕ
capability_transport_lease_handoff = 2 ^ 20

abbrev pub capability_candidate_probe : ℕ
capability_candidate_probe = 2 ^ 21

abbrev pub capability_protected_handoff : ℕ
capability_protected_handoff = 2 ^ 22

abbrev pub capability_network_observation : ℕ
capability_network_observation = 2 ^ 23

-- `|` of different bits is their sum. `recovery` is not offered.
abbrev pub service_capabilities : ℕ
service_capabilities =
    capability_protocol_v1 + capability_status + capability_runtime_control
    + capability_sanitized_diagnostic + capability_profile_identity + capability_cancellation
    + capability_routing_catalog_window + capability_smart_access_lease
    + capability_routing_catalog_control + capability_smart_access_policy_control
    + capability_routing_catalog_service_control + capability_smart_access_renewal
    + capability_smart_access_runtime_control + capability_boot_clock + capability_bound_connect
    + capability_connect_settlement + capability_bound_runtime_control
    + capability_transport_network_context + capability_bound_profile_stage
    + capability_transport_lease_handoff + capability_candidate_probe + capability_protected_handoff
    + capability_network_observation

-- `left & right` on std::uint64_t, from the lowest bit.
unfoldable pub bit_and_loop : ℕ → ℕ → ℕ → ℕ
bit_and_loop zero left right = 0
bit_and_loop (suc bits) left right =
    left % 2 * (right % 2) + 2 * bit_and_loop bits (left / 2) (right / 2)

unfoldable pub bit_and : ℕ → ℕ → ℕ
bit_and left right = bit_and_loop 64 left right

-- `(capabilities & mask) == 0` and `(capabilities & mask) != mask`.
unfoldable pub lacks_bit : ℕ → ℕ → Bool
lacks_bit capabilities mask = bit_and capabilities mask == 0

unfoldable pub lacks_any : ℕ → ℕ → Bool
lacks_any capabilities mask = not (bit_and capabilities mask == mask)

unfoldable pub is_compatible : ℕ → Bool
is_compatible capabilities =
    not (lacks_bit capabilities capability_protocol_v1)
    && not (lacks_bit capabilities capability_status)
    && not (lacks_bit capabilities capability_profile_identity)
    && not (lacks_bit capabilities capability_cancellation)

unfoldable pub is_runtime_command : Command → Bool
is_runtime_command command =
    is command initialize
    || is command stage_profile
    || is command stage_bound_profile
    || is command invalidate_profile
    || is_connect_command command
    || is command cancel
    || is command cancel_connect_and_confirm
    || is command disconnect
    || is command revoke_smart_access_lease
    || is command revoke_routing_catalog
    || is command revoke_smart_access_policy
    || is command revoke_routing_catalog_service
    || is command renew_smart_access_lease
    || is command configure_smart_access_runtime_control
    || is command read_smart_access_restrictions
    || is command acknowledge_smart_access_restrictions
    || is command read_smart_access_leases
    || is command configure_smart_access_renewal
    || is command configure_bound_smart_access_runtime_control
    || is command promote_transport_lease
    || is command revoke_transport_lease

-- One condition of the chain, in the order of the source.
pub record Gate : Type 0 where
  pub refuses : Bool
  pub because : List ℕ

abbrev gate : Bool → List ℕ → Gate
gate refuses because = record { refuses = refuses; because = because }

unfoldable pub gates : ℕ → Command → List Gate
gates negotiated command =
    gate (is_runtime_command command && lacks_bit negotiated capability_runtime_control)
      (text "runtime_capability_required")
    ∷ gate
        (is command observe_network_context && lacks_bit negotiated capability_network_observation)
        (text "network_observation_capability_required")
    ∷ gate (is command replace_managed_profile && lacks_bit negotiated capability_protected_handoff)
        (text "protected_handoff_capability_required")
    ∷ gate
        ((is command probe_candidate
            || is command cancel_candidate_probe
            || is command read_candidate_network)
          && lacks_bit negotiated capability_candidate_probe)
        (text "candidate_probe_capability_required")
    ∷ gate
        (is command configure_bound_smart_access_runtime_control
          && lacks_any negotiated
              (capability_bound_runtime_control + capability_smart_access_runtime_control))
        (text "bound_runtime_control_capability_required")
    ∷ gate
        (is command connect_with_identity
          && lacks_any negotiated (
              capability_bound_connect + capability_boot_clock + capability_profile_identity
              + capability_connect_settlement + capability_transport_network_context))
        (text "bound_connect_capability_required")
    ∷ gate
        ((is command promote_transport_lease || is command revoke_transport_lease)
          && lacks_bit negotiated capability_transport_lease_handoff)
        (text "transport_lease_handoff_capability_required")
    ∷ gate (is command stage_bound_profile && lacks_bit negotiated capability_bound_profile_stage)
        (text "bound_profile_stage_capability_required")
    ∷ gate
        (is command cancel_connect_and_confirm
          && lacks_bit negotiated capability_connect_settlement)
        (text "connect_settlement_capability_required")
    ∷ gate
        (is command read_transport_network_context
          && lacks_bit negotiated capability_transport_network_context)
        (text "network_context_capability_required")
    ∷ gate (is command read_boot_clock && lacks_bit negotiated capability_boot_clock)
        (text "runtime_clock_capability_required")
    ∷ gate (is command cancel && lacks_bit negotiated capability_cancellation)
        (text "cancellation_capability_required")
    ∷ gate
        ((is command configure_smart_access_runtime_control
            || is command read_smart_access_restrictions
            || is command acknowledge_smart_access_restrictions
            || is command read_smart_access_leases
            || is command configure_smart_access_renewal)
          && lacks_bit negotiated capability_smart_access_runtime_control)
        (text "smart_access_runtime_control_capability_required")
    ∷ gate
        (is command renew_smart_access_lease
          && lacks_bit negotiated capability_smart_access_renewal)
        (text "smart_access_renewal_capability_required")
    ∷ gate
        (is command revoke_routing_catalog_service
          && lacks_bit negotiated capability_routing_catalog_service_control)
        (text "catalog_service_capability_required")
    ∷ gate
        (is command revoke_smart_access_policy
          && lacks_bit negotiated capability_smart_access_policy_control)
        (text "smart_access_policy_capability_required")
    ∷ gate
        (is command revoke_routing_catalog
          && lacks_bit negotiated capability_routing_catalog_control)
        (text "catalog_control_capability_required")
    ∷ gate
        (is command revoke_smart_access_lease && lacks_bit negotiated capability_smart_access_lease)
        (text "smart_access_capability_required")
    ∷ gate (is command diagnostic_state && lacks_bit negotiated capability_sanitized_diagnostic)
        (text "diagnostic_capability_required")
    ∷ []

unfoldable pub first_refusal : List Gate → Option (List ℕ)
first_refusal [] = none
first_refusal (g ∷ gs) = if g.refuses then some g.because else first_refusal gs

-- The refusal of a command by the capabilities negotiated.
unfoldable pub capability_refusal : ℕ → Command → Option (List ℕ)
capability_refusal negotiated command = first_refusal (gates negotiated command)
