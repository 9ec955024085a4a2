-- ===== src/Protocol/Targets.antt =====
-- service_protocol.cpp: the bodies that name an operation, a profile or a Smart Access lease.
use pokrov_app.Base.{
  ℕ, ◌+◌, Bool, false, List, [], ◌∷◌, ◌++◌, Option, none, some, ◌&&◌, ◌||◌, not, length, leb, ltb,
  ◌==◌, get_or, substr, take, drop, all_of, is_hex, is_some, contains, hex_pairs, pair_bytes, text,
  if◌then◌else◌,
}
use pokrov_app.Protocol.Types.{CancellationTarget, is_zero_identifier}
use pokrov_app.Protocol.Chars.{is_digit, is_lower, is_profile_digest}

unfoldable pub encode_cancellation_target : CancellationTarget → List ℕ
encode_cancellation_target target =
    if is_zero_identifier target.session_token || is_zero_identifier target.operation_nonce
    then []
    else hex_pairs target.session_token ++ hex_pairs target.operation_nonce

unfoldable pub decode_cancellation_target : List ℕ → Option CancellationTarget
decode_cancellation_target body =
    if not (is_profile_digest body)
    then none
    else let result : CancellationTarget = record {
      session_token = take 16 (pair_bytes body);
      operation_nonce = drop 16 (pair_bytes body);
    } in
      if is_zero_identifier result.session_token || is_zero_identifier result.operation_nonce
      then none
      else some result

pub record SmartAccessRevocationTarget : Type 0 where
  pub profile_digest : List ℕ
  pub lease_id : List ℕ
  pub terminate_active : Bool

unfoldable pub decode_smart_access_revocation : List ℕ → Option SmartAccessRevocationTarget
decode_smart_access_revocation body =
    if not (length body == 99)
      || not (get_or body 64 0 == b':')
      || not (get_or body 97 0 == b':')
      || (not (get_or body 98 0 == b'0') && not (get_or body 98 0 == b'1'))
      || not (is_profile_digest (substr body 0 64))
      || not (all_of is_hex (substr body 65 32))
    then none
    else some (record {
      profile_digest = substr body 0 64;
      lease_id = substr body 65 32;
      terminate_active = get_or body 98 0 == b'1';
    })

abbrev smart_access_revocation_body : SmartAccessRevocationTarget → List ℕ
smart_access_revocation_body target =
    target.profile_digest
    ++ b':' ∷ (target.lease_id ++ (if target.terminate_active then text ":1" else text ":0"))

unfoldable pub encode_smart_access_revocation : SmartAccessRevocationTarget → List ℕ
unfolding decode_smart_access_revocation
encode_smart_access_revocation target =
    let body = smart_access_revocation_body target in
    if is_some (decode_smart_access_revocation body) then body else []

unfoldable pub is_smart_access_policy_revocation : List ℕ → Bool
is_smart_access_policy_revocation body =
    (length body == 66)
    && (get_or body 64 0 == b':')
    && ((get_or body 65 0 == b'0') || (get_or body 65 0 == b'1'))
    && is_profile_digest (substr body 0 64)

abbrev is_service_initial : ℕ → Bool
is_service_initial c = is_lower c || is_digit c

unfoldable pub is_routing_catalog_service_revocation : List ℕ → Bool
is_routing_catalog_service_revocation body =
    if ltb (length body) 66
      || ltb 129 (length body)
      || not (get_or body 64 0 == b':')
      || not (is_profile_digest (substr body 0 64))
    then false
    else is_service_initial (get_or body 65 0)
      && all_of (λ c. is_service_initial c || (c == b'.') || (c == b'_') || (c == b'-'))
          (drop 65 body)

unfoldable pub is_smart_access_runtime_control : List ℕ → Bool
is_smart_access_runtime_control body =
    ltb 65 (length body)
    && leb (length body) (65 + 16384)
    && (get_or body 64 0 == b'|')
    && is_profile_digest (substr body 0 64)
    && not (contains 0 body)

unfoldable pub is_bound_smart_access_runtime_control : List ℕ → Bool
unfolding decode_cancellation_target is_smart_access_runtime_control
is_bound_smart_access_runtime_control body =
    ltb 65 (length body)
    && (get_or body 64 0 == b'|')
    && is_some (decode_cancellation_target (substr body 0 64))
    && is_smart_access_runtime_control (drop 65 body)
