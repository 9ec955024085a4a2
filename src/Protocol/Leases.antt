-- ===== src/Protocol/Leases.antt =====
-- service_protocol.cpp: the bodies that hand over, revoke and renew a lease. Every field has a
-- fixed place.
use pokrov_app.Base.{
  ℕ, ◌+◌, Bool, true, List, [], ◌∷◌, ◌++◌, Option, none, some, ◌&&◌, ◌||◌, length, ◌==◌, get_or,
  substr, all_of, is_hex, is_some, bytes_eq, text, if◌then◌else◌,
}
use pokrov_app.Protocol.Types.{CancellationTarget}
use pokrov_app.Protocol.Chars.{is_digit, is_profile_digest}
use pokrov_app.Protocol.Targets.{encode_cancellation_target, decode_cancellation_target}

-- The loop over the twenty bytes of `YYYY-MM-DDTHH:MM:SSZ`: the class of each offset.
abbrev timestamp_char : ℕ → ℕ → Bool
timestamp_char offset value =
    if (offset == 4) || (offset == 7)
    then value == b'-'
    else if offset == 10
    then value == b'T'
    else if (offset == 13) || (offset == 16)
    then value == b':'
    else if offset == 19
    then value == b'Z'
    else is_digit value

abbrev timestamp_from : ℕ → List ℕ → Bool
timestamp_from offset [] = true
timestamp_from offset (value ∷ rest) =
    timestamp_char offset value && timestamp_from (offset + 1) rest

unfoldable pub is_timestamp : List ℕ → Bool
is_timestamp field = timestamp_from 0 field

pub record TransportLeasePromotion : Type 0 where
  pub target : CancellationTarget
  pub profile_digest : List ℕ
  pub endpoint_lease_ref : List ℕ
  pub issued_at : List ℕ
  pub new_flows_until : List ℕ
  pub active_flows_until : List ℕ

-- The tests before the target is taken.
unfoldable pub promotion_shape : List ℕ → Bool
unfolding is_timestamp
promotion_shape body =
    (length body == 231)
    && (get_or body 64 0 == b'|')
    && (get_or body 129 0 == b'|')
    && (get_or body 168 0 == b'|')
    && (get_or body 189 0 == b'|')
    && (get_or body 210 0 == b'|')
    && is_profile_digest (substr body 65 64)
    && bytes_eq (substr body 130 6) (text "lease_")
    && all_of is_hex (substr body 136 32)
    && is_timestamp (substr body 169 20)
    && is_timestamp (substr body 190 20)
    && is_timestamp (substr body 211 20)

unfoldable pub decode_transport_lease_promotion : List ℕ → Option TransportLeasePromotion
decode_transport_lease_promotion body =
    if promotion_shape body
    then elim (decode_cancellation_target (substr body 0 64)) [
      | none ↦ none
      | some target ↦ some (record {
        target = target;
        profile_digest = substr body 65 64;
        endpoint_lease_ref = substr body 130 38;
        issued_at = substr body 169 20;
        new_flows_until = substr body 190 20;
        active_flows_until = substr body 211 20;
      })
    ]
    else none

abbrev pub promotion_body : TransportLeasePromotion → List ℕ
promotion_body p =
    encode_cancellation_target p.target
    ++ b'|'
      ∷ (p.profile_digest
          ++ b'|'
            ∷ (p.endpoint_lease_ref
                ++ b'|'
                  ∷ (p.issued_at ++ b'|' ∷ (p.new_flows_until ++ b'|' ∷ p.active_flows_until))))

unfoldable pub encode_transport_lease_promotion : TransportLeasePromotion → List ℕ
encode_transport_lease_promotion p =
    let body = promotion_body p in
    if is_some (decode_transport_lease_promotion body) then body else []

pub record TransportLeaseRevocation : Type 0 where
  pub target : CancellationTarget
  pub profile_digest : List ℕ
  pub endpoint_lease_ref : List ℕ
  pub terminate_active : Bool

unfoldable pub revocation_shape : List ℕ → Bool
revocation_shape body =
    (length body == 170)
    && (get_or body 64 0 == b'|')
    && (get_or body 129 0 == b'|')
    && (get_or body 168 0 == b'|')
    && ((get_or body 169 0 == b'0') || (get_or body 169 0 == b'1'))
    && is_profile_digest (substr body 65 64)
    && bytes_eq (substr body 130 6) (text "lease_")
    && all_of is_hex (substr body 136 32)

unfoldable pub decode_transport_lease_revocation : List ℕ → Option TransportLeaseRevocation
unfolding revocation_shape
decode_transport_lease_revocation body =
    if revocation_shape body
    then elim (decode_cancellation_target (substr body 0 64)) [
      | none ↦ none
      | some target ↦ some (record {
        target = target;
        profile_digest = substr body 65 64;
        endpoint_lease_ref = substr body 130 38;
        terminate_active = get_or body 169 0 == b'1';
      })
    ]
    else none

abbrev pub revocation_body : TransportLeaseRevocation → List ℕ
revocation_body r =
    encode_cancellation_target r.target
    ++ b'|'
      ∷ (r.profile_digest
          ++ b'|'
            ∷ (r.endpoint_lease_ref ++ b'|' ∷ (if r.terminate_active then text "1" else text "0")))

unfoldable pub encode_transport_lease_revocation : TransportLeaseRevocation → List ℕ
unfolding decode_transport_lease_revocation
encode_transport_lease_revocation r =
    let body = revocation_body r in
    if is_some (decode_transport_lease_revocation body) then body else []

pub record SmartAccessRenewalTarget : Type 0 where
  pub profile_digest : List ℕ
  pub expected_lease_id : List ℕ
  pub next_lease_id : List ℕ
  pub issued_at : List ℕ
  pub new_flows_until : List ℕ
  pub active_flows_until : List ℕ

unfoldable pub renewal_shape : List ℕ → Bool
unfolding is_timestamp
renewal_shape body =
    (length body == 193)
    && (get_or body 64 0 == b'|')
    && (get_or body 97 0 == b'|')
    && (get_or body 130 0 == b'|')
    && (get_or body 151 0 == b'|')
    && (get_or body 172 0 == b'|')
    && is_profile_digest (substr body 0 64)
    && all_of is_hex (substr body 65 32)
    && all_of is_hex (substr body 98 32)
    && is_timestamp (substr body 131 20)
    && is_timestamp (substr body 152 20)
    && is_timestamp (substr body 173 20)

unfoldable pub decode_smart_access_renewal : List ℕ → Option SmartAccessRenewalTarget
decode_smart_access_renewal body =
    if renewal_shape body
    then some (record {
      profile_digest = substr body 0 64;
      expected_lease_id = substr body 65 32;
      next_lease_id = substr body 98 32;
      issued_at = substr body 131 20;
      new_flows_until = substr body 152 20;
      active_flows_until = substr body 173 20;
    })
    else none

abbrev pub renewal_body : SmartAccessRenewalTarget → List ℕ
renewal_body r =
    r.profile_digest
    ++ b'|'
      ∷ (r.expected_lease_id
          ++ b'|'
            ∷ (r.next_lease_id
                ++ b'|'
                  ∷ (r.issued_at ++ b'|' ∷ (r.new_flows_until ++ b'|' ∷ r.active_flows_until))))

unfoldable pub encode_smart_access_renewal : SmartAccessRenewalTarget → List ℕ
encode_smart_access_renewal r =
    let body = renewal_body r in if is_some (decode_smart_access_renewal body) then body else []
