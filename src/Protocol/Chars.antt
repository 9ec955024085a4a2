-- ===== src/Protocol/Chars.antt =====
-- The character classes and length checks of service_protocol.cpp and service_profile_identity.cpp.
use pokrov_app.Base.{
  ℕ, is_hex, Bool, List, ◌&&◌, ◌||◌, not, all_of, length, leb, ltb, ◌==◌, get_or, starts_with, text,
  contains, drop,
}
use pokrov_app.Protocol.Types.{max_profile_body_size}

abbrev pub is_digit : ℕ → Bool
is_digit c = leb b'0' c && leb c b'9'

abbrev pub is_lower : ℕ → Bool
is_lower c = leb b'a' c && leb c b'z'

abbrev pub is_upper : ℕ → Bool
is_upper c = leb b'A' c && leb c b'Z'

unfoldable pub is_profile_digest : List ℕ → Bool
is_profile_digest value = (length value == 64) && all_of is_hex value

unfoldable pub is_bounded_ascii_control : List ℕ → ℕ → Bool
is_bounded_ascii_control value limit =
    leb (length value) limit && all_of (λ c. leb 0x20 c && leb c 0x7E) value

unfoldable pub is_bounded_profile : List ℕ → Bool
is_bounded_profile value =
    leb 4 (length value)
    && leb (length value) max_profile_body_size
    && ((get_or value 0 0 == b'0') || (get_or value 0 0 == b'1'))
    && (get_or value 1 0 == 10)
    && not (contains 0 value)

unfoldable pub is_transport_network_context_ref : List ℕ → Bool
is_transport_network_context_ref value =
    (length value == 40) && starts_with (text "network_") value && all_of is_hex (drop 8 value)

unfoldable pub is_candidate_probe_id : List ℕ → Bool
is_candidate_probe_id value =
    ltb 0 (length value)
    && leb (length value) 128
    && all_of (λ c. is_upper c || is_lower c || is_digit c || (c == b'_') || (c == b'-')) value
