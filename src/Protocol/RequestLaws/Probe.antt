-- ===== src/Protocol/RequestLaws/Probe.antt =====
-- Protocol/Requests: the candidate probe.
use pokrov_app.Base.{
  >>=-eq-some, unless-eq-some, ◌||◌, ℕ, ◌-◌, ◌^◌, ◌≤◌, ◌≡◌, refl, sym, ap, ◌∙◌, true, false, List,
  ◌∷◌, ◌++◌, some, length, ◌==◌, arith, contains, cut, cut-append, all_of-lacks, length-append,
  bytes_eq_refl, le→ltb_false,
}
use pokrov_app.Protocol.RequestLaws.Fields.{length-context_ref, context_ref-lacks, confirm-eq-some}
use pokrov_app.Protocol.Types.{max_profile_body_size}
use pokrov_app.Protocol.Chars.{
  is_digit, is_lower, is_upper, is_candidate_probe_id, is_transport_network_context_ref,
}
use pokrov_app.Protocol.Decimal.{
  to_string, from_chars, from_chars-to_string, to_string-lacks, length-to_string-le,
}
use pokrov_app.Protocol.Requests.{
  CandidateProbeRequest, is_candidate_probe, encode_candidate_probe, decode_candidate_probe,
  probe_body,
}

probe_id-lacks : (s : List ℕ) → is_candidate_probe_id s ≡ true → contains 10 s ≡ false
unfolding is_candidate_probe_id
probe_id-lacks s h =
    all_of-lacks (λ c. is_upper c || is_lower c || is_digit c || (c == b'_') || (c == b'-')) 10 s
      refl (ground arith)

record IsProbe (r : CandidateProbeRequest) : Type 0 where
  id : is_candidate_probe_id r.probe_id ≡ true
  low : 1 ≤ r.timeout_ms
  high : r.timeout_ms ≤ 30000
  network : is_transport_network_context_ref r.network_context_ref ≡ true
  room : length r.config ≤ max_profile_body_size - 256

is_candidate_probe-IsProbe : (r : CandidateProbeRequest) → is_candidate_probe r ≡ true → IsProbe r
unfolding is_candidate_probe
is_candidate_probe-IsProbe r h = ground arith

length-probe_id-le : (s : List ℕ) → is_candidate_probe_id s ≡ true → length s ≤ 128
unfolding is_candidate_probe_id
length-probe_id-le s h = ground arith

length-probe_body-le :
    (r : CandidateProbeRequest) → IsProbe r → length (probe_body r) ≤ max_profile_body_size
length-probe_body-le r v = omega (
  arith,
  v,
  length-probe_id-le r.probe_id v.id,
  length-context_ref r.network_context_ref v.network,
  length-to_string-le r.timeout_ms,
  length-append r.probe_id
      (10 ∷ (to_string r.timeout_ms ++ 10 ∷ (r.network_context_ref ++ 10 ∷ r.config))),
  length-append (to_string r.timeout_ms) (10 ∷ (r.network_context_ref ++ 10 ∷ r.config)),
  length-append r.network_context_ref (10 ∷ r.config),
)

decode-probe_body :
    (r : CandidateProbeRequest)
    → is_candidate_probe r ≡ true
    → decode_candidate_probe (probe_body r) ≡ some r
unfolding decode_candidate_probe encode_candidate_probe
decode-probe_body r h =
    let v : IsProbe r = is_candidate_probe-IsProbe r h in
    rw (
      le→ltb_false (length (probe_body r)) max_profile_body_size (length-probe_body-le r v),
      cut-append 10 r.probe_id
          (to_string r.timeout_ms ++ 10 ∷ (r.network_context_ref ++ 10 ∷ r.config))
          (probe_id-lacks r.probe_id v.id),
      cut-append 10 (to_string r.timeout_ms) (r.network_context_ref ++ 10 ∷ r.config)
          (to_string-lacks 10 r.timeout_ms refl),
      cut-append 10 r.network_context_ref r.config
          (context_ref-lacks 10 r.network_context_ref v.network refl refl),
      from_chars-to_string (2 ^ 32) r.timeout_ms (omega (arith, v.high)) (omega (arith, v.high)),
      h,
      bytes_eq_refl (probe_body r),
    )

pub decode-encode_candidate_probe :
    (r : CandidateProbeRequest)
    → is_candidate_probe r ≡ true
    → decode_candidate_probe (encode_candidate_probe r) ≡ some r
unfolding encode_candidate_probe
decode-encode_candidate_probe r h = rw h (decode-probe_body r h)

encode-decode_candidate_probe :
    (body : List ℕ) (r : CandidateProbeRequest)
    → decode_candidate_probe body ≡ some r
    → encode_candidate_probe r ≡ body
unfolding decode_candidate_probe
encode-decode_candidate_probe body r h =
    let (f1, c1, h1) = >>=-eq-some (cut 10 body) _ (unless-eq-some _ _ h).1 in
    let (f2, c2, h2) = >>=-eq-some (cut 10 f1.1) _ h1 in
    let (f3, c3, h3) = >>=-eq-some (cut 10 f2.1) _ h2 in
    let (timeout, c4, h4) = >>=-eq-some (from_chars (2 ^ 32) f2.0) _ h3 in
    let (same, e) = confirm-eq-some encode_candidate_probe body _ r h4 in
    ap encode_candidate_probe (sym same) ∙ e

-- A valid probe request is decoded from its encoding, and every accepted body is the encoding of the
-- request that it gives.
pub candidate_probe_round_trip :
    (t : CandidateProbeRequest) (body : List ℕ) (u : CandidateProbeRequest)
    → is_candidate_probe t ≡ true
    → decode_candidate_probe body ≡ some u
    → (decode_candidate_probe (encode_candidate_probe t) ≡ some t)
      × (encode_candidate_probe u ≡ body)
candidate_probe_round_trip t body u valid read =
    (decode-encode_candidate_probe t valid, encode-decode_candidate_probe body u read)
