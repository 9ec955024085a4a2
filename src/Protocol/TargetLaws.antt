-- ===== src/Protocol/TargetLaws.antt =====
-- Protocol/Targets: the text of a cancellation target.
use pokrov_app.Protocol.Chars.{is_profile_digest}
use pokrov_app.Protocol.Types.{CancellationTarget, is_zero_identifier}
use pokrov_app.Protocol.Targets.{decode_cancellation_target, encode_cancellation_target}
use pokrov_app.Base.{
  hex_pairs-pair_bytes, if◌then◌else◌, none, not, pair_bytes, subst, sym, take-append-drop, ◌||◌,
  &&-intro, List, all_of, all_of-append, ap, arith, drop, drop-append_len, false, hex_pairs,
  hex_pairs-append, hex_pairs-is_hex, is_byte, length, length-append, length-hex_pairs,
  pair_bytes-hex_pairs, refl, some, take, take-append_len, true, unless-eq-some, ◌++◌, ◌∙◌, ◌≡◌, ℕ,
}

-- Two identifiers of sixteen bytes.
pub record IsTarget (t : CancellationTarget) : Type 0 where
  pub session : length t.session_token ≡ 16
  pub session_bytes : all_of is_byte t.session_token ≡ true
  pub nonce : length t.operation_nonce ≡ 16
  pub nonce_bytes : all_of is_byte t.operation_nonce ≡ true

decode_of_bytes :
    (bytes : List ℕ)
    → length bytes ≡ 32
    → all_of is_byte bytes ≡ true
    → is_zero_identifier (take 16 bytes) ≡ false
    → is_zero_identifier (drop 16 bytes) ≡ false
    → decode_cancellation_target (hex_pairs bytes)
      ≡ some (record { session_token = take 16 bytes; operation_nonce = drop 16 bytes })
unfolding decode_cancellation_target is_profile_digest
decode_of_bytes bytes l b s n =
    let size : length (hex_pairs bytes) ≡ 64 = omega (arith, length-hex_pairs bytes) in
    rw (size, hex_pairs-is_hex bytes b, pair_bytes-hex_pairs bytes b, s, n) refl

pub decode-encode_cancellation_target :
    (t : CancellationTarget)
    → IsTarget t
    → is_zero_identifier t.session_token ≡ false
    → is_zero_identifier t.operation_nonce ≡ false
    → decode_cancellation_target (encode_cancellation_target t) ≡ some t
unfolding encode_cancellation_target
decode-encode_cancellation_target t v s n =
    let bytes = t.session_token ++ t.operation_nonce in
    let first : take 16 bytes ≡ t.session_token =
      take-append_len 16 t.session_token t.operation_nonce v.session in
    let second : drop 16 bytes ≡ t.operation_nonce =
      drop-append_len 16 0 t.session_token t.operation_nonce v.session in
    let whole =
      decode_of_bytes bytes
        (omega (arith, length-append t.session_token t.operation_nonce, v.session, v.nonce))
        (all_of-append is_byte t.session_token t.operation_nonce
          ∙ &&-intro v.session_bytes v.nonce_bytes)
        (ap is_zero_identifier first ∙ s) (ap is_zero_identifier second ∙ n) in
    rw (s, n, ← hex_pairs-append t.session_token t.operation_nonce)
      (whole ∙ (λ i. some (record { session_token = first i; operation_nonce = second i })))

abbrev read_target : List ℕ → CancellationTarget
read_target body = record {
  session_token = take 16 (pair_bytes body);
  operation_nonce = drop 16 (pair_bytes body);
}

digest_of : (body : List ℕ) → not (is_profile_digest body) ≡ false → is_profile_digest body ≡ true
digest_of body h = ground arith

encode-read_target :
    (body : List ℕ)
    → is_profile_digest body ≡ true
    → hex_pairs (take 16 (pair_bytes body)) ++ hex_pairs (drop 16 (pair_bytes body)) ≡ body
unfolding is_profile_digest
encode-read_target body h =
    sym (hex_pairs-append (take 16 (pair_bytes body)) (drop 16 (pair_bytes body)))
    ∙ ap hex_pairs (take-append-drop 16 (pair_bytes body))
    ∙ hex_pairs-pair_bytes 32 body (ground arith) (ground arith)

pub encode-decode_cancellation_target :
    (body : List ℕ) (t : CancellationTarget)
    → decode_cancellation_target body ≡ some t
    → encode_cancellation_target t ≡ body
unfolding decode_cancellation_target encode_cancellation_target
encode-decode_cancellation_target body t h =
    let r : CancellationTarget = read_target body in
    let zero_id = is_zero_identifier r.session_token || is_zero_identifier r.operation_nonce in
    let (shape, h1) =
      unless-eq-some (not (is_profile_digest body)) (if zero_id then none else some r) h in
    let (nonzero, h2) = unless-eq-some zero_id (some r) h1 in
    let e : r ≡ t = cc in
    subst (λ q. encode_cancellation_target q ≡ body) e
      (rw nonzero (encode-read_target body (digest_of body shape)))

-- A target of two identifiers, neither of them zero, is decoded from its encoding, and every accepted
-- body is the encoding of the target that it gives.
pub cancellation_target_round_trip :
    (t : CancellationTarget) (body : List ℕ) (u : CancellationTarget)
    → IsTarget t
    → is_zero_identifier t.session_token ≡ false
    → is_zero_identifier t.operation_nonce ≡ false
    → decode_cancellation_target body ≡ some u
    → (decode_cancellation_target (encode_cancellation_target t) ≡ some t)
      × (encode_cancellation_target u ≡ body)
cancellation_target_round_trip t body u shape session nonce read = (
  decode-encode_cancellation_target t shape session nonce,
  encode-decode_cancellation_target body u read,
)
