-- ===== src/Protocol/RequestLaws/Connect.antt =====
-- Protocol/Requests: the connect with an identity.
use pokrov_app.Protocol.Decimal.{
  from_chars, from_chars-to_string, length-to_string-le, to_string, to_string-is_digit,
  to_string-lacks,
}
use pokrov_app.Protocol.Chars.{
  is_bounded_ascii_control, is_digit, is_profile_digest, is_transport_network_context_ref,
}
use pokrov_app.Base.{
  >>=-eq-some, unless-eq-some, contains, if◌then◌else◌, none, &&-intro, [], ap, bytes_eq_refl,
  le→leb, refl, sym, ◌<◌, ◌^◌, ◌∙◌, ◌+◌, drop, cut, cut-append, ◌≤◌, ◌∷◌, text, is_hex, ◌&&◌, some,
  ◌++◌, length, starts_with, all_of, leb, ℕ, ◌≡◌, Bool, true, List, arith,
}
use pokrov_app.Protocol.RequestLaws.Fields.{
  length-context_ref, context_ref-lacks, profile_digest-lacks, length-profile_digest,
  boot_ref-lacks, length-boot_ref, confirm-eq-some,
}
use pokrov_app.Protocol.Requests.{
  is_boot_ref, BoundConnectTarget, is_bound_connect, connect_body, encode_bound_connect,
  decode_bound_connect,
}

record IsConnect (t : BoundConnectTarget) : Type 0 where
  core : is_profile_digest t.core_module_sha256 ≡ true
  profile : is_profile_digest t.profile_digest ≡ true
  boot : is_boot_ref t.boot_ref ≡ true
  network : is_transport_network_context_ref t.network_context_ref ≡ true
  deadline : t.deadline_elapsed_ms ≤ 9007199254740991
  started : t.started_elapsed_ms < t.deadline_elapsed_ms

is_bound_connect-IsConnect : (t : BoundConnectTarget) → is_bound_connect t ≡ true → IsConnect t
unfolding is_bound_connect
is_bound_connect-IsConnect t h = ground arith

abbrev is_printable : ℕ → Bool
is_printable c = leb 0x20 c && leb c 0x7E

hex-printable : (s : List ℕ) → all_of is_hex s ≡ true → all_of is_printable s ≡ true
hex-printable [] h = refl
hex-printable (c ∷ s) h = ground (arith, hex-printable s)

digits-printable : (s : List ℕ) → all_of is_digit s ≡ true → all_of is_printable s ≡ true
digits-printable [] h = refl
digits-printable (c ∷ s) h = ground (arith, digits-printable s)

prefix-printable :
    (p s : List ℕ)
    → starts_with p s ≡ true
    → all_of is_printable p ≡ true
    → all_of is_hex (drop (length p) s) ≡ true
    → all_of is_printable s ≡ true
prefix-printable [] s h p x = hex-printable s x
prefix-printable (c ∷ p) [] h q x = refl
prefix-printable (c ∷ p) (d ∷ s) h q x = ground (arith, prefix-printable p s)

digest-printable : (s : List ℕ) → is_profile_digest s ≡ true → all_of is_printable s ≡ true
unfolding is_profile_digest
digest-printable s h = hex-printable s (ground arith)

boot_ref-printable : (s : List ℕ) → is_boot_ref s ≡ true → all_of is_printable s ≡ true
unfolding is_boot_ref
boot_ref-printable s h = prefix-printable (text "windows:") s (ground arith) refl (ground arith)

context_ref-printable :
    (s : List ℕ) → is_transport_network_context_ref s ≡ true → all_of is_printable s ≡ true
unfolding is_transport_network_context_ref
context_ref-printable s h = prefix-printable (text "network_") s (ground arith) refl (ground arith)

-- A field and a separator in front of a printable text.
join-printable :
    (xs ys : List ℕ)
    → all_of is_printable xs ≡ true
    → all_of is_printable ys ≡ true
    → all_of is_printable (xs ++ b'|' ∷ ys) ≡ true
join-printable [] ys p q = q
join-printable (x ∷ xs) ys p q = ground (arith, join-printable xs ys)

length-join : (xs ys : List ℕ) → length (xs ++ b'|' ∷ ys) ≡ length xs + 1 + length ys
length-join [] ys = omega arith
length-join (x ∷ xs) ys = omega (arith, length-join xs ys)

module _ (t : BoundConnectTarget) (v : IsConnect t) where
  abbrev from_deadline : List ℕ
  from_deadline = to_string t.deadline_elapsed_ms ++ b'|' ∷ t.network_context_ref

  abbrev from_started : List ℕ
  from_started = to_string t.started_elapsed_ms ++ b'|' ∷ from_deadline

  abbrev from_boot : List ℕ
  from_boot = t.boot_ref ++ b'|' ∷ from_started

  abbrev from_profile : List ℕ
  from_profile = t.profile_digest ++ b'|' ∷ from_boot

  length-connect_body-le : length (connect_body t) ≤ 512
  length-connect_body-le = omega (
    arith,
    length-join t.core_module_sha256 from_profile,
    length-join t.profile_digest from_boot,
    length-join t.boot_ref from_started,
    length-join (to_string t.started_elapsed_ms) from_deadline,
    length-join (to_string t.deadline_elapsed_ms) t.network_context_ref,
    length-profile_digest t.core_module_sha256 v.core,
    length-profile_digest t.profile_digest v.profile,
    length-boot_ref t.boot_ref v.boot,
    length-to_string-le t.started_elapsed_ms,
    length-to_string-le t.deadline_elapsed_ms,
    length-context_ref t.network_context_ref v.network,
  )

  connect_body-printable : all_of is_printable (connect_body t) ≡ true
  connect_body-printable =
      join-printable t.core_module_sha256 from_profile
        (digest-printable t.core_module_sha256 v.core)
        (join-printable t.profile_digest from_boot (digest-printable t.profile_digest v.profile) (
          join-printable t.boot_ref from_started (boot_ref-printable t.boot_ref v.boot) (
            join-printable (to_string t.started_elapsed_ms) from_deadline
              (digits-printable (to_string t.started_elapsed_ms)
                (to_string-is_digit t.started_elapsed_ms))
              (join-printable (to_string t.deadline_elapsed_ms) t.network_context_ref
                (digits-printable (to_string t.deadline_elapsed_ms)
                  (to_string-is_digit t.deadline_elapsed_ms))
                (context_ref-printable t.network_context_ref v.network)))))

  connect_body-bounded : is_bounded_ascii_control (connect_body t) 512 ≡ true
  unfolding is_bounded_ascii_control
  connect_body-bounded =
      &&-intro (le→leb (length (connect_body t)) 512 length-connect_body-le) connect_body-printable

  decode-connect_body : is_bound_connect t ≡ true → decode_bound_connect (connect_body t) ≡ some t
  unfolding decode_bound_connect encode_bound_connect
  decode-connect_body h = rw (
    connect_body-bounded,
    cut-append b'|' t.core_module_sha256 from_profile
        (profile_digest-lacks b'|' t.core_module_sha256 v.core refl),
    cut-append b'|' t.profile_digest from_boot
        (profile_digest-lacks b'|' t.profile_digest v.profile refl),
    cut-append b'|' t.boot_ref from_started (boot_ref-lacks b'|' t.boot_ref v.boot refl refl),
    cut-append b'|' (to_string t.started_elapsed_ms) from_deadline
        (to_string-lacks b'|' t.started_elapsed_ms refl),
    cut-append b'|' (to_string t.deadline_elapsed_ms) t.network_context_ref
        (to_string-lacks b'|' t.deadline_elapsed_ms refl),
    context_ref-lacks b'|' t.network_context_ref v.network refl refl,
    from_chars-to_string (2 ^ 64) t.started_elapsed_ms (omega (arith, v)) (omega (arith, v)),
    from_chars-to_string (2 ^ 64) t.deadline_elapsed_ms (omega (arith, v)) (omega (arith, v)),
    h,
    bytes_eq_refl (connect_body t),
  )

pub decode-encode_bound_connect :
    (t : BoundConnectTarget)
    → is_bound_connect t ≡ true
    → decode_bound_connect (encode_bound_connect t) ≡ some t
unfolding encode_bound_connect
decode-encode_bound_connect t h = rw h (decode-connect_body t (is_bound_connect-IsConnect t h) h)

encode-decode_bound_connect :
    (body : List ℕ) (t : BoundConnectTarget)
    → decode_bound_connect body ≡ some t
    → encode_bound_connect t ≡ body
unfolding decode_bound_connect
encode-decode_bound_connect body t h =
    let (f1, c1, h1) = >>=-eq-some (cut b'|' body) _ (unless-eq-some _ _ h).1 in
    let (f2, c2, h2) = >>=-eq-some (cut b'|' f1.1) _ h1 in
    let (f3, c3, h3) = >>=-eq-some (cut b'|' f2.1) _ h2 in
    let (f4, c4, h4) = >>=-eq-some (cut b'|' f3.1) _ h3 in
    let (f5, c5, h5) = >>=-eq-some (cut b'|' f4.1) _ h4 in
    let (started, c6, h6) =
      >>=-eq-some (if contains b'|' f5.1 then none else from_chars (2 ^ 64) f4.0) _ h5 in
    let (deadline, c7, h7) = >>=-eq-some (from_chars (2 ^ 64) f5.0) _ h6 in
    let (same, e) = confirm-eq-some encode_bound_connect body _ t h7 in
    ap encode_bound_connect (sym same) ∙ e

-- A valid connect target is decoded from its encoding, and every accepted body is the encoding of the
-- target that it gives.
pub bound_connect_round_trip :
    (t : BoundConnectTarget) (body : List ℕ) (u : BoundConnectTarget)
    → is_bound_connect t ≡ true
    → decode_bound_connect body ≡ some u
    → (decode_bound_connect (encode_bound_connect t) ≡ some t) × (encode_bound_connect u ≡ body)
bound_connect_round_trip t body u valid read =
    (decode-encode_bound_connect t valid, encode-decode_bound_connect body u read)
