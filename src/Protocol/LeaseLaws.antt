-- ===== src/Protocol/LeaseLaws.antt =====
-- Protocol/Leases: the fixed positions of the fields in the text of a lease.
use pokrov_app.Protocol.Types.{CancellationTarget}
use pokrov_app.Protocol.TargetLaws.{encode-decode_cancellation_target}
use pokrov_app.Protocol.Targets.{decode_cancellation_target, encode_cancellation_target}
use pokrov_app.Protocol.Chars.{is_profile_digest}
use pokrov_app.Protocol.Leases.{
  TransportLeasePromotion, decode_transport_lease_promotion, encode_transport_lease_promotion,
  promotion_body, promotion_shape, is_timestamp, decode_smart_access_renewal,
  encode_smart_access_renewal, renewal_body, renewal_shape, SmartAccessRenewalTarget,
}
use pokrov_app.Base.{
  Option-cases, bytes_eq, inl, inr, text, all_of, is_hex, Bool, when-eq-some, ◌&&◌, length-drop,
  refl, some, take_all, ==→eq, List, [], ap, arith, drop, get_or, length, substr, suc, sym, take,
  take-append-drop, true, zero, ◌++◌, ◌+◌, ◌<◌, ◌==◌, ◌∙◌, ◌∷◌, ◌≡◌, ℕ,
}

drop_empty : (n : ℕ) → drop {A = ℕ} n [] ≡ []
drop_empty zero = refl
drop_empty (suc n) = refl

drop-drop : (a b : ℕ) (xs : List ℕ) → drop b (drop a xs) ≡ drop (a + b) xs
drop-drop zero b xs = ap (λ m. drop m xs) (omega arith)
drop-drop (suc a) b [] = drop_empty b ∙ sym (drop_empty (suc a + b))
drop-drop (suc a) b (x ∷ xs) =
    let e : suc a + b ≡ suc (a + b) = omega arith in rw e (drop-drop a b xs)

-- From position `n` on: a field of `k` characters, and what is behind it.
field_at : (n k : ℕ) (body : List ℕ) → drop n body ≡ substr body n k ++ drop (n + k) body
field_at n k body =
    sym (take-append-drop k (drop n body))
    ∙ ap (λ t. take k (drop n body) ++ t) (drop-drop n k body)

-- At position `n` stands the separator `c`.
separator_at :
    (n c : ℕ) (body : List ℕ)
    → n < length body
    → (get_or body n 0 == c) ≡ true
    → drop n body ≡ c ∷ drop (n + 1) body
separator_at n c [] l h = absurd (omega arith)
separator_at zero c (x ∷ xs) l h = ap (λ m. m ∷ xs) (==→eq x c h)
separator_at (suc n) c (x ∷ xs) l h =
    let e : suc n + 1 ≡ suc (n + 1) = omega arith in rw e (separator_at n c xs (omega arith) h)

-- A field of `k` characters at `n` with a separator behind it.
field_and_separator :
    (n k c : ℕ) (body : List ℕ)
    → n + k < length body
    → (get_or body (n + k) 0 == c) ≡ true
    → drop n body ≡ substr body n k ++ c ∷ drop (n + k + 1) body
field_and_separator n k c body l h =
    field_at n k body ∙ ap (λ t. substr body n k ++ t) (separator_at (n + k) c body l h)

-- The last field ends the text.
last_field : (n k : ℕ) (body : List ℕ) → length body ≡ n + k → drop n body ≡ substr body n k
last_field n k body l = sym (take_all k (drop n body) (omega (arith, length-drop n body)))

abbrev renewal_of : List ℕ → SmartAccessRenewalTarget
renewal_of body = record {
  profile_digest = substr body 0 64;
  expected_lease_id = substr body 65 32;
  next_lease_id = substr body 98 32;
  issued_at = substr body 131 20;
  new_flows_until = substr body 152 20;
  active_flows_until = substr body 173 20;
}

-- The first six of twelve tests that hold.
six_hold :
    (a b c d e f g h' i j k l : Bool)
    → (a && b && c && d && e && f && g && h' && i && j && k && l) ≡ true
    → (a ≡ true) × (b ≡ true) × (c ≡ true) × (d ≡ true) × (e ≡ true) × (f ≡ true)
six_hold a b c d e f g h' i j k l h =
    (ground arith, ground arith, ground arith, ground arith, ground arith, ground arith)

renewal_body-renewal_of :
    (body : List ℕ) → renewal_shape body ≡ true → renewal_body (renewal_of body) ≡ body
unfolding renewal_shape
renewal_body-renewal_of body h =
    let (size, s1, s2, s3, s4, s5) =
      six_hold (length body == 193) (get_or body 64 0 == b'|') (get_or body 97 0 == b'|')
        (get_or body 130 0 == b'|') (get_or body 151 0 == b'|') (get_or body 172 0 == b'|')
        (is_profile_digest (substr body 0 64)) (all_of is_hex (substr body 65 32))
        (all_of is_hex (substr body 98 32)) (is_timestamp (substr body 131 20))
        (is_timestamp (substr body 152 20)) (is_timestamp (substr body 173 20)) h in
    let l : length body ≡ 193 = ==→eq (length body) 193 size in
    sym (
      field_and_separator 0 64 b'|' body (omega (arith, l)) s1
      ∙ ap (λ t. substr body 0 64 ++ b'|' ∷ t)
          (field_and_separator 65 32 b'|' body (omega (arith, l)) s2
            ∙ ap (λ t. substr body 65 32 ++ b'|' ∷ t)
                (field_and_separator 98 32 b'|' body (omega (arith, l)) s3
                  ∙ ap (λ t. substr body 98 32 ++ b'|' ∷ t)
                      (field_and_separator 131 20 b'|' body (omega (arith, l)) s4
                        ∙ ap (λ t. substr body 131 20 ++ b'|' ∷ t)
                            (field_and_separator 152 20 b'|' body (omega (arith, l)) s5
                              ∙ ap (λ t. substr body 152 20 ++ b'|' ∷ t)
                                  (last_field 173 20 body l))))))

renewal_read :
    (body : List ℕ) (r : SmartAccessRenewalTarget)
    → decode_smart_access_renewal body ≡ some r
    → (renewal_shape body ≡ true) × (renewal_of body ≡ r)
unfolding decode_smart_access_renewal
renewal_read body r h =
    let (shape, e) = when-eq-some (renewal_shape body) (some (renewal_of body)) h in (shape, cc)

encode_of :
    (r : SmartAccessRenewalTarget) (body : List ℕ)
    → renewal_body r ≡ body
    → decode_smart_access_renewal body ≡ some r
    → encode_smart_access_renewal r ≡ body
unfolding encode_smart_access_renewal
encode_of r body e h = rw (e, h) refl

-- Every accepted renewal body is the encoding of the renewal that it gives.
pub encode-decode_smart_access_renewal :
    (body : List ℕ) (r : SmartAccessRenewalTarget)
    → decode_smart_access_renewal body ≡ some r
    → encode_smart_access_renewal r ≡ body
encode-decode_smart_access_renewal body r h =
    let (shape, e) = renewal_read body r h in
    encode_of r body (sym (ap renewal_body e) ∙ renewal_body-renewal_of body shape) h

abbrev promotion_of : CancellationTarget → List ℕ → TransportLeasePromotion
promotion_of target body = record {
  target = target;
  profile_digest = substr body 65 64;
  endpoint_lease_ref = substr body 130 38;
  issued_at = substr body 169 20;
  new_flows_until = substr body 190 20;
  active_flows_until = substr body 211 20;
}

promotion_body-promotion_of :
    (body : List ℕ) (target : CancellationTarget)
    → promotion_shape body ≡ true
    → encode_cancellation_target target ≡ substr body 0 64
    → promotion_body (promotion_of target body) ≡ body
unfolding promotion_shape
promotion_body-promotion_of body target h t =
    let (size, s1, s2, s3, s4, s5) =
      six_hold (length body == 231) (get_or body 64 0 == b'|') (get_or body 129 0 == b'|')
        (get_or body 168 0 == b'|') (get_or body 189 0 == b'|') (get_or body 210 0 == b'|')
        (is_profile_digest (substr body 65 64)) (bytes_eq (substr body 130 6) (text "lease_"))
        (all_of is_hex (substr body 136 32)) (is_timestamp (substr body 169 20))
        (is_timestamp (substr body 190 20)) (is_timestamp (substr body 211 20)) h in
    let l : length body ≡ 231 = ==→eq (length body) 231 size in
    rw t (
      sym (
        field_and_separator 0 64 b'|' body (omega (arith, l)) s1
        ∙ ap (λ t. substr body 0 64 ++ b'|' ∷ t)
            (field_and_separator 65 64 b'|' body (omega (arith, l)) s2
              ∙ ap (λ t. substr body 65 64 ++ b'|' ∷ t)
                  (field_and_separator 130 38 b'|' body (omega (arith, l)) s3
                    ∙ ap (λ t. substr body 130 38 ++ b'|' ∷ t)
                        (field_and_separator 169 20 b'|' body (omega (arith, l)) s4
                          ∙ ap (λ t. substr body 169 20 ++ b'|' ∷ t)
                              (field_and_separator 190 20 b'|' body (omega (arith, l)) s5
                                ∙ ap (λ t. substr body 190 20 ++ b'|' ∷ t)
                                    (last_field 211 20 body l)))))))

promotion_read :
    (body : List ℕ) (p : TransportLeasePromotion)
    → decode_transport_lease_promotion body ≡ some p
    → (promotion_shape body ≡ true)
      × ((target : CancellationTarget) × (decode_cancellation_target (substr body 0 64)
            ≡ some target)
          × (promotion_of target body ≡ p))
unfolding decode_transport_lease_promotion
promotion_read body p h =
    let (shape, e) = when-eq-some (promotion_shape body) _ h in
    elim (Option-cases (decode_cancellation_target (substr body 0 64))) [
      | inl n ↦ let e' = rw n at e in cc
      | inr (target, t) ↦
          let e' : some (promotion_of target body) ≡ some p = rw t at e in (shape, (target, t, cc))
    ]

encode_of_promotion :
    (p : TransportLeasePromotion) (body : List ℕ)
    → promotion_body p ≡ body
    → decode_transport_lease_promotion body ≡ some p
    → encode_transport_lease_promotion p ≡ body
unfolding encode_transport_lease_promotion
encode_of_promotion p body e h = rw (e, h) refl

-- Every accepted promotion body is the encoding of the promotion that it gives.
pub encode-decode_transport_lease_promotion :
    (body : List ℕ) (p : TransportLeasePromotion)
    → decode_transport_lease_promotion body ≡ some p
    → encode_transport_lease_promotion p ≡ body
encode-decode_transport_lease_promotion body p h =
    let (shape, (target, t, e)) = promotion_read body p h in
    encode_of_promotion p body
      (sym (ap promotion_body e)
        ∙ promotion_body-promotion_of body target shape
            (encode-decode_cancellation_target (substr body 0 64) target t))
      h
