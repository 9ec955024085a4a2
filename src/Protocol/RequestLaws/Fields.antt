-- ===== src/Protocol/RequestLaws/Fields.antt =====
-- What the proofs about the three bodies of Protocol/Requests share.
use pokrov_app.Base.{
  ℕ, ◌≡◌, true, false, List, none, some, length, bytes_eq, bytes_eq→eq, arith, contains,
  all_of-lacks, starts_with-lacks, is_hex, drop, text, Bool-cases, inl, inr,
}
use pokrov_app.Protocol.Chars.{is_transport_network_context_ref, is_profile_digest}
use pokrov_app.Protocol.Requests.{confirm, is_boot_ref}

pub length-context_ref : (s : List ℕ) → is_transport_network_context_ref s ≡ true → length s ≡ 40
unfolding is_transport_network_context_ref
length-context_ref s h = ground arith

pub context_ref-lacks :
    (c : ℕ) (s : List ℕ)
    → is_transport_network_context_ref s ≡ true
    → is_hex c ≡ false
    → contains c (text "network_") ≡ false
    → contains c s ≡ false
unfolding is_transport_network_context_ref
context_ref-lacks c s h x n =
    starts_with-lacks c (text "network_") s (ground arith) n
      (all_of-lacks is_hex c (drop 8 s) x (ground arith))

pub profile_digest-lacks :
    (c : ℕ) (s : List ℕ) → is_profile_digest s ≡ true → is_hex c ≡ false → contains c s ≡ false
unfolding is_profile_digest
profile_digest-lacks c s h x = all_of-lacks is_hex c s x (ground arith)

pub length-profile_digest : (s : List ℕ) → is_profile_digest s ≡ true → length s ≡ 64
unfolding is_profile_digest
length-profile_digest s h = ground arith

pub boot_ref-lacks :
    (c : ℕ) (s : List ℕ)
    → is_boot_ref s ≡ true
    → is_hex c ≡ false
    → contains c (text "windows:") ≡ false
    → contains c s ≡ false
unfolding is_boot_ref
boot_ref-lacks c s h x n =
    starts_with-lacks c (text "windows:") s (ground arith) n
      (all_of-lacks is_hex c (drop 8 s) x (ground arith))

pub length-boot_ref : (s : List ℕ) → is_boot_ref s ≡ true → length s ≡ 40
unfolding is_boot_ref
length-boot_ref s h = ground arith

pub confirm-eq-some :
    {A : Type 0} (encode : A → List ℕ) (body : List ℕ) (a b : A)
    → confirm encode body a ≡ some b
    → (a ≡ b) × (encode a ≡ body)
confirm-eq-some encode body a b h = elim (Bool-cases (bytes_eq (encode a) body)) [
  | inl same ↦ (let e : some a ≡ some b = rw same at h in cc, bytes_eq→eq (encode a) body same)
  | inr other ↦ let e : none ≡ some b = rw other at h in cc
]
