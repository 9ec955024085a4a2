-- ===== src/Server/DowngradeLaws.antt =====
-- Server/Compatibility: what the downgrade leaves of a body.
use pokrov_app.Protocol.Chars.{is_bounded_ascii_control}
use pokrov_app.Protocol.Valid.{response_limit}
use pokrov_app.Server.Capabilities.{
  capability_routing_catalog_control, capability_routing_catalog_service_control,
  capability_routing_catalog_window, capability_smart_access_lease,
  capability_smart_access_policy_control, capability_smart_access_renewal,
  capability_smart_access_runtime_control, lacks_bit,
}
use pokrov_app.Server.Compatibility.{
  control_version, cut_off, downgrade, lower_version, unless_negotiated, split_at,
}
use pokrov_app.Protocol.Types.{max_control_body_size, max_runtime_snapshot_body_size, Command}
use pokrov_app.Base.{
  if◌then◌else◌, leb→le, le→leb, all_of-append, either_branch, length-append, length-drop, sym,
  text, ◌+◌, ◌∙◌, &&-intro, &&-left, Bool-cases, Option-cases, ap, subst, ◌⊎◌, &&-right, all_of,
  arith, contains, drop, leb, length, refl, starts_with, ◌&&◌, ◌++◌, ◌==◌, ◌≡◌, ◌≤◌, ℕ, List, Bool,
  true, false, some, [], ◌∷◌, suc, zero, inl, inr,
}

-- The bytes that `IsBoundedAsciiControl` lets through.
abbrev pub printable : ℕ → Bool
printable c = leb 0x20 c && leb c 0x7E

-- The needle stands at once, or behind the first byte.
split_at-cases :
    (needle : List ℕ) (c : ℕ) (s : List ℕ) {before behind : List ℕ}
    → split_at needle (c ∷ s) ≡ some (before, behind)
    → ((starts_with needle (c ∷ s) ≡ true) × (before ≡ []) × (behind ≡ c ∷ s))
      ⊎ ((b : List ℕ) × (starts_with needle (c ∷ s) ≡ false)
          × (split_at needle s ≡ some (b, behind))
          × (before ≡ c ∷ b))
unfolding split_at
split_at-cases needle c s {before} {behind} h = elim (Bool-cases (starts_with needle (c ∷ s))) [
  | inl here ↦
      let e : some ([], c ∷ s) ≡ some (before, behind) = rw here at h in inl (here, cc e, cc e)
  | inr later ↦ elim (Option-cases (split_at needle s)) [
    | inl gone ↦ cc (rw (later, gone) at h)
    | inr ((b, t), found) ↦
        let e : some (c ∷ b, t) ≡ some (before, behind) = rw (later, found) at h in
        let same : t ≡ behind = cc e in
        inr (b, later, subst (λ u. split_at needle s ≡ some (b, u)) same found, cc e)
  ]
]

split_at-append :
    (needle s : List ℕ) {before behind : List ℕ}
    → split_at needle s ≡ some (before, behind)
    → (before ++ behind ≡ s) × (starts_with needle behind ≡ true)
unfolding split_at
split_at-append [] [] h = ground arith
split_at-append (n ∷ needle) [] h = cc
split_at-append needle (c ∷ s) {before} {behind} h = elim (split_at-cases needle c s h) [
  | inl (here, e, t) ↦ rw (e, t) (refl, here)
  | inr (b, later, found, e) ↦
      let (joined, starts) = split_at-append needle s found in rw e (ap (◌∷◌ c) joined, starts)
]

all_of-drop : (p : ℕ → Bool) (n : ℕ) (s : List ℕ) → all_of p s ≡ true → all_of p (drop n s) ≡ true
all_of-drop p zero s h = h
all_of-drop p (suc n) [] h = h
all_of-drop p (suc n) (c ∷ s) h = all_of-drop p n s (&&-right (p c) (all_of p s) h)

starts_with-length : (p s : List ℕ) → starts_with p s ≡ true → length p ≤ length s
starts_with-length [] s h = omega arith
starts_with-length (x ∷ p) [] h = cc
starts_with-length (x ∷ p) (c ∷ s) h =
    omega (arith, starts_with-length p s (&&-right (x == c) (starts_with p s) h))

starts_with-append : (p s t : List ℕ) → starts_with p s ≡ true → starts_with p (s ++ t) ≡ true
starts_with-append [] s t h = refl
starts_with-append (x ∷ p) [] t h = cc
starts_with-append (x ∷ p) (c ∷ s) t h = ground (arith, starts_with-append p s t)

-- A prefix without the needle's first byte stands ahead of the needle.
split_at-prefix :
    (n : ℕ) (needle p s : List ℕ) {before behind : List ℕ}
    → contains n p ≡ false
    → starts_with p s ≡ true
    → split_at (n ∷ needle) s ≡ some (before, behind)
    → starts_with p before ≡ true
unfolding split_at
split_at-prefix n needle [] s l h e = refl
split_at-prefix n needle (x ∷ p) [] l h e = cc
split_at-prefix n needle (x ∷ p) (c ∷ s) {before} {behind} l h e =
    elim (split_at-cases (n ∷ needle) c s e) [
      | inl (here, q, t) ↦ ground arith
      | inr (b, later, found, q) ↦
          let lp : contains n p ≡ false = ground arith in
          let hp : starts_with p s ≡ true = ground arith in
          rw q (
            &&-intro (&&-left (x == c) (starts_with p s) h)
              (split_at-prefix n needle p s lp hp found))
    ]

-- A snapshot of at most `limit` bytes that a frame can carry.
record IsSnapshot (limit : ℕ) (body : List ℕ) : Type 0 where
  size : length body ≤ limit
  plain : all_of printable body ≡ true
  phase : starts_with (text "phase=") body ≡ true

cut_off-IsSnapshot :
    (limit n : ℕ) (extension body : List ℕ)
    → contains n (text "phase=") ≡ false
    → IsSnapshot limit body
    → IsSnapshot limit (cut_off (n ∷ extension) body)
unfolding cut_off
cut_off-IsSnapshot limit n extension body l s =
    elim (Option-cases (split_at (n ∷ extension) body)) [
      | inl gone ↦ rw (cut_off, gone) s
      | inr ((before, behind), found) ↦
          let (joined, _) = split_at-append (n ∷ extension) body found in
          let plain : (all_of printable before && all_of printable behind) ≡ true =
            sym (all_of-append printable before behind) ∙ ap (all_of printable) joined ∙ s.plain in
          rw (cut_off, found)
            record {
              size = omega (arith, s.size, length-append before behind, ap length joined);
              plain = &&-left (all_of printable before) (all_of printable behind) plain;
              phase = split_at-prefix n extension (text "phase=") body l s.phase found;
            }
    ]

lower_version-IsSnapshot :
    (limit n digit lower : ℕ) (stem body : List ℕ)
    → contains n (text "phase=") ≡ false
    → all_of printable (n ∷ stem) ≡ true
    → printable lower ≡ true
    → IsSnapshot limit body
    → IsSnapshot limit (lower_version (n ∷ stem) digit lower body)
unfolding lower_version
lower_version-IsSnapshot limit n digit lower stem body l ps pl s =
    elim (Option-cases (split_at (n ∷ stem ++ digit ∷ []) body)) [
      | inl gone ↦ rw (lower_version, gone) s
      | inr ((before, behind), found) ↦
          let (joined, starts) = split_at-append (n ∷ stem ++ digit ∷ []) body found in
          let plain : (all_of printable before && all_of printable behind) ≡ true =
            sym (all_of-append printable before behind) ∙ ap (all_of printable) joined ∙ s.plain in
          let cut : List ℕ = drop (length (n ∷ stem) + 1) behind in
          let tail : all_of printable ((n ∷ stem) ++ lower ∷ cut) ≡ true =
            all_of-append printable (n ∷ stem) (lower ∷ cut)
            ∙ &&-intro ps (
                &&-intro pl (
                  all_of-drop printable (length (n ∷ stem) + 1) behind
                    (&&-right (all_of printable before) (all_of printable behind) plain))) in
          rw (lower_version, found)
            record {
              size = omega (
                arith,
                s.size,
                length-append before behind,
                ap length joined,
                starts_with-length (n ∷ stem ++ digit ∷ []) behind starts,
                length-append stem (digit ∷ []),
                length-append before ((n ∷ stem) ++ lower ∷ cut),
                length-append stem (lower ∷ cut),
                length-drop (length (n ∷ stem) + 1) behind,
              );
              plain =
                  all_of-append printable before ((n ∷ stem) ++ lower ∷ cut)
                  ∙ &&-intro (&&-left (all_of printable before) (all_of printable behind) plain)
                      tail;
              phase =
                  starts_with-append (text "phase=") before ((n ∷ stem) ++ lower ∷ cut)
                    (split_at-prefix n (stem ++ digit ∷ []) (text "phase=") body l s.phase found);
            }
    ]

unless_negotiated-IsSnapshot :
    (limit negotiated capability : ℕ) (change : List ℕ → List ℕ) (body : List ℕ)
    → (IsSnapshot limit body → IsSnapshot limit (change body))
    → IsSnapshot limit body
    → IsSnapshot limit (unless_negotiated negotiated capability change body)
unfolding unless_negotiated
unless_negotiated-IsSnapshot limit negotiated capability change body keeps s =
    either_branch (IsSnapshot limit)
      (lacks_bit negotiated capability && starts_with (text "phase=") body) (keeps s) s

-- The two kinds of step of `downgrade`; 59 is the semicolon.
module _ {limit : ℕ} (negotiated capability : ℕ) {body : List ℕ} (s : IsSnapshot limit body) where
  cuts :
      (extension : List ℕ)
      → IsSnapshot limit (unless_negotiated negotiated capability (cut_off (59 ∷ extension)) body)
  cuts extension =
      unless_negotiated-IsSnapshot limit negotiated capability (cut_off (59 ∷ extension)) body
        (cut_off-IsSnapshot limit 59 extension body refl) s

  lowers :
      (digit lower : ℕ)
      → printable lower ≡ true
      → IsSnapshot limit
          (unless_negotiated negotiated capability (lower_version control_version digit lower) body)
  lowers digit lower p =
      unless_negotiated-IsSnapshot limit negotiated capability
        (lower_version control_version digit lower) body
        (lower_version-IsSnapshot limit 59 digit lower (text "routing_catalog_control_version=")
          body refl refl p)
        s

downgrade-IsSnapshot :
    (limit negotiated : ℕ) (body : List ℕ)
    → IsSnapshot limit body
    → IsSnapshot limit (downgrade negotiated body)
unfolding downgrade
downgrade-IsSnapshot limit negotiated body s =
    let s1 =
      cuts negotiated capability_smart_access_runtime_control s
        (text "smart_access_runtime_control_version=") in
    let s2 = lowers negotiated capability_smart_access_renewal s1 52 51 refl in
    let s3 = lowers negotiated capability_routing_catalog_service_control s2 51 50 refl in
    let s4 = lowers negotiated capability_smart_access_policy_control s3 50 49 refl in
    let s5 =
      cuts negotiated capability_routing_catalog_control s4
        (text "routing_catalog_control_version=") in
    let s6 =
      cuts negotiated capability_smart_access_lease s5 (text "smart_access_lease_version=") in
    cuts negotiated capability_routing_catalog_window s6 (text "routing_catalog_window_version=")

unless_negotiated-other :
    (negotiated capability : ℕ) (change : List ℕ → List ℕ) (body : List ℕ)
    → starts_with (text "phase=") body ≡ false
    → unless_negotiated negotiated capability change body ≡ body
unfolding unless_negotiated
unless_negotiated-other negotiated capability change body h =
    elim (Bool-cases (lacks_bit negotiated capability)) [
      | inl lacks ↦ rw (unless_negotiated, lacks, h) refl
      | inr has ↦ rw (unless_negotiated, has) refl
    ]

-- A body that is no snapshot is left alone.
downgrade-other :
    (negotiated : ℕ) (body : List ℕ)
    → starts_with (text "phase=") body ≡ false
    → downgrade negotiated body ≡ body
unfolding downgrade
downgrade-other negotiated body h =
    rw
      (
        unless_negotiated-other negotiated capability_smart_access_runtime_control _ body h,
        unless_negotiated-other negotiated capability_smart_access_renewal _ body h,
        unless_negotiated-other negotiated capability_routing_catalog_service_control _ body h,
        unless_negotiated-other negotiated capability_smart_access_policy_control _ body h,
        unless_negotiated-other negotiated capability_routing_catalog_control _ body h,
        unless_negotiated-other negotiated capability_smart_access_lease _ body h,
      )
      (unless_negotiated-other negotiated capability_routing_catalog_window _ body h)

-- The limit depends on the command and on whether the body is a snapshot.
response_limit-same :
    (command : Command) (left right : List ℕ)
    → starts_with (text "phase=") left ≡ starts_with (text "phase=") right
    → response_limit command left ≡ response_limit command right
unfolding response_limit
response_limit-same Command.probe_candidate left right e = refl
response_limit-same Command.read_smart_access_leases left right e = refl
response_limit-same Command.read_smart_access_restrictions left right e = refl
response_limit-same command left right e =
    ap (λ t. if t then max_runtime_snapshot_body_size else max_control_body_size) e

-- The body that a peer gets, of a body within the limit of its command.
pub downgrade-IsBounded :
    (command : Command) (negotiated : ℕ) (body : List ℕ)
    → is_bounded_ascii_control body (response_limit command body) ≡ true
    → is_bounded_ascii_control
        (downgrade negotiated body)
        (response_limit command (downgrade negotiated body))
      ≡ true
unfolding is_bounded_ascii_control
downgrade-IsBounded command negotiated body h =
    elim (Bool-cases (starts_with (text "phase=") body)) [
      | inr other ↦ rw (downgrade-other negotiated body other) h
      | inl phase ↦
          let limit : ℕ = response_limit command body in
          let s : IsSnapshot limit (downgrade negotiated body) =
            downgrade-IsSnapshot limit negotiated body record {
              size =
                  leb→le (length body) limit
                    (&&-left (leb (length body) limit) (all_of printable body) h);
              plain = &&-right (leb (length body) limit) (all_of printable body) h;
              phase = phase;
            } in
          rw (response_limit-same command (downgrade negotiated body) body (s.phase ∙ sym phase))
            (&&-intro (le→leb (length (downgrade negotiated body)) limit s.size) s.plain)
    ]
