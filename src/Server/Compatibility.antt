-- ===== src/Server/Compatibility.antt =====
-- service_server.cpp: the downgrade of a snapshot for a peer that did not negotiate an extension.
use pokrov_app.Server.Capabilities.{
  capability_routing_catalog_control, capability_routing_catalog_service_control,
  capability_routing_catalog_window, capability_smart_access_lease,
  capability_smart_access_policy_control, capability_smart_access_renewal,
  capability_smart_access_runtime_control, lacks_bit,
}
use pokrov_app.Base.{
  drop, if◌then◌else◌, is_empty, length, starts_with, text, ◌&&◌, ◌++◌, ◌+◌, ℕ, List, Option, some,
  none, [], ◌∷◌,
}

-- `body.find(needle)`: the text before its first place, and from there on.
unfoldable pub split_at : List ℕ → List ℕ → Option (List ℕ × List ℕ)
split_at needle [] = if is_empty needle then some ([], []) else none
split_at needle (c ∷ s) =
    if starts_with needle (c ∷ s) then some ([], c ∷ s) else elim (split_at needle s) [
      | none ↦ none
      | some (before, behind) ↦ some (c ∷ before, behind)
    ]

-- `body.resize(position)`.
unfoldable pub cut_off : List ℕ → List ℕ → List ℕ
cut_off extension body = elim (split_at extension body) [
  | none ↦ body
  | some (before, behind) ↦ before
]

-- `body[position + extension.size() - 1] = digit`, where `stem` is the extension without its digit.
unfoldable pub lower_version : List ℕ → ℕ → ℕ → List ℕ → List ℕ
lower_version stem digit lower body = elim (split_at (stem ++ digit ∷ []) body) [
  | none ↦ body
  | some (before, behind) ↦ before ++ (stem ++ lower ∷ drop (length stem + 1) behind)
]

-- One of the seven statements: its capability is missing and the body is a snapshot.
unfoldable pub unless_negotiated : ℕ → ℕ → (List ℕ → List ℕ) → List ℕ → List ℕ
unless_negotiated negotiated capability change body =
    if lacks_bit negotiated capability && starts_with (text "phase=") body
    then change body
    else body

abbrev pub control_version : List ℕ
control_version = text ";routing_catalog_control_version="

unfoldable pub downgrade : ℕ → List ℕ → List ℕ
downgrade negotiated body =
    let b1 =
      unless_negotiated negotiated capability_smart_access_runtime_control
        (cut_off (text ";smart_access_runtime_control_version=")) body in
    let b2 =
      unless_negotiated negotiated capability_smart_access_renewal
        (lower_version control_version 52 51) b1 in
    let b3 =
      unless_negotiated negotiated capability_routing_catalog_service_control
        (lower_version control_version 51 50) b2 in
    let b4 =
      unless_negotiated negotiated capability_smart_access_policy_control
        (lower_version control_version 50 49) b3 in
    let b5 =
      unless_negotiated negotiated capability_routing_catalog_control (cut_off control_version)
        b4 in
    let b6 =
      unless_negotiated negotiated capability_smart_access_lease
        (cut_off (text ";smart_access_lease_version=")) b5 in
    unless_negotiated negotiated capability_routing_catalog_window
      (cut_off (text ";routing_catalog_window_version=")) b6
