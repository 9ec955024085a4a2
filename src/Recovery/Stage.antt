-- ===== src/Recovery/Stage.antt =====
-- service_recovery.h and .cpp: the stages of a recovery transaction and their names.
use pokrov_app.Base.{
  Bool, Bool-cases, List, Option, [], ap, arith, bytes_eq, bytes_eq→eq, contains, false,
  if◌then◌else◌, inl, inr, length, none, refl, some, text, true, ◌∙◌, ◌∷◌, ◌≡◌, ◌≤◌, ℕ,
}

pub data RecoveryStage : Type 0 where
  clean snapshotted core_started network_applied verified committed rolling_back recovered :
      RecoveryStage

pub RecoveryStage-discrete : Discrete RecoveryStage
RecoveryStage-discrete = hlevel

unfoldable pub stage_name : RecoveryStage → List ℕ
stage_name clean = text "clean"
stage_name snapshotted = text "snapshotted"
stage_name core_started = text "core_started"
stage_name network_applied = text "network_applied"
stage_name verified = text "verified"
stage_name committed = text "committed"
stage_name rolling_back = text "rolling_back"
stage_name recovered = text "recovered"

abbrev stages : List RecoveryStage
stages =
    clean ∷ snapshotted ∷ core_started ∷ network_applied ∷ verified ∷ committed ∷ rolling_back
    ∷ recovered ∷ []

-- The loop over `stages`.
abbrev find_stage : List ℕ → List RecoveryStage → Option RecoveryStage
find_stage value [] = none
find_stage value (s ∷ rest) =
    if bytes_eq value (stage_name s) then some s else find_stage value rest

unfoldable pub parse_stage : List ℕ → Option RecoveryStage
parse_stage value = find_stage value stages

unfoldable pub is_forward_transition : RecoveryStage → RecoveryStage → Bool
is_forward_transition clean snapshotted = true
is_forward_transition snapshotted core_started = true
is_forward_transition snapshotted rolling_back = true
is_forward_transition core_started network_applied = true
is_forward_transition core_started rolling_back = true
is_forward_transition network_applied verified = true
is_forward_transition network_applied rolling_back = true
is_forward_transition verified committed = true
is_forward_transition verified rolling_back = true
is_forward_transition committed rolling_back = true
is_forward_transition rolling_back recovered = true
is_forward_transition recovered clean = true
is_forward_transition _ _ = false

pub parse-stage_name : (s : RecoveryStage) → parse_stage (stage_name s) ≡ some s
unfolding parse_stage stage_name
parse-stage_name clean = refl
parse-stage_name s = refl

find_stage_sound :
    (value : List ℕ) (ss : List RecoveryStage) {s : RecoveryStage}
    → find_stage value ss ≡ some s
    → value ≡ stage_name s
find_stage_sound value [] h = cc
find_stage_sound value (x ∷ ss) {s} h = elim (Bool-cases (bytes_eq value (stage_name x))) [
  | inl hit ↦
      let e : some x ≡ some s = rw hit at h in
      bytes_eq→eq value (stage_name x) hit ∙ ap stage_name (cc)
  | inr miss ↦ find_stage_sound value ss (rw miss at h)
]

pub parse_stage_sound :
    (value : List ℕ) {s : RecoveryStage} → parse_stage value ≡ some s → value ≡ stage_name s
unfolding parse_stage
parse_stage_sound value h = find_stage_sound value stages h

pub stage_name-lacks : (s : RecoveryStage) → contains 10 (stage_name s) ≡ false
unfolding stage_name
stage_name-lacks clean = refl
stage_name-lacks s = refl

pub length-stage_name-le : (s : RecoveryStage) → length (stage_name s) ≤ 15
unfolding stage_name
length-stage_name-le clean = omega arith
length-stage_name-le s = omega arith
