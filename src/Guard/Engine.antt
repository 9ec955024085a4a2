-- ===== src/Guard/Engine.antt =====
-- service_transition_guard.cpp, `WindowsGuardBackend`. The filtering engine is not the program's:
-- what it answers to each call is an argument. A code of 0 is ERROR_SUCCESS.
use pokrov_app.Runtime.Types.{result}
use pokrov_app.Guard.Filters.{
  Filter, Guid, Identity, Layer, SubLayer, can_override_guard, filter_at, filter_count,
  is_potential_guard_override, layers, matches, matches_sub_layer,
}
use pokrov_app.Base.{
  Bool, List, [], false, if◌then◌else◌, is_empty, not, suc, text, true, zero, ◌&&◌, ◌+◌, ◌==◌, ◌||◌,
  ◌∷◌, ℕ,
}
use pokrov_app.Guard.Types.{
  GuardState, off, armed, incomplete, GuardStage, engine_open, read_begin, read_query, read_verify,
  install_begin, install_apply, install_commit, remove_begin, remove_apply, remove_commit,
  GuardFailure,
}

-- What a call for one object answers; `failed n` is the error code `n + 1`.
pub data Answer {ℓ} (A : Type ℓ) : Type ℓ where
  found : A → Answer A
  not_found : Answer A
  failed : ℕ → Answer A

pub record Page : Type 0 where
  pub code : ℕ
  pub filters : List Filter

-- What the engine lists for a layer, to the empty page that ends the enumeration.
pub record Listing : Type 0 where
  pub create_code : ℕ
  pub pages : List Page
  pub close_code : ℕ

pub record Engine : Type 0 where
  pub open_code : ℕ
  pub identity : ℕ × Identity
  pub begin_code : ℕ
  pub own_sub_layer : Answer SubLayer
  pub own_filter : ℕ → Answer Filter
  pub listing : Layer → Listing
  -- The weight of a sublayer by its key, or an error code.
  pub sub_layer_weight : Guid → ℕ × ℕ

-- A code with whether a conflicting filter was met.
abbrev Scan : Type 0
Scan = ℕ × Bool

unfoldable pub scan_filter : Engine → ℕ → Filter → Filter → Scan
unfolding is_potential_guard_override can_override_guard
scan_filter w guard_weight service_permit f =
    if not (is_potential_guard_override f)
    then (0, false)
    else let (code, weight) = w.sub_layer_weight f.sub_layer_key in
      if not (code == 0)
      then (code, false)
      else (0, can_override_guard f weight guard_weight service_permit)

-- The `for` over a page's filters.
abbrev pub scan_filters : Engine → ℕ → Filter → List Filter → Scan
scan_filters w guard_weight p [] = (0, false)
scan_filters w guard_weight p (f ∷ fs) =
    let (code, conflict) = scan_filter w guard_weight p f in
    let rest = scan_filters w guard_weight p fs in
    if not (code == 0) || conflict then (code, conflict) else rest

-- The `while` over the pages.
abbrev pub scan_pages : Engine → ℕ → Filter → List Page → Scan
scan_pages w guard_weight p [] = (0, false)
scan_pages w guard_weight p (page ∷ pages) =
    let rest = scan_pages w guard_weight p pages in
    if not (page.code == 0)
    then (page.code, false)
    else let (code, conflict) = scan_filters w guard_weight p page.filters in
      if not (code == 0) || conflict
      then (code, conflict)
      else if is_empty page.filters
      then (0, false)
      else rest

-- `VerifyGuardPriority` over the layers that are left: its code, and `*safe`.
abbrev pub verify_layers : Engine → ℕ → Filter → List Layer → ℕ × Bool
verify_layers w guard_weight p [] = (0, true)
verify_layers w guard_weight p (layer ∷ rest) =
    let answer = w.listing layer in
    let others = verify_layers w guard_weight p rest in
    if not (answer.create_code == 0)
    then (answer.create_code, false)
    else let (code, conflict) = scan_pages w guard_weight p answer.pages in
      if not (code == 0)
      then (code, false)
      else if not (answer.close_code == 0)
      then (answer.close_code, false)
      else if conflict
      then (0, false)
      else others

unfoldable pub verify_guard_priority : Engine → ℕ → Filter → ℕ × Bool
verify_guard_priority w guard_weight service_permit =
    verify_layers w guard_weight service_permit layers

-- The loop over the guard's own filters, with the rounds left: the code, `any` and `complete`.
unfoldable pub read_filters : Engine → Identity → ℕ → ℕ → Bool → Bool → ℕ × Bool × Bool
read_filters w id zero index any complete = (0, any, complete)
read_filters w id (suc rounds) index any complete = elim (w.own_filter index) [
  | found actual ↦
      read_filters w id rounds (index + 1) true (matches actual (filter_at id index) && complete)
  | not_found ↦ read_filters w id rounds (index + 1) any false
  | failed code ↦ (suc code, any, complete)
]

-- A call's error text, the failure that it leaves, and what it gives.
abbrev Outcome : Type 0
Outcome = List ℕ × GuardFailure × GuardState

abbrev failure : GuardStage → ℕ → List ℕ → Outcome
failure stage code error = (error, record { stage = stage; wfp_error = code }, incomplete)

abbrev read_state : Bool → Bool → GuardState
read_state any complete = if complete then armed else if any then incomplete else off

-- Behind the sublayer: the filters, the arbitration and the state.
unfoldable pub verify_objects : Engine → Identity → ℕ → Bool → Outcome
verify_objects w id guard_weight any =
    let (result, safe) = verify_guard_priority w guard_weight (filter_at id 0) in
    if not (result == 0)
    then failure read_query result (text "transition_guard_read_failed")
    else ([], record { stage = read_verify; wfp_error = 0 }, read_state any safe)

unfoldable pub read_objects : Engine → Identity → ℕ → Bool → Bool → Outcome
read_objects w id guard_weight any complete =
    let (code, any', complete') = read_filters w id filter_count 0 any complete in
    if not (code == 0)
    then failure read_query code (text "transition_guard_read_failed")
    else if complete'
    then verify_objects w id guard_weight any'
    else ([], record { stage = read_verify; wfp_error = 0 }, read_state any' false)

unfoldable pub read : Engine → Outcome
read w =
    if not (w.open_code == 0)
    then failure engine_open w.open_code (text "transition_guard_engine_failed")
    else if not (w.identity.0 == 0)
    then failure GuardStage.identity w.identity.0 (text "transition_guard_identity_failed")
    else if not (w.begin_code == 0)
    then failure read_begin w.begin_code (text "transition_guard_read_failed")
    else elim w.own_sub_layer [
      | found layer ↦ read_objects w w.identity.1 layer.weight true (matches_sub_layer layer)
      | not_found ↦ read_objects w w.identity.1 0 false false
      | failed code ↦ failure read_query (suc code) (text "transition_guard_read_failed")
    ]

-- What the engine answers while the objects are replaced or deleted.
pub record Changes : Type 0 where
  pub open_code : ℕ
  pub identity_code : ℕ
  pub begin_code : ℕ
  pub delete_filter : ℕ → Answer (Unit {0})
  pub delete_sub_layer : Answer (Unit {0})
  pub add_sub_layer : ℕ
  pub add_filter : ℕ → ℕ
  pub commit : ℕ

abbrev pub deleted_code : Answer (Unit {0}) → ℕ
deleted_code (found u) = 0
deleted_code not_found = 0
deleted_code (failed code) = suc code

abbrev pub delete_filters : Changes → ℕ → ℕ → ℕ
delete_filters c zero index = deleted_code c.delete_sub_layer
delete_filters c (suc rounds) index =
    let rest = delete_filters c rounds (index + 1) in
    let code = deleted_code (c.delete_filter index) in if not (code == 0) then code else rest

unfoldable pub delete_owned : Changes → ℕ
delete_owned c = delete_filters c filter_count 0

unfoldable pub add_filters : Changes → ℕ → ℕ → ℕ
add_filters c zero index = 0
add_filters c (suc rounds) index =
    let rest = add_filters c rounds (index + 1) in
    if not (c.add_filter index == 0) then c.add_filter index else rest

-- The error text and the failure that is left.
abbrev Change : Type 0
Change = List ℕ × GuardFailure

abbrev refused : GuardStage → ℕ → List ℕ → Change
refused stage code error = (error, record { stage = stage; wfp_error = code })

unfoldable pub complete : Changes → ℕ → List ℕ → GuardStage → GuardStage → Change
complete c result error apply_stage commit_stage =
    if not (result == 0)
    then refused apply_stage result error
    else if not (c.commit == 0)
    then refused commit_stage c.commit error
    else ([], record { stage = apply_stage; wfp_error = 0 })

-- The calls inside `Install`'s transaction, each made only behind a success.
unfoldable pub replace_objects : Changes → ℕ
replace_objects c =
    let deleted = delete_owned c in
    if not (deleted == 0)
    then deleted
    else if not (c.add_sub_layer == 0)
    then c.add_sub_layer
    else add_filters c filter_count 0

unfoldable pub install : Changes → Change
install c =
    if not (c.open_code == 0)
    then refused engine_open c.open_code (text "transition_guard_engine_failed")
    else if not (c.identity_code == 0)
    then refused GuardStage.identity c.identity_code (text "transition_guard_identity_failed")
    else if not (c.begin_code == 0)
    then refused install_begin c.begin_code (text "transition_guard_install_failed")
    else complete c (replace_objects c) (text "transition_guard_install_failed") install_apply
        install_commit

unfoldable pub remove : Changes → Change
remove c =
    if not (c.open_code == 0)
    then refused engine_open c.open_code (text "transition_guard_engine_failed")
    else if not (c.begin_code == 0)
    then refused remove_begin c.begin_code (text "transition_guard_remove_failed")
    else complete c (delete_owned c) (text "transition_guard_remove_failed") remove_apply
        remove_commit
