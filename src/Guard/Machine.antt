-- ===== src/Guard/Machine.antt =====
-- service_transition_guard.cpp, the class `Guard`, over any backend. The backend's own state is
-- passed along; an error text is empty for success. The recorded events are kept, newest first.
use pokrov_app.Base.{Bool, List, [], bytes_eq, false, if◌then◌else◌, is_empty, not, text, ◌∷◌, ℕ}
use pokrov_app.Guard.Types.{
  is_armed_state, is_off_state, GuardState, incomplete, GuardOperation, start_operation,
  finish_operation, remove_verify, GuardFailure,
}

-- `TransitionGuardBackend`. `read` gives its error and the state that it wrote.
pub record Backend : Type 1 where
  pub State : Type 0
  pub read : State → State × List ℕ × GuardState
  pub install : State → State × List ℕ
  pub remove : State → State × List ℕ
  pub last_failure : State → GuardFailure

module _ (b : Backend) where
  pub record Guard : Type 0 where
    pub backend : b.State
    pub has_events : Bool
    pub state : GuardState
    pub reports : List (GuardOperation × GuardFailure)

  unfoldable pub refresh : Guard → Guard × List ℕ
  refresh g =
      let (s, error, read) = b.read g.backend in
      (record g { backend = s; state = if is_empty error then read else incomplete }, error)

  -- The constructor adopts the persisted state.
  unfoldable pub create : b.State → Bool → Guard
  unfolding refresh
  create s events =
      (refresh (record { backend = s; has_events = events; state = incomplete; reports = [] })).0

  abbrev is_remove_not_verified : GuardOperation → List ℕ → Bool
  is_remove_not_verified start_operation error = false
  is_remove_not_verified finish_operation error =
      bytes_eq error (text "transition_guard_remove_not_verified")

  unfoldable pub report : GuardOperation → List ℕ → Guard → Guard × List ℕ
  report operation error g =
      if not g.has_events
      then (g, error)
      else let failure : GuardFailure =
          if is_remove_not_verified operation error
          then record { stage = remove_verify; wfp_error = 0 }
          else b.last_failure g.backend in
        (record g { reports = (operation, failure) ∷ g.reports }, error)

  -- Behind a successful installation: read back what the engine holds.
  unfoldable pub confirm_install : Guard → Guard × List ℕ
  unfolding refresh report
  confirm_install g =
      let (read, error) = refresh g in
      if not (is_empty error)
      then report start_operation error read
      else if is_armed_state read.state
      then (read, [])
      else report start_operation (text "transition_guard_not_verified")
          (record read { state = incomplete })

  unfoldable pub start : Guard → Guard × List ℕ
  unfolding refresh report confirm_install
  start g =
      let (read, read_error) = refresh g in
      if not (is_empty read_error)
      then report start_operation read_error read
      else if is_armed_state read.state
      then (read, [])
      else let (s, error) = b.install read.backend in
        let installed : Guard = record read { backend = s; state = incomplete } in
        if not (is_empty error)
        then report start_operation error installed
        else confirm_install installed

  unfoldable pub explicit_off : Guard → Guard × List ℕ
  unfolding refresh
  explicit_off g =
      let (s, error) = b.remove g.backend in
      let removed : Guard = record g { backend = s; state = incomplete } in
      if not (is_empty error)
      then (removed, error)
      else let (read, read_error) = refresh removed in
        if not (is_empty read_error)
        then (read, read_error)
        else if is_off_state read.state
        then (read, [])
        else (read, text "transition_guard_remove_not_verified")

  unfoldable pub finish : Guard → Guard × List ℕ
  unfolding explicit_off report
  finish g =
      let (done, error) = explicit_off g in
      if is_empty error then (done, error) else report finish_operation error done

  unfoldable pub is_armed : Guard → Bool
  is_armed g = not (is_off_state g.state)
