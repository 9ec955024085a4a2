-- ===== src/Runtime/ProfileLaws.antt =====
-- Runtime/Profile: the staging and the replacement of a profile.
use pokrov_app.Runtime.RollbackLaws.{not-true, recover_pending_runtime-IsUndone}
use pokrov_app.Runtime.ConnectSteps.{Settles, then_step-Settles}
use pokrov_app.Events.Lines.{is_ok}
use pokrov_app.Runtime.Rollback.{recover_pending_runtime}
use pokrov_app.Recovery.Machine.{Recovery}
use pokrov_app.Runtime.Connect.{Step, then_step}
use pokrov_app.Runtime.HostSound.{initialize_host-IsSound, unstarted, is_sound, keeps_promise}
use pokrov_app.Runtime.Profile.{
  answered, is_stage_body, stage_behind, stage_initialized, adopt_profile, fail_stage,
  stage_files_of, stage_profile_of,
}
use pokrov_app.Runtime.Lifecycle.{
  initialize_directories, finish_initialize, initialize_core, initialize_host,
}
use pokrov_app.Base.{
  branch_by, text, ◌||◌, either_branch, is_empty, not, refl, ◌⊎◌, Option-cases, arith, ◌≡◌, ℕ, List,
  Option, Bool, true, false, inl, inr,
}
use pokrov_app.Protocol.Types.{Status}
use pokrov_app.Events.Types.{ServiceEvent, attempted}
use pokrov_app.Runtime.Types.{RuntimeResult, result}
use pokrov_app.Runtime.Host.{
  fail, is_recovery_required, is_running, note, World, RuntimeHost, Phase,
}

module _ {W : Type 0} (world : World W) where
  abbrev pub IsSoundEnd : RuntimeHost W × RuntimeResult → Type 0
  IsSoundEnd q = is_sound q.0 ≡ true

  pub stageable :
      (phase : Phase) (ready started : Bool) (journal : Option Recovery)
      → keeps_promise phase ready started journal ≡ true
      → ready ≡ true
      → is_running phase ≡ false
      → is_recovery_required phase ≡ false
      → keeps_promise Phase.config_staged ready started journal ≡ true
  stageable Phase.initialized ready started journal s i r q = s
  stageable Phase.config_staged ready started journal s i r q = s
  stageable Phase.artifact_missing ready started journal s i r q = ground arith
  stageable Phase.artifact_ready ready started journal s i r q = ground arith
  stageable _ ready started journal s i r q = cc

  pub fail_stage-IsSound :
      (status : Status) (failure : List ℕ) (noted : Bool) (h : RuntimeHost W)
      → is_sound h ≡ true
      → IsSoundEnd (fail_stage world status failure noted h)
  unfolding fail_stage fail note
  fail_stage-IsSound status failure true h s = s
  fail_stage-IsSound status failure false h s = s

  pub stage_files-IsSound :
      (body : List ℕ) (bound : Bool) (h : RuntimeHost W)
      → is_sound h ≡ true
      → keeps_promise Phase.config_staged h.is_initialized h.core_started h.recovery ≡ true
      → IsSoundEnd (stage_files_of world body bound h)
  unfolding stage_files_of adopt_profile note
  stage_files-IsSound body bound h s staged =
      elim (Option-cases (world.stage_files body h.world).1) [
        | inl fine ↦ rw (stage_files_of, fine) staged
        | inr ((status, failure, noted), refused) ↦
            rw (stage_files_of, refused)
              (fail_stage-IsSound status failure noted
                (record h { world = (world.stage_files body h.world).0 }) s)
      ]

  -- A refused initialization, or an initialized runtime.
  abbrev pub IsReady : RuntimeHost W × RuntimeResult → Type 0
  IsReady q = (is_ok q.1.status ≡ false) ⊎ (q.0.is_initialized ≡ true)

  pub initialize_core-IsReady :
      (h : RuntimeHost W) → h.core_started ≡ false → IsReady (initialize_core world h)
  unfolding initialize_core finish_initialize fail note result
  initialize_core-IsReady h stopped =
      let called : RuntimeHost W = record h { world = (world.core_initialize h.world).0 } in
      let ready : RuntimeHost W = record called {
        is_initialized = true;
        phase = Phase.initialized;
      } in
      let recovered = recover_pending_runtime world ready in
      either_branch IsReady (not (is_empty (world.core_initialize h.world).1)) (inl refl) (
        either_branch IsReady (not (is_empty recovered.1)) (inl refl)
          (inr (recover_pending_runtime-IsUndone world ready stopped).0))

  pub initialize_host-IsReady :
      (h : RuntimeHost W) → is_sound h ≡ true → IsReady (initialize_host world h)
  unfolding initialize_host initialize_directories fail note result
  initialize_host-IsReady h s =
      branch_by IsReady h.is_initialized (λ ready. inr ready)
        (λ fresh.
          let stopped : h.core_started ≡ false =
            unstarted world h.phase h.core_started h.recovery (rw fresh at s) in
          let h1 : RuntimeHost W = note world ServiceEvent.runtime_initialize attempted h in
          either_branch IsReady (not h.has_core || not h.has_root) (inl refl) (
            either_branch IsReady (not (world.prepare_directories h1.world).1) (inl refl) (
              initialize_core-IsReady (record h1 { world = (world.prepare_directories h1.world).0 })
                stopped)))

  pub stage_initialized-IsSound :
      (body : List ℕ) (bound : Bool) (h : RuntimeHost W)
      → is_sound h ≡ true
      → h.is_initialized ≡ true
      → IsSoundEnd (stage_initialized world body bound h)
  unfolding stage_initialized fail
  stage_initialized-IsSound body bound h s ready =
      branch_by IsSoundEnd
        (is_running h.phase || is_recovery_required h.phase || not (is_stage_body world body))
        (λ _. fail_stage-IsSound Status.invalid (text "profile_request_invalid") true h s)
        (λ free. either_branch IsSoundEnd (is_empty (world.profile_digest h.world body)) s (
          stage_files-IsSound body bound h s (
            stageable h.phase h.is_initialized h.core_started h.recovery s ready (ground arith)
              (ground arith))))

  pub stage_behind-IsSound :
      (body : List ℕ) (bound : Bool) (q : RuntimeHost W × RuntimeResult)
      → IsSoundEnd q
      → IsReady q
      → IsSoundEnd (stage_behind world body bound q)
  unfolding stage_behind note
  stage_behind-IsSound body bound (h, answer) s (inl refused) = rw (stage_behind, refused) s
  stage_behind-IsSound body bound (h, answer) s (inr ready) =
      either_branch IsSoundEnd (not (is_ok answer.status)) s
        (stage_initialized-IsSound body bound h s ready)

  pub stage_profile-IsSound :
      (body : List ℕ) (bound : Bool) (h : RuntimeHost W)
      → is_sound h ≡ true
      → IsSoundEnd (stage_profile_of world body bound h)
  unfolding stage_profile_of note
  stage_profile-IsSound body bound h s =
      let h1 : RuntimeHost W = note world ServiceEvent.runtime_profile_stage attempted h in
      branch_by IsSoundEnd (not h1.is_initialized)
        (λ _.
          stage_behind-IsSound body bound (initialize_host world h1)
            (initialize_host-IsSound world h1 s) (initialize_host-IsReady h1 s))
        (λ ready. stage_initialized-IsSound body bound h1 s (not-true h1.is_initialized ready))

  -- A step that ends or goes on, with a sound runtime both ways.
  abbrev pub Stays : Step W → Type 0
  Stays x = Settles (λ h. is_sound h ≡ true) x

  pub then_step-Stays :
      (x : Step W) (next : RuntimeHost W → Step W)
      → Stays x
      → ((h : RuntimeHost W) → is_sound h ≡ true → Stays (next h))
      → Stays (then_step x next)
  then_step-Stays x next s f =
      then_step-Settles (λ h. is_sound h ≡ true) (λ h. is_sound h ≡ true) x next s f

  pub answered-Stays : (q : RuntimeHost W × RuntimeResult) → IsSoundEnd q → Stays (answered world q)
  answered-Stays (h, answer) s = either_branch Stays (is_ok answer.status) s s
