-- ===== src/Runtime/HostLaws.antt =====
-- Runtime/HostHistory: the runtime over any calls.
use pokrov_app.Runtime.ProfileLaws.{
  IsSoundEnd, Stays, answered-Stays, stage_profile-IsSound, then_step-Stays,
}
use pokrov_app.Runtime.HostHistory.{HostCall, host_run, host_step}
use pokrov_app.Runtime.ConnectLaws.{connect_impl-IsSound}
use pokrov_app.Events.Lines.{is_ok}
use pokrov_app.Recovery.Machine.{requires_recovery}
use pokrov_app.Runtime.Connect.{is_none, Step}
use pokrov_app.Runtime.ConnectRun.{
  conclude, connect_impl, connect_profile, connect_with_identity_of,
}
use pokrov_app.Runtime.HostSound.{
  cancel_protected_handoff-IsSound, invalidate_profile-IsSound, shutdown-IsSound,
  disconnect_host-IsSound, initialize_host-IsSound, is_sound,
}
use pokrov_app.Runtime.Profile.{
  arm_guard, cancel_behind, cancel_live, check_cancelled, check_handoff, check_live, disarm_guard,
  refuse_handoff, replace_steps, answered, replace_managed_profile_of, stage_profile_of,
}
use pokrov_app.Runtime.Lifecycle.{disconnect_host, recover_on_startup}
use pokrov_app.Base.{
  bytes_eq, none, some, ◌&&◌, ◌||◌, either_branch, is_empty, not, Option-cases, ◌≡◌, ℕ, List, [],
  ◌∷◌, true, false, inl, inr,
}
use pokrov_app.Protocol.Requests.{encode_bound_connect, BoundConnectTarget}
use pokrov_app.Runtime.Types.{RuntimeResult}
use pokrov_app.Runtime.Host.{fail, is_recovery_required, is_running, World, RuntimeHost}

module _ {W : Type 0} (world : World W) where
  check_handoff-Stays :
      (h : RuntimeHost W) → is_sound h ≡ true → Stays world (check_handoff world h)
  unfolding check_handoff refuse_handoff fail
  check_handoff-Stays h s =
      either_branch (Stays world)
        (not h.has_guard
          || h.requires_bound_connect
          || (not (is_running h.phase) && not (world.guard_armed h.world)))
        s s

  arm_guard-Stays : (h : RuntimeHost W) → is_sound h ≡ true → Stays world (arm_guard world h)
  unfolding arm_guard refuse_handoff fail
  arm_guard-Stays h s =
      either_branch (Stays world) (not (is_empty (world.guard_start h.world).1)) s s

  check_cancelled-Stays :
      (h : RuntimeHost W) → is_sound h ≡ true → Stays world (check_cancelled world h)
  unfolding check_cancelled refuse_handoff fail
  check_cancelled-Stays h s =
      either_branch (Stays world) (is_none world (world.interrupted h.world).1) s s

  check_live-Stays :
      (body : List ℕ) (h : RuntimeHost W)
      → is_sound h ≡ true
      → Stays world (check_live world body h)
  unfolding check_live refuse_handoff fail
  check_live-Stays body h s =
      either_branch (Stays world)
        (not (is_running h.phase)
          || not h.core_egress_validated
          || not (bytes_eq h.effective_profile_digest (world.profile_digest h.world body)))
        s s

  cancel_behind-Stays :
      (q : RuntimeHost W × RuntimeResult) → IsSoundEnd world q → Stays world (cancel_behind world q)
  unfolding cancel_behind refuse_handoff fail
  cancel_behind-Stays (h, stopped) s = either_branch (Stays world) (is_ok stopped.status) s s

  cancel_live-Stays : (h : RuntimeHost W) → is_sound h ≡ true → Stays world (cancel_live world h)
  unfolding cancel_live
  cancel_live-Stays h s =
      let h1 : RuntimeHost W = record h { world = (world.interrupted h.world).0 } in
      either_branch (Stays world) (is_none world (world.interrupted h.world).1) s (
        cancel_behind-Stays (disconnect_host world false h1)
          (disconnect_host-IsSound world false h1 s))

  disarm_guard-IsSound :
      (h : RuntimeHost W) → is_sound h ≡ true → IsSoundEnd world (disarm_guard world h)
  unfolding disarm_guard fail
  disarm_guard-IsSound h s =
      either_branch (IsSoundEnd world) (not (is_empty (world.guard_finish h.world).1)) s s

  replace_steps-Stays :
      (body : List ℕ) (h : RuntimeHost W)
      → is_sound h ≡ true
      → Stays world (replace_steps world body h)
  unfolding replace_steps
  replace_steps-Stays body h s =
      then_step-Stays world (check_handoff world h) _ (check_handoff-Stays h s) (λ h1 s1.
        then_step-Stays world (arm_guard world h1) _ (arm_guard-Stays h1 s1) (λ h2 s2.
          then_step-Stays world (answered world (disconnect_host world false h2)) _
            (answered-Stays world (disconnect_host world false h2)
              (disconnect_host-IsSound world false h2 s2))
            (λ h3 s3.
              then_step-Stays world (check_cancelled world h3) _ (check_cancelled-Stays h3 s3)
                (λ h4 s4.
                  then_step-Stays world (answered world (stage_profile_of world body false h4)) _
                    (answered-Stays world (stage_profile_of world body false h4)
                      (stage_profile-IsSound world body false h4 s4))
                    (λ h5 s5.
                      let digest : List ℕ = world.profile_digest h5.world body in
                      then_step-Stays world (answered world (connect_impl world [] digest false h5))
                        _
                        (answered-Stays world (connect_impl world [] digest false h5)
                          (connect_impl-IsSound world [] digest false h5 s5))
                        (λ h6 s6.
                          then_step-Stays world (check_live world body h6) _
                            (check_live-Stays body h6 s6) cancel_live-Stays))))))

  conclude_replace-IsSound :
      (x : Step W) → Stays world x → IsSoundEnd world (conclude world [] x (disarm_guard world))
  conclude_replace-IsSound (h, none) s = disarm_guard-IsSound h s
  conclude_replace-IsSound (h, some answer) s = s

  connect_profile-IsSound :
      (digest : List ℕ) (h : RuntimeHost W)
      → is_sound h ≡ true
      → IsSoundEnd world (connect_profile world digest h)
  unfolding connect_profile fail
  connect_profile-IsSound digest h s =
      either_branch (IsSoundEnd world) h.requires_bound_connect s
        (connect_impl-IsSound world [] digest true h s)

  connect_bound-IsSound :
      (target : BoundConnectTarget) (h : RuntimeHost W)
      → is_sound h ≡ true
      → IsSoundEnd world (connect_with_identity_of world target h)
  unfolding connect_with_identity_of
  connect_bound-IsSound target h s =
      either_branch (IsSoundEnd world) (is_empty (encode_bound_connect target)) s (
        either_branch (IsSoundEnd world) (is_running h.phase || is_recovery_required h.phase) s
          (connect_impl-IsSound world target.core_module_sha256 target.profile_digest true h s))

  starts_up-IsSound :
      (h : RuntimeHost W) → is_sound h ≡ true → IsSoundEnd world (recover_on_startup world h)
  unfolding recover_on_startup
  starts_up-IsSound h s = elim (Option-cases h.recovery) [
    | inl lacks ↦ rw (recover_on_startup, lacks) s
    | inr (r, has) ↦
        rw (recover_on_startup, has)
          (either_branch (IsSoundEnd world) (not (requires_recovery r)) s
            (initialize_host-IsSound world h s))
  ]

  host_step-IsSound :
      (h : RuntimeHost W) (call : HostCall)
      → is_sound h ≡ true
      → is_sound (host_step world h call) ≡ true
  unfolding host_step replace_managed_profile_of
  host_step-IsSound h HostCall.initializes s = initialize_host-IsSound world h s
  host_step-IsSound h HostCall.starts_up s = starts_up-IsSound h s
  host_step-IsSound h HostCall.invalidates s = invalidate_profile-IsSound world h s
  host_step-IsSound h HostCall.hands_off_cancel s = cancel_protected_handoff-IsSound world h s
  host_step-IsSound h HostCall.shuts_down s = shutdown-IsSound world h s
  host_step-IsSound h (HostCall.stages body bound) s = stage_profile-IsSound world body bound h s
  host_step-IsSound h (HostCall.connects digest) s = connect_profile-IsSound digest h s
  host_step-IsSound h (HostCall.connects_bound target) s = connect_bound-IsSound target h s
  host_step-IsSound h (HostCall.disconnects explicit) s = disconnect_host-IsSound world explicit h s
  host_step-IsSound h (HostCall.replaces body) s =
      conclude_replace-IsSound (replace_steps world body h) (replace_steps-Stays body h s)

  -- Whatever is called in whatever order, and however the Core, the files, the journal's writes and
  -- the checks behave, the runtime keeps the promise of its phase: while it is initialized or has a
  -- profile staged, the Core is stopped and the journal clean; while it is running, the Core was
  -- started and the journal is committed.
  pub host_run-IsSound :
      (h : RuntimeHost W) (calls : List HostCall)
      → is_sound h ≡ true
      → is_sound (host_run world h calls) ≡ true
  unfolding host_run
  host_run-IsSound h [] s = s
  host_run-IsSound h (call ∷ calls) s =
      host_run-IsSound (host_step world h call) calls (host_step-IsSound h call s)
