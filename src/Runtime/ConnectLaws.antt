-- ===== src/Runtime/ConnectLaws.antt =====
-- Runtime/Connect: a connection as a whole.
use pokrov_app.Runtime.ConnectAdmit.{Idle, admit-Settles, begin_step-Settles}
use pokrov_app.Runtime.HostSound.{is_sound}
use pokrov_app.Runtime.ConnectSteps.{
  give_up-Settles, give_up_proven-Settles, interruption-Settles, prove_extensions-Settles,
  record_committed-Settles, record_step-Settles, start_core-Settles, verify_egress-Settles, Flight,
  Settles, then_step-Settles,
}
use pokrov_app.Runtime.Connect.{
  Step, give_up, give_up_proven, record_step, begin_step, interruption,
}
use pokrov_app.Runtime.ConnectRun.{
  commit, verify_egress, apply, conclude, connect_impl, connect_steps, finish_guard, go_live,
  launch, note_start, admit,
}
use pokrov_app.Base.{
  refl, either_branch, is_empty, not, ◌&&◌, ◌≡◌, ℕ, List, Bool, none, some, true, false,
}
use pokrov_app.Protocol.Types.{Status}
use pokrov_app.Recovery.Stage.{RecoveryStage}
use pokrov_app.Events.Types.{ServiceEvent, attempted, succeeded, failed}
use pokrov_app.Runtime.Types.{RuntimeResult}
use pokrov_app.Runtime.Host.{note, fail, World, RuntimeHost}

module _ {W : Type 0} (world : World W) (expected_core : List ℕ) where
  launch-Settles :
      (h : RuntimeHost W)
      → Flight false false h
      → Settles (Flight true false) (launch world expected_core h)
  unfolding launch note_start note
  launch-Settles h f =
      let before : RuntimeHost W → Type 0 = Flight false false in
      let after : RuntimeHost W → Type 0 = Flight true false in
      then_step-Settles before after (interruption world expected_core true h) _
        (interruption-Settles world expected_core false false h f)
        (λ h1 f1.
          then_step-Settles before after
            (record_step world expected_core RecoveryStage.core_started (λ k. k)
              (give_up world Status.not_ready) h1)
            _
            (record_step-Settles world expected_core false RecoveryStage.core_started (λ k. k)
              (give_up world Status.not_ready) h1
              (λ error k ready. give_up-Settles world before Status.not_ready error k ready)
              (λ k. refl) f1)
            (λ h2 f2.
              then_step-Settles before after (interruption world expected_core true h2) _
                (interruption-Settles world expected_core false false h2 f2)
                (λ h3 f3.
                  then_step-Settles before after
                    (interruption world expected_core true
                      (note_start world expected_core attempted attempted h3))
                    _
                    (interruption-Settles world expected_core false false
                      (note_start world expected_core attempted attempted h3) f3)
                    (start_core-Settles world expected_core))))

  apply-Settles :
      (h : RuntimeHost W)
      → Flight true false h
      → Settles (Flight true false) (apply world expected_core h)
  unfolding apply note_start note
  apply-Settles h f =
      let going : RuntimeHost W → Type 0 = Flight true false in
      then_step-Settles going going (interruption world expected_core true h) _
        (interruption-Settles world expected_core true false h f)
        (λ h1 f1.
          then_step-Settles going going
            (record_step world expected_core RecoveryStage.network_applied
              (note_start world expected_core succeeded failed) (give_up world Status.not_ready) h1)
            _
            (record_step-Settles world expected_core true RecoveryStage.network_applied
              (note_start world expected_core succeeded failed) (give_up world Status.not_ready) h1
              (λ error k ready. give_up-Settles world going Status.not_ready error k ready)
              (λ k. refl) f1)
            (λ h2 f2.
              then_step-Settles going going
                (interruption world expected_core true
                  (note_start world expected_core succeeded succeeded h2))
                _
                (interruption-Settles world expected_core true false
                  (note_start world expected_core succeeded succeeded h2) f2)
                (λ h3 f3.
                  then_step-Settles going going (verify_egress world expected_core h3) _
                    (verify_egress-Settles world expected_core h3 f3)
                    (prove_extensions-Settles world expected_core))))

  commit-Settles :
      (h : RuntimeHost W)
      → Flight true false h
      → Settles (Flight true true) (commit world expected_core h)
  unfolding commit note
  commit-Settles h f =
      let going : RuntimeHost W → Type 0 = Flight true false in
      let done : RuntimeHost W → Type 0 = Flight true true in
      let abandon : List ℕ → RuntimeHost W → Step W = λ error k.
        give_up_proven world Status.not_ready error
          (note world ServiceEvent.runtime_commit failed k) in
      let h1 : RuntimeHost W = note world ServiceEvent.runtime_commit attempted h in
      then_step-Settles going done
        (record_step world expected_core RecoveryStage.verified (λ k. k) abandon h1) _
        (record_step-Settles world expected_core true RecoveryStage.verified (λ k. k) abandon h1
          (λ error k ready.
            give_up_proven-Settles world going Status.not_ready error
              (note world ServiceEvent.runtime_commit failed k) ready)
          (λ k. refl) f)
        (λ h2 f2.
          then_step-Settles going done (interruption world expected_core true h2) _
            (interruption-Settles world expected_core true false h2 f2)
            (λ h3 f3.
              record_committed-Settles world expected_core (λ k. k) abandon h3
                (λ error k ready.
                  give_up_proven-Settles world done Status.not_ready error
                    (note world ServiceEvent.runtime_commit failed k) ready)
                (λ k. refl) f3))

  connect_steps-Settles :
      (expected_profile : List ℕ) (h : RuntimeHost W)
      → is_sound h ≡ true
      → Settles (Flight true true) (connect_steps world expected_core expected_profile h)
  unfolding connect_steps
  connect_steps-Settles expected_profile h s =
      let done : RuntimeHost W → Type 0 = Flight true true in
      then_step-Settles (Idle world expected_core) done
        (admit world expected_core expected_profile h) _
        (admit-Settles world expected_core expected_profile h s)
        (λ h1 w.
          then_step-Settles (Flight false false) done (begin_step world expected_core h1) _
            (begin_step-Settles world expected_core h1 w)
            (λ h2 f2.
              then_step-Settles (Flight true false) done (launch world expected_core h2) _
                (launch-Settles h2 f2)
                (λ h3 f3.
                  then_step-Settles (Flight true false) done (apply world expected_core h3) _
                    (apply-Settles h3 f3)
                    (λ h4 f4.
                      then_step-Settles done done (commit world expected_core h4) _
                        (commit-Settles h4 f4)
                        (interruption-Settles world expected_core true true)))))

  finish_guard-IsSound :
      (wanted : Bool) (h : RuntimeHost W)
      → is_sound h ≡ true
      → is_sound (finish_guard world expected_core wanted h).0 ≡ true
  unfolding finish_guard fail
  finish_guard-IsSound wanted h s =
      let Sound : RuntimeHost W × RuntimeResult → Type 0 = λ q. is_sound q.0 ≡ true in
      either_branch Sound
        (wanted && h.core_egress_validated && h.has_guard && world.guard_armed h.world)
        (either_branch Sound (not (is_empty (world.guard_finish h.world).1)) s s) s

  -- A runtime that is committed and started goes live.
  go_live-IsSound :
      (h : RuntimeHost W) → Flight true true h → is_sound (go_live world expected_core h) ≡ true
  unfolding go_live note
  go_live-IsSound h (ready, started, done) = rw (ready, started, done) refl

  conclude-IsSound :
      (wanted : Bool) (x : Step W)
      → Settles (Flight true true) x
      → is_sound
          (conclude world expected_core x
            (λ h. finish_guard world expected_core wanted (go_live world expected_core h))).0
        ≡ true
  conclude-IsSound wanted (h, none) f =
      finish_guard-IsSound wanted (go_live world expected_core h) (go_live-IsSound h f)
  conclude-IsSound wanted (h, some answer) s = s

  -- However the Core, the journal's writes, the probe and the caller behave, a connection attempt on
  -- a runtime that keeps the promise of its phase ends in one that does.
  pub connect_impl-IsSound :
      (expected_profile : List ℕ) (wanted : Bool) (h : RuntimeHost W)
      → is_sound h ≡ true
      → is_sound (connect_impl world expected_core expected_profile wanted h).0 ≡ true
  unfolding connect_impl
  connect_impl-IsSound expected_profile wanted h s =
      conclude-IsSound wanted (connect_steps world expected_core expected_profile h)
        (connect_steps-Settles expected_profile h s)
