-- ===== src/Runtime/ConnectAdmit.antt =====
-- Runtime/Connect: the steps ahead of the Core's start.
use pokrov_app.Runtime.RollbackLaws.{false-not, is_quiet, not-false}
use pokrov_app.Runtime.HostSound.{keeps_promise, is_sound}
use pokrov_app.Runtime.ConnectSteps.{Flight, Settles, then_step-Settles}
use pokrov_app.Protocol.Chars.{is_profile_digest}
use pokrov_app.Recovery.Durable.{begun, record_stage-cases, begin-cases}
use pokrov_app.Runtime.Connect.{
  begin_journal, begin_step, judge_begin, interruption, check_identity, check_start, is_mismatch,
  is_none, prepare, write_profile,
}
use pokrov_app.Runtime.ConnectRun.{admit}
use pokrov_app.Base.{
  &&-intro, &&-left, &&-right, ap, refl, subst, sym, ◌∙◌, Option-cases, arith, branch_by, bytes_eq,
  either_branch, is_empty, is_some, not, ◌&&◌, ◌||◌, ◌≡◌, ℕ, List, Option, Bool, some, true, false,
  inl, inr,
}
use pokrov_app.Recovery.Machine.{begin, requires_recovery, Recovery, WriteOutcome, Capture}
use pokrov_app.Recovery.Stage.{snapshotted}
use pokrov_app.Events.Types.{ServiceEvent, attempted}
use pokrov_app.Runtime.Host.{
  note, fail, is_recovery_required, is_running, World, RuntimeHost, Phase,
}

-- `Begin` that fails leaves a clean journal clean.
begin-quiet :
    (random : Option (List ℕ)) (capture : Capture) (outcome : WriteOutcome) (r : Recovery)
    → requires_recovery r ≡ false
    → is_empty (begin random capture outcome r).1 ≡ false
    → requires_recovery (begin random capture outcome r).0 ≡ false
unfolding requires_recovery
begin-quiet random capture outcome r quiet wrong = elim (begin-cases random capture outcome r) [
  | inl same ↦ rw same quiet
  | inr (same, _, _, _, _) ↦
      elim (record_stage-cases outcome (begun r random capture) snapshotted) [
        | inl (kept, _) ↦
            subst (λ q. requires_recovery q ≡ false) (sym (ap (λ p. p.0) same ∙ kept)) quiet
        | inr (stored, _, _) ↦ cc (same, stored, wrong)
      ]
]

module _ {W : Type 0} (world : World W) (expected_core : List ℕ) where
  -- Ahead of the journal.
  abbrev pub Waiting : RuntimeHost W → Type 0
  Waiting h = (h.is_initialized ≡ true) × (is_sound h ≡ true)

  -- Ahead of the journal, and not running already.
  abbrev pub Idle : RuntimeHost W → Type 0
  Idle h = (h.is_initialized ≡ true) × (is_sound h ≡ true) × (is_running h.phase ≡ false)

  pub check_identity-Settles :
      (expected_profile : List ℕ) (h : RuntimeHost W)
      → is_sound h ≡ true
      → Settles Waiting (check_identity world expected_core expected_profile h)
  unfolding check_identity fail
  check_identity-Settles expected_profile h s =
      branch_by (Settles Waiting) (not h.is_initialized || not h.profile_staged) (λ _. s)
        (λ ready.
          either_branch (Settles Waiting)
            (not (is_profile_digest expected_profile)
              || not (bytes_eq expected_profile h.staged_profile_digest))
            s (ground arith, s))

  pub interruption-Waiting :
      (h : RuntimeHost W) → Waiting h → Settles Waiting (interruption world expected_core false h)
  unfolding interruption fail
  interruption-Waiting h w =
      let h1 : RuntimeHost W = record h { world = (world.interrupted h.world).0 } in
      either_branch (Settles Waiting)
        (is_none world (world.interrupted h.world).1 && not (is_mismatch world expected_core h1)) w
        w.1

  pub check_start-Settles :
      (h : RuntimeHost W) → Waiting h → Settles Idle (check_start world expected_core h)
  unfolding check_start fail
  check_start-Settles h (ready, s) =
      either_branch (Settles Idle)
        (not (is_empty expected_core) && not (world.supports_interruptible_start h.world)) s
        (branch_by (Settles Idle) (is_running h.phase) (λ _. s)
          (λ still.
            either_branch (Settles Idle) (is_recovery_required h.phase) s
              (either_branch (Settles Idle) (not (is_some h.recovery)) s (ready, s, still))))

  pub write_profile-Settles :
      (h : RuntimeHost W) → Idle h → Settles Idle (write_profile world expected_core h)
  unfolding write_profile fail
  write_profile-Settles h w =
      either_branch (Settles Idle) (not (is_empty (world.write_staged_profile h.world).1)) w.1 w

  pub prepare-Settles : (h : RuntimeHost W) → Idle h → Settles Idle (prepare world expected_core h)
  unfolding prepare fail
  prepare-Settles h w = elim (Option-cases (world.prepare_extensions h.world).1) [
    | inl fine ↦ rw (prepare, fine) w
    | inr ((status, failure), refused) ↦ rw (prepare, refused) w.1
  ]

  pub admit-Settles :
      (expected_profile : List ℕ) (h : RuntimeHost W)
      → is_sound h ≡ true
      → Settles Idle (admit world expected_core expected_profile h)
  unfolding admit
  admit-Settles expected_profile h s =
      then_step-Settles Waiting Idle (check_identity world expected_core expected_profile h) _
        (check_identity-Settles expected_profile h s)
        (λ h1 w1.
          then_step-Settles Waiting Idle (interruption world expected_core false h1) _
            (interruption-Waiting h1 w1)
            (λ h2 w2.
              then_step-Settles Idle Idle (check_start world expected_core h2) _
                (check_start-Settles h2 w2)
                (λ h3 w3.
                  then_step-Settles Idle Idle (write_profile world expected_core h3) _
                    (write_profile-Settles h3 w3) prepare-Settles)))

  -- The journal that `Begin` leaves, where it fails.
  pub unbegun :
      (phase : Phase) (started : Bool) (before after : Option Recovery)
      → keeps_promise phase true started before ≡ true
      → is_running phase ≡ false
      → (is_quiet before ≡ true → is_quiet after ≡ true)
      → keeps_promise phase true started after ≡ true
  unbegun Phase.initialized started before after s still keeps =
      &&-intro (&&-left (not started) (is_quiet before) s)
        (keeps (&&-right (not started) (is_quiet before) s))
  unbegun Phase.config_staged started before after s still keeps =
      &&-intro (&&-left (not started) (is_quiet before) s)
        (keeps (&&-right (not started) (is_quiet before) s))
  unbegun Phase.recovery_required started before after s still keeps = refl
  unbegun _ started before after s still keeps = cc

  pub begin_journal-quiet :
      (r : Recovery) (h : RuntimeHost W)
      → is_empty (begin_journal world expected_core r h).1 ≡ false
      → is_quiet (some r) ≡ true
      → is_quiet (begin_journal world expected_core r h).0.recovery ≡ true
  unfolding begin_journal
  begin_journal-quiet r h wrong quiet =
      let random = world.random_bytes h.world in
      let captured = world.capture_network random.0 in
      let outcome : WriteOutcome = (world.write_outcome captured.0).1 in
      not-false (requires_recovery (begin random.1 captured.1 outcome r).0)
        (begin-quiet random.1 captured.1 outcome r (false-not (requires_recovery r) quiet) wrong)

  pub begin_journal-kept :
      (r : Recovery) (h : RuntimeHost W)
      → ((begin_journal world expected_core r h).0.is_initialized ≡ h.is_initialized)
        × ((begin_journal world expected_core r h).0.phase ≡ h.phase)
        × ((begin_journal world expected_core r h).0.core_started ≡ h.core_started)
  unfolding begin_journal
  begin_journal-kept r h = (refl, refl, refl)

  pub judge_begin-Settles :
      (p : RuntimeHost W × List ℕ)
      → p.0.is_initialized ≡ true
      → (is_empty p.1 ≡ false → is_sound p.0 ≡ true)
      → Settles (Flight false false) (judge_begin world expected_core p)
  unfolding judge_begin fail note
  judge_begin-Settles (h, error) ready sound =
      branch_by (Settles (Flight false false)) (not (is_empty error))
        (λ wrong. sound (false-not (is_empty error) wrong)) (λ _. (ready, refl, refl))

  pub begin_with-Settles :
      (r : Recovery) (h : RuntimeHost W)
      → h.is_initialized ≡ true
      → keeps_promise h.phase h.is_initialized h.core_started (some r) ≡ true
      → is_running h.phase ≡ false
      → Settles
          (Flight false false)
          (judge_begin world expected_core (begin_journal world expected_core r h))
  unfolding begin_journal
  begin_with-Settles r h ready s still =
      judge_begin-Settles (begin_journal world expected_core r h) ready (λ wrong. rw ready (
        unbegun h.phase h.core_started (some r) (begin_journal world expected_core r h).0.recovery
          (rw ready at s) still (begin_journal-quiet r h wrong)))

  pub begin_step-Settles :
      (h : RuntimeHost W) → Idle h → Settles (Flight false false) (begin_step world expected_core h)
  unfolding begin_step fail note
  begin_step-Settles h (ready, s, still) = elim (Option-cases h.recovery) [
    | inl lacks ↦ rw (begin_step, lacks) s
    | inr (r, has) ↦
        rw (begin_step, has)
          (begin_with-Settles r (note world ServiceEvent.runtime_network_snapshot attempted h) ready
            (rw has at s) still)
  ]
