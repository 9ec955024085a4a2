-- ===== src/Dispatcher/ProbeLaws.antt =====
-- Dispatcher/Probes: the registry over any order of its calls.
use pokrov_app.Protocol.Targets.{decode_cancellation_target}
use pokrov_app.Dispatcher.Types.{same_target}
use pokrov_app.Base.{
  length-append, ◌≢◌, Option-cases, ap, leb, some, ◌∙◌, ◌⊎◌, &&-intro, &&-left, &&-right,
  Bool-cases, arith, bytes_eq, bytes_eq_sym, length, not, refl, ◌&&◌, ◌++◌, ◌==◌, ◌||◌, ◌≡◌, ◌≤◌, ℕ,
  List, Bool, [], ◌∷◌, true, false, inl, inr,
}
use pokrov_app.Protocol.Types.{CancellationTarget}
use pokrov_app.Dispatcher.Probes.{
  cancels, leaves, enters, ProbeAction, cancel_candidate_probe, cancel_candidate_probe_target,
  cancel_probe, enter_probe, probe_run, probe_step, has_id, leave_probe, ActiveProbe,
}

-- The probes' ids are pairwise different.
unfoldable pub separate : List ActiveProbe → Bool
separate [] = true
separate (probe ∷ rest) = not (has_id probe.id rest) && separate rest

pub record IsRegistry (probes : List ActiveProbe) : Type 0 where
  pub few : length probes ≤ 4
  pub apart : separate probes ≡ true

has_id-append :
    (id : List ℕ) (probes : List ActiveProbe) (last : ActiveProbe)
    → has_id id (probes ++ last ∷ []) ≡ (has_id id probes || bytes_eq last.id id)
unfolding has_id
has_id-append id [] last = ground arith
has_id-append id (p ∷ ps) last = ground (arith, has_id-append id ps last)

separate-append :
    (probes : List ActiveProbe) (last : ActiveProbe)
    → separate probes ≡ true
    → has_id last.id probes ≡ false
    → separate (probes ++ last ∷ []) ≡ true
unfolding separate has_id
separate-append [] last s h = refl
separate-append (p ∷ ps) last s h =
    ground (arith, separate-append ps last, has_id-append p.id ps last, bytes_eq_sym p.id last.id)

-- Leaving removes ids and adds none.
has_id-leave :
    (number : ℕ) (id : List ℕ) (probes : List ActiveProbe)
    → has_id id probes ≡ false
    → has_id id (leave_probe number probes) ≡ false
unfolding has_id leave_probe
has_id-leave number id [] h = refl
has_id-leave number id (p ∷ ps) h =
    let rest : has_id id ps ≡ false = ground arith in
    let first : bytes_eq p.id id ≡ false = ground arith in
    elim (Bool-cases (p.number == number)) [
      | inl hit ↦ rw hit (has_id-leave number id ps rest)
      | inr miss ↦ rw (miss, first) (has_id-leave number id ps rest)
    ]

not-false : (b : Bool) → b ≡ false → not b ≡ true
not-false b h = rw h refl

false-not : (b : Bool) → not b ≡ true → b ≡ false
false-not true h = cc
false-not false h = refl

leave-IsRegistry :
    (number : ℕ) (probes : List ActiveProbe)
    → (length (leave_probe number probes) ≤ length probes)
      × (separate probes ≡ true → separate (leave_probe number probes) ≡ true)
unfolding leave_probe separate
leave-IsRegistry number [] = (omega arith, λ s. s)
leave-IsRegistry number (p ∷ ps) =
    let (fewer, keeps) = leave-IsRegistry number ps in
    elim (Bool-cases (p.number == number)) [
      | inl hit ↦
          rw hit
            (omega (arith, fewer), λ s. keeps (&&-right (not (has_id p.id ps)) (separate ps) s))
      | inr miss ↦ rw miss (
        omega (arith, fewer),
        λ s.
            &&-intro
              (not-false _ (
                has_id-leave number p.id ps
                  (false-not _ (&&-left (not (has_id p.id ps)) (separate ps) s))))
              (keeps (&&-right (not (has_id p.id ps)) (separate ps) s)),
      )
    ]

-- The two ways in which a probe is found.
cancel_probe-cases :
    (target : CancellationTarget) (p : ActiveProbe) (ps qs : List ActiveProbe)
    → cancel_probe target (p ∷ ps) ≡ some qs
    → (qs ≡ record p { cancelled = true } ∷ ps)
      ⊎ ((rs : List ActiveProbe) × (cancel_probe target ps ≡ some rs) × (qs ≡ p ∷ rs))
unfolding cancel_probe
cancel_probe-cases target p ps qs h = elim (Bool-cases (same_target p.target target)) [
  | inl here ↦
      let e : some (record p { cancelled = true } ∷ ps) ≡ some qs = rw here at h in inl (cc e)
  | inr later ↦ elim (Option-cases (cancel_probe target ps)) [
    | inl gone ↦ cc (rw (later, gone) at h)
    | inr (rs, found) ↦
        let e : some (p ∷ rs) ≡ some qs = rw (later, found) at h in inr (rs, found, cc e)
  ]
]

-- Cancelling changes no id.
record IsRenamed (before after : List ActiveProbe) : Type 0 where
  size : length after ≡ length before
  ids : (id : List ℕ) → has_id id after ≡ has_id id before
  kept : separate after ≡ separate before

cancel_probe-nil :
    (target : CancellationTarget) (qs : List ActiveProbe) → cancel_probe target [] ≢ some qs
unfolding cancel_probe
cancel_probe-nil target qs h = cc

cancel_probe-IsRenamed :
    (target : CancellationTarget) (ps qs : List ActiveProbe)
    → cancel_probe target ps ≡ some qs
    → IsRenamed ps qs
unfolding separate has_id
cancel_probe-IsRenamed target [] qs h = absurd (cancel_probe-nil target qs h)
cancel_probe-IsRenamed target (p ∷ ps) qs h = elim (cancel_probe-cases target p ps qs h) [
  | inl e ↦ rw e (record { size = refl; ids = λ id. refl; kept = refl })
  | inr (rs, found, e) ↦
      let r = cancel_probe-IsRenamed target ps rs found in
      rw e (record {
        size = omega (arith, r.size);
        ids = λ id. ap (λ b. bytes_eq p.id id || b) (r.ids id);
        kept = λ i. not (r.ids p.id i) && r.kept i;
      })
]

cancel_candidate_probe-IsRegistry :
    (body : List ℕ) (probes : List ActiveProbe)
    → IsRegistry probes
    → IsRegistry (cancel_candidate_probe body probes).0
unfolding cancel_candidate_probe cancel_candidate_probe_target
cancel_candidate_probe-IsRegistry body probes g =
    elim (Option-cases (decode_cancellation_target body)) [
      | inl bad ↦ rw (cancel_candidate_probe, bad) g
      | inr (target, good) ↦ elim (Option-cases (cancel_probe target probes)) [
        | inl gone ↦ rw (cancel_candidate_probe, good, cancel_candidate_probe_target, gone) g
        | inr (changed, found) ↦
            let r = cancel_probe-IsRenamed target probes changed found in
            rw (cancel_candidate_probe, good, cancel_candidate_probe_target, found)
              (record { few = omega (arith, r.size, g.few); apart = r.kept ∙ g.apart })
      ]
    ]

enter_probe-IsRegistry :
    (probe : ActiveProbe) (probes : List ActiveProbe)
    → IsRegistry probes
    → IsRegistry (probe_step (enters probe) probes)
unfolding probe_step enter_probe
enter_probe-IsRegistry probe probes g =
    elim (Bool-cases (leb 4 (length probes) || has_id probe.id probes)) [
      | inl refused ↦ rw (probe_step, enter_probe, refused) g
      | inr passes ↦
          rw (probe_step, enter_probe, passes)
            (record {
              few = ground (arith, length-append probes (probe ∷ []));
              apart = separate-append probes probe g.apart (ground arith);
            })
    ]

probe_step-IsRegistry :
    (action : ProbeAction) (probes : List ActiveProbe)
    → IsRegistry probes
    → IsRegistry (probe_step action probes)
unfolding probe_step
probe_step-IsRegistry (enters probe) probes g = enter_probe-IsRegistry probe probes g
probe_step-IsRegistry (leaves number) probes g =
    let (fewer, keeps) = leave-IsRegistry number probes in
    record { few = omega (arith, fewer, g.few); apart = keeps g.apart }
probe_step-IsRegistry (cancels body) probes g = cancel_candidate_probe-IsRegistry body probes g

-- In whatever order probes enter, leave and are cancelled, at most four run at a time, under pairwise
-- different ids.
pub probe_run-IsRegistry :
    (actions : List ProbeAction) (probes : List ActiveProbe)
    → IsRegistry probes
    → IsRegistry (probe_run actions probes)
unfolding probe_run
probe_run-IsRegistry [] probes g = g
probe_run-IsRegistry (action ∷ actions) probes g =
    probe_run-IsRegistry actions (probe_step action probes) (probe_step-IsRegistry action probes g)
