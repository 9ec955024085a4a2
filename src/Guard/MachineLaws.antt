-- ===== src/Guard/MachineLaws.antt =====
-- Guard/Machine: the guard never claims to be off unless that was read back.
use pokrov_app.Guard.Machine.{Backend, Guard, explicit_off, finish, is_armed, start}
use pokrov_app.Base.{
  if◌then◌else◌, length, suc, Bool-cases, false, inl, inr, arith, is_empty, not, true, ◌≡◌,
}
use pokrov_app.Guard.Types.{is_armed_state, armed}

module _ (b : Backend) (g : Guard b) where
  -- Whatever the backend answers, after `Start` the guard counts as armed.
  pub start-is_armed : is_armed b (start b g).0 ≡ true
  unfolding start is_armed
  start-is_armed = ground arith

  -- The state `s` was read without an error as `armed`, which left the backend in `t`.
  abbrev pub ReadArmed : b.State → b.State → Type 0
  ReadArmed s t =
      ((b.read s).0 ≡ t) × (is_empty (b.read s).1 ≡ true) × (is_armed_state (b.read s).2 ≡ true)

  start_adopts :
      is_empty (start b g).1 ≡ true
      → is_armed_state (b.read g.backend).2 ≡ true
      → ((start b g).0.state ≡ armed) × ReadArmed g.backend (start b g).0.backend
  unfolding start
  start_adopts h a = ground arith

  start_installs :
      is_empty (start b g).1 ≡ true
      → is_armed_state (b.read g.backend).2 ≡ false
      → ((start b g).0.state ≡ armed)
        × ReadArmed (b.install (b.read g.backend).0).0 (start b g).0.backend
  unfolding start
  start_installs h a = ground arith

  -- If `Start` returns no error, its last step read the guard back as armed.
  pub start_succeeds :
      is_empty (start b g).1 ≡ true
      → ((start b g).0.state ≡ armed) × ((s : b.State) × ReadArmed s (start b g).0.backend)
  start_succeeds h = elim (Bool-cases (is_armed_state (b.read g.backend).2)) [
    | inl a ↦ let (e, r) = start_adopts h a in (e, (g.backend, r))
    | inr n ↦ let (e, r) = start_installs h n in (e, ((b.install (b.read g.backend).0).0, r))
  ]

  -- After `ExplicitOff` and `Finish` the guard counts as off exactly if no error is returned.
  pub explicit_off-is_armed :
      (is_armed b (explicit_off b g).0 ≡ not (is_empty (explicit_off b g).1))
      × (is_armed b (finish b g).0 ≡ not (is_empty (finish b g).1))
  unfolding explicit_off finish is_armed
  explicit_off-is_armed = (ground arith, ground arith)

  -- With events, each error of `Start` and of `Finish` is reported once, and a success not at all.
  pub reports_errors :
      g.has_events ≡ true
      → (length (start b g).0.reports
          ≡ (if is_empty (start b g).1 then length g.reports else suc (length g.reports)))
        × (length (finish b g).0.reports
            ≡ (if is_empty (finish b g).1 then length g.reports else suc (length g.reports)))
  unfolding start finish
  reports_errors e = (ground arith, ground arith)
