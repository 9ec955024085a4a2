-- ===== src/Tasks/RunnerLaws.antt =====
-- Tasks/Runner: completions run in the order of submission, and none behind a shutdown.
use pokrov_app.Protocol.Types.{Command}
use mathlib.Core.List.{append_assoc}
use pokrov_app.Base.{
  &&-left, &&-right, Bool, if◌then◌else◌, ◌&&◌, ◌∙◌, Bool-cases, arith, inl, inr, leb,
  length-append, subst, sym, ◌<◌, ◌||◌, ◌⊎◌, List, Option, [], ap, false, length, none, refl, some,
  true, ◌++◌, ◌∷◌, ◌≡◌, ◌≤◌, ℕ,
}
use pokrov_app.Tasks.Runner.{
  Action, run, step, complete_task, snapshot_of, take_next, take_task, complete_with, drain,
  join_worker, signal_shutdown, submit, take_with, Runner, Task, submits, takes, completes, drains,
  signals_shutdown, joins,
}

module _ (S : Type 0) (runtime_failure : S) where
  abbrev pub callbacks : List (ℕ × S) → List ℕ
  callbacks [] = []
  callbacks (c ∷ cs) = c.0 ∷ callbacks cs

  abbrev pub waiting : List Task → List ℕ
  waiting [] = []
  waiting (t ∷ ts) = t.completion ∷ waiting ts

  abbrev pub held : Option Task → List ℕ
  held none = []
  held (some t) = t.completion ∷ []

  abbrev pub held_control : Option Task → Option ℕ
  held_control none = none
  held_control (some t) = some t.control

  callbacks-append : (xs ys : List (ℕ × S)) → callbacks (xs ++ ys) ≡ callbacks xs ++ callbacks ys
  callbacks-append [] ys = refl
  callbacks-append (x ∷ xs) ys = ap (◌∷◌ x.0) (callbacks-append xs ys)

  waiting-append : (xs ys : List Task) → waiting (xs ++ ys) ≡ waiting xs ++ waiting ys
  waiting-append [] ys = refl
  waiting-append (x ∷ xs) ys = ap (◌∷◌ x.completion) (waiting-append xs ys)

  -- What holds of the runner at any time.
  pub record InOrder (r : Runner S runtime_failure) : Type 0 where
    pub room : length r.tasks ≤ 16
    pub same_control : r.running ≡ held_control r.in_hand
    -- Until a shutdown, the callbacks accepted are, in this order, those run, those that are due,
    -- the one in the worker's hand and those that wait.
    pub in_order :
        r.stopping ≡ false
        → r.submitted
          ≡ callbacks r.delivered
            ++ (callbacks r.completions ++ (held r.in_hand ++ waiting r.tasks))
    pub cleared : r.stopping ≡ true → r.tasks ≡ []
    pub idle : r.exited ≡ true → (r.in_hand ≡ none) × (r.stopping ≡ true)
    pub silent : r.joined ≡ true → (r.exited ≡ true) × (r.completions ≡ [])

  submitted_in_order :
      (accepted ran due rest queued : List ℕ) (c : ℕ)
      → accepted ≡ ran ++ (due ++ (rest ++ queued))
      → accepted ++ c ∷ [] ≡ ran ++ (due ++ (rest ++ (queued ++ c ∷ [])))
  submitted_in_order accepted ran due rest queued c h = cc (
    h,
    append_assoc ran (due ++ (rest ++ queued)) (c ∷ []),
    append_assoc due (rest ++ queued) (c ∷ []),
    append_assoc rest queued (c ∷ []),
  )

  submit-cases :
      (command : Command) (body : List ℕ) (control : Option ℕ) (completion : ℕ)
      (r : Runner S runtime_failure)
      → (submit S runtime_failure command body control completion r ≡ (r, false))
        ⊎ ((t : Task) × (t.completion ≡ completion)
            × (submit S runtime_failure command body control completion r ≡ (
              record r { tasks = r.tasks ++ t ∷ []; submitted = r.submitted ++ completion ∷ [] },
              true,
            ))
            × (r.stopping ≡ false)
            × (length r.tasks < 16))
  unfolding submit
  submit-cases command body none completion r = inl refl
  submit-cases command body (some control) completion r =
      elim (Bool-cases (r.stopping || leb 16 (length r.tasks))) [
        | inl full ↦ inl (rw full refl)
        | inr room ↦ inr (
          record { command = command; body = body; control = control; completion = completion },
          refl,
          rw room refl,
          ground arith,
          ground arith,
        )
      ]

  submit-InOrder :
      (command : Command) (body : List ℕ) (control : Option ℕ) (completion : ℕ)
      (r : Runner S runtime_failure)
      → InOrder r
      → InOrder (submit S runtime_failure command body control completion r).0
  submit-InOrder command body control completion r v =
      elim (submit-cases command body control completion r) [
        | inl h ↦ subst (λ q. InOrder q.0) (sym h) v
        | inr (t, e, h, live, room) ↦
            subst (λ q. InOrder q.0) (sym h)
              (record {
                room = omega (arith, length-append r.tasks (t ∷ []));
                same_control = v.same_control;
                in_order = λ n.
                    rw (waiting-append r.tasks (t ∷ []), e)
                      (submitted_in_order r.submitted (callbacks r.delivered)
                        (callbacks r.completions) (held r.in_hand) (waiting r.tasks) completion
                        (v.in_order n));
                cleared = λ s. cc;
                idle = v.idle;
                silent = v.silent;
              })
      ]

  take_next-InOrder :
      (queued : List Task) (r : Runner S runtime_failure)
      → r.in_hand ≡ none
      → r.tasks ≡ queued
      → r.stopping ≡ false
      → InOrder r
      → InOrder (take_next S runtime_failure queued r)
  take_next-InOrder [] r e f n v = v
  take_next-InOrder (task ∷ rest) r e f n v = record {
    room = omega (arith, rw f at v.room);
    same_control = refl;
    in_order = λ m. rw (e, f) at v.in_order m;
    cleared = λ s. cc;
    idle = λ x. (let (a, b) = v.idle x in cc);
    silent = v.silent;
  }

  take_with-InOrder :
      (hand : Option Task) (queued : List Task) (r : Runner S runtime_failure)
      → r.in_hand ≡ hand
      → r.tasks ≡ queued
      → InOrder r
      → InOrder (take_with S runtime_failure hand queued r)
  take_with-InOrder (some task) queued r e f v = v
  take_with-InOrder none queued r e f v = stopped r.stopping refl
    where
      stopped :
          (b : Bool)
          → r.stopping ≡ b
          → InOrder (if b then record r { exited = true } else take_next S runtime_failure queued r)
      stopped true s = record {
        room = v.room;
        same_control = v.same_control;
        in_order = v.in_order;
        cleared = v.cleared;
        idle = λ x. (e, s);
        silent = λ x. (refl, (v.silent x).1);
      }
      stopped false s = take_next-InOrder queued r e f s v

  complete_with-InOrder :
      (hand : Option Task) (answer : Option S) (r : Runner S runtime_failure)
      → r.in_hand ≡ hand
      → InOrder r
      → InOrder (complete_with S runtime_failure hand answer r)
  complete_with-InOrder none answer r e v = v
  complete_with-InOrder (some task) answer r e v = record {
    room = v.room;
    same_control = refl;
    in_order = λ n.
        rw
          (
            callbacks-append r.completions
                ((task.completion, snapshot_of S runtime_failure answer) ∷ []),
            append_assoc (callbacks r.completions) (task.completion ∷ []) (waiting r.tasks),
          )
          (rw e at v.in_order n);
    cleared = v.cleared;
    idle = λ x. (let (a, b) = v.idle x in cc);
    silent = λ x. (let (a, b) = v.silent x in let (c, d) = v.idle a in cc);
  }

  drain-InOrder : (r : Runner S runtime_failure) → InOrder r → InOrder (drain S runtime_failure r)
  unfolding drain
  drain-InOrder r v = live r.stopping refl
    where
      live :
          (b : Bool)
          → r.stopping ≡ b
          → InOrder (
              if b
              then r
              else record r { completions = []; delivered = r.delivered ++ r.completions })
      live true s = v
      live false s = record {
        room = v.room;
        same_control = v.same_control;
        in_order = λ n.
            rw
              (
                callbacks-append r.delivered r.completions,
                append_assoc (callbacks r.delivered) (callbacks r.completions)
                    (held r.in_hand ++ waiting r.tasks),
              )
              (v.in_order n);
        cleared = v.cleared;
        idle = v.idle;
        silent = λ x. ((v.silent x).0, refl);
      }

  signal_shutdown-InOrder :
      (r : Runner S runtime_failure) → InOrder r → InOrder (signal_shutdown S runtime_failure r)
  unfolding signal_shutdown
  signal_shutdown-InOrder r v = record {
    room = omega arith;
    same_control = v.same_control;
    in_order = λ n. cc;
    cleared = λ s. refl;
    idle = λ x. ((v.idle x).0, refl);
    silent = v.silent;
  }

  join_worker-InOrder :
      (r : Runner S runtime_failure) → InOrder r → InOrder (join_worker S runtime_failure r)
  unfolding join_worker
  join_worker-InOrder r v = ended (r.stopping && r.exited) refl
    where
      ended :
          (b : Bool)
          → (r.stopping && r.exited) ≡ b
          → InOrder (if b then record r { completions = []; joined = true } else r)
      ended true s = record {
        room = v.room;
        same_control = v.same_control;
        in_order = λ n. cc (n, &&-left r.stopping r.exited s);
        cleared = v.cleared;
        idle = v.idle;
        silent = λ x. (&&-right r.stopping r.exited s, refl);
      }
      ended false s = v

  pub step-InOrder :
      (r : Runner S runtime_failure) (a : Action S runtime_failure)
      → InOrder r
      → InOrder (step S runtime_failure r a)
  unfolding step take_task complete_task
  step-InOrder r (submits command body control completion) v =
      submit-InOrder command body control completion r v
  step-InOrder r takes v = take_with-InOrder r.in_hand r.tasks r refl refl v
  step-InOrder r (completes answer) v = complete_with-InOrder r.in_hand answer r refl v
  step-InOrder r drains v = drain-InOrder r v
  step-InOrder r signals_shutdown v = signal_shutdown-InOrder r v
  step-InOrder r joins v = join_worker-InOrder r v

  -- However the threads interleave, the queue keeps its bound and completions run once and in the
  -- order of submission until a shutdown, behind whose join none is due.
  pub run-InOrder :
      (r : Runner S runtime_failure) (as' : List (Action S runtime_failure))
      → InOrder r
      → InOrder (run S runtime_failure r as')
  unfolding run
  run-InOrder r [] v = v
  run-InOrder r (a ∷ as') v = run-InOrder (step S runtime_failure r a) as' (step-InOrder r a v)

  -- A step behind the signal of a shutdown runs no completion and accepts no task, and no later
  -- step lowers the signal.
  step-stopped :
      (r : Runner S runtime_failure) (a : Action S runtime_failure)
      → r.stopping ≡ true
      → ((step S runtime_failure r a).stopping ≡ true)
        × ((step S runtime_failure r a).delivered ≡ r.delivered)
        × ((step S runtime_failure r a).submitted ≡ r.submitted)
  unfolding step take_task complete_task submit drain signal_shutdown join_worker
  step-stopped r (submits command body none completion) s = (s, refl, refl)
  step-stopped r (submits command body (some control) completion) s =
      (ground arith, ground arith, ground arith)
  step-stopped r takes s = take_stopped r.in_hand r.tasks
    where
      take_stopped :
          (hand : Option Task) (queued : List Task)
          → ((take_with S runtime_failure hand queued r).stopping ≡ true)
            × ((take_with S runtime_failure hand queued r).delivered ≡ r.delivered)
            × ((take_with S runtime_failure hand queued r).submitted ≡ r.submitted)
      take_stopped (some task) queued = (s, refl, refl)
      take_stopped none queued = (ground arith, ground arith, ground arith)
  step-stopped r (completes answer) s = complete_stopped r.in_hand
    where
      complete_stopped :
          (hand : Option Task)
          → ((complete_with S runtime_failure hand answer r).stopping ≡ true)
            × ((complete_with S runtime_failure hand answer r).delivered ≡ r.delivered)
            × ((complete_with S runtime_failure hand answer r).submitted ≡ r.submitted)
      complete_stopped none = (s, refl, refl)
      complete_stopped (some task) = (s, refl, refl)
  step-stopped r drains s = (ground arith, ground arith, ground arith)
  step-stopped r signals_shutdown s = (refl, refl, refl)
  step-stopped r joins s = (ground arith, ground arith, ground arith)

  -- Behind the signal of a shutdown no completion runs and no task is accepted, whatever follows.
  pub run-stopped :
      (r : Runner S runtime_failure) (as' : List (Action S runtime_failure))
      → r.stopping ≡ true
      → ((run S runtime_failure r as').delivered ≡ r.delivered)
        × ((run S runtime_failure r as').submitted ≡ r.submitted)
  unfolding run
  run-stopped r [] s = (refl, refl)
  run-stopped r (a ∷ as') s =
      let (s', d, t) = step-stopped r a s in
      let (d', t') = run-stopped (step S runtime_failure r a) as' s' in (d' ∙ d, t' ∙ t)
