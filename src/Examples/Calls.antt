-- ===== src/Examples/Calls.antt =====
-- The runner of runtime_task_runner.cpp with texts for snapshots.
use pokrov_app.Base.{List, [], arith, false, none, refl, some, text, true, ◌∷◌, ◌≡◌, ℕ}
use pokrov_app.Protocol.Types.{Command}
use pokrov_app.Tasks.Runner.{
  step, run, Control, complete_task, drain, join_worker, signal_shutdown, submit, take_task, Action,
  Runner, submits, takes, completes, drains, signals_shutdown, joins,
}
use pokrov_app.Tasks.RunnerLaws.{run-InOrder, run-stopped, InOrder}

abbrev idle_control : ℕ → Control
idle_control n = record { cancel_requested = false; abandon_wait = false; completed = false }

abbrev idle_runner : Runner (List ℕ) (text "runtime_failure")
idle_runner = record {
  tasks = [];
  completions = [];
  running = none;
  in_hand = none;
  stopping = false;
  exited = false;
  joined = false;
  controls = idle_control;
  submitted = [];
  delivered = [];
}

idle_runner-InOrder : InOrder (List ℕ) (text "runtime_failure") idle_runner
idle_runner-InOrder = record {
  room = omega arith;
  same_control = refl;
  in_order = λ n. refl;
  cleared = λ s. refl;
  idle = λ x. cc;
  silent = λ x. cc;
}

abbrev two_calls : List (Action (List ℕ) (text "runtime_failure"))
two_calls =
    submits Command.connect [] (some 0) 10
    ∷ submits Command.status [] (some 1) 11
    ∷ takes
    ∷ completes none
    ∷ drains
    ∷ takes
    ∷ signals_shutdown
    ∷ completes (some (text "stopped"))
    ∷ takes
    ∷ joins
    ∷ []

run-InOrder_example :
    InOrder
      (List ℕ)
      (text "runtime_failure")
      (run (List ℕ) (text "runtime_failure") idle_runner two_calls)
run-InOrder_example =
    run-InOrder (List ℕ) (text "runtime_failure") idle_runner two_calls idle_runner-InOrder

-- The shutdown drops the second completion.
two_calls-delivered :
    (run (List ℕ) (text "runtime_failure") idle_runner two_calls).delivered
    ≡ (10, text "runtime_failure") ∷ []
unfolding run step submit take_task complete_task drain signal_shutdown join_worker
two_calls-delivered = refl

abbrev stopped_runner : Runner (List ℕ) (text "runtime_failure")
stopped_runner = record idle_runner { stopping = true }

run-stopped_example :
    ((run (List ℕ) (text "runtime_failure") stopped_runner two_calls).delivered ≡ [])
    × ((run (List ℕ) (text "runtime_failure") stopped_runner two_calls).submitted ≡ [])
run-stopped_example = run-stopped (List ℕ) (text "runtime_failure") stopped_runner two_calls refl
