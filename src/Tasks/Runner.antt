-- ===== src/Tasks/Runner.antt =====
-- runtime_task_runner.cpp: one worker runs the submitted calls in order, and their completions run
-- in `Drain`. Each critical section is a step; the call itself is an argument.
use pokrov_app.Protocol.Types.{Command}
use pokrov_app.Base.{
  Bool, List, Option, [], false, if◌then◌else◌, leb, length, none, some, true, ◌&&◌, ◌++◌, ◌==◌,
  ◌||◌, ◌∷◌, ℕ,
}

-- The flags of `ServiceCallControl` that the runner sets. A shared pointer to one is its number.
pub record Control : Type 0 where
  pub cancel_requested : Bool
  pub abandon_wait : Bool
  pub completed : Bool

-- `completion` names the callback.
pub record Task : Type 0 where
  pub command : Command
  pub body : List ℕ
  pub control : ℕ
  pub completion : ℕ

-- `S` are the snapshots, and `runtime_failure` is the one that stands for an exception.
module _ (S : Type 0) (runtime_failure : S) where
  -- `in_hand` is the worker's `task` and `joined` says that `Shutdown` is over. `submitted` are the
  -- callbacks accepted and `delivered` those run, with their snapshots, in order.
  pub record Runner : Type 0 where
    pub tasks : List Task
    pub completions : List (ℕ × S)
    pub running : Option ℕ
    pub in_hand : Option Task
    pub stopping : Bool
    pub exited : Bool
    pub joined : Bool
    pub controls : ℕ → Control
    pub submitted : List ℕ
    pub delivered : List (ℕ × S)

  abbrev update : (ℕ → Control) → ℕ → (Control → Control) → ℕ → Control
  update controls id f n = if n == id then f (controls n) else controls n

  -- A null control is `none`.
  unfoldable pub submit : Command → List ℕ → Option ℕ → ℕ → Runner → Runner × Bool
  submit command body none completion r = (r, false)
  submit command body (some control) completion r =
      if r.stopping || leb 16 (length r.tasks)
      then (r, false)
      else let task : Task = record {
        command = command;
        body = body;
        control = control;
        completion = completion;
      } in
        (
          record r { tasks = r.tasks ++ task ∷ []; submitted = r.submitted ++ completion ∷ [] },
          true,
        )

  abbrev pub take_next : List Task → Runner → Runner
  take_next [] r = r
  take_next (task ∷ rest) r = record r {
    tasks = rest;
    in_hand = some task;
    running = some task.control;
  }

  -- The worker's first critical section, by the task in hand and the queue.
  abbrev pub take_with : Option Task → List Task → Runner → Runner
  take_with (some task) queued r = r
  take_with none queued r = if r.stopping then record r { exited = true } else take_next queued r

  unfoldable pub take_task : Runner → Runner
  take_task r = take_with r.in_hand r.tasks r

  -- `none` is a call that throws.
  abbrev pub snapshot_of : Option S → S
  snapshot_of none = runtime_failure
  snapshot_of (some snapshot) = snapshot

  -- Behind the call: the control is completed and the completion is queued.
  abbrev pub complete_with : Option Task → Option S → Runner → Runner
  complete_with none answer r = r
  complete_with (some task) answer r = record r {
    in_hand = none;
    running = none;
    completions = r.completions ++ (task.completion, snapshot_of answer) ∷ [];
    controls = update r.controls task.control (λ c. record c { completed = true });
  }

  unfoldable pub complete_task : Option S → Runner → Runner
  complete_task answer r = complete_with r.in_hand answer r

  -- The completions run outside the lock, behind the swap. `Drain` and `Shutdown` are both called by
  -- the window's thread, so no shutdown comes between, and the two are one step here.
  unfoldable pub drain : Runner → Runner
  drain r =
      if r.stopping
      then r
      else record r { completions = []; delivered = r.delivered ++ r.completions }

  abbrev cancel_running : Option ℕ → (ℕ → Control) → ℕ → Control
  cancel_running none controls = controls
  cancel_running (some id) controls =
      update controls id (λ c. record c { cancel_requested = true; abandon_wait = true })

  -- `Shutdown` up to the join.
  unfoldable pub signal_shutdown : Runner → Runner
  signal_shutdown r = record r {
    stopping = true;
    tasks = [];
    controls = cancel_running r.running r.controls;
  }

  -- `Shutdown` behind the join, which waits for the worker to return.
  unfoldable pub join_worker : Runner → Runner
  join_worker r = if r.stopping && r.exited then record r { completions = []; joined = true } else r

  pub data Action : Type 0 where
    submits : Command → List ℕ → Option ℕ → ℕ → Action
    takes : Action
    completes : Option S → Action
    drains : Action
    signals_shutdown : Action
    joins : Action

  unfoldable pub step : Runner → Action → Runner
  step r (submits command body control completion) = (submit command body control completion r).0
  step r takes = take_task r
  step r (completes answer) = complete_task answer r
  step r drains = drain r
  step r signals_shutdown = signal_shutdown r
  step r joins = join_worker r

  unfoldable pub run : Runner → List Action → Runner
  unfolding step
  run r [] = r
  run r (a ∷ as') = run (step r a) as'
