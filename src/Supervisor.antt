-- ===== src/Supervisor.antt =====
-- backend/app/runtime/supervisor.py: the statuses of the supervised tasks. A task is a coroutine
-- that waits at three places of `_run`; what ends a wait is an event, and `step` runs the code from
-- there to the next wait. The clock's value at that moment comes with the event.
pub mod Ladder
pub mod Restart
use taoli.Base.{
  ℕ, zero, suc, ◌+◌, ◌-◌, String, Bool, true, false, not, ◌&&◌, ◌||◌, Option, none, some, List, [],
  ◌∷◌, ◌==◌, HasEq, string_eq, nat_eq, if◌then◌else◌, arith, ◌≡◌, ◌↔◌,
}
use taoli.Base.Dict
use taoli.Base.Dict.{Dict}
use taoli.Base.Number.{Float, ◌⊗◌, ◌<?◌, ◌≤?◌, nought, of_nat, min_of}
use taoli.Models.Identity.{Time}

pub data TaskState : Type 0 where
  running backoff failed stopped : TaskState

pub record TaskStatus (W : Type 0) : Type 0 where
  pub critical : Bool
  pub state : TaskState
  pub started_at : Option Time
  pub last_iteration_at : Option Time
  pub last_ok_at : Option Time
  pub last_error : Option String
  pub iterations : ℕ
  pub restarts : ℕ
  pub last_failure_at : Option Time
  pub backoff_seconds : W
  pub last_rss_anon_mb : Option W
  pub last_rss_delta_mb : Option W

-- Where a task waits: for its first turn; in its coroutine, with `previous_ok`; in the first second
-- after a failure; in the rest of the wait; or nowhere, since `_run` has returned.
pub data Phase : Type 0 where
  in_queue : Phase
  in_coroutine : Option Time → Phase
  in_failed_sleep in_backoff_sleep over : Phase

pub record Task (W : Type 0) : Type 0 where
  pub status : TaskStatus W
  pub delay : W
  pub restart : Bool
  pub phase : Phase

-- What ends a wait: the task gets its first turn, the coroutine returns, it raises an error of a
-- type, a sleep is over, or the task is cancelled.
pub data Event : Type 0 where
  began : Time → Event
  returned : Event
  raised : Time → String → Event
  slept : Time → Event
  cancelled : Event

-- The two bounds of the wait before a restart.
pub record Policy (W : Type 0) : Type 0 where
  pub initial_backoff : W
  pub max_backoff : W

pub same_time : Option Time → Option Time → Bool
same_time none none = true
same_time (some a) (some b) = a == b
same_time none (some b) = false
same_time (some a) none = false

module _ {W : Type 0} ⦃f : Float W⦄ where
  -- The checks of `__init__`; `none` is the `ValueError`.
  unfoldable pub new_policy : W → W → Option (Policy W)
  new_policy initial_backoff max_backoff =
      if initial_backoff ≤? nought || max_backoff <? initial_backoff
      then none
      else some (record { initial_backoff = initial_backoff; max_backoff = max_backoff })

  pub new_status : Bool → TaskStatus W
  new_status critical = record {
    critical = critical;
    state = stopped;
    started_at = none;
    last_iteration_at = none;
    last_ok_at = none;
    last_error = none;
    iterations = 0;
    restarts = 0;
    last_failure_at = none;
    backoff_seconds = nought;
    last_rss_anon_mb = none;
    last_rss_delta_mb = none;
  }

  -- The head of the loop of `_run`.
  pub enter : Bool → Time → Task W → Task W
  enter stopping now task = if stopping then record task { phase = over } else record task {
    status = record task.status { state = running; started_at = some now };
    phase = in_coroutine task.status.last_ok_at;
  }

  -- `except Exception`, up to the first sleep. `safe_error` keeps the type of the error only.
  pub fail : Policy W → Bool → Time → String → Option Time → Task W → Task W
  fail policy stopping now error previous_ok task =
      let delay =
        if same_time task.status.last_ok_at previous_ok
        then task.delay
        else policy.initial_backoff in
      let status = record task.status {
        state = failed;
        last_error = some error;
        last_failure_at = some now;
      } in
      if not task.restart || stopping
      then record task { status = status; phase = over }
      else record task {
        status = record status { backoff_seconds = delay };
        delay = delay;
        phase = in_failed_sleep;
      }

  -- After the second sleep, up to the next wait.
  pub resume : Policy W → Bool → Time → Task W → Task W
  unfolding enter
  resume policy stopping now task = enter stopping now (record task {
    status = record task.status { restarts = task.status.restarts + 1; backoff_seconds = nought };
    delay = min_of policy.max_backoff (task.delay ⊗ of_nat 2);
  })

  pub cancel : Task W → Task W
  cancel task = record task {
    status = record task.status { state = stopped; backoff_seconds = nought };
    phase = over;
  }

  -- `_run` from one wait to the next. An event that the wait is not for changes nothing; a task that
  -- is cancelled before its first turn does not run any of `_run`.
  pub step_from : Phase → Policy W → Bool → Event → Task W → Task W
  unfolding enter fail resume cancel
  step_from in_queue policy stopping (began now) task = enter stopping now task
  step_from in_queue policy stopping cancelled task = record task { phase = over }
  step_from (in_coroutine previous_ok) policy stopping returned task = record task {
    status = record task.status { state = stopped };
    phase = over;
  }
  step_from (in_coroutine previous_ok) policy stopping (raised now error) task =
      fail policy stopping now error previous_ok task
  step_from (in_coroutine previous_ok) policy stopping cancelled task = cancel task
  step_from in_failed_sleep policy stopping (slept now) task = record task {
    status = record task.status { state = backoff };
    phase = in_backoff_sleep;
  }
  step_from in_failed_sleep policy stopping cancelled task = cancel task
  step_from in_backoff_sleep policy stopping (slept now) task = resume policy stopping now task
  step_from in_backoff_sleep policy stopping cancelled task = cancel task
  step_from _ policy stopping event task = task

  pub step : Policy W → Bool → Event → Task W → Task W
  unfolding step_from
  step policy stopping event task = step_from task.phase policy stopping event task

  -- `beat` on the status of a task.
  pub beat_status : Time → Bool → TaskStatus W → TaskStatus W
  beat_status now ok status =
      let beaten = record status {
        last_iteration_at = some now;
        iterations = status.iterations + 1;
      } in
      if ok then record beaten { last_ok_at = some now } else beaten

  -- The last lines of `stop`, once the task is over.
  pub settle : TaskStatus W → TaskStatus W
  settle status = elim status.state [ failed ↦ status | _ ↦ record status { state = stopped } ]

-- A wait of a task that was started ends by an event, or a heartbeat is noted during it.
pub data Happening : Type 0 where
  ended : Event → Happening
  beaten : Time → Bool → Happening
  stop_began : Happening

module _ {W : Type 0} ⦃f : Float W⦄ (policy : Policy W) where
  -- The task, and whether the supervisor is stopping, after a sequence of happenings.
  pub run_task : List Happening → Bool × Task W → Bool × Task W
  unfolding step beat_status
  run_task [] s = s
  run_task (ended event ∷ hs) (stopping, task) =
      run_task hs (stopping, step policy stopping event task)
  run_task (beaten now ok ∷ hs) (stopping, task) =
      run_task hs (stopping, record task { status = beat_status now ok task.status })
  run_task (stop_began ∷ hs) (stopping, task) = run_task hs (true, task)

pub record TaskSupervisor (W : Type 0) : Type 0 where
  pub tasks : Dict String (Task W)
  pub stopping : Bool

module _ {W : Type 0} ⦃f : Float W⦄ where
  pub new_task : Policy W → Bool → Bool → Task W
  new_task policy restart critical = record {
    status = new_status critical;
    delay = policy.initial_backoff;
    restart = restart;
    phase = in_queue;
  }

  -- `none` is the `ValueError`.
  pub start : Policy W → String → Bool → Bool → TaskSupervisor W → Option (TaskSupervisor W)
  unfolding new_task
  start policy name restart critical s =
      if s.stopping || Dict.has name s.tasks
      then none
      else some (record s { tasks = Dict.set name (new_task policy restart critical) s.tasks })

  pub beat : String → Bool → Time → TaskSupervisor W → TaskSupervisor W
  unfolding beat_status
  beat name ok now s = elim (Dict.get name s.tasks) [
    | none ↦ s
    | some task ↦ record s {
      tasks = Dict.set name (record task { status = beat_status now ok task.status }) s.tasks;
    }
  ]

  -- The loop at the end of `stop`, which waits for the tasks after it has cancelled them.
  pub settle_all : Dict String (Task W) → Dict String (Task W)
  settle_all [] = []
  settle_all ((name, task) ∷ tasks) =
      (name, record task { status = settle task.status }) ∷ settle_all tasks

  -- One event of the task under the name.
  pub step_task : Policy W → String → Event → TaskSupervisor W → TaskSupervisor W
  unfolding step
  step_task policy name event s = elim (Dict.get name s.tasks) [
    | none ↦ s
    | some task ↦ record s { tasks = Dict.set name (step policy s.stopping event task) s.tasks }
  ]
