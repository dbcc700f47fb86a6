-- ===== src/Supervisor/Restart.antt =====
-- A failure is followed by a restart, and a stop is final (supervisor.py).
use taoli.Base.{
  ◌+◌, String, Bool, true, false, Option, some, List, [], ◌∷◌, ◌⊎◌, if◌then◌else◌, arith, ◌≡◌, refl,
  ap, ◌∙◌,
}
use taoli.Base.Number.{Float, ◌⊗◌, nought, of_nat, min_of}
use taoli.Models.Identity.{Time}
use taoli.Supervisor.{
  TaskStatus, running, failed, stopped, Task, Phase, in_queue, in_coroutine, in_failed_sleep,
  in_backoff_sleep, over, raised, slept, cancelled, Policy, same_time, enter, fail, resume, cancel,
  step, step_from, settle, Happening, ended, beaten, stop_began, run_task,
}

module _ {W : Type 0} ⦃f : Float W⦄ (policy : Policy W) where
  -- The wait after a failure: the initial one if the task had a good heartbeat since its last start.
  abbrev pub wait_of : Task W → Option Time → W
  wait_of task previous_ok =
      if same_time task.status.last_ok_at previous_ok then task.delay else policy.initial_backoff

  -- When the coroutine of a task that restarts raises, and the supervisor is not stopping, then the
  -- two sleeps later the task is in its coroutine again: the restart is counted, the error kept, and
  -- the next wait is twice the one before, within the maximum; the wait itself starts over at the
  -- initial one if there was a good heartbeat since the last start.
  pub restarts_after_failure :
      (task : Task W) (previous_ok : Option Time) (at half back : Time) (error : String)
      → task.phase ≡ in_coroutine previous_ok
      → task.restart ≡ true
      → (run_task policy
          (ended (raised at error) ∷ ended (slept half) ∷ ended (slept back) ∷ [])
          (false, task)).1
        ≡ record {
          status = record task.status {
            state = running;
            started_at = some back;
            last_error = some error;
            last_failure_at = some at;
            restarts = task.status.restarts + 1;
            backoff_seconds = nought;
          };
          delay = min_of policy.max_backoff (wait_of task previous_ok ⊗ of_nat 2);
          restart = task.restart;
          phase = in_coroutine task.status.last_ok_at;
        }
  unfolding run_task step step_from fail resume enter
  restarts_after_failure task previous_ok at half back error phase restart =
      rw (phase, restart) refl

  over-stays :
      (hs : List Happening) (stopping : Bool) (task : Task W)
      → task.phase ≡ over
      → (run_task policy hs (stopping, task)).1.phase ≡ over
  unfolding run_task step step_from
  over-stays [] stopping task h = h
  over-stays (ended event ∷ hs) stopping task h =
      over-stays hs stopping _ (ap (λ p. (step_from p policy stopping event task).phase) h ∙ h)
  over-stays (beaten now ok ∷ hs) stopping task h = over-stays hs stopping _ h
  over-stays (stop_began ∷ hs) stopping task h = over-stays hs true task h

  cancel-over :
      (phase : Phase) (stopping : Bool) (task : Task W)
      → task.phase ≡ phase
      → (step_from phase policy stopping cancelled task).phase ≡ over
  unfolding step_from cancel
  cancel-over in_queue stopping task h = refl
  cancel-over (in_coroutine p) stopping task h = refl
  cancel-over in_failed_sleep stopping task h = refl
  cancel-over in_backoff_sleep stopping task h = refl
  cancel-over over stopping task h = h

  settle-states :
      (status : TaskStatus W) → ((settle status).state ≡ stopped) ⊎ ((settle status).state ≡ failed)
  unfolding settle
  settle-states status = ground arith

  -- Once a stop has cancelled a task, the task is over for good, whatever happens later, and `stop`
  -- leaves its status at `stopped` or `failed`.
  pub stop_is_final :
      (task : Task W) (hs : List Happening)
      → let (_, after) = run_task policy (stop_began ∷ ended cancelled ∷ hs) (false, task) in
        (after.phase ≡ over)
        × (((settle after.status).state ≡ stopped) ⊎ ((settle after.status).state ≡ failed))
  unfolding run_task step
  stop_is_final task hs = (
    over-stays hs true (step policy true cancelled task) (cancel-over task.phase true task refl),
    settle-states _,
  )
