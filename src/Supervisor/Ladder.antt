-- ===== src/Supervisor/Ladder.antt =====
-- What holds of a supervised task at every moment, and what a failure leads to (supervisor.py).
use taoli.Base.{
  ℕ, zero, suc, ◌+◌, ◌≤◌, String, Bool, true, false, not, ◌||◌, Option, List, [], ◌∷◌, ◌⊎◌, inl,
  inr, if◌then◌else◌, arith, ◌≡◌, refl, Bool-cases,
}
use mathlib.Core.Path.{subst, sym}
use taoli.Base.Number.{Float, ◌⊗◌, nought, of_nat, min_of}
use taoli.Models.Identity.{Time}
use taoli.Supervisor.{
  TaskState, running, backoff, failed, stopped, Task, Phase, in_queue, in_coroutine,
  in_failed_sleep, in_backoff_sleep, over, Event, began, returned, raised, slept, cancelled, Policy,
  same_time, enter, fail, resume, cancel, step, step_from, beat_status, new_task, new_status,
  Happening, ended, beaten, stop_began, run_task,
}

module _ {W : Type 0} ⦃f : Float W⦄ (policy : Policy W) where
  -- The wait after `n` failures in a row: the initial one, doubled `n` times within the maximum.
  pub ladder : ℕ → W
  ladder zero = policy.initial_backoff
  ladder (suc n) = min_of policy.max_backoff (ladder n ⊗ of_nat 2)

  -- What the phase says of the state that the status shows and of the wait that it announces.
  abbrev pub Shows : Phase → Bool → TaskState → W → W → Bool → Type 0
  Shows in_queue stopping state backoff_seconds delay restart =
      (state ≡ stopped) × (backoff_seconds ≡ nought)
  Shows (in_coroutine p) stopping state backoff_seconds delay restart =
      (state ≡ running) × (backoff_seconds ≡ nought)
  Shows in_failed_sleep stopping state backoff_seconds delay restart =
      (state ≡ failed) × (backoff_seconds ≡ delay) × (restart ≡ true)
  Shows in_backoff_sleep stopping state backoff_seconds delay restart =
      (state ≡ backoff) × (backoff_seconds ≡ delay) × (restart ≡ true)
  Shows over stopping state backoff_seconds delay restart =
      (backoff_seconds ≡ nought) × (((state ≡ stopped) ⊎ (state ≡ failed)) ⊎ (stopping ≡ true))

  abbrev pub ShowsPhase : Phase → Bool → Task W → Type 0
  ShowsPhase phase stopping task =
      Shows phase stopping task.status.state task.status.backoff_seconds task.delay task.restart

  pub record IsLawful (s : Bool × Task W) : Type 0 where
    pub shows : ShowsPhase s.1.phase s.0 s.1
    pub rung : (n : ℕ) × (n ≤ s.1.status.restarts) × (s.1.delay ≡ ladder n)

  -- A step of the ladder that the task has climbed by its restarts.
  abbrev Rung : Task W → Type 0
  Rung task = (n : ℕ) × (n ≤ task.status.restarts) × (task.delay ≡ ladder n)

  enter-IsLawful :
      (stopping : Bool) (now : Time) (task : Task W)
      → task.status.backoff_seconds ≡ nought
      → Rung task
      → IsLawful (stopping, enter stopping now task)
  unfolding enter
  enter-IsLawful true now task still rung = record { shows = (still, inr refl); rung = rung }
  enter-IsLawful false now task still rung = record { shows = (refl, still); rung = rung }

  next-Rung :
      (policy_delay : W) (restarts : ℕ)
      → (n : ℕ) × (n ≤ restarts) × (policy_delay ≡ ladder n)
      → (n : ℕ) × (n ≤ restarts + 1)
        × (min_of policy.max_backoff (policy_delay ⊗ of_nat 2) ≡ ladder n)
  unfolding ladder
  next-Rung delay restarts (n, fits, at) = (suc n, omega (arith, fits), rw at refl)

  reset-Rung :
      (same : Bool) (task : Task W)
      → Rung task
      → (n : ℕ) × (n ≤ task.status.restarts)
        × ((if same then task.delay else policy.initial_backoff) ≡ ladder n)
  unfolding ladder
  reset-Rung true task rung = rung
  reset-Rung false task rung = (zero, omega arith, refl)

  fail-IsLawful :
      (stopping : Bool) (now : Time) (error : String) (previous_ok : Option Time) (task : Task W)
      → task.status.backoff_seconds ≡ nought
      → Rung task
      → IsLawful (stopping, fail policy stopping now error previous_ok task)
  unfolding fail
  fail-IsLawful stopping now error previous_ok task still rung =
      elim (Bool-cases (not task.restart || stopping)) [
        | inl ends ↦ rw ends (record { shows = (still, inl (inr refl)); rung = rung })
        | inr goes_on ↦ rw goes_on (record {
          shows = (refl, refl, ground (arith, goes_on));
          rung = reset-Rung (same_time task.status.last_ok_at previous_ok) task rung;
        })
      ]

  unchanged :
      (phase : Phase) (stopping : Bool) (task : Task W)
      → task.phase ≡ phase
      → ShowsPhase phase stopping task
      → Rung task
      → IsLawful (stopping, task)
  unchanged phase stopping task at shows rung = record {
    shows = subst (λ p. ShowsPhase p stopping task) (sym at) shows;
    rung = rung;
  }

  cancel-IsLawful : (stopping : Bool) (task : Task W) → Rung task → IsLawful (stopping, cancel task)
  unfolding cancel
  cancel-IsLawful stopping task rung = record { shows = (refl, inl (inl refl)); rung = rung }

  resume-IsLawful :
      (stopping : Bool) (now : Time) (task : Task W)
      → Rung task
      → IsLawful (stopping, resume policy stopping now task)
  unfolding resume
  resume-IsLawful stopping now task rung =
      enter-IsLawful stopping now
        (record task {
          status = record task.status {
            restarts = task.status.restarts + 1;
            backoff_seconds = nought;
          };
          delay = min_of policy.max_backoff (task.delay ⊗ of_nat 2);
        })
        refl (next-Rung task.delay task.status.restarts rung)

  step_from-IsLawful :
      (phase : Phase) (event : Event) (stopping : Bool) (task : Task W)
      → task.phase ≡ phase
      → ShowsPhase phase stopping task
      → Rung task
      → IsLawful (stopping, step_from phase policy stopping event task)
  unfolding step_from
  step_from-IsLawful in_queue event stopping task at shows rung =
      elim event as (λ e. IsLawful (stopping, step_from in_queue policy stopping e task)) [
        | began now ↦ enter-IsLawful stopping now task shows.1 rung
        | cancelled ↦ record { shows = (shows.1, inl (inl shows.0)); rung = rung }
        | _ ↦ unchanged in_queue stopping task at shows rung
      ]
  step_from-IsLawful (in_coroutine previous_ok) event stopping task at shows rung =
      elim event
        as (λ e. IsLawful (stopping, step_from (in_coroutine previous_ok) policy stopping e task)) [
          | returned ↦ record { shows = (shows.1, inl (inl refl)); rung = rung }
          | raised now error ↦ fail-IsLawful stopping now error previous_ok task shows.1 rung
          | cancelled ↦ cancel-IsLawful stopping task rung
          | _ ↦ unchanged (in_coroutine previous_ok) stopping task at shows rung
        ]
  step_from-IsLawful in_failed_sleep event stopping task at shows rung =
      elim event as (λ e. IsLawful (stopping, step_from in_failed_sleep policy stopping e task)) [
        | slept now ↦ record { shows = (refl, shows.1, shows.2); rung = rung }
        | cancelled ↦ cancel-IsLawful stopping task rung
        | _ ↦ unchanged in_failed_sleep stopping task at shows rung
      ]
  step_from-IsLawful in_backoff_sleep event stopping task at shows rung =
      elim event as (λ e. IsLawful (stopping, step_from in_backoff_sleep policy stopping e task)) [
        | slept now ↦ resume-IsLawful stopping now task rung
        | cancelled ↦ cancel-IsLawful stopping task rung
        | _ ↦ unchanged in_backoff_sleep stopping task at shows rung
      ]
  step_from-IsLawful over event stopping task at shows rung =
      unchanged over stopping task at shows rung

  beaten-IsLawful :
      (now : Time) (ok stopping : Bool) (task : Task W)
      → IsLawful (stopping, task)
      → IsLawful (stopping, record task { status = beat_status now ok task.status })
  unfolding beat_status
  beaten-IsLawful now true stopping task h = record { shows = h.shows; rung = h.rung }
  beaten-IsLawful now false stopping task h = record { shows = h.shows; rung = h.rung }

  stop-Shows :
      (phase : Phase) (stopping : Bool) (task : Task W)
      → ShowsPhase phase stopping task
      → ShowsPhase phase true task
  stop-Shows in_queue stopping task h = h
  stop-Shows (in_coroutine p) stopping task h = h
  stop-Shows in_failed_sleep stopping task h = h
  stop-Shows in_backoff_sleep stopping task h = h
  stop-Shows over stopping task h = (h.0, inr refl)

  -- A happening, from a lawful task.
  run_task-IsLawful :
      (hs : List Happening) (stopping : Bool) (task : Task W)
      → IsLawful (stopping, task)
      → IsLawful (run_task policy hs (stopping, task))
  unfolding run_task step
  run_task-IsLawful [] stopping task h = h
  run_task-IsLawful (ended event ∷ hs) stopping task h =
      run_task-IsLawful hs stopping _
        (step_from-IsLawful task.phase event stopping task refl h.shows h.rung)
  run_task-IsLawful (beaten now ok ∷ hs) stopping task h =
      run_task-IsLawful hs stopping _ (beaten-IsLawful now ok stopping task h)
  run_task-IsLawful (stop_began ∷ hs) stopping task h =
      run_task-IsLawful hs true task
        (record { shows = stop-Shows task.phase stopping task h.shows; rung = h.rung })

  -- Whatever happens to a task that was started, its status shows what it waits for: `running` in its
  -- coroutine, `failed` and then `backoff` with the announced wait between a failure and the restart,
  -- and no wait otherwise. The wait before the next restart is the initial one, doubled at most as
  -- often as the task was restarted and bounded by the maximum. A task that is over shows `stopped` or
  -- `failed`, unless the supervisor is stopping.
  pub run_task_lem :
      (hs : List Happening) (restart critical : Bool)
      → IsLawful (run_task policy hs (false, new_task policy restart critical))
  unfolding new_task new_status ladder
  run_task_lem hs restart critical =
      run_task-IsLawful hs false (new_task policy restart critical)
        (record { shows = (refl, refl); rung = (zero, omega arith, refl) })
