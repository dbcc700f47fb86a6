-- ===== src/GateTwap/Job/Cancelled.antt =====
-- A cancelled job of gate_twap.py submits nothing more.
use taoli.Base.{List, [], ◌∷◌, ◌≡◌, refl, ◌∙◌}
use taoli.Base.Number.{Float}
use taoli.Models.Identity.{Time}
use taoli.GateTwap.Job.{
  Run, JobPhase, not_started, next, sleeping, submitting, over, JobAction, turn, woken, cancel_call,
  answered, refused, Texts, cancel_job, step_from, step_job, run_job,
}

module _ {W : Type 0} ⦃f : Float W⦄ (texts : Texts W) where
  over-step :
      (phase : JobPhase W) (action : JobAction) (run : Run W)
      → run.phase ≡ over
      → phase ≡ over
      → let after = step_from texts phase action run in
        (after.phase ≡ over) × (after.submitted ≡ run.submitted)
  unfolding step_from cancel_job
  over-step over (turn now) run e k = (e, refl)
  over-step over (woken now) run e k = (e, refl)
  over-step over (cancel_call now) run e k = (refl, refl)
  over-step over (answered now response) run e k = (e, refl)
  over-step over (refused now message) run e k = (e, refl)
  over-step not_started action run e k = absurd (cc)
  over-step (next items) action run e k = absurd (cc)
  over-step (sleeping item items) action run e k = absurd (cc)
  over-step (submitting item items) action run e k = absurd (cc)

  over-run :
      (actions : List JobAction) (run : Run W)
      → run.phase ≡ over
      → (run_job texts actions run).submitted ≡ run.submitted
  unfolding run_job step_job
  over-run [] run e = refl
  over-run (action ∷ actions) run e =
      let (after, same) = over-step run.phase action run e e in
      over-run actions (step_job texts action run) after ∙ same

  cancel-step :
      (phase : JobPhase W) (now : Time) (run : Run W)
      → let after = step_from texts phase (cancel_call now) run in
        (after.phase ≡ over) × (after.submitted ≡ run.submitted)
  unfolding step_from cancel_job
  cancel-step not_started now run = (refl, refl)
  cancel-step (next []) now run = (refl, refl)
  cancel-step (next (item ∷ items)) now run = (refl, refl)
  cancel-step (sleeping item items) now run = (refl, refl)
  cancel-step (submitting item items) now run = (refl, refl)
  cancel-step over now run = (refl, refl)

  -- A call of `cancel` ends the orders.
  pub run_job-cancel :
      (later : List JobAction) (now : Time) (run : Run W)
      → (run_job texts (cancel_call now ∷ later) run).submitted ≡ run.submitted
  unfolding run_job step_job
  run_job-cancel later now run =
      let (after, same) = cancel-step run.phase now run in
      over-run later (step_job texts (cancel_call now) run) after ∙ same
