-- ===== src/GateTwap/Manager/Safe.antt =====
-- What the manager of gate_twap.py promises of the jobs it starts.
mod Example
use mathlib.Core.Path.{subst}
use taoli.Models.GateTwap.{GateTwapPlan, GateTwapRequest, GateTwapRunRequest}
use taoli.Base.{
  ℕ, String, Bool, true, false, not, ◌&&◌, Option, none, some, is_some, List, [], ◌∷◌, ◌++◌, ◌≡◌,
  refl, ap, sym, ◌∙◌, arith, if◌then◌else◌, string_eq, Bool-cases, if-rule, inl, inr, ==_self,
}
use taoli.Base.Dict
use taoli.Base.Dict.{Dict}
use taoli.Base.Number.{Float, nought}
use taoli.Models.Identity.{Time}
use taoli.GateTwap.{Conversions}
use taoli.GateTwap.Payload.{Readings}
use taoli.GateTwap.Job.{Run, Texts, JobAction, cancel_call, run_job}
use taoli.GateTwap.Job.Counts.{IsLawful}
use taoli.GateTwap.Job.Lawful.{run_job-IsLawful}
use taoli.GateTwap.Job.Cancelled.{run_job-cancel}
use taoli.GateTwap.Manager.{
  GateTwapClient, Jobs, Result, ok, err, client_failed, preview, new_job, start_job,
}

abbrev pub IfOk : {A : Type 0} → (A → Type 0) → Result A → Type 0
IfOk P (ok a) = P a
IfOk P (err e) = Unit

get-set_self :
    {V : Type 0} (key : String) (value : V) (d : Dict String V)
    → Dict.get key (Dict.set key value d) ≡ some value
get-set_self key value d = ground (arith, Dict.get-set key key value d, ==_self key)

module _ {J W D : Type 0} ⦃f : Float W⦄ ⦃g : Float D⦄ (conv : Conversions W D)
    (readings : Readings J W D) (client : GateTwapClient J) (texts : Texts W) where
  -- The request that a job keeps.
  abbrev pub kept_request : GateTwapRunRequest W → GateTwapPlan W → GateTwapRequest W
  kept_request run plan = record run.request { contract = plan.contract; settle = plan.settle }

  new_job-IsLawful :
      (run : GateTwapRunRequest W) (job_id : String) (now : Time) (plan : GateTwapPlan W)
      → IsLawful texts plan
          (kept_request run plan)
          run.live
          (new_job conv readings client run job_id now plan)
  new_job-IsLawful run job_id now plan =
      ([], [], plan.slices, refl, (refl, refl), ground arith, (refl, refl, refl, refl, refl, refl))

  -- What a start that succeeds has done.
  abbrev pub IsStarted : GateTwapRunRequest W → String → Time → Jobs W → Jobs W → Type 0
  IsStarted run job_id now jobs after =
      (plan : GateTwapPlan W) × (preview conv readings client run.request now ≡ some plan)
      × (after ≡ Dict.set job_id (new_job conv readings client run job_id now plan) jobs)
      × (run.live ≡ true → (run.confirm_live ≡ true) × (client.has_credentials ≡ true))

  start_job-IfOk :
      (run : GateTwapRunRequest W) (job_id : String) (now : Time) (jobs : Jobs W)
      → IfOk (IsStarted run job_id now jobs) (start_job conv readings client run job_id now jobs)
  unfolding start_job
  start_job-IfOk run job_id now jobs =
      if-rule Started (run.live && not run.confirm_live) _ _ (λ _. tt)
        (λ confirmed.
          if-rule Started (run.live && not client.has_credentials) _ _ (λ _. tt)
            (λ trusted.
              of_preview (preview conv readings client run.request now) refl
                (λ live. (ground (arith, live, confirmed), ground (arith, live, trusted)))))
    where
      Started : Result (Jobs W) → Type 0
      Started = IfOk (IsStarted run job_id now jobs)

      of_preview :
          (x : Option (GateTwapPlan W))
          → preview conv readings client run.request now ≡ x
          → (run.live ≡ true → (run.confirm_live ≡ true) × (client.has_credentials ≡ true))
          → Started (elim x as (λ x. Result (Jobs W)) [
            | none ↦ err client_failed
            | some plan ↦
                ok (Dict.set job_id (new_job conv readings client run job_id now plan) jobs)
          ])
      of_preview none e guards = tt
      of_preview (some plan) e guards = (plan, e, refl, guards)

  -- The job of a start, and what it has done after some actions.
  abbrev pub IsSafe :
      GateTwapRunRequest W
      → String
      → Time
      → Jobs W
      → List JobAction
      → List JobAction
      → Time
      → Type 0
  IsSafe run job_id now after actions later at =
      (plan : GateTwapPlan W) × (started : Run W) × (preview conv readings client run.request now
        ≡ some plan)
      × (Dict.get job_id after ≡ some started)
      × IsLawful texts plan (kept_request run plan) run.live (run_job texts actions started)
      × (run.live ≡ true → (run.confirm_live ≡ true) × (client.has_credentials ≡ true))
      × ((run_job texts (cancel_call at ∷ later) (run_job texts actions started)).submitted
          ≡ (run_job texts actions started).submitted)

  -- A job that was started has the plan of its preview. Whatever happens to it, the orders it has sent
  -- are those of the slices it came to that are not skipped, in their order and one each, and none if it
  -- is not live; its counters and its total size are those of the slices that are done; a live job was
  -- confirmed and had credentials; and once it is cancelled it sends no further order.
  pub start_job_lem :
      (run : GateTwapRunRequest W) (job_id : String) (now : Time) (jobs after : Jobs W)
      (actions later : List JobAction) (at : Time)
      → start_job conv readings client run job_id now jobs ≡ ok after
      → IsSafe run job_id now after actions later at
  start_job_lem run job_id now jobs after actions later at h =
      let (plan, previewed, stored, guards) =
        subst (IfOk (IsStarted run job_id now jobs)) h (start_job-IfOk run job_id now jobs) in
      let started = new_job conv readings client run job_id now plan in
      (
        plan,
        started,
        previewed,
        ap (Dict.get job_id) stored ∙ get-set_self job_id started jobs,
        run_job-IsLawful texts plan (kept_request run plan) run.live actions started
            (new_job-IsLawful run job_id now plan),
        guards,
        run_job-cancel texts later at (run_job texts actions started),
      )
