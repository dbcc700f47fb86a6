-- ===== src/GateTwap/Manager.antt =====
-- The manager of the jobs of gate_twap.py. A call that raises changes nothing.
pub mod Safe
use taoli.Models.GateTwap.{
  GateTwapContractRules, GateTwapJobStatus, GateTwapPlan, GateTwapRequest, GateTwapRunRequest,
  JobState, cancelled, error, queued, running,
}
use taoli.Base.{
  ℕ, String, Bool, true, false, not, ◌&&◌, Option, none, some, is_some, List, [], ◌∷◌,
  if◌then◌else◌, string_eq, ◌>>=◌,
}
use taoli.Base.Dict
use taoli.Base.Dict.{Dict}
use taoli.Base.Number.{Float, nought}
use taoli.Base.Text.{lower}
use taoli.Models.Identity.{Time}
use taoli.GateTwap.{Conversions, normalize_contract, build_plan}
use taoli.GateTwap.Payload.{ContractPayload, Readings, decimal_from, rules_from_contract}
use taoli.GateTwap.Job.{Run, JobPhase, not_started, over, Texts, JobAction, cancel_job, step_job}

pub data GateTwapError : Type 0 where
  unconfirmed no_credentials client_failed job_not_found : GateTwapError

pub data Result (A : Type 0) : Type 0 where
  ok : A → Result A
  err : GateTwapError → Result A

-- What the exchange answers to a settlement currency and a contract, `none` for an exception: the
-- payload of the contract, which may be empty, and the `size` of the position, which may be missing.
pub record GateTwapClient (J : Type 0) : Type 0 where
  pub has_credentials : Bool
  pub get_contract : String → String → Option (Option (ContractPayload J))
  pub get_position : String → String → Option (Option J)

abbrev pub Jobs : Type 0 → Type 0
Jobs W = Dict String (Run W)

module _ {J W D : Type 0} ⦃f : Float W⦄ ⦃g : Float D⦄ (conv : Conversions W D)
    (readings : Readings J W D) (client : GateTwapClient J) where
  -- The position is asked for only where the size is not given; a payload without a size is an error.
  pub signed_position : GateTwapRequest W → String → Option (Option D)
  signed_position request contract =
      if not (is_some request.initial_size) && client.has_credentials
      then (do
        answer ← client.get_position (lower request.settle) contract
        size ← decimal_from conv readings answer
        some (some size))
      else some none

  pub preview : GateTwapRequest W → Time → Option (GateTwapPlan W)
  preview request now =
      let contract = normalize_contract request.contract in
      let settle = lower request.settle in
      do
        payload ← client.get_contract settle contract
        position ← signed_position request contract
        some (
            build_plan conv (record request { contract = contract; settle = settle })
              (rules_from_contract conv readings payload) client.has_credentials position now)

  abbrev pub new_job : GateTwapRunRequest W → String → Time → GateTwapPlan W → Run W
  new_job run job_id now plan = record {
    job = record {
      job_id = job_id;
      state = queued;
      live = run.live;
      request = record run.request { contract = plan.contract; settle = plan.settle };
      plan = plan;
      created_at = now;
      started_at = none;
      finished_at = none;
      completed_orders = 0;
      skipped_orders = 0;
      total_order_size = nought;
      last_error = none;
      events = [];
    };
    phase = not_started;
    submitted = [];
  }

  -- `job_id` is what `uuid` gives.
  pub start_job : GateTwapRunRequest W → String → Time → Jobs W → Result (Jobs W)
  start_job run job_id now jobs =
      if run.live && not run.confirm_live
      then err unconfirmed
      else if run.live && not client.has_credentials
      then err no_credentials
      else elim (preview run.request now) [
        | none ↦ err client_failed
        | some plan ↦ ok (Dict.set job_id (new_job run job_id now plan) jobs)
      ]

abbrev pub is_unfinished : JobState → Bool
is_unfinished queued = true
is_unfinished running = true
is_unfinished _ = false

module _ {W : Type 0} where
  pub cancel_by_id : String → Time → Jobs W → Result (Jobs W)
  cancel_by_id job_id now jobs = elim (Dict.get job_id jobs) [
    | none ↦ err job_not_found
    | some run ↦ ok (Dict.set job_id (cancel_job now run) jobs)
  ]

  abbrev pub is_over : JobPhase W → Bool
  is_over over = true
  is_over _ = false

  -- The first loop of `aclose`; the tasks end.
  pub close_job : Time → Run W → Run W
  close_job now run =
      if is_over run.phase
      then run
      else if is_unfinished run.job.state
      then record run {
        job = record run.job { state = cancelled; finished_at = some now };
        phase = over;
      }
      else record run { phase = over }

  pub aclose : Time → Jobs W → Jobs W
  unfolding close_job
  aclose now [] = []
  aclose now ((job_id, run) ∷ jobs) = (job_id, close_job now run) ∷ aclose now jobs

module _ {W : Type 0} ⦃f : Float W⦄ (texts : Texts W) where
  -- An event of the task of a job.
  pub advance_job : String → JobAction → Jobs W → Jobs W
  advance_job job_id event jobs = elim (Dict.get job_id jobs) [
    | none ↦ jobs
    | some run ↦ Dict.set job_id (step_job texts event run) jobs
  ]
