-- ===== src/GateTwap/Job.antt =====
-- The jobs of gate_twap.py: GateTwapJobManager, with `_run` as a machine from one wait to the next.
pub mod Counts
pub mod Lawful
pub mod Cancelled
use Prim.Native.String.{◌++◌ as text_append}
use taoli.Models.GateTwap.{
  ActionMode, GateTwapContractRules, GateTwapJobEvent, GateTwapJobStatus, GateTwapPlan,
  GateTwapPlanSlice, GateTwapRequest, Level, Order, cancelled, completed, error, failed, info,
  running, warning,
}
use taoli.Base.{
  ℕ, zero, suc, ◌+◌, ◌-◌, String, Bool, true, false, not, ◌&&◌, Option, none, some, is_some, List,
  [], ◌∷◌, ◌++◌, if◌then◌else◌, ◌==◌, nat_eq, string_eq, ltb, leb, ◌>>=◌,
}
use taoli.Base.Number.{Float, ◌⊕◌, nought}
use taoli.Base.Text.{lower, char_count}
use taoli.Models.Identity.{Time}
use taoli.PairValidation.{strip, is_given}
use taoli.GateTwap.{Conversions, normalize_contract, build_plan}

-- Formatted numbers: `decimal_plain(Decimal(str(x)))`, `str(x)`, and an index in plain and with three
-- digits at least; and the time of the start as `_run` writes it.
pub record Texts (W : Type 0) : Type 0 where
  pub plain : W → String
  pub number : W → String
  pub index : ℕ → String
  pub padded : ℕ → String
  pub run_id : String

-- `text[:n]` and `text[-n:]`
pub text_take : ℕ → String → String
text_take zero s = String.[]
text_take (suc n) String.[] = String.[]
text_take (suc n) (String.◌∷◌ c s) = String.◌∷◌ c (text_take n s)

pub text_last : ℕ → String → String
text_last n String.[] = String.[]
text_last n (String.◌∷◌ c s) =
    let rest = text_last n s in if leb (char_count (String.◌∷◌ c s)) n then String.◌∷◌ c s else rest

module _ {W : Type 0} (texts : Texts W) where
  pub build_order_text : String → ℕ → String
  unfolding text_take text_last
  build_order_text prefix index =
      let given = strip prefix in
      let clean = if given == "" then "t-twap" else given in
      let marked = if text_take 2 clean == "t-" then clean else text_append "t-" clean in
      let tail : String → String =
        λ run_id. text_append "-" (text_append run_id (text_append "-" (texts.padded index))) in
      let text = text_append marked (tail texts.run_id) in
      if leb (char_count text) 28
      then text
      else text_append (text_take 12 marked) (tail (text_last 8 texts.run_id))

  pub order_of : GateTwapPlan W → GateTwapRequest W → GateTwapPlanSlice W → Order
  unfolding build_order_text
  order_of plan request item = record {
    contract = plan.contract;
    size = texts.plain item.signed_order_size;
    price = "0";
    tif = "ioc";
    reduce_only = true;
    text = build_order_text request.client_prefix item.index;
    action_mode = request.action_mode;
    market_order_slip_ratio = elim request.slip_ratio [
      | none ↦ none
      | some ratio ↦ some (texts.number ratio)
    ];
  }

-- Where `_run` stands: before its first step, before a slice, in the sleep before one, in the request
-- for its order, or at its end.
pub data JobPhase (W : Type 0) : Type 0 where
  not_started : JobPhase W
  next : List (GateTwapPlanSlice W) → JobPhase W
  sleeping : GateTwapPlanSlice W → List (GateTwapPlanSlice W) → JobPhase W
  submitting : GateTwapPlanSlice W → List (GateTwapPlanSlice W) → JobPhase W
  over : JobPhase W

-- A job with the orders that went to the exchange.
pub record Run (W : Type 0) : Type 0 where
  pub job : GateTwapJobStatus W
  pub phase : JobPhase W
  pub submitted : List Order

-- What can happen, with the time: a step between two waits, the end of a sleep, the answer of the
-- exchange or its error, and a call of `cancel`.
pub data JobAction : Type 0 where
  turn woken cancel_call : Time → JobAction
  answered refused : Time → String → JobAction

abbrev pub note : Time → Level → String → Option Order → Option String → GateTwapJobEvent
note now level message order response = record {
  at = now;
  level = level;
  message = message;
  order = order;
  response = response;
}

module _ {W : Type 0} where
  abbrev pub is_skipped : GateTwapPlanSlice W → Bool
  is_skipped item = is_given item.skipped_reason

  abbrev pub with_event : GateTwapJobEvent → GateTwapJobStatus W → GateTwapJobStatus W
  with_event event job = record job { events = job.events ++ (event ∷ []) }

  -- `cancel`, whose call of `task.cancel` ends a task that is not over at its wait.
  pub cancel_job : Time → Run W → Run W
  cancel_job now run = record run {
    job =
        with_event (note now warning "Job cancelled" none none)
          (record run.job { state = cancelled; finished_at = some now });
    phase = over;
  }

  pub fail_job : Time → String → Run W → Run W
  fail_job now message run = record run {
    job =
        with_event (note now error message none none)
          (record run.job { state = failed; last_error = some message; finished_at = some now });
    phase = over;
  }

module _ {W : Type 0} ⦃f : Float W⦄ (texts : Texts W) where
  -- A slice is done: its order is counted.
  pub count_order :
      GateTwapJobEvent → GateTwapPlanSlice W → List (GateTwapPlanSlice W) → Run W → Run W
  count_order event item rest run = record run {
    job = record (with_event event run.job) {
      completed_orders = run.job.completed_orders + 1;
      total_order_size = run.job.total_order_size ⊕ item.order_size;
    };
    phase = next rest;
  }

  -- What `_run` does with a slice after its wait.
  pub act_on : Time → GateTwapPlanSlice W → List (GateTwapPlanSlice W) → Run W → Run W
  unfolding count_order
  act_on now item rest run =
      let job = run.job in
      let order = order_of texts job.plan job.request item in
      let reason : String = elim item.skipped_reason [ none ↦ "" | some text ↦ text ] in
      if is_skipped item
      then record run {
        job =
            with_event
              (note now warning
                (text_append "Slice "
                  (text_append (texts.index item.index) (text_append " skipped: " reason)))
                none none)
              (record job { skipped_orders = job.skipped_orders + 1 });
        phase = next rest;
      }
      else if job.live
      then record run { phase = submitting item rest; submitted = run.submitted ++ (order ∷ []) }
      else count_order
          (note now info
            (text_append "Dry slice " (text_append (texts.index item.index) " generated"))
            (some order) none)
          item rest run

  pub begin : Time → Run W → Run W
  begin now run = record run {
    job = record run.job { state = running; started_at = some now };
    phase = next run.job.plan.slices;
  }

  pub complete : Time → Run W → Run W
  complete now run = record run {
    job = record run.job { state = completed; finished_at = some now };
    phase = over;
  }

  -- An event that the phase does not wait for changes nothing.
  pub step_from : JobPhase W → JobAction → Run W → Run W
  unfolding begin complete act_on count_order
  step_from not_started (turn now) run = begin now run
  step_from (next []) (turn now) run = complete now run
  step_from (next (item ∷ rest)) (turn now) run =
      if ltb now item.scheduled_at
      then record run { phase = sleeping item rest }
      else act_on now item rest run
  step_from (sleeping item rest) (woken now) run = act_on now item rest run
  step_from (submitting item rest) (answered now response) run =
      count_order
        (note now info
          (text_append "Live slice " (text_append (texts.index item.index) " submitted"))
          (some (order_of texts run.job.plan run.job.request item)) (some response))
        item rest run
  step_from (submitting item rest) (refused now message) run = fail_job now message run
  step_from phase (cancel_call now) run = cancel_job now run
  step_from phase event run = run

  pub step_job : JobAction → Run W → Run W
  unfolding step_from
  step_job event run = step_from run.phase event run

  pub run_job : List JobAction → Run W → Run W
  unfolding step_job
  run_job [] run = run
  run_job (event ∷ events) run = run_job events (step_job event run)
