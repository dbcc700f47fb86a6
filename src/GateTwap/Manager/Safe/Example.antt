-- ===== src/GateTwap/Manager/Safe/Example.antt =====
-- A live sale of ten contracts: it is started, its first slice is sent, and then it is cancelled.
use taoli.Models.GateTwap.{GateTwapPlan, GateTwapRunRequest}
use taoli.Base.{ℕ, ◌+◌, ◌≡◌, refl, true, none, some, List, [], ◌∷◌, string_eq}
use taoli.Base.Dict
use taoli.Base.Text.{lower}
use taoli.Base.Number.{ℤ, pos, of_nat, fixed_float}
use taoli.Models.Identity.{second}
use taoli.Examples.Data.{at_noon}
use taoli.GateTwap.Job.{Texts, JobAction, turn, answered}
use taoli.GateTwap.Payload.{Readings, empty_payload, rules_from_contract}
use taoli.GateTwap.Manager.{GateTwapClient, Jobs, ok, start_job, preview, signed_position, new_job}
use taoli.GateTwap.{build_plan, normalize_contract}
use taoli.GateTwap.Example.{whole_float, whole_conversions, contract_rules, sale}
use taoli.GateTwap.Manager.Safe.{IsSafe, start_job_lem}

abbrev readings : Readings ℕ ℤ ℕ
readings = record {
  float_value = λ n. some (of_nat n);
  decimal_value = λ n. some n;
  exponent = λ n. pos 0;
  power_of_ten = λ n. 1;
}

abbrev exchange : GateTwapClient ℕ
exchange = record {
  has_credentials = true;
  get_contract =
      λ settle contract. some (some (record (empty_payload {J = ℕ}) { order_size_min = some 1 }));
  get_position = λ settle contract. some (some 10);
}

abbrev texts : Texts ℤ
texts = record {
  plain = λ w. "10";
  number = λ w. "0.01";
  index = λ n. "1";
  padded = λ n. "001";
  run_id = "01011200";
}

abbrev live_sale : GateTwapRunRequest ℤ
live_sale = record { request = sale; live = true; confirm_live = true }

abbrev actions : List JobAction
actions =
    turn at_noon ∷ turn at_noon ∷ answered (at_noon + second) "{}" ∷ turn (at_noon + second) ∷ []

abbrev sale_plan : GateTwapPlan ℤ
sale_plan =
    build_plan whole_conversions
      (record sale { contract = normalize_contract sale.contract; settle = lower sale.settle })
      contract_rules true none at_noon

abbrev started_jobs : Jobs ℤ
started_jobs =
    Dict.set "a1" (new_job whole_conversions readings exchange live_sale "a1" at_noon sale_plan) []

started : start_job whole_conversions readings exchange live_sale "a1" at_noon [] ≡ ok started_jobs
unfolding start_job preview signed_position rules_from_contract
started = refl

start_job_lem_example :
    IsSafe whole_conversions readings exchange texts live_sale "a1" at_noon started_jobs actions
      actions at_noon
start_job_lem_example =
    start_job_lem whole_conversions readings exchange texts live_sale "a1" at_noon [] started_jobs
      actions actions at_noon started
