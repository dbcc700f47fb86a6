-- ===== src/GateTwap/Size/Example.antt =====
-- The plan of a sale of ten contracts.
use taoli.Base.{◌≡◌, refl, true, false, none, some}
use taoli.Base.Number.{fixed_float, ◌≤?◌, nought}
use taoli.Examples.Data.{at_noon}
use taoli.GateTwap.{build_plan, initial_abs, decimal_or_one}
use taoli.GateTwap.Example.{whole_float, whole_conversions, whole_exact, contract_rules, sale}
use taoli.GateTwap.Size.{IsExactPlan, build_plan_lem}

positive_step : (decimal_or_one whole_conversions contract_rules.order_size_step ≤? nought) ≡ false
unfolding decimal_or_one
positive_step = refl

ten : initial_abs whole_conversions sale none ≡ some 10
unfolding initial_abs
ten = refl

build_plan_lem_example :
    IsExactPlan whole_conversions whole_exact contract_rules positive_step 10
      (build_plan whole_conversions sale contract_rules true none at_noon)
build_plan_lem_example =
    build_plan_lem whole_conversions whole_exact contract_rules positive_step sale true none at_noon
      10 ten refl
