-- ===== src/GateTwap/Example.antt =====
-- A sale of ten contracts, with whole numbers for decimals.
use native.Mathlib.Nat.{div-mul-le_self}
use taoli.Models.GateTwap.{GateTwapContractRules, GateTwapRequest, ack, initial, sell}
use taoli.Base.{ℕ, ◌+◌, ◌-◌, ◌*◌, ◌/◌, ◌≡◌, true, false, none, some, leb, ltb, arith}
use taoli.Base.Number.{Float, ℤ, pos, negsuc, fixed_float, of_nat}
use taoli.Examples.Data.{at_noon}
use taoli.GateTwap.{Conversions}
use taoli.GateTwap.Size.{IsExact}

instance abbrev pub whole_float : Float ℕ
whole_float = record {
  ratio = λ n d. n / d;
  add = λ a b. a + b;
  sub = λ a b. a - b;
  mul = λ a b. a * b;
  div = λ a b. a / b;
  lt = ltb;
  le = leb;
}

abbrev pub millionths : ℤ → ℕ
millionths (pos n) = n
millionths (negsuc n) = 0

abbrev pub whole_conversions : Conversions ℤ ℕ
whole_conversions = record {
  decimal = λ w. millionths w / 1000000;
  float = λ d. of_nat d;
  round_down = λ d. d;
  floor_count = λ w. millionths w / 1000000;
  after = λ start index interval. start + index * millionths interval;
}

round_down_le : (a step : ℕ) → leb step 0 ≡ false → leb (a / step * step) a ≡ true
round_down_le a step h = ground (arith, div-mul-le_self a step)

pub whole_exact : IsExact ℤ ℕ whole_conversions
whole_exact = record {
  lt_iff = λ a b. ground arith;
  le_refl = λ a. ground arith;
  le_trans = λ a b c h k. ground (arith, h, k);
  sub_nonneg = λ a b h. ground arith;
  sub-add = λ a b c h. ground (arith, h);
  round_down_le = round_down_le;
}

abbrev pub contract_rules : GateTwapContractRules ℤ
contract_rules = record {
  order_size_min = of_nat 1;
  order_size_step = of_nat 1;
  enable_decimal = false;
  market_order_slip_ratio = none;
  market_order_size_max = none;
  status = none;
}

abbrev pub sale : GateTwapRequest ℤ
sale = record {
  contract = "skhynix-usdt";
  settle = "USDT";
  side = sell;
  start_at = some at_noon;
  interval_seconds = of_nat 10;
  duration_seconds = of_nat 30;
  percent = of_nat 100;
  slice_mode = initial;
  initial_size = some (of_nat 10);
  last_order_all = true;
  slip_ratio = none;
  client_prefix = "t-twap";
  action_mode = ack;
}
