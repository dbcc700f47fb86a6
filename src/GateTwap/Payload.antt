-- ===== src/GateTwap/Payload.antt =====
-- The answers of the exchange that gate_twap.py reads: the rules of a contract, the size of a position.
-- `J` is the type of a JSON value; a key that is missing is `none`.
use taoli.Models.GateTwap.{GateTwapContractRules}
use taoli.Base.{String, Bool, false, Option, none, get_or, if◌then◌else◌, ◌>>=◌}
use taoli.Base.Number.{Float, ℤ, pos, negsuc, ◌==?◌, nought, of_nat}
use taoli.GateTwap.{Conversions}

-- `float(value)` where it is finite and `Decimal(str(value))`, `none` for an exception; the exponent of
-- a `Decimal` and `Decimal(1).scaleb`.
pub record Readings (J W D : Type 0) : Type 0 where
  pub float_value : J → Option W
  pub decimal_value : J → Option D
  pub exponent : D → ℤ
  pub power_of_ten : ℤ → D

pub record ContractPayload (J : Type 0) : Type 0 where
  pub enable_decimal : Bool
  pub order_size_min : Option J
  pub market_order_slip_ratio : Option J
  pub market_order_size_max : Option J
  pub status : Option String

-- `payload or {}`
abbrev pub empty_payload : {J : Type 0} → ContractPayload J
empty_payload = record {
  enable_decimal = false;
  order_size_min = none;
  market_order_slip_ratio = none;
  market_order_size_max = none;
  status = none;
}

-- `value or 1`
abbrev pub one_if_zero : {A : Type 0} → ⦃f : Float A⦄ → A → A
one_if_zero value = if value ==? nought then of_nat 1 else value

module _ {J W D : Type 0} ⦃f : Float W⦄ ⦃g : Float D⦄ (conv : Conversions W D)
    (readings : Readings J W D) where
  abbrev pub float_from : Option J → Option W
  float_from given = given >>= readings.float_value

  abbrev pub decimal_from : Option J → Option D
  decimal_from given = given >>= readings.decimal_value

  -- The step of a contract with decimal sizes is the last digit of its minimum.
  decimal_step : Option J → W
  decimal_step size =
      elim (readings.exponent (one_if_zero (get_or (decimal_from size) (of_nat 1)))) [
        | negsuc n ↦ conv.float (readings.power_of_ten (negsuc n))
        | pos n ↦ of_nat 1
      ]

  unfoldable pub rules_from_contract : Option (ContractPayload J) → GateTwapContractRules W
  unfolding decimal_step
  rules_from_contract given =
      let payload = get_or given empty_payload in
      record {
        order_size_min = one_if_zero (get_or (float_from payload.order_size_min) (of_nat 1));
        order_size_step =
            if payload.enable_decimal then decimal_step payload.order_size_min else of_nat 1;
        enable_decimal = payload.enable_decimal;
        market_order_slip_ratio = float_from payload.market_order_slip_ratio;
        market_order_size_max = float_from payload.market_order_size_max;
        status = payload.status;
      }
