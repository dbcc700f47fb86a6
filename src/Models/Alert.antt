-- ===== src/Models/Alert.antt =====
-- backend/app/models/alert.py and phone_alert.py: the rules of the two alert engines. A number that
-- its model keeps at least 0 is a natural number.
use taoli.Base.{ℕ, String, Bool, Option, List}
use taoli.Base.Number.{ℤ}
use taoli.Models.Market.{MarketType}

pub data AlertSeverity : Type 0 where
  info warning critical : AlertSeverity

pub record AlertRule (W : Type 0) : Type 0 where
  pub id : String
  pub name : String
  pub enabled : Bool
  pub types : List String
  pub suppress_sf_negative_funding : Bool
  pub include_exchanges : List String
  pub exclude_exchanges : List String
  pub include_symbols : List String
  pub exclude_symbols : List String
  pub min_open_spread_pct : W
  pub favorable_funding_open_spread_pct : Option W
  pub min_fee_adjusted_open_pct : W
  pub min_volume_24h_usdt : W
  pub max_data_age_seconds : ℤ
  pub excluded_risk_labels : List String
  pub consecutive_hits : ℕ
  pub cooldown_seconds : ℕ
  pub severity : AlertSeverity

pub data PhonePriceAlertCondition : Type 0 where
  above below : PhonePriceAlertCondition

pub data PhonePriceAlertPriceField : Type 0 where
  mark_price index_price mid_price bid ask : PhonePriceAlertPriceField

pub record PhonePriceAlertRule (W : Type 0) : Type 0 where
  pub id : String
  pub name : String
  pub enabled : Bool
  pub symbol : String
  pub exchange : Option String
  pub market_type : MarketType
  pub price_field : PhonePriceAlertPriceField
  pub condition : PhonePriceAlertCondition
  pub target_price : W
  pub cooldown_seconds : ℕ
