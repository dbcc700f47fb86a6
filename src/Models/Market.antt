-- ===== src/Models/Market.antt =====
-- backend/app/models/market.py, opportunity.py and orderbook.py. `W` is the type of a `float`.
use taoli.Base.{String, ◌≡◌, ◌↔◌, Bool, true, false, Option, List, HasEq, arith}
use taoli.Base.Number.{ℤ}
use taoli.Models.Identity.{Time, PairValidationResult}

pub data MarketType : Type 0 where
  spot future : MarketType

pub data OpportunityType : Type 0 where
  sf ff ss : OpportunityType

-- The values of the two enumerations as texts.
abbrev pub market_type_value : MarketType → String
market_type_value spot = "spot"
market_type_value future = "future"

abbrev pub opportunity_type_value : OpportunityType → String
opportunity_type_value sf = "SF"
opportunity_type_value ff = "FF"
opportunity_type_value ss = "SS"

abbrev market_type_beq : MarketType → MarketType → Bool
market_type_beq spot spot = true
market_type_beq future future = true
market_type_beq _ _ = false

pub market_type_beq_iff : (a b : MarketType) → (market_type_beq a b ≡ true) ↔ (a ≡ b)
market_type_beq_iff a b = ground arith

instance abbrev pub market_type_eq : HasEq MarketType
market_type_eq = record { equal = market_type_beq; equal_iff = market_type_beq_iff }

abbrev opportunity_type_beq : OpportunityType → OpportunityType → Bool
opportunity_type_beq sf sf = true
opportunity_type_beq ff ff = true
opportunity_type_beq ss ss = true
opportunity_type_beq _ _ = false

pub opportunity_type_beq_iff : (a b : OpportunityType) → (opportunity_type_beq a b ≡ true) ↔ (a ≡ b)
opportunity_type_beq_iff a b = ground arith

instance abbrev pub opportunity_type_eq : HasEq OpportunityType
opportunity_type_eq = record { equal = opportunity_type_beq; equal_iff = opportunity_type_beq_iff }

pub record MarketSnapshot (W : Type 0) : Type 0 where
  pub symbol : String
  pub base : String
  pub quote : String
  pub exchange : String
  pub market_type : MarketType
  pub bid : W
  pub ask : W
  pub bid_size : Option W
  pub ask_size : Option W
  pub volume_24h_usdt : Option W
  pub funding_rate_pct : Option W
  pub funding_next_rate_pct : Option W
  pub funding_interval_hours : Option ℤ
  pub funding_next_time : Option Time
  pub mark_price : Option W
  pub index_price : Option W
  pub timestamp : Time
  pub raw_symbol : String
  pub dex : Option String
  pub contract_size_multiplier : Option W
  pub data_source : Option String
  pub upstream_timestamp : Option Time
  pub is_estimated : Bool
  pub estimated_fields : List String
  pub symbol_alias_original_symbol : Option String
  pub symbol_alias_price_multiplier : W
  pub asset_id : Option String
  pub asset_name : Option String
  pub asset_kind : Option String
  pub identity_status : String
  pub unit_status : String
  pub identity_checked : Bool
  pub identity_collision : Bool
  pub identity_enforced : Bool
  pub binding_revision : ℤ
  pub binding_valid_until : Option Time
  pub binding_fingerprint : Option String
  pub quote_kind : String
  pub original_quote_currency : Option String
  pub contract_kind : String
  pub tracking_definition : String
  pub quote_conversion_rate : W
  pub quote_conversion_bid : W
  pub quote_conversion_ask : W
  pub quote_conversion_source : Option String
  pub quote_conversion_valid_until : Option Time
  pub reference_price : Option W
  pub book_timestamp : Option Time
  pub quote_time_source : String

pub record Opportunity (W : Type 0) : Type 0 where
  pub id : String
  pub type : OpportunityType
  pub symbol : String
  pub buy_exchange : String
  pub buy_market_type : MarketType
  pub buy_raw_symbol : Option String
  pub buy_dex : Option String
  pub buy_price_multiplier : W
  pub buy_contract_size_multiplier : Option W
  pub buy_timestamp : Option Time
  pub buy_local_timestamp : Option Time
  pub buy_source_timestamp : Option Time
  pub buy_age_ms : Option W
  pub buy_source_age_ms : Option W
  pub buy_time_source : Option String
  pub buy_data_source : Option String
  pub buy_is_estimated : Bool
  pub buy_estimated_fields : List String
  pub sell_exchange : String
  pub sell_market_type : MarketType
  pub sell_raw_symbol : Option String
  pub sell_dex : Option String
  pub sell_price_multiplier : W
  pub sell_contract_size_multiplier : Option W
  pub sell_timestamp : Option Time
  pub sell_local_timestamp : Option Time
  pub sell_source_timestamp : Option Time
  pub sell_age_ms : Option W
  pub sell_source_age_ms : Option W
  pub sell_time_source : Option String
  pub sell_data_source : Option String
  pub sell_is_estimated : Bool
  pub sell_estimated_fields : List String
  pub buy_fee_pct : W
  pub sell_fee_pct : W
  pub safety_slippage_pct : W
  pub fees_are_estimated : Bool
  pub open_spread_pct : W
  pub close_spread_pct : W
  pub fee_adjusted_open_pct : W
  pub spread_width_pct : W
  pub buy_bid : W
  pub buy_ask : W
  pub sell_bid : W
  pub sell_ask : W
  pub buy_bid_depth_usdt : Option W
  pub buy_ask_depth_usdt : Option W
  pub sell_bid_depth_usdt : Option W
  pub sell_ask_depth_usdt : Option W
  pub min_open_depth_usdt : Option W
  pub buy_volume_24h_usdt : Option W
  pub sell_volume_24h_usdt : Option W
  pub funding_rate_buy_pct : Option W
  pub funding_rate_sell_pct : Option W
  pub funding_next_rate_buy_pct : Option W
  pub funding_next_rate_sell_pct : Option W
  pub funding_next_time_buy : Option Time
  pub funding_next_time_sell : Option Time
  pub net_funding_pct : Option W
  pub net_funding_next_pct : Option W
  pub buy_funding_interval_hours : Option ℤ
  pub sell_funding_interval_hours : Option ℤ
  pub net_funding_hourly_pct : Option W
  pub net_funding_daily_pct : Option W
  pub net_funding_next_hourly_pct : Option W
  pub net_funding_next_daily_pct : Option W
  pub mark_index_diff_buy_pct : Option W
  pub mark_index_diff_sell_pct : Option W
  pub risk_labels : List String
  pub last_seen_at : Time
  pub identity_enforced : Bool
  pub validation : Option PairValidationResult
  pub comparison_kind : String
  pub buy_routes : List String
  pub sell_routes : List String
  pub executable : Bool
  pub fake_score : Option ℤ
  pub fake_reasons : List String
  pub fake_flag : Bool

pub record OrderBookLevel (W : Type 0) : Type 0 where
  pub price : W
  pub size : W

pub record OrderBookSnapshot (W : Type 0) : Type 0 where
  pub exchange : String
  pub market_type : MarketType
  pub symbol : String
  pub raw_symbol : String
  pub bids : List (OrderBookLevel W)
  pub asks : List (OrderBookLevel W)
  pub timestamp : Time
  pub timestamp_source : String

pub record DepthValidationResult (W : Type 0) : Type 0 where
  pub passed : Bool
  pub target_notional_usdt : W
  pub required_depth_usdt : Option W
  pub price_band_pct : Option W
  pub buy_depth_usdt : Option W
  pub sell_depth_usdt : Option W
  pub min_depth_usdt : Option W
  pub buy_filled_usdt : W
  pub sell_filled_usdt : W
  pub buy_vwap : Option W
  pub sell_vwap : Option W
  pub quoted_open_pct : W
  pub executable_open_pct : Option W
  pub cost_pct : Option W
  pub funding_edge_pct : Option W
  pub slippage_buffer_pct : Option W
  pub effective_executable_edge_pct : Option W
  pub slippage_loss_pct : Option W
  pub blockers : List String
  pub warnings : List String
