-- ===== src/SpreadEngine.antt =====
-- backend/app/services/spread_engine.py and the times of quote_age.py: from two quotes to an
-- opportunity. What stands outside is the record `Outside`.
pub mod Build
use text.Mathlib.Text.{find?}
use Prim.Native.String.{◌++◌ as text_append}
use taoli.Base.{
  ℕ, String, Bool, true, false, not, ◌&&◌, ◌||◌, Option, none, some, List, [], ◌∷◌, ◌++◌,
  if◌then◌else◌, ◌==◌, string_eq, is_some, or_else, get_or, somes, min,
}
use taoli.Base.Text.{lower}
use taoli.Base.Number.{
  Float, ◌⊕◌, ◌⊖◌, ◌⊗◌, ◌⊘◌, ◌≤?◌, ◌==?◌, nought, of_nat, abs, min_list, is_positive, of_int, ℤ,
}
use taoli.Edge.{rate_edge, hourly}
use taoli.Models.Identity.{Time, same_asset}
use taoli.Models.Market.{
  MarketSnapshot, MarketType, spot, future, market_type_eq, market_type_value, Opportunity,
  OpportunityType, sf, ff, ss, opportunity_type_value,
}
use taoli.PairValidation.{strip, before_colon}
use taoli.PairValidation.Pair.{validate_pair}

-- What the engine takes from outside: the session calendar, the `.12g` format, SHA-1, the comparison of
-- whole models, and the parameters of the pair validation with the clock that it reads.
pub record Outside (W : Type 0) : Type 0 where
  pub is_market_open : MarketSnapshot W → Time → Bool
  pub number_text : W → String
  pub digest : String → String
  pub same_model : MarketSnapshot W → MarketSnapshot W → Bool
  pub is_finite : W → Bool
  pub fingerprint : MarketSnapshot W → MarketSnapshot W → String
  pub clock : Time

-- `":".join(texts)`
pub joined : List String → String
joined [] = ""
joined (t ∷ []) = t
joined (t ∷ u ∷ ts) = text_append t (text_append ":" (joined (u ∷ ts)))

-- `text or None`
abbrev pub text_or_none : String → Option String
text_or_none text = if text == "" then none else some text

module _ {W : Type 0} where
  -- `market_source_timestamp` and `market_time_source` of quote_age.py.
  pub market_source_timestamp : MarketSnapshot W → Option Time
  market_source_timestamp market = elim market.book_timestamp [
    | none ↦ market.upstream_timestamp
    | some at ↦ if market.quote_time_source == "received" then none else some at
  ]

  pub market_time_source : MarketSnapshot W → String
  market_time_source market = elim market.book_timestamp [
    | none ↦ if is_some market.upstream_timestamp then "upstream" else "received"
    | some at ↦ market.quote_time_source
  ]

  pub market_observed_at : MarketSnapshot W → Time
  market_observed_at snapshot = get_or snapshot.upstream_timestamp snapshot.timestamp

  pub market_dex : MarketSnapshot W → Option String
  market_dex snapshot =
      let prefix = lower (strip (before_colon snapshot.raw_symbol)) in
      let of_raw : Option String =
        if is_some (find? snapshot.raw_symbol ":") && not (prefix == "")
        then some prefix
        else some "main" in
      let derived : Option String =
        if lower snapshot.exchange == "hyperliquid" && snapshot.market_type == future
        then of_raw
        else none in
      elim snapshot.dex [
        | none ↦ derived
        | some dex ↦ if dex == "" then derived else text_or_none (lower (strip dex))
      ]

module _ {W : Type 0} ⦃f : Float W⦄ where
  pub normalized_hourly_rate : MarketSnapshot W → Option W
  normalized_hourly_rate snapshot = elim snapshot.market_type [
    | spot ↦ some nought
    | future ↦ hourly snapshot.funding_rate_pct snapshot.funding_interval_hours
  ]

  pub normalized_next_rate : MarketSnapshot W → Option W
  normalized_next_rate snapshot = elim snapshot.market_type [
    | spot ↦ some nought
    | future ↦ hourly snapshot.funding_next_rate_pct snapshot.funding_interval_hours
  ]

  pub funding_rate : MarketSnapshot W → Option W
  funding_rate snapshot = elim snapshot.market_type [
    | spot ↦ some nought
    | future ↦ snapshot.funding_rate_pct
  ]

  pub funding_next_rate : MarketSnapshot W → Option W
  funding_next_rate snapshot = elim snapshot.market_type [
    | spot ↦ some nought
    | future ↦ snapshot.funding_next_rate_pct
  ]

  -- The open and the close spread over the midpoint.
  pub open_spread : MarketSnapshot W → MarketSnapshot W → W
  open_spread buy_leg sell_leg =
      of_nat 2 ⊗ (sell_leg.bid ⊖ buy_leg.ask) ⊘ (buy_leg.ask ⊕ sell_leg.bid) ⊗ of_nat 100

  pub close_spread : MarketSnapshot W → MarketSnapshot W → W
  close_spread buy_leg sell_leg =
      of_nat 2 ⊗ (sell_leg.ask ⊖ buy_leg.bid) ⊘ (buy_leg.bid ⊕ sell_leg.ask) ⊗ of_nat 100

  pub mark_index_diff_pct : MarketSnapshot W → Option W
  mark_index_diff_pct snapshot = elim snapshot.mark_price [
    | none ↦ none
    | some mark ↦ elim snapshot.index_price [
      | none ↦ none
      | some index ↦
          if mark ==? nought || index ≤? nought
          then none
          else some ((mark ⊖ index) ⊘ index ⊗ of_nat 100)
    ]
  ]

  pub depth_notional_usdt : W → Option W → Option W
  depth_notional_usdt price none = none
  depth_notional_usdt price (some size) = if size ≤? nought then none else some (price ⊗ size)

  pub min_known_depth : Option W → Option W → Option W
  min_known_depth a b = elim (somes (a ∷ b ∷ [])) [ [] ↦ none | x ∷ xs ↦ some (min_list x xs) ]

  abbrev pub daily : Option W → Option W
  daily none = none
  daily (some rate) = some (rate ⊗ of_nat 24)

  module _ (outside : Outside W) where
    pub market_identity : MarketSnapshot W → List String
    market_identity snapshot =
        lower snapshot.exchange
        ∷ market_type_value snapshot.market_type
        ∷ snapshot.raw_symbol
        ∷ get_or (market_dex snapshot) ""
        ∷ outside.number_text snapshot.symbol_alias_price_multiplier
        ∷ elim snapshot.contract_size_multiplier [
          | none ↦ []
          | some size ↦ outside.number_text size ∷ []
        ]

    pub opportunity_id : OpportunityType → String → MarketSnapshot W → MarketSnapshot W → String
    unfolding market_identity joined
    opportunity_id mode symbol buy_leg sell_leg = outside.digest (
        text_append (joined (opportunity_type_value mode ∷ symbol ∷ market_identity buy_leg))
          (text_append "->" (joined (market_identity sell_leg))))

    -- `digest` cuts the hexadecimal SHA-1 to 16 digits.
    pub build_directional_opportunity :
        MarketSnapshot W → MarketSnapshot W → OpportunityType → W → W → W → Bool → Opportunity W
    unfolding opportunity_id
    build_directional_opportunity buy_leg sell_leg mode buy_fee_pct sell_fee_pct safety_slippage_pct
          validate_identity =
        let open_spread_pct = open_spread buy_leg sell_leg in
        let close_spread_pct = close_spread buy_leg sell_leg in
        let net_hourly =
          rate_edge (normalized_hourly_rate buy_leg) (normalized_hourly_rate sell_leg) in
        let net_next_hourly =
          rate_edge (normalized_next_rate buy_leg) (normalized_next_rate sell_leg) in
        let buy_ask_depth = depth_notional_usdt buy_leg.ask buy_leg.ask_size in
        let sell_bid_depth = depth_notional_usdt sell_leg.bid sell_leg.bid_size in
        record {
          id = opportunity_id mode buy_leg.symbol buy_leg sell_leg;
          type = mode;
          symbol = buy_leg.symbol;
          buy_exchange = buy_leg.exchange;
          buy_market_type = buy_leg.market_type;
          buy_raw_symbol = some buy_leg.raw_symbol;
          buy_dex = market_dex buy_leg;
          buy_price_multiplier = buy_leg.symbol_alias_price_multiplier;
          buy_contract_size_multiplier = buy_leg.contract_size_multiplier;
          buy_timestamp = some (market_observed_at buy_leg);
          buy_local_timestamp = some buy_leg.timestamp;
          buy_source_timestamp = market_source_timestamp buy_leg;
          buy_age_ms = none;
          buy_source_age_ms = none;
          buy_time_source = some (market_time_source buy_leg);
          buy_data_source = buy_leg.data_source;
          buy_is_estimated = buy_leg.is_estimated;
          buy_estimated_fields = buy_leg.estimated_fields;
          sell_exchange = sell_leg.exchange;
          sell_market_type = sell_leg.market_type;
          sell_raw_symbol = some sell_leg.raw_symbol;
          sell_dex = market_dex sell_leg;
          sell_price_multiplier = sell_leg.symbol_alias_price_multiplier;
          sell_contract_size_multiplier = sell_leg.contract_size_multiplier;
          sell_timestamp = some (market_observed_at sell_leg);
          sell_local_timestamp = some sell_leg.timestamp;
          sell_source_timestamp = market_source_timestamp sell_leg;
          sell_age_ms = none;
          sell_source_age_ms = none;
          sell_time_source = some (market_time_source sell_leg);
          sell_data_source = sell_leg.data_source;
          sell_is_estimated = sell_leg.is_estimated;
          sell_estimated_fields = sell_leg.estimated_fields;
          buy_fee_pct = buy_fee_pct;
          sell_fee_pct = sell_fee_pct;
          safety_slippage_pct = safety_slippage_pct;
          fees_are_estimated = true;
          open_spread_pct = open_spread_pct;
          close_spread_pct = close_spread_pct;
          fee_adjusted_open_pct =
              open_spread_pct ⊖ buy_fee_pct ⊖ sell_fee_pct ⊖ safety_slippage_pct;
          spread_width_pct = abs (close_spread_pct ⊖ open_spread_pct);
          buy_bid = buy_leg.bid;
          buy_ask = buy_leg.ask;
          sell_bid = sell_leg.bid;
          sell_ask = sell_leg.ask;
          buy_bid_depth_usdt = depth_notional_usdt buy_leg.bid buy_leg.bid_size;
          buy_ask_depth_usdt = buy_ask_depth;
          sell_bid_depth_usdt = sell_bid_depth;
          sell_ask_depth_usdt = depth_notional_usdt sell_leg.ask sell_leg.ask_size;
          min_open_depth_usdt = min_known_depth buy_ask_depth sell_bid_depth;
          buy_volume_24h_usdt = buy_leg.volume_24h_usdt;
          sell_volume_24h_usdt = sell_leg.volume_24h_usdt;
          funding_rate_buy_pct = buy_leg.funding_rate_pct;
          funding_rate_sell_pct = sell_leg.funding_rate_pct;
          funding_next_rate_buy_pct = buy_leg.funding_next_rate_pct;
          funding_next_rate_sell_pct = sell_leg.funding_next_rate_pct;
          funding_next_time_buy = buy_leg.funding_next_time;
          funding_next_time_sell = sell_leg.funding_next_time;
          net_funding_pct = rate_edge (funding_rate buy_leg) (funding_rate sell_leg);
          net_funding_next_pct = rate_edge (funding_next_rate buy_leg) (funding_next_rate sell_leg);
          buy_funding_interval_hours = buy_leg.funding_interval_hours;
          sell_funding_interval_hours = sell_leg.funding_interval_hours;
          net_funding_hourly_pct = net_hourly;
          net_funding_daily_pct = daily net_hourly;
          net_funding_next_hourly_pct = net_next_hourly;
          net_funding_next_daily_pct = daily net_next_hourly;
          mark_index_diff_buy_pct = mark_index_diff_pct buy_leg;
          mark_index_diff_sell_pct = mark_index_diff_pct sell_leg;
          risk_labels = [];
          last_seen_at = min (market_observed_at buy_leg) (market_observed_at sell_leg);
          identity_enforced = buy_leg.identity_enforced || sell_leg.identity_enforced;
          validation =
              if validate_identity && (buy_leg.identity_checked || sell_leg.identity_checked)
              then some (
                  validate_pair outside.is_finite outside.fingerprint buy_leg sell_leg outside.clock
                    same_asset 30 10 (of_nat 10) false)
              else none;
          comparison_kind = "same_asset";
          buy_routes = [];
          sell_routes = [];
          executable = false;
          fake_score = none;
          fake_reasons = [];
          fake_flag = false;
        }
