-- ===== src/Examples/Data.antt =====
-- Inputs of the tests: one quoted market, one opportunity, one rule and the settings of the risks.
use taoli.Base.{ℕ, ◌*◌, true, false, none, some, [], ◌∷◌}
use taoli.Base.Number.{ℤ, pos, fixed_float, nought, of_nat}
use taoli.Models.Identity.{Time, second}
use taoli.Models.Market.{MarketSnapshot, Opportunity, spot, future, sf}
use taoli.Models.Settings.{RiskSettings}
use taoli.Models.Alert.{AlertRule, warning}

abbrev pub at_noon : Time
at_noon = 43200 * second

abbrev pub literal : ℕ → ℕ → ℤ
literal n d = fixed_float.ratio n d

abbrev pub bitcoin_market : MarketSnapshot ℤ
bitcoin_market = record {
  symbol = "BTCUSDT";
  base = "BTC";
  quote = "USDT";
  exchange = "binance";
  market_type = spot;
  bid = of_nat 99;
  ask = of_nat 100;
  bid_size = none;
  ask_size = none;
  volume_24h_usdt = none;
  funding_rate_pct = none;
  funding_next_rate_pct = none;
  funding_interval_hours = none;
  funding_next_time = none;
  mark_price = none;
  index_price = none;
  timestamp = at_noon;
  raw_symbol = "BTCUSDT";
  dex = none;
  contract_size_multiplier = none;
  data_source = none;
  upstream_timestamp = none;
  is_estimated = false;
  estimated_fields = [];
  symbol_alias_original_symbol = none;
  symbol_alias_price_multiplier = of_nat 1;
  asset_id = none;
  asset_name = none;
  asset_kind = none;
  identity_status = "verified";
  unit_status = "verified";
  identity_checked = false;
  identity_collision = false;
  identity_enforced = false;
  binding_revision = pos 0;
  binding_valid_until = none;
  binding_fingerprint = none;
  quote_kind = "executable";
  original_quote_currency = none;
  contract_kind = "ticker";
  tracking_definition = "";
  quote_conversion_rate = of_nat 1;
  quote_conversion_bid = of_nat 1;
  quote_conversion_ask = of_nat 1;
  quote_conversion_source = none;
  quote_conversion_valid_until = none;
  reference_price = none;
  book_timestamp = none;
  quote_time_source = "exchange";
}

abbrev pub bitcoin_opportunity : Opportunity ℤ
bitcoin_opportunity = record {
  id = "SF:BTCUSDT:binance:okx";
  type = sf;
  symbol = "BTCUSDT";
  buy_exchange = "binance";
  buy_market_type = spot;
  buy_raw_symbol = none;
  buy_dex = none;
  buy_price_multiplier = of_nat 1;
  buy_contract_size_multiplier = none;
  buy_timestamp = none;
  buy_local_timestamp = none;
  buy_source_timestamp = none;
  buy_age_ms = none;
  buy_source_age_ms = none;
  buy_time_source = none;
  buy_data_source = none;
  buy_is_estimated = false;
  buy_estimated_fields = [];
  sell_exchange = "okx";
  sell_market_type = future;
  sell_raw_symbol = none;
  sell_dex = none;
  sell_price_multiplier = of_nat 1;
  sell_contract_size_multiplier = none;
  sell_timestamp = none;
  sell_local_timestamp = none;
  sell_source_timestamp = none;
  sell_age_ms = none;
  sell_source_age_ms = none;
  sell_time_source = none;
  sell_data_source = none;
  sell_is_estimated = false;
  sell_estimated_fields = [];
  buy_fee_pct = nought;
  sell_fee_pct = nought;
  safety_slippage_pct = nought;
  fees_are_estimated = false;
  open_spread_pct = literal 2 1;
  close_spread_pct = nought;
  fee_adjusted_open_pct = literal 18 10;
  spread_width_pct = literal 1 10;
  buy_bid = of_nat 99;
  buy_ask = of_nat 100;
  sell_bid = of_nat 102;
  sell_ask = of_nat 103;
  buy_bid_depth_usdt = none;
  buy_ask_depth_usdt = none;
  sell_bid_depth_usdt = none;
  sell_ask_depth_usdt = none;
  min_open_depth_usdt = none;
  buy_volume_24h_usdt = some (of_nat 5000000);
  sell_volume_24h_usdt = some (of_nat 4000000);
  funding_rate_buy_pct = none;
  funding_rate_sell_pct = some (literal 1 100);
  funding_next_rate_buy_pct = none;
  funding_next_rate_sell_pct = none;
  funding_next_time_buy = none;
  funding_next_time_sell = none;
  net_funding_pct = some (literal 1 100);
  net_funding_next_pct = none;
  buy_funding_interval_hours = none;
  sell_funding_interval_hours = none;
  net_funding_hourly_pct = none;
  net_funding_daily_pct = none;
  net_funding_next_hourly_pct = none;
  net_funding_next_daily_pct = none;
  mark_index_diff_buy_pct = none;
  mark_index_diff_sell_pct = none;
  risk_labels = [];
  last_seen_at = at_noon;
  identity_enforced = false;
  validation = none;
  comparison_kind = "same_asset";
  buy_routes = [];
  sell_routes = [];
  executable = false;
  fake_score = none;
  fake_reasons = [];
  fake_flag = false;
}

abbrev pub example_settings : RiskSettings ℤ
example_settings = record {
  min_volume_24h_usdt = of_nat 1000000;
  stale_after_seconds = 30;
  huge_spread_pct = of_nat 5;
  wide_spread_pct = of_nat 1;
  mark_index_deviation_pct = of_nat 1;
  multi_exchange_premium_alert_enabled = false;
  multi_exchange_premium_threshold_pct = of_nat 1;
  multi_exchange_premium_cooldown_seconds = 300;
  funding_against_pct = of_nat 0;
  signal_slippage_buffer_pct = nought;
  min_effective_open_pct = nought;
  max_open_spread_decay_pct = of_nat 20;
  signal_validation_notional_usdt = of_nat 1000;
  orderbook_depth_safety_multiple = of_nat 2;
  orderbook_depth_band_pct = of_nat 1;
  min_top_of_book_depth_usdt = nought;
  signal_strategy_notes = "";
  ticker_collision_symbols = [];
  excluded_symbols = [];
  ignored_exchanges = [];
  symbol_aliases = [];
}

abbrev pub example_rule : AlertRule ℤ
example_rule = record {
  id = "r1";
  name = "spot against future";
  enabled = true;
  types = "SF" ∷ [];
  suppress_sf_negative_funding = false;
  include_exchanges = [];
  exclude_exchanges = [];
  include_symbols = [];
  exclude_symbols = [];
  min_open_spread_pct = of_nat 1;
  favorable_funding_open_spread_pct = none;
  min_fee_adjusted_open_pct = nought;
  min_volume_24h_usdt = nought;
  max_data_age_seconds = pos 20;
  excluded_risk_labels = [];
  consecutive_hits = 1;
  cooldown_seconds = 300;
  severity = warning;
}
