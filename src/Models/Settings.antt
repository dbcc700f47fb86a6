-- ===== src/Models/Settings.antt =====
-- backend/app/models/settings.py: the settings that the risk labels and the alerts read.
use taoli.Base.{ℕ, String, Bool, Option, List}
use taoli.Models.Market.{MarketType}

pub record SymbolAlias (W : Type 0) : Type 0 where
  pub exchange : String
  pub symbol : String
  pub canonical_symbol : String
  pub market_type : Option MarketType
  pub dex : Option String
  pub price_multiplier : W

pub record RiskSettings (W : Type 0) : Type 0 where
  pub min_volume_24h_usdt : W
  pub stale_after_seconds : ℕ
  pub huge_spread_pct : W
  pub wide_spread_pct : W
  pub mark_index_deviation_pct : W
  pub multi_exchange_premium_alert_enabled : Bool
  pub multi_exchange_premium_threshold_pct : W
  pub multi_exchange_premium_cooldown_seconds : ℕ
  pub funding_against_pct : W
  pub signal_slippage_buffer_pct : W
  pub min_effective_open_pct : W
  pub max_open_spread_decay_pct : W
  pub signal_validation_notional_usdt : W
  pub orderbook_depth_safety_multiple : W
  pub orderbook_depth_band_pct : W
  pub min_top_of_book_depth_usdt : W
  pub signal_strategy_notes : String
  pub ticker_collision_symbols : List String
  pub excluded_symbols : List String
  pub ignored_exchanges : List String
  pub symbol_aliases : List (SymbolAlias W)
