-- ===== src/Risk.antt =====
-- backend/app/services/risk_labels.py: the labels of an opportunity, and which of them hide it.
pub mod Labels
use taoli.Base.{
  String, Bool, true, false, not, ◌&&◌, ◌||◌, Option, none, some, List, [], ◌∷◌, ◌++◌, map, ◌==◌,
  string_eq, if◌then◌else◌, contains, any, somes, is_some,
}
use taoli.Base.Text.{upper}
use taoli.Base.Number.{Float, ◌<?◌, ◌≤?◌, abs, negate, pos}
use taoli.Edge.{known_volume_24h_usdt, next_cycle_funding_edge_pct, effective_open_edge_pct}
use taoli.Models.Identity.{Time, AnomalyStatus, passed, PairValidationResult, age_exceeds}
use taoli.Models.Market.{Opportunity, MarketType, spot, future, market_type_eq}
use taoli.Models.Settings.{RiskSettings}

abbrev pub non_actionable_risk_labels : List String
non_actionable_risk_labels =
    "LOW_VOLUME" ∷ "STALE_DATA" ∷ "HUGE_SPREAD_VERIFY" ∷ "WIDE_SPREAD" ∷ "SAME_TICKER_RISK"
    ∷ "MISSING_FUNDING" ∷ "THIN_ORDER_BOOK" ∷ "EDGE_AFTER_SLIPPAGE_TOO_SMALL" ∷ "TRANSIENT_SIGNAL"
    ∷ "MARKET_VALIDATION_BLOCKED" ∷ []

-- `if test: labels.append(label)`.
abbrev pub append_if : Bool → String → List String → List String
append_if test label labels = if test then labels ++ (label ∷ []) else labels

abbrev is_passed : AnomalyStatus → Bool
is_passed passed = true
is_passed _ = false

module _ {W : Type 0} ⦃f : Float W⦄ (o : Opportunity W) (settings : RiskSettings W) where
  pub volume_unknown : Bool
  volume_unknown = not (is_some o.buy_volume_24h_usdt) || not (is_some o.sell_volume_24h_usdt)

  pub validation_blocked : Bool
  validation_blocked =
      o.identity_enforced
      && elim o.validation [ none ↦ true | some v ↦ not v.capabilities.same_asset_opportunity ]

  pub low_volume : Bool
  low_volume = elim (known_volume_24h_usdt o) [
    | none ↦ false
    | some v ↦ v <? settings.min_volume_24h_usdt
  ]

  pub stale_data : Time → Bool
  stale_data now = age_exceeds now o.last_seen_at (pos settings.stale_after_seconds)

  pub huge_spread : Bool
  huge_spread =
      settings.huge_spread_pct ≤? o.open_spread_pct
      && not (elim o.validation [ none ↦ false | some v ↦ is_passed v.anomaly_status ])

  pub wide_spread : Bool
  wide_spread = settings.wide_spread_pct ≤? o.spread_width_pct

  -- `collision_symbols` is given by the collector, and else read from the settings.
  pub same_ticker : Option (List String) → Bool
  same_ticker (some collision_symbols) = contains (upper o.symbol) collision_symbols
  same_ticker none = contains (upper o.symbol) (map upper settings.ticker_collision_symbols)

  pub funding_against : Bool
  funding_against = elim (next_cycle_funding_edge_pct o) [
    | none ↦ false
    | some edge ↦ edge <? negate settings.funding_against_pct
  ]

  pub mark_index_deviation : Bool
  mark_index_deviation =
      any (λ value. settings.mark_index_deviation_pct ≤? value)
        (map abs (somes (o.mark_index_diff_buy_pct ∷ o.mark_index_diff_sell_pct ∷ [])))

  pub edge_too_small : Bool
  edge_too_small = effective_open_edge_pct o settings <? settings.min_effective_open_pct

  pub missing_funding : Bool
  missing_funding =
      o.buy_market_type == future && not (is_some o.funding_rate_buy_pct)
      || o.sell_market_type == future && not (is_some o.funding_rate_sell_pct)

  pub risk_labels_for : Time → Option (List String) → List String
  risk_labels_for now collision_symbols =
      let l₁ = append_if volume_unknown "volume_unknown" [] in
      let l₂ = append_if validation_blocked "MARKET_VALIDATION_BLOCKED" l₁ in
      let l₃ = append_if low_volume "LOW_VOLUME" l₂ in
      let l₄ = append_if (stale_data now) "STALE_DATA" l₃ in
      let l₅ = append_if huge_spread "HUGE_SPREAD_VERIFY" l₄ in
      let l₆ = append_if wide_spread "WIDE_SPREAD" l₅ in
      let l₇ = append_if (same_ticker collision_symbols) "SAME_TICKER_RISK" l₆ in
      let l₈ = append_if funding_against "FUNDING_AGAINST" l₇ in
      let l₉ = append_if mark_index_deviation "MARK_INDEX_DEVIATION" l₈ in
      let l₁₀ = append_if edge_too_small "EDGE_AFTER_SLIPPAGE_TOO_SMALL" l₉ in
      append_if missing_funding "MISSING_FUNDING" l₁₀

  pub apply_risk_labels : Time → Opportunity W
  apply_risk_labels now = record o { risk_labels = risk_labels_for now none }

-- `labels.intersection(...)` is not empty. The hidden labels default to the ones above.
pub has_non_actionable_risk : {W : Type 0} → Opportunity W → Option (List String) → Bool
has_non_actionable_risk o none =
    any (λ label. contains label non_actionable_risk_labels) o.risk_labels
has_non_actionable_risk o (some hidden) = any (λ label. contains label hidden) o.risk_labels
