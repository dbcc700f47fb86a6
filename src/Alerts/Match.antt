-- ===== src/Alerts/Match.antt =====
-- When an opportunity matches a rule, and when its observations are stable (alert_engine.py).
use taoli.Base.{
  Bool, true, false, not, ◌&&◌, ◌||◌, Option, none, some, List, [], ◌∷◌, map, ◌==◌, string_eq,
  if◌then◌else◌, contains, any, is_empty, or_else, get_last?, leb,
}
use taoli.Base.Number.{
  Float, ◌⊕◌, ◌⊖◌, ◌⊗◌, ◌⊘◌, ◌<?◌, ◌≤?◌, nought, min_of, max_list, of_nat, of_int, is_positive, ℤ,
}
use taoli.Edge.{AlertObservation, funding_edge_pct, effective_open_edge_pct, known_volume_24h_usdt}
use taoli.Models.Identity.{Time, age_exceeds}
use taoli.Models.Market.{
  Opportunity, future, sf, ff, market_type_eq, opportunity_type_eq, opportunity_type_value,
}
use taoli.Models.Settings.{RiskSettings}
use taoli.Models.Alert.{AlertRule}

module _ {W : Type 0} ⦃f : Float W⦄ where
  abbrev pub epsilon : W
  epsilon = f.ratio 1 1000000000

  unfoldable pub suppresses_sf_negative_funding : AlertRule W → Opportunity W → Bool
  suppresses_sf_negative_funding rule o =
      rule.suppress_sf_negative_funding && o.type == sf && funding_edge_pct o <? nought

  -- The hourly rates of the two legs where both intervals are known, the rates as they are where
  -- neither is, and `none` where the code falls back to the rule's threshold.
  pub comparable_rates : W → W → Option ℤ → Option ℤ → Option (W × W)
  comparable_rates buy_rate sell_rate none none = some (buy_rate, sell_rate)
  comparable_rates buy_rate sell_rate (some buy_interval) (some sell_interval) =
      if is_positive buy_interval && is_positive sell_interval
      then some (buy_rate ⊘ of_int buy_interval, sell_rate ⊘ of_int sell_interval)
      else none
  comparable_rates buy_rate sell_rate none (some sell_interval) = none
  comparable_rates buy_rate sell_rate (some buy_interval) none = none

  -- Whether the funding of the legs is favourable, so that the relaxed threshold counts.
  unfoldable pub favorable_funding : Opportunity W → Bool
  unfolding comparable_rates
  favorable_funding o = elim (or_else o.funding_next_rate_sell_pct o.funding_rate_sell_pct) [
    | none ↦ false
    | some sell_rate ↦
        if not (o.sell_market_type == future)
        then false
        else if (o.type == sf || o.type == ff) && nought <? sell_rate
        then true
        else if o.type == ff && o.buy_market_type == future
        then elim (or_else o.funding_next_rate_buy_pct o.funding_rate_buy_pct) [
          | none ↦ false
          | some buy_rate ↦
              elim (comparable_rates buy_rate sell_rate o.buy_funding_interval_hours
                o.sell_funding_interval_hours) [ none ↦ false | some (buy, sell) ↦ buy <? sell ]
        ]
        else false
  ]

  unfoldable pub required_open_spread_pct : AlertRule W → Opportunity W → W
  required_open_spread_pct rule o = elim rule.favorable_funding_open_spread_pct [
    | none ↦ rule.min_open_spread_pct
    | some relaxed ↦
        if o.open_spread_pct ≤? nought
        then rule.min_open_spread_pct
        else if favorable_funding o
        then min_of rule.min_open_spread_pct relaxed
        else rule.min_open_spread_pct
  ]

  unfoldable pub identity_blocks : Opportunity W → Time → Bool
  identity_blocks o now = o.identity_enforced && elim o.validation [
    | none ↦ true
    | some v ↦ not v.capabilities.strategy_alert || leb v.expires_at now
  ]

  unfoldable pub exchanges_allowed : AlertRule W → Opportunity W → Bool
  exchanges_allowed rule o =
      (is_empty rule.include_exchanges
        || contains o.buy_exchange rule.include_exchanges
        || contains o.sell_exchange rule.include_exchanges)
      && not (
          contains o.buy_exchange rule.exclude_exchanges
          || contains o.sell_exchange rule.exclude_exchanges)

  unfoldable pub volume_too_low : AlertRule W → Opportunity W → Bool
  volume_too_low rule o = elim (known_volume_24h_usdt o) [
    | none ↦ false
    | some volume ↦ volume <? rule.min_volume_24h_usdt
  ]

  unfoldable pub opportunity_matches_rule :
      AlertRule W → Opportunity W → Time → RiskSettings W → Bool
  opportunity_matches_rule rule o now settings =
      if identity_blocks o now
      then false
      else if not (contains (opportunity_type_value o.type) rule.types)
      then false
      else if not (exchanges_allowed rule o)
      then false
      else if not (is_empty rule.include_symbols) && not (contains o.symbol rule.include_symbols)
      then false
      else if o.open_spread_pct ⊕ epsilon <? required_open_spread_pct rule o
      then false
      else if effective_open_edge_pct o settings ⊕ epsilon <? rule.min_fee_adjusted_open_pct
      then false
      else if effective_open_edge_pct o settings ⊕ epsilon <? settings.min_effective_open_pct
      then false
      else if volume_too_low rule o
      then false
      else if age_exceeds now o.last_seen_at rule.max_data_age_seconds
      then false
      else not (any (λ label. contains label rule.excluded_risk_labels) o.risk_labels)

  -- The latest spread has kept enough of the peak; the peak of no observation is not read.
  retained : AlertObservation W → List (AlertObservation W) → RiskSettings W → Bool
  retained first rest settings =
      let peak = max_list first.open_spread_pct (map (λ item. item.open_spread_pct) rest) in
      let latest : W = elim (get_last? (first ∷ rest)) [
        | none ↦ first.open_spread_pct
        | some item ↦ item.open_spread_pct
      ] in
      peak ≤? nought
      || peak ⊗ (of_nat 1 ⊖ settings.max_open_spread_decay_pct ⊘ of_nat 100) ≤? latest ⊕ epsilon

  pub observations_are_stable : List (AlertObservation W) → RiskSettings W → Bool
  unfolding retained
  observations_are_stable [] settings = true
  observations_are_stable (only ∷ []) settings = true
  observations_are_stable (first ∷ second ∷ rest) settings =
      of_nat 100 ≤? settings.max_open_spread_decay_pct || retained first (second ∷ rest) settings
