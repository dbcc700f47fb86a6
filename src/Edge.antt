-- ===== src/Edge.antt =====
-- backend/app/services/funding_edge.py and alert_metrics.py, and the edges of risk_labels.py: the
-- funding edge of an opportunity by cycle, and the open edge after fees, funding and slippage.
use taoli.Base.{Option, none, some, [], ◌∷◌, somes, if◌then◌else◌, get_or}
use taoli.Base.Number.{Float, ◌⊕◌, ◌⊖◌, ◌⊘◌, nought, min_list, is_positive, of_int, ℤ}
use taoli.Models.Identity.{Time}
use taoli.Models.Market.{Opportunity, MarketType, spot, future, market_type_eq}
use taoli.Models.Settings.{RiskSettings}

module _ {W : Type 0} ⦃f : Float W⦄ where
  -- `_side_current_rate_pct`
  unfoldable pub side_current_rate_pct : MarketType → Option W → Option W
  side_current_rate_pct spot current_rate_pct = some nought
  side_current_rate_pct future current_rate_pct = current_rate_pct

  -- `_side_next_cycle_rate_pct`
  unfoldable pub side_next_cycle_rate_pct : MarketType → Option W → Option W → Option W
  side_next_cycle_rate_pct spot next_rate_pct current_rate_pct = some nought
  side_next_cycle_rate_pct future none current_rate_pct = current_rate_pct
  side_next_cycle_rate_pct future (some next) current_rate_pct = some next

  -- `sell - buy`, where both rates are known.
  unfoldable pub rate_edge : Option W → Option W → Option W
  rate_edge (some buy_rate) (some sell_rate) = some (sell_rate ⊖ buy_rate)
  rate_edge none sell_rate = none
  rate_edge (some buy_rate) none = none

  unfoldable pub current_cycle_funding_edge_pct : Opportunity W → Option W
  unfolding side_current_rate_pct rate_edge
  current_cycle_funding_edge_pct o = elim o.net_funding_pct [
    | some net ↦ some net
    | none ↦
        rate_edge (side_current_rate_pct o.buy_market_type o.funding_rate_buy_pct)
          (side_current_rate_pct o.sell_market_type o.funding_rate_sell_pct)
  ]

  unfoldable pub next_cycle_funding_edge_pct : Opportunity W → Option W
  unfolding current_cycle_funding_edge_pct side_next_cycle_rate_pct
  next_cycle_funding_edge_pct o = elim o.net_funding_next_pct [
    | some net ↦ some net
    | none ↦
        let edge =
          rate_edge
            (side_next_cycle_rate_pct o.buy_market_type o.funding_next_rate_buy_pct
              o.funding_rate_buy_pct)
            (side_next_cycle_rate_pct o.sell_market_type o.funding_next_rate_sell_pct
              o.funding_rate_sell_pct) in
        elim edge [ some e ↦ some e | none ↦ current_cycle_funding_edge_pct o ]
  ]

  unfoldable pub funding_edge_pct : Opportunity W → W
  unfolding next_cycle_funding_edge_pct
  funding_edge_pct o = get_or (next_cycle_funding_edge_pct o) nought

  unfoldable pub combined_open_edge_pct : Opportunity W → W
  combined_open_edge_pct o = o.fee_adjusted_open_pct ⊕ funding_edge_pct o

  unfoldable pub effective_open_edge_pct : Opportunity W → RiskSettings W → W
  unfolding combined_open_edge_pct
  effective_open_edge_pct o settings =
      combined_open_edge_pct o ⊖ settings.signal_slippage_buffer_pct

  unfoldable pub known_volume_24h_usdt : Opportunity W → Option W
  known_volume_24h_usdt o = elim (somes (o.buy_volume_24h_usdt ∷ o.sell_volume_24h_usdt ∷ [])) [
    | [] ↦ none
    | v ∷ vs ↦ some (min_list v vs)
  ]

  -- `rate / interval`, where both are known and the interval is positive.
  pub hourly : Option W → Option ℤ → Option W
  hourly (some rate) (some interval) =
      if is_positive interval then some (rate ⊘ of_int interval) else none
  hourly (some rate) none = none
  hourly none interval = none

  pub normalized_funding_hourly_pct : Opportunity W → Option W
  unfolding hourly rate_edge
  normalized_funding_hourly_pct o =
      rate_edge (hourly o.funding_rate_buy_pct o.buy_funding_interval_hours)
        (hourly o.funding_rate_sell_pct o.sell_funding_interval_hours)

pub record AlertObservation (W : Type 0) : Type 0 where
  pub observed_at : Time
  pub open_spread_pct : W
  pub close_spread_pct : W
  pub fee_adjusted_open_pct : W
  pub funding_edge_pct : W
  pub combined_open_edge_pct : W
  pub net_funding_pct : Option W
  pub net_funding_next_pct : Option W

pub observe_alert_metrics : {W : Type 0} ⦃f : Float W⦄ → Opportunity W → Time → AlertObservation W
observe_alert_metrics o observed_at =
    let funding_edge = funding_edge_pct o in
    record {
      observed_at = observed_at;
      open_spread_pct = o.open_spread_pct;
      close_spread_pct = o.close_spread_pct;
      fee_adjusted_open_pct = o.fee_adjusted_open_pct;
      funding_edge_pct = funding_edge;
      combined_open_edge_pct = o.fee_adjusted_open_pct ⊕ funding_edge;
      net_funding_pct = o.net_funding_pct;
      net_funding_next_pct = o.net_funding_next_pct;
    }
