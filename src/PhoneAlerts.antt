-- ===== src/PhoneAlerts.antt =====
-- backend/app/services/phone_price_alerts.py: price alerts by phone.
pub mod Found
pub mod Cooldown
use taoli.Base.{
  ℕ, suc, ◌+◌, String, Bool, true, false, not, ◌&&◌, ◌||◌, Option, none, some, List, [], ◌∷◌, ◌++◌,
  if◌then◌else◌, ◌==◌, string_eq,
}
use taoli.Base.Dict
use taoli.Base.Dict.{Dict}
use taoli.Base.Text.{upper, lower}
use taoli.Base.Number.{Float, ◌⊕◌, ◌⊘◌, ◌≤?◌, of_nat}
use taoli.Models.Identity.{Time, age_below}
use taoli.Models.Market.{MarketSnapshot, MarketType, market_type_eq}
use taoli.Models.Alert.{
  PhonePriceAlertRule, PhonePriceAlertCondition, above, below, PhonePriceAlertPriceField,
  mark_price, index_price, mid_price, bid, ask,
}

pub record PhonePriceAlertMatch (W : Type 0) : Type 0 where
  pub rule : PhonePriceAlertRule W
  pub market : MarketSnapshot W
  pub observed_price : W
  pub resolved_price_field : PhonePriceAlertPriceField

-- The state of the engine: when an alert of a rule was last sent.
abbrev pub LastSent : Type 0
LastSent = Dict String Time

module _ {W : Type 0} where
  -- `rule.exchange and market.exchange.lower() != rule.exchange`; the empty text is false.
  pub exchange_fits : MarketSnapshot W → Option String → Bool
  exchange_fits market none = true
  exchange_fits market (some exchange) = exchange == "" || lower market.exchange == exchange

  pub market_matches_rule : MarketSnapshot W → PhonePriceAlertRule W → Bool
  unfolding exchange_fits
  market_matches_rule market rule =
      upper market.symbol == rule.symbol
      && market.market_type == rule.market_type
      && exchange_fits market rule.exchange

  -- `find_phone_price_alert_market`
  pub find_market : List (MarketSnapshot W) → PhonePriceAlertRule W → Option (MarketSnapshot W)
  find_market [] rule = none
  find_market (market ∷ markets) rule =
      let rest = find_market markets rule in
      if market_matches_rule market rule then some market else rest

module _ {W : Type 0} ⦃f : Float W⦄ where
  pub mid : MarketSnapshot W → W
  mid market = (market.bid ⊕ market.ask) ⊘ of_nat 2

  -- The price of a field, or of the middle where the field is missing. A field of the enumeration
  -- always has a price, so that the code's `None` cannot occur.
  pub resolve_price : MarketSnapshot W → PhonePriceAlertPriceField → W × PhonePriceAlertPriceField
  unfolding mid
  resolve_price market mark_price = elim market.mark_price [
    | some price ↦ (price, mark_price)
    | none ↦ (mid market, mid_price)
  ]
  resolve_price market index_price = elim market.index_price [
    | some price ↦ (price, index_price)
    | none ↦ (mid market, mid_price)
  ]
  resolve_price market mid_price = (mid market, mid_price)
  resolve_price market bid = (market.bid, bid)
  resolve_price market ask = (market.ask, ask)

  pub price_crosses_threshold : PhonePriceAlertRule W → W → Bool
  price_crosses_threshold rule price = elim rule.condition [
    | above ↦ rule.target_price ≤? price
    | below ↦ price ≤? rule.target_price
  ]

  pub is_cooling : LastSent → PhonePriceAlertRule W → Time → Bool
  is_cooling last_sent rule current = elim (Dict.get rule.id last_sent) [
    | none ↦ false
    | some at ↦ age_below current at rule.cooldown_seconds
  ]

  -- The inner loop of `evaluate`, which ends at the first market that triggers the rule.
  pub first_match :
      PhonePriceAlertRule W
      → Time
      → List (MarketSnapshot W)
      → LastSent
      → Option (PhonePriceAlertMatch W)
  unfolding resolve_price price_crosses_threshold
  first_match rule current [] last_sent = none
  first_match rule current (market ∷ markets) last_sent =
      let (price, field) = resolve_price market rule.price_field in
      let rest = first_match rule current markets last_sent in
      if not (market_matches_rule market rule)
      then rest
      else if not (price_crosses_threshold rule price)
      then rest
      else if is_cooling last_sent rule current
      then rest
      else some (record {
        rule = rule;
        market = market;
        observed_price = price;
        resolved_price_field = field;
      })

  -- One turn of the outer loop, for an enabled rule.
  pub match_rule :
      PhonePriceAlertRule W
      → Time
      → List (MarketSnapshot W)
      → LastSent
      → Option (PhonePriceAlertMatch W)
  match_rule rule current markets last_sent =
      if rule.enabled then first_match rule current markets last_sent else none

  -- The outer loop of `evaluate`.
  pub evaluate :
      List (MarketSnapshot W)
      → List (PhonePriceAlertRule W)
      → Time
      → LastSent
      → LastSent × List (PhonePriceAlertMatch W)
  evaluate markets [] current last_sent = (last_sent, [])
  evaluate markets (rule ∷ rules) current last_sent =
      elim (match_rule rule current markets last_sent) [
        | none ↦ evaluate markets rules current last_sent
        | some m ↦
            let (after, matches) =
              evaluate markets rules current (Dict.set rule.id current last_sent) in
            (after, m ∷ matches)
      ]
