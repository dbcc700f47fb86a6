-- ===== src/Round/Build.antt =====
-- The stage "build" of a round of the collector: labelled, validated and filtered opportunities.
pub mod Accepted
pub mod Filtered
use taoli.Base.{
  ℕ, String, Bool, true, false, not, ◌&&◌, Option, none, some, List, [], ◌∷◌, map, if◌then◌else◌,
  string_eq, pair_eq, option_eq, ◌>>=◌, ◌==◌,
}
use taoli.Base.Dict
use taoli.Base.Dict.{Dict}
use taoli.Base.Text.{upper}
use taoli.Base.Number.{Float}
use taoli.Models.Identity.{Time, PairValidationResult}
use taoli.Models.Market.{MarketSnapshot, Opportunity, MarketType, market_type_value}
use taoli.Models.Settings.{RiskSettings}
use taoli.Risk.{risk_labels_for}
use taoli.Sessions.{Zone}
use taoli.SpreadEngine.{Outside}
use taoli.SpreadEngine.Build.{build_all_opportunities}
use taoli.Filters.{filter_opportunities}

pub record FeeSettings (W : Type 0) : Type 0 where
  pub spot_fee_pct : W
  pub future_fee_pct : W
  pub safety_slippage_pct : W

-- The operations of the validation service that a round calls; `none` is an exception.
pub record MarketValidation (W : Type 0) : Type 0 where
  pub prepare : List (MarketSnapshot W) → RiskSettings W → Option (List (MarketSnapshot W))
  pub validate : MarketSnapshot W → MarketSnapshot W → RiskSettings W → Option PairValidationResult
  pub should_enforce : PairValidationResult → Bool

-- (exchange, market type, raw symbol)
abbrev pub LegKey : Type 0
LegKey = (String × String) × Option String

abbrev pub leg_key : String → MarketType → Option String → LegKey
leg_key exchange market_type raw_symbol = ((exchange, market_type_value market_type), raw_symbol)

module _ {W : Type 0} where
  pub index_markets :
      List (MarketSnapshot W) → Dict LegKey (MarketSnapshot W) → Dict LegKey (MarketSnapshot W)
  index_markets [] by_key = by_key
  index_markets (m ∷ ms) by_key =
      index_markets ms (Dict.set (leg_key m.exchange m.market_type (some m.raw_symbol)) m by_key)

module _ {W : Type 0} ⦃f : Float W⦄ where
  abbrev pub labelled : RiskSettings W → Time → Opportunity W → Opportunity W
  labelled risk now o =
      let collision_symbols = map upper risk.ticker_collision_symbols in
      record o { risk_labels = risk_labels_for o risk now (some collision_symbols) }

  -- `_build_labeled_opportunities_async`
  pub build_labeled_opportunities :
      Outside W
      → FeeSettings W
      → RiskSettings W
      → Time
      → List (MarketSnapshot W)
      → List (Opportunity W)
  build_labeled_opportunities outside fees risk now markets = map (labelled risk now) (
      build_all_opportunities outside markets fees.spot_fee_pct fees.future_fee_pct
        fees.safety_slippage_pct now (some risk.stale_after_seconds))

  pub revalidated : RiskSettings W → Time → PairValidationResult → Opportunity W → Opportunity W
  revalidated risk now v o =
      let validated = record o { validation = some v } in
      record validated { risk_labels = risk_labels_for validated risk now none }

  -- One turn of the loop over the opportunities, with the legs that were found and the later turns.
  pub accept_one :
      MarketValidation W
      → RiskSettings W
      → Time
      → Opportunity W
      → Option (MarketSnapshot W)
      → Option (MarketSnapshot W)
      → Option (List (Opportunity W))
      → Option (List (Opportunity W))
  unfolding revalidated
  accept_one service risk now o none b rest = rest
  accept_one service risk now o (some a) none rest = rest
  accept_one service risk now o (some a) (some b) rest = do
    v ← service.validate a b risk
    accepted ← rest
    some (
        if service.should_enforce v && not v.capabilities.same_asset_opportunity
        then accepted
        else revalidated risk now v o ∷ accepted)

  -- The loop over the opportunities with a validation service.
  pub accept :
      MarketValidation W
      → RiskSettings W
      → Time
      → Dict LegKey (MarketSnapshot W)
      → List (Opportunity W)
      → Option (List (Opportunity W))
  unfolding accept_one
  accept service risk now by_key [] = some []
  accept service risk now by_key (o ∷ os) =
      accept_one service risk now o
        (Dict.get (leg_key o.buy_exchange o.buy_market_type o.buy_raw_symbol) by_key)
        (Dict.get (leg_key o.sell_exchange o.sell_market_type o.sell_raw_symbol) by_key)
        (accept service risk now by_key os)

  pub validated :
      Option (MarketValidation W)
      → RiskSettings W
      → Time
      → List (MarketSnapshot W)
      → List (Opportunity W)
      → Option (List (Opportunity W))
  unfolding accept index_markets
  validated none risk now markets os = some os
  validated (some service) risk now markets os =
      accept service risk now (index_markets markets []) os

  -- The opportunities that a round publishes.
  pub labelled_for_publication :
      Outside W
      → Zone
      → FeeSettings W
      → Option (MarketValidation W)
      → RiskSettings W
      → Time
      → List (MarketSnapshot W)
      → Option (List (Opportunity W))
  unfolding build_labeled_opportunities validated
  labelled_for_publication outside zone fees market_validation risk now markets = do
    opportunities ←
        validated market_validation risk now markets
          (build_labeled_opportunities outside fees risk now markets)
    filter_opportunities zone risk now opportunities
