-- ===== src/Round/Build/Accepted.antt =====
-- The opportunities of a round are labelled and validated.
use taoli.Base.{
  true, false, not, ◌&&◌, Option, none, some, List, [], ◌∷◌, All, All-imp, ◌≡◌, refl, if◌then◌else◌,
  IfSome, ◌>>=◌, if-rule, or_else, arith, sym, ◌∙◌, ◌==◌, pair_eq, option_eq, string_eq,
}
use taoli.Base.Dict
use taoli.Base.Dict.{Dict}
use taoli.Base.Number.{Float, ◌≤?◌, nought}
use taoli.Models.Identity.{Time, PairValidationResult}
use taoli.Models.Market.{MarketSnapshot, Opportunity}
use taoli.Models.Settings.{RiskSettings}
use taoli.Risk.{apply_risk_labels}
use taoli.SpreadEngine.{Outside}
use taoli.SpreadEngine.Build.{build_all_opportunities}
use taoli.SpreadEngine.Build.Sound.{build_all_opportunities-IsFitting}
use taoli.SpreadEngine.Build.Pairs.{All-map, types_fit}
use taoli.Risk.Labels.{apply_risk_labels-collisions, apply_risk_labels-eq}
use taoli.Round.Build.{
  FeeSettings, MarketValidation, LegKey, leg_key, labelled, build_labeled_opportunities,
  revalidated, accept_one, accept, index_markets, validated,
}

module _ {W : Type 0} ⦃f : Float W⦄ where
  -- The opportunity was built with a positive spread and then labelled.
  abbrev pub IsLabelled : RiskSettings W → Time → Opportunity W → Type 0
  IsLabelled risk now o =
      ((built : Opportunity W) × (o ≡ apply_risk_labels built risk now))
      × ((o.open_spread_pct ≤? nought) ≡ false)

  -- The last of the markets with this exchange, type and raw symbol.
  pub leg_of : LegKey → List (MarketSnapshot W) → Option (MarketSnapshot W)
  leg_of key [] = none
  leg_of key (m ∷ ms) =
      or_else (leg_of key ms)
        (if leg_key m.exchange m.market_type (some m.raw_symbol) == key then some m else none)

  get-index_markets :
      (markets : List (MarketSnapshot W)) (by_key : Dict LegKey (MarketSnapshot W)) (key : LegKey)
      → Dict.get key (index_markets markets by_key)
        ≡ or_else (leg_of key markets) (Dict.get key by_key)
  unfolding index_markets leg_of
  get-index_markets [] by_key key = refl
  get-index_markets (m ∷ ms) by_key key =
      let own = leg_key m.exchange m.market_type (some m.raw_symbol) in
      get-index_markets ms (Dict.set own m by_key) key
      ∙ ground (arith, Dict.get-set own key m by_key)

  abbrev pub buy_leg : List (MarketSnapshot W) → Opportunity W → Option (MarketSnapshot W)
  buy_leg markets o = leg_of (leg_key o.buy_exchange o.buy_market_type o.buy_raw_symbol) markets

  abbrev pub sell_leg : List (MarketSnapshot W) → Opportunity W → Option (MarketSnapshot W)
  sell_leg markets o = leg_of (leg_key o.sell_exchange o.sell_market_type o.sell_raw_symbol) markets

  -- Where there is a validation service, its result for the two legs, which are among the markets, is
  -- kept and does not forbid the opportunity.
  abbrev pub IsValidated :
      Option (MarketValidation W)
      → RiskSettings W
      → List (MarketSnapshot W)
      → Opportunity W
      → Type 0
  IsValidated none risk markets o = Unit
  IsValidated (some service) risk markets o =
      (a : MarketSnapshot W) × (b : MarketSnapshot W) × (v : PairValidationResult) × (buy_leg
          markets o
        ≡ some a)
      × (sell_leg markets o ≡ some b)
      × (service.validate a b risk ≡ some v)
      × (o.validation ≡ some v)
      × ((service.should_enforce v && not v.capabilities.same_asset_opportunity) ≡ false)

  labelled-IsLabelled :
      (risk : RiskSettings W) (now : Time) (o : Opportunity W)
      → (o.open_spread_pct ≤? nought) ≡ false
      → IsLabelled risk now (labelled risk now o)
  labelled-IsLabelled risk now o h = ((o, apply_risk_labels-collisions o risk now), h)

  revalidated-IsLabelled :
      (risk : RiskSettings W) (now : Time) (v : PairValidationResult) (o : Opportunity W)
      → (o.open_spread_pct ≤? nought) ≡ false
      → IsLabelled risk now (revalidated risk now v o)
  unfolding revalidated
  revalidated-IsLabelled risk now v o h =
      let built = record o { validation = some v } in
      ((built, apply_risk_labels-eq built risk now), h)

  revalidated-validation :
      (risk : RiskSettings W) (now : Time) (v : PairValidationResult) (o : Opportunity W)
      → (revalidated risk now v o).validation ≡ some v
  unfolding revalidated
  revalidated-validation risk now v o = refl

  revalidated-legs :
      (risk : RiskSettings W) (now : Time) (v : PairValidationResult) (o : Opportunity W)
      (markets : List (MarketSnapshot W))
      → (buy_leg markets (revalidated risk now v o) ≡ buy_leg markets o)
        × (sell_leg markets (revalidated risk now v o) ≡ sell_leg markets o)
  unfolding revalidated
  revalidated-legs risk now v o markets = (refl, refl)

  module _ (service : MarketValidation W) (risk : RiskSettings W) (now : Time)
      (markets : List (MarketSnapshot W)) where
    abbrev pub IsAccepted : Opportunity W → Type 0
    IsAccepted o = IsLabelled risk now o × IsValidated (some service) risk markets o

    accept_one-IsAccepted :
        (o : Opportunity W) (a b : Option (MarketSnapshot W)) (rest : Option (List (Opportunity W)))
        → (o.open_spread_pct ≤? nought) ≡ false
        → buy_leg markets o ≡ a
        → sell_leg markets o ≡ b
        → IfSome (All IsAccepted) rest
        → IfSome (All IsAccepted) (accept_one service risk now o a b rest)
    unfolding accept_one
    accept_one-IsAccepted o none b rest h at_a at_b later = later
    accept_one-IsAccepted o (some a) none rest h at_a at_b later = later
    accept_one-IsAccepted o (some a) (some b) rest h at_a at_b later =
        of_results (service.validate a b risk) refl rest later
      where
        of_results :
            (result : Option PairValidationResult)
            → service.validate a b risk ≡ result
            → (more : Option (List (Opportunity W))) → IfSome (All IsAccepted) more
            → IfSome (All IsAccepted) (do
              v ← result
              accepted ← more
              some (
                  if service.should_enforce v && not v.capabilities.same_asset_opportunity
                  then accepted
                  else revalidated risk now v o ∷ accepted))
        of_results none eq more k = tt
        of_results (some v) eq none k = tt
        of_results (some v) eq (some accepted) k =
            let (legs_a, legs_b) = revalidated-legs risk now v o markets in
            if-rule (All IsAccepted)
              (service.should_enforce v && not v.capabilities.same_asset_opportunity) _ _ (λ _. k)
              (λ free. (
                (
                  revalidated-IsLabelled risk now v o h,
                  (
                    a,
                    b,
                    v,
                    legs_a ∙ at_a,
                    legs_b ∙ at_b,
                    eq,
                    revalidated-validation risk now v o,
                    free,
                  ),
                ),
                k,
              ))

    leg-lookup : (key : LegKey) → leg_of key markets ≡ Dict.get key (index_markets markets [])
    unfolding Dict.get
    leg-lookup key = sym (get-index_markets markets [] key ∙ ground arith)

    accept-IsAccepted :
        (os : List (Opportunity W))
        → All (λ o. (o.open_spread_pct ≤? nought) ≡ false) os
        → IfSome (All IsAccepted) (accept service risk now (index_markets markets []) os)
    unfolding accept
    accept-IsAccepted [] h = tt
    accept-IsAccepted (o ∷ os) h =
        accept_one-IsAccepted o _ _ (accept service risk now (index_markets markets []) os) h.0
          (leg-lookup _) (leg-lookup _) (accept-IsAccepted os h.1)

  abbrev pub IsBuilt :
      Option (MarketValidation W)
      → RiskSettings W
      → Time
      → List (MarketSnapshot W)
      → Opportunity W
      → Type 0
  IsBuilt market_validation risk now markets o =
      IsLabelled risk now o × IsValidated market_validation risk markets o

  build_labeled-IsLabelled :
      (outside : Outside W) (fees : FeeSettings W) (risk : RiskSettings W) (now : Time)
      (markets : List (MarketSnapshot W))
      → All (IsLabelled risk now) (build_labeled_opportunities outside fees risk now markets)
  unfolding build_labeled_opportunities
  build_labeled-IsLabelled outside fees risk now markets =
      let built =
        build_all_opportunities outside markets fees.spot_fee_pct fees.future_fee_pct
          fees.safety_slippage_pct now (some risk.stale_after_seconds) in
      All-map (IsLabelled risk now) (labelled risk now) built (
        All-imp
          (λ o.
            (types_fit o.type o.buy_market_type o.sell_market_type ≡ true)
            × ((o.open_spread_pct ≤? nought) ≡ false))
          (λ o. IsLabelled risk now (labelled risk now o)) built
          (λ o h. labelled-IsLabelled risk now o h.1)
          (build_all_opportunities-IsFitting outside markets fees.spot_fee_pct fees.future_fee_pct
            fees.safety_slippage_pct now (some risk.stale_after_seconds)))

  pub validated-IsBuilt :
      (outside : Outside W) (fees : FeeSettings W) (market_validation : Option (MarketValidation W))
      (risk : RiskSettings W) (now : Time) (markets : List (MarketSnapshot W))
      → IfSome (All (IsBuilt market_validation risk now markets)) (
          validated market_validation risk now markets
            (build_labeled_opportunities outside fees risk now markets))
  unfolding validated
  validated-IsBuilt outside fees none risk now markets =
      All-imp (IsLabelled risk now) (IsBuilt none risk now markets)
        (build_labeled_opportunities outside fees risk now markets) (λ o h. (h, tt))
        (build_labeled-IsLabelled outside fees risk now markets)
  validated-IsBuilt outside fees (some service) risk now markets =
      accept-IsAccepted service risk now markets
        (build_labeled_opportunities outside fees risk now markets)
        (All-imp (IsLabelled risk now) (λ o. (o.open_spread_pct ≤? nought) ≡ false)
          (build_labeled_opportunities outside fees risk now markets) (λ o h. h.1)
          (build_labeled-IsLabelled outside fees risk now markets))
