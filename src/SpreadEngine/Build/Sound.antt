-- ===== src/SpreadEngine/Build/Sound.antt =====
-- What holds of every opportunity that spread_engine.py builds.
use taoli.Base.{
  ℕ, String, Bool, true, false, not, ◌&&◌, ◌||◌, Option, List, [], ◌∷◌, ◌++◌, if◌then◌else◌, ◌==◌,
  pair_eq, contains, map, arith, ◌≡◌, refl, All, All-append, All-imp,
}
use taoli.Base.Dict.{Dict}
use taoli.Base.Number.{Float, ◌<?◌, ◌≤?◌, nought}
use taoli.Models.Identity.{Time}
use taoli.Models.Market.{
  MarketSnapshot, MarketType, market_type_eq, Opportunity, OpportunityType, sf, ff, ss,
  opportunity_type_eq,
}
use taoli.PairValidation.Pair.{same_asset_eligible}
use taoli.SpreadEngine.{
  Outside, open_spread, close_spread, build_directional_opportunity, market_identity,
}
use taoli.SpreadEngine.Build.{
  Chosen, PairKey, pairs_of, oriented, is_duplicate, choose, build_chosen,
  build_grouped_opportunities, insert_by_spread, sort_by_spread, build_all_opportunities,
  group_tradable_markets, pair_key, texts_eq,
}
use taoli.SpreadEngine.Build.Pairs.{types_fit, All-if, All-map, IsAllowed, pairs_of-IsAllowed}

types_fit-swap :
    (mode : OpportunityType) (a b : MarketType)
    → (mode == sf) ≡ false
    → types_fit mode a b ≡ true
    → types_fit mode b a ≡ true
types_fit-swap sf a b h k = ground (arith, h)
types_fit-swap ff a b h k = ground (arith, k)
types_fit-swap ss a b h k = ground (arith, k)

module _ {W : Type 0} ⦃f : Float W⦄ where
  -- The legs have the market types of the kind, they are eligible in the order of the traversal or as they
  -- stand, and the spread is above 0.
  abbrev pub IsSound : OpportunityType → Chosen W → Type 0
  IsSound mode c =
      (types_fit mode c.buy_leg.market_type c.sell_leg.market_type ≡ true)
      × ((same_asset_eligible c.buy_leg c.sell_leg || same_asset_eligible c.sell_leg c.buy_leg)
          ≡ true)
      × ((open_spread c.buy_leg c.sell_leg ≤? nought) ≡ false)

  turned-IsSound :
      (mode : OpportunityType) (key : PairKey) (b s : MarketSnapshot W) (turn : Bool)
      → IsAllowed mode (b, s)
      → same_asset_eligible b s ≡ true
      → (turn ≡ true → (mode == sf) ≡ false)
      → let chosen : Chosen W =
          if turn
          then record { key = key; buy_leg = s; sell_leg = b }
          else record { key = key; buy_leg = b; sell_leg = s } in
        (open_spread chosen.buy_leg chosen.sell_leg ≤? nought) ≡ false → IsSound mode chosen
  turned-IsSound mode key b s false fits eligible h above = (fits, rw eligible refl, above)
  turned-IsSound mode key b s true fits eligible h above = (
    types_fit-swap mode b.market_type s.market_type (h refl) fits,
    ground (arith, eligible),
    above,
  )

  oriented-IsSound :
      (mode : OpportunityType) (key : PairKey) (b s : MarketSnapshot W)
      → IsAllowed mode (b, s)
      → same_asset_eligible b s ≡ true
      → let chosen = oriented mode key b s in
        (open_spread chosen.buy_leg chosen.sell_leg ≤? nought) ≡ false → IsSound mode chosen
  unfolding oriented
  oriented-IsSound mode key b s fits eligible above =
      turned-IsSound mode key b s
        (not (mode == sf) && open_spread b s <? nought && close_spread b s <? nought) fits eligible
        (λ h. ground (arith, h)) above

  -- What the opportunity of a sound pair says of itself.
  abbrev IsFitting : Opportunity W → Type 0
  IsFitting o =
      (types_fit o.type o.buy_market_type o.sell_market_type ≡ true)
      × ((o.open_spread_pct ≤? nought) ≡ false)

module _ {W : Type 0} ⦃f : Float W⦄ (outside : Outside W) where
  choose-IsSound :
      (mode : OpportunityType) (pairs : List (MarketSnapshot W × MarketSnapshot W))
      (seen : List PairKey)
      → All (IsAllowed mode) pairs
      → All (IsSound mode) (choose outside mode pairs seen)
  unfolding choose
  choose-IsSound mode [] seen h = tt
  choose-IsSound mode ((b, s) ∷ pairs) seen h =
      let key = pair_key (market_identity outside b) (market_identity outside s) in
      let skip = choose outside mode pairs seen in
      let rest = choose outside mode pairs (key ∷ seen) in
      let of_skip = choose-IsSound mode pairs seen h.1 in
      let of_rest = choose-IsSound mode pairs (key ∷ seen) h.1 in
      let chosen = oriented mode key b s in
      All-if (IsSound mode) (not (same_asset_eligible b s)) skip _ (λ _. of_skip)
        (λ fails.
          All-if (IsSound mode) (is_duplicate outside b s) skip _ (λ _. of_skip)
            (λ _.
              All-if (IsSound mode) (contains key seen) skip _ (λ _. of_skip)
                (λ _.
                  All-if (IsSound mode) (open_spread chosen.buy_leg chosen.sell_leg ≤? nought) rest
                    _ (λ _. of_rest)
                    (λ above.
                      (oriented-IsSound mode key b s h.0 (ground (arith, fails)) above, of_rest)))))

  chosen-IsSound :
      (mode : OpportunityType) (legs : List (MarketSnapshot W))
      → All (IsSound mode) (choose outside mode (pairs_of mode legs) [])
  chosen-IsSound mode legs =
      choose-IsSound mode (pairs_of mode legs) [] (pairs_of-IsAllowed mode legs)

  grouped-IsFitting :
      (groups : Dict String (List (MarketSnapshot W))) (mode : OpportunityType)
      (buy_fee sell_fee slippage : W)
      → All IsFitting (build_grouped_opportunities outside groups mode buy_fee sell_fee slippage)
  unfolding build_grouped_opportunities build_chosen build_directional_opportunity
  grouped-IsFitting [] mode buy_fee sell_fee slippage = tt
  grouped-IsFitting ((symbol, legs) ∷ groups) mode buy_fee sell_fee slippage =
      let chosen = choose outside mode (pairs_of mode legs) [] in
      All-append IsFitting (map (build_chosen outside mode buy_fee sell_fee slippage) chosen)
        (build_grouped_opportunities outside groups mode buy_fee sell_fee slippage)
        (All-map IsFitting (build_chosen outside mode buy_fee sell_fee slippage) chosen (
          All-imp (IsSound mode)
            (λ c. IsFitting (build_chosen outside mode buy_fee sell_fee slippage c)) chosen
            (λ c sound. (sound.0, sound.2)) (chosen-IsSound mode legs)))
        (grouped-IsFitting groups mode buy_fee sell_fee slippage)

module _ {W : Type 0} ⦃f : Float W⦄ (P : Opportunity W → Type 0) where
  insert_by_spread-All :
      (o : Opportunity W) (os : List (Opportunity W))
      → P o
      → All P os
      → All P (insert_by_spread o os)
  unfolding insert_by_spread
  insert_by_spread-All o [] h k = (h, tt)
  insert_by_spread-All o (p ∷ ps) h k =
      All-if P (o.open_spread_pct <? p.open_spread_pct) (p ∷ insert_by_spread o ps) (o ∷ p ∷ ps)
        (λ _. (k.0, insert_by_spread-All o ps h k.1)) (λ _. (h, k))

  sort_by_spread-All : (os : List (Opportunity W)) → All P os → All P (sort_by_spread os)
  unfolding sort_by_spread
  sort_by_spread-All [] h = tt
  sort_by_spread-All (o ∷ os) h =
      insert_by_spread-All o (sort_by_spread os) h.0 (sort_by_spread-All os h.1)

module _ {W : Type 0} ⦃f : Float W⦄ (outside : Outside W) where
  -- Every opportunity of `build_all_opportunities` has an open spread that is not below or equal to 0 and
  -- joins the market types of its kind: spot and future, two futures, or two spots.
  pub build_all_opportunities-IsFitting :
      (snapshots : List (MarketSnapshot W)) (spot_fee future_fee slippage : W) (current : Time)
      (stale : Option ℕ)
      → All
          (λ o.
            (types_fit o.type o.buy_market_type o.sell_market_type ≡ true)
            × ((o.open_spread_pct ≤? nought) ≡ false))
          (build_all_opportunities outside snapshots spot_fee future_fee slippage current stale)
  unfolding build_all_opportunities
  build_all_opportunities-IsFitting snapshots spot_fee future_fee slippage current stale =
      let groups = group_tradable_markets outside snapshots current stale [] in
      let fitting = grouped-IsFitting outside groups in
      let of_mode = build_grouped_opportunities outside groups in
      let spots = of_mode ss spot_fee spot_fee slippage in
      let futures = of_mode ff future_fee future_fee slippage in
      let both = of_mode sf spot_fee future_fee slippage in
      sort_by_spread-All IsFitting (both ++ futures ++ spots) (
        All-append IsFitting (both ++ futures) spots
          (All-append IsFitting both futures (fitting sf spot_fee future_fee slippage)
            (fitting ff future_fee future_fee slippage))
          (fitting ss spot_fee spot_fee slippage))
