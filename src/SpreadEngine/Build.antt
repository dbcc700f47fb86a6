-- ===== src/SpreadEngine/Build.antt =====
-- The traversal of spread_engine.py: which pairs of a group become opportunities, and in which order.
-- A generator's items are the list that it yields; its `None` items only mark points to pause.
pub mod Order
pub mod Pairs
mod Example
pub mod Keys
pub mod Sound
pub mod Unique
use Prim.Native.String.{compare}
use text.Mathlib.Text.{is_le, is_lt}
use taoli.Base.{
  ℕ, String, Bool, true, false, not, ◌&&◌, ◌||◌, Option, none, some, List, [], ◌∷◌, ◌++◌,
  if◌then◌else◌, ◌==◌, string_eq, HasEq, pair_eq, keep_if, contains, map, get_or, ltb, arith, ◌≡◌,
  ◌↔◌, ==_iff, length,
}
use taoli.Base.Dict
use taoli.Base.Dict.{Dict}
use taoli.Base.Text.{lower}
use taoli.Base.Number.{Float, ◌<?◌, ◌≤?◌, nought, pos}
use taoli.Models.Identity.{Time, age_exceeds}
use taoli.Models.Market.{
  MarketSnapshot, MarketType, spot, future, market_type_eq, Opportunity, OpportunityType, sf, ff,
  ss, opportunity_type_eq,
}
use taoli.PairValidation.{strip, is_given}
use taoli.PairValidation.Pair.{same_asset_eligible}
use taoli.SpreadEngine.{
  Outside, market_observed_at, market_identity, open_spread, close_spread,
  build_directional_opportunity,
}

-- The keys of the `seen` set: two identities.
abbrev pub PairKey : Type 0
PairKey = List String × List String

abbrev pub texts_beq : List String → List String → Bool
texts_beq [] [] = true
texts_beq (a ∷ as') (b ∷ bs) = a == b && texts_beq as' bs
texts_beq [] (b ∷ bs) = false
texts_beq (a ∷ as') [] = false

pub texts_beq_iff : (as' bs : List String) → (texts_beq as' bs ≡ true) ↔ (as' ≡ bs)
texts_beq_iff [] [] = ground arith
texts_beq_iff (a ∷ as') (b ∷ bs) = ground (arith, ==_iff a b, texts_beq_iff as' bs)
texts_beq_iff [] (b ∷ bs) = ground arith
texts_beq_iff (a ∷ as') [] = ground arith

instance abbrev pub texts_eq : HasEq (List String)
texts_eq = record { equal = texts_beq; equal_iff = texts_beq_iff }

-- `<=` on tuples of texts.
pub texts_le : List String → List String → Bool
texts_le [] bs = true
texts_le (a ∷ as') [] = false
texts_le (a ∷ as') (b ∷ bs) =
    let rest = texts_le as' bs in if a == b then rest else is_lt (compare a b)

-- `product` and `combinations(..., 2)`.
pub product {ℓ} : {A : Type ℓ} → List A → List A → List (A × A)
product [] ys = []
product (x ∷ xs) ys = map (λ y. (x, y)) ys ++ product xs ys

pub combinations {ℓ} : {A : Type ℓ} → List A → List (A × A)
combinations [] = []
combinations (x ∷ xs) = map (λ y. (x, y)) xs ++ combinations xs

module _ {W : Type 0} where
  pub has_executable_book : MarketSnapshot W → Bool
  has_executable_book snapshot =
      let estimated = map (λ field. lower (strip field)) snapshot.estimated_fields in
      snapshot.quote_kind == "book"
      && not (contains "bid" estimated)
      && not (contains "ask" estimated)

  pub pair_allowed : OpportunityType → MarketSnapshot W → MarketSnapshot W → Bool
  pair_allowed sf first second = first.market_type == spot && second.market_type == future
  pair_allowed ff first second = first.market_type == future && second.market_type == future
  pair_allowed ss first second = first.market_type == spot && second.market_type == spot

  pub orient_pair :
      OpportunityType
      → MarketSnapshot W
      → MarketSnapshot W
      → Option (MarketSnapshot W × MarketSnapshot W)
  unfolding pair_allowed
  orient_pair mode first second =
      if pair_allowed mode first second
      then some (first, second)
      else if not (mode == sf) && pair_allowed mode second first
      then some (second, first)
      else none

  abbrev pub of_type : MarketType → List (MarketSnapshot W) → List (MarketSnapshot W)
  of_type market_type legs = keep_if (λ leg. leg.market_type == market_type) legs

  -- The pairs of a group. An empty side or a single leg gives none, as the early `continue`s say.
  pub pairs_of :
      OpportunityType → List (MarketSnapshot W) → List (MarketSnapshot W × MarketSnapshot W)
  unfolding product combinations
  pairs_of sf legs = product (of_type spot legs) (of_type future legs)
  pairs_of ff legs = combinations (of_type future legs)
  pairs_of ss legs = combinations (of_type spot legs)

-- A pair that becomes an opportunity, with its key.
pub record Chosen (W : Type 0) : Type 0 where
  pub key : PairKey
  pub buy_leg : MarketSnapshot W
  pub sell_leg : MarketSnapshot W

abbrev pub pair_key : List String → List String → PairKey
pair_key buy_identity sell_identity =
    if texts_le buy_identity sell_identity
    then (buy_identity, sell_identity)
    else (sell_identity, buy_identity)

module _ {W : Type 0} ⦃f : Float W⦄ where
  -- The pair as it is traded: turned if both of its spreads are negative, except between spot and future.
  pub oriented : OpportunityType → PairKey → MarketSnapshot W → MarketSnapshot W → Chosen W
  oriented mode key buy_leg sell_leg =
      if not (mode == sf)
        && open_spread buy_leg sell_leg <? nought
        && close_spread buy_leg sell_leg <? nought
      then record { key = key; buy_leg = sell_leg; sell_leg = buy_leg }
      else record { key = key; buy_leg = buy_leg; sell_leg = sell_leg }

  -- `sort(key=open_spread_pct, reverse=True)`: stable, the greatest spread first.
  pub insert_by_spread : Opportunity W → List (Opportunity W) → List (Opportunity W)
  insert_by_spread o [] = o ∷ []
  insert_by_spread o (p ∷ ps) =
      let rest = insert_by_spread o ps in
      if o.open_spread_pct <? p.open_spread_pct then p ∷ rest else o ∷ p ∷ ps

  pub sort_by_spread : List (Opportunity W) → List (Opportunity W)
  unfolding insert_by_spread
  sort_by_spread [] = []
  sort_by_spread (o ∷ os) = insert_by_spread o (sort_by_spread os)

module _ {W : Type 0} ⦃f : Float W⦄ (outside : Outside W) where
  -- `_tradable_group_key`
  pub tradable_group_key : MarketSnapshot W → Time → Option ℕ → Option String
  unfolding has_executable_book
  tradable_group_key snapshot current stale_after_seconds =
      let stale : Bool = elim stale_after_seconds [
        | none ↦ false
        | some seconds ↦ age_exceeds current (market_observed_at snapshot) (pos seconds)
      ] in
      let key =
        if snapshot.identity_enforced && is_given snapshot.asset_id
        then get_or snapshot.asset_id snapshot.symbol
        else snapshot.symbol in
      if not (outside.is_market_open snapshot current)
      then none
      else if not (has_executable_book snapshot)
      then none
      else if stale
      then none
      else some key

  pub group_tradable_markets :
      List (MarketSnapshot W)
      → Time
      → Option ℕ
      → Dict String (List (MarketSnapshot W))
      → Dict String (List (MarketSnapshot W))
  unfolding tradable_group_key
  group_tradable_markets [] current stale by_symbol = by_symbol
  group_tradable_markets (snapshot ∷ snapshots) current stale by_symbol =
      group_tradable_markets snapshots current stale
        (elim (tradable_group_key snapshot current stale) [
          | none ↦ by_symbol
          | some key ↦
              Dict.set key (get_or (Dict.get key by_symbol) [] ++ (snapshot ∷ [])) by_symbol
        ])

  -- Whether a pair is one model twice.
  pub is_duplicate : MarketSnapshot W → MarketSnapshot W → Bool
  is_duplicate buy_leg sell_leg =
      market_identity outside buy_leg == market_identity outside sell_leg
      && outside.same_model buy_leg sell_leg

  -- The loop over the pairs of a group in `_iter_grouped_opportunities`.
  pub choose :
      OpportunityType → List (MarketSnapshot W × MarketSnapshot W) → List PairKey → List (Chosen W)
  unfolding oriented is_duplicate
  choose mode [] seen = []
  choose mode ((buy_leg, sell_leg) ∷ pairs) seen =
      let key = pair_key (market_identity outside buy_leg) (market_identity outside sell_leg) in
      let skip = choose mode pairs seen in
      let rest = choose mode pairs (key ∷ seen) in
      let chosen = oriented mode key buy_leg sell_leg in
      if not (same_asset_eligible buy_leg sell_leg)
      then skip
      else if is_duplicate buy_leg sell_leg
      then skip
      else if contains key seen
      then skip
      else if open_spread chosen.buy_leg chosen.sell_leg ≤? nought
      then rest
      else chosen ∷ rest

  pub build_chosen : OpportunityType → W → W → W → Chosen W → Opportunity W
  build_chosen mode buy_fee_pct sell_fee_pct safety_slippage_pct chosen =
      build_directional_opportunity outside chosen.buy_leg chosen.sell_leg mode buy_fee_pct
        sell_fee_pct safety_slippage_pct
        (chosen.buy_leg.identity_enforced || chosen.sell_leg.identity_enforced)

  pub build_grouped_opportunities :
      Dict String (List (MarketSnapshot W)) → OpportunityType → W → W → W → List (Opportunity W)
  unfolding choose build_chosen pairs_of
  build_grouped_opportunities [] mode buy_fee sell_fee slippage = []
  build_grouped_opportunities ((symbol, legs) ∷ groups) mode buy_fee sell_fee slippage =
      map (build_chosen mode buy_fee sell_fee slippage) (choose mode (pairs_of mode legs) [])
      ++ build_grouped_opportunities groups mode buy_fee sell_fee slippage

  pub build_opportunities :
      List (MarketSnapshot W) → OpportunityType → W → W → W → Time → Option ℕ → List (Opportunity W)
  unfolding group_tradable_markets build_grouped_opportunities sort_by_spread
  build_opportunities snapshots mode buy_fee sell_fee slippage current stale = sort_by_spread (
      build_grouped_opportunities (group_tradable_markets snapshots current stale []) mode buy_fee
        sell_fee slippage)

  pub build_all_opportunities :
      List (MarketSnapshot W) → W → W → W → Time → Option ℕ → List (Opportunity W)
  unfolding group_tradable_markets build_grouped_opportunities sort_by_spread
  build_all_opportunities snapshots spot_fee future_fee slippage current stale =
      let by_symbol = group_tradable_markets snapshots current stale [] in
      sort_by_spread (
        build_grouped_opportunities by_symbol sf spot_fee future_fee slippage
        ++ build_grouped_opportunities by_symbol ff future_fee future_fee slippage
        ++ build_grouped_opportunities by_symbol ss spot_fee spot_fee slippage)
