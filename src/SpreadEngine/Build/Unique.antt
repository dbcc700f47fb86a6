-- ===== src/SpreadEngine/Build/Unique.antt =====
-- How often spread_engine.py takes a pair of identities.
use taoli.Base.{
  ℕ, ◌+◌, ◌≤◌, Bool, true, false, not, ◌&&◌, List, [], ◌∷◌, if◌then◌else◌, ◌==◌, HasEq, pair_eq,
  contains, map, arith, ◌≡◌, refl, ap, ==_iff, count, IsDistinct, Bool-cases, inl, inr,
}
use taoli.Base.Number.{Float, ◌<?◌, ◌≤?◌, nought}
use taoli.Models.Market.{MarketSnapshot, market_type_eq, OpportunityType, sf, opportunity_type_eq}
use taoli.PairValidation.Pair.{same_asset_eligible}
use taoli.SpreadEngine.{Outside, open_spread, close_spread, market_identity}
use taoli.SpreadEngine.Build.{
  Chosen, PairKey, pairs_of, oriented, is_duplicate, choose, pair_key, texts_eq,
}
use taoli.SpreadEngine.Build.Keys.{pair_key_comm}

abbrev bit : Bool → ℕ
bit b = if b then 1 else 0

module _ {K : Type 0} ⦃e : HasEq K⦄ where
  contains-same :
      (k key : K) (seen : List K) → (k == key) ≡ true → contains k seen ≡ contains key seen
  contains-same k key seen same = ap (λ j. contains j seen) ((==_iff k key).0 same)

  -- A key that was seen stands in no further choice, and any other key in one at most.
  count-choice :
      (k key : K) (seen : List K) (eligible duplicate low : Bool) (skip rest : List K)
      → count k skip + bit (contains k seen) ≤ 1
      → count k rest + bit (contains k (key ∷ seen)) ≤ 1
      → count k (
            if not eligible
            then skip
            else if duplicate
            then skip
            else if contains key seen
            then skip
            else if low
            then rest
            else key ∷ rest)
          + bit (contains k seen)
        ≤ 1
  count-choice k key seen false duplicate low skip rest of_skip of_rest = of_skip
  count-choice k key seen true true low skip rest of_skip of_rest = of_skip
  count-choice k key seen true false low skip rest of_skip of_rest =
      elim (Bool-cases (contains key seen)) [
        | inl again ↦ rw again of_skip
        | inr fresh ↦ elim (Bool-cases (k == key)) [
          | inl same ↦ ground (arith, fresh, same, of_rest, contains-same k key seen same)
          | inr other ↦ ground (arith, fresh, other, of_rest)
        ]
      ]

module _ {W : Type 0} ⦃f : Float W⦄ (outside : Outside W) where
  abbrev key_of : MarketSnapshot W → MarketSnapshot W → PairKey
  key_of b s = pair_key (market_identity outside b) (market_identity outside s)

  -- The pairs of identities that are chosen, each without its direction.
  abbrev keys : List (Chosen W) → List PairKey
  keys chosen = map (λ c. key_of c.buy_leg c.sell_leg) chosen

  oriented-key :
      (mode : OpportunityType) (key : PairKey) (b s : MarketSnapshot W)
      → let chosen = oriented mode key b s in key_of chosen.buy_leg chosen.sell_leg ≡ key_of b s
  unfolding oriented
  oriented-key mode key b s =
      elim (Bool-cases
        (not (mode == sf) && open_spread b s <? nought && close_spread b s <? nought)) [
          | inl turn ↦
              rw turn (pair_key_comm (market_identity outside b) (market_identity outside s))
          | inr keep ↦ rw keep refl
        ]

  keys-choice :
      (eligible duplicate again low : Bool) (skip rest : List (Chosen W)) (chosen : Chosen W)
      (key : PairKey)
      → key_of chosen.buy_leg chosen.sell_leg ≡ key
      → keys (
          if not eligible
          then skip
          else if duplicate
          then skip
          else if again
          then skip
          else if low
          then rest
          else chosen ∷ rest)
        ≡ (if not eligible
            then keys skip
            else if duplicate
            then keys skip
            else if again
            then keys skip
            else if low
            then keys rest
            else key ∷ keys rest)
  keys-choice false duplicate again low skip rest chosen key h = refl
  keys-choice true true again low skip rest chosen key h = refl
  keys-choice true false true low skip rest chosen key h = refl
  keys-choice true false false true skip rest chosen key h = refl
  keys-choice true false false false skip rest chosen key h = ap (λ k. k ∷ keys rest) h

  choose-count :
      (mode : OpportunityType) (pairs : List (MarketSnapshot W × MarketSnapshot W))
      (seen : List PairKey) (k : PairKey)
      → count k (keys (choose outside mode pairs seen)) + bit (contains k seen) ≤ 1
  unfolding choose
  choose-count mode [] seen k = ground arith
  choose-count mode ((b, s) ∷ pairs) seen k =
      let key = key_of b s in
      let chosen = oriented mode key b s in
      let skip = choose outside mode pairs seen in
      let rest = choose outside mode pairs (key ∷ seen) in
      let low = open_spread chosen.buy_leg chosen.sell_leg ≤? nought in
      let eligible = same_asset_eligible b s in
      let duplicate = is_duplicate outside b s in
      rw
        (keys-choice eligible duplicate (contains key seen) low skip rest chosen key
          (oriented-key mode key b s))
        (count-choice k key seen eligible duplicate low (keys skip) (keys rest)
          (choose-count mode pairs seen k) (choose-count mode pairs (key ∷ seen) k))

  -- A group gives at most one opportunity of a kind for two identities, whichever of them is bought.
  pub choose-IsDistinct :
      (mode : OpportunityType) (legs : List (MarketSnapshot W))
      → IsDistinct (
          map
            (λ c. pair_key (market_identity outside c.buy_leg) (market_identity outside c.sell_leg))
            (choose outside mode (pairs_of mode legs) []))
  choose-IsDistinct mode legs k = omega (arith, choose-count mode (pairs_of mode legs) [] k)
