-- ===== src/SpreadEngine/Build/Order.antt =====
-- The order of the opportunities that spread_engine.py returns.
use mathlib.Core.List.{Perm}
use mathlib.Core.List.Perm
use taoli.Base.{ℕ, true, false, Option, List, [], ◌∷◌, ◌++◌, ◌≡◌, Bool-cases, inl, inr}
use taoli.Base.Number.{Float, ◌<?◌}
use taoli.Models.Identity.{Time}
use taoli.Models.Market.{MarketSnapshot, Opportunity, sf, ff, ss}
use taoli.SpreadEngine.{Outside}
use taoli.SpreadEngine.Build.{
  insert_by_spread, sort_by_spread, group_tradable_markets, build_grouped_opportunities,
  build_all_opportunities,
}

module _ {W : Type 0} ⦃f : Float W⦄ where
  abbrev IsAbove : Opportunity W → List (Opportunity W) → Type 0
  IsAbove o [] = Unit
  IsAbove o (p ∷ ps) = (o.open_spread_pct <? p.open_spread_pct) ≡ false

  -- No opportunity is followed by one with a greater spread.
  abbrev pub IsDescending : List (Opportunity W) → Type 0
  IsDescending [] = Unit
  IsDescending (o ∷ os) = IsAbove o os × IsDescending os

  insert_by_spread-Perm :
      (o : Opportunity W) (os : List (Opportunity W)) → Perm (insert_by_spread o os) (o ∷ os)
  unfolding insert_by_spread
  insert_by_spread-Perm o [] = Perm.refl (o ∷ [])
  insert_by_spread-Perm o (p ∷ ps) = elim (Bool-cases (o.open_spread_pct <? p.open_spread_pct)) [
    | inl less ↦ rw less (Perm.trans (Perm.cons p (insert_by_spread-Perm o ps)) (Perm.swap o p ps))
    | inr not_less ↦ rw not_less (Perm.refl (o ∷ p ∷ ps))
  ]

  sort_by_spread-Perm : (os : List (Opportunity W)) → Perm (sort_by_spread os) os
  unfolding sort_by_spread
  sort_by_spread-Perm [] = Perm.refl []
  sort_by_spread-Perm (o ∷ os) =
      Perm.trans (insert_by_spread-Perm o (sort_by_spread os))
        (Perm.cons o (sort_by_spread-Perm os))

  insert_by_spread-IsAbove :
      (p o : Opportunity W) (os : List (Opportunity W))
      → (p.open_spread_pct <? o.open_spread_pct) ≡ false
      → IsAbove p os
      → IsAbove p (insert_by_spread o os)
  unfolding insert_by_spread
  insert_by_spread-IsAbove p o [] not_less h = not_less
  insert_by_spread-IsAbove p o (q ∷ os) not_less h =
      elim (Bool-cases (o.open_spread_pct <? q.open_spread_pct)) [
        | inl less ↦ rw less h
        | inr other ↦ rw other not_less
      ]

  module _ (asymmetric : (a b : W) → (a <? b) ≡ true → (b <? a) ≡ false) where
    insert_by_spread-IsDescending :
        (o : Opportunity W) (os : List (Opportunity W))
        → IsDescending os
        → IsDescending (insert_by_spread o os)
    unfolding insert_by_spread
    insert_by_spread-IsDescending o [] h = (tt, tt)
    insert_by_spread-IsDescending o (p ∷ ps) h =
        elim (Bool-cases (o.open_spread_pct <? p.open_spread_pct)) [
          | inl less ↦ rw less (
            insert_by_spread-IsAbove p o ps (asymmetric o.open_spread_pct p.open_spread_pct less)
                h.0,
            insert_by_spread-IsDescending o ps h.1,
          )
          | inr not_less ↦ rw not_less (not_less, h)
        ]

    sort_by_spread-IsDescending : (os : List (Opportunity W)) → IsDescending (sort_by_spread os)
    unfolding sort_by_spread
    sort_by_spread-IsDescending [] = tt
    sort_by_spread-IsDescending (o ∷ os) =
        insert_by_spread-IsDescending o (sort_by_spread os) (sort_by_spread-IsDescending os)

-- `build_all_opportunities` returns the opportunities of the three kinds, each as often as it was built, and
-- none is followed by one with a greater open spread. Of two values of the float type at most one is less
-- than the other.
pub build_all_opportunities-IsDescending :
    {W : Type 0} ⦃f : Float W⦄ (outside : Outside W)
    (asymmetric : (a b : W) → (a <? b) ≡ true → (b <? a) ≡ false)
    (snapshots : List (MarketSnapshot W)) (spot_fee future_fee slippage : W) (current : Time)
    (stale : Option ℕ)
    → let groups = group_tradable_markets outside snapshots current stale [] in
      let result =
        build_all_opportunities outside snapshots spot_fee future_fee slippage current stale in
      IsDescending result
      × Perm result (
          build_grouped_opportunities outside groups sf spot_fee future_fee slippage
          ++ build_grouped_opportunities outside groups ff future_fee future_fee slippage
          ++ build_grouped_opportunities outside groups ss spot_fee spot_fee slippage)
unfolding build_all_opportunities
build_all_opportunities-IsDescending outside asymmetric snapshots spot_fee future_fee slippage
      current stale =
    let groups = group_tradable_markets outside snapshots current stale [] in
    let all =
      build_grouped_opportunities outside groups sf spot_fee future_fee slippage
      ++ build_grouped_opportunities outside groups ff future_fee future_fee slippage
      ++ build_grouped_opportunities outside groups ss spot_fee spot_fee slippage in
    (sort_by_spread-IsDescending asymmetric all, sort_by_spread-Perm all)
