-- ===== src/Round/Build/Filtered.antt =====
-- The opportunities that the stage "build" of a round leaves.
use mathlib.Core.Path.{subst}
use taoli.Base.{Option, List, All, IfSome, >>=-IfSome}
use taoli.Base.Number.{Float}
use taoli.Models.Identity.{Time}
use taoli.Models.Market.{MarketSnapshot, Opportunity}
use taoli.Models.Settings.{RiskSettings}
use taoli.Sessions.{Zone}
use taoli.SpreadEngine.{Outside}
use taoli.Filters.Included.{filter_opportunities-IsIncluded, IsIncluded}
use taoli.Round.Build.{
  FeeSettings, MarketValidation, validated, build_labeled_opportunities, labelled_for_publication,
}
use taoli.Round.Build.Accepted.{IsBuilt, validated-IsBuilt}

module _ {W : Type 0} ⦃f : Float W⦄ (zone : Zone)
    (market_validation : Option (MarketValidation W)) where
  -- An opportunity to publish: built and labelled, validated, and included by the settings.
  abbrev pub IsPublishable :
      RiskSettings W → Time → List (MarketSnapshot W) → Opportunity W → Type 0
  IsPublishable risk now markets =
      IsIncluded zone risk now (IsBuilt market_validation risk now markets)

  pub labelled_for_publication-IsPublishable :
      (outside : Outside W) (fees : FeeSettings W) (risk : RiskSettings W) (now : Time)
      (markets : List (MarketSnapshot W))
      → IfSome
          (All (IsPublishable risk now markets))
          (labelled_for_publication outside zone fees market_validation risk now markets)
  unfolding labelled_for_publication
  labelled_for_publication-IsPublishable outside fees risk now markets =
      >>=-IfSome (All (IsPublishable risk now markets))
        (validated market_validation risk now markets
          (build_labeled_opportunities outside fees risk now markets))
        _
        (λ os e.
          filter_opportunities-IsIncluded zone risk now (IsBuilt market_validation risk now markets)
            os
            (subst (IfSome (All (IsBuilt market_validation risk now markets))) e
              (validated-IsBuilt outside fees market_validation risk now markets)))
