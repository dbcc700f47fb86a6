-- ===== src/PairValidation/Pair/SameAsset.antt =====
-- When a pair may be traded as one asset (pair_validation.py).
use taoli.Base.{ℕ, String, Bool, true, not, ◌&&◌, ◌||◌, string_eq, ◌≡◌, refl, ◌∙◌, ap, arith}
use taoli.Base.Number.{Float, ◌≤?◌}
use taoli.Models.Identity.{Time, ComparisonKind}
use taoli.Models.Market.{MarketSnapshot}
use taoli.PairValidation.Pair.{
  is_same_kind, relation_of, valuations_differ, has_collision, is_skewed, spread_of, pair_blockers,
  validate_pair, same_asset_eligible,
}
use taoli.PairValidation.Pair.Fit.{
  is_empty-issue_if, is_empty-append, pair_tests, is_fit, leg_blockers-is_empty, fit-relation,
  fit-eligible, is_tradable,
}

module _ {W : Type 0} ⦃f : Float W⦄ (is_finite : W → Bool) (a b : MarketSnapshot W) (now : Time)
    (kind : ComparisonKind) (stale skew : ℕ) (huge : W) (reviewed : Bool) where
  -- A pair that may be traded as one asset also passes the shorter test of `same_asset_eligible`.
  pub tradable-eligible :
      is_tradable is_finite a b now kind stale skew huge reviewed ≡ true
      → same_asset_eligible a b ≡ true
  unfolding is_tradable
  tradable-eligible h =
      fit-eligible is_finite stale now a b (ground (arith, h)) (ground (arith, h))
        (ground (arith, h)) (ground (arith, h))

module _ {W : Type 0} ⦃f : Float W⦄ (is_finite : W → Bool)
    (fingerprint : MarketSnapshot W → MarketSnapshot W → String) (a b : MarketSnapshot W)
    (now : Time) (kind : ComparisonKind) (stale skew : ℕ) (huge : W) (reviewed : Bool) where
  -- A pair becomes an opportunity of one asset, with alerts and automatic cards, exactly if it was asked
  -- for as such, both legs are fit (an exact market, a verified identity with evidence that still holds,
  -- a verified unit, a real and valid book of a contract that is not inverse, a fresh quote and a quote
  -- currency that converts), their assets have one identifier and no two kinds, their valuations are
  -- comparable, their quotes are of the same time, and a large spread was reviewed.
  pub validate_pair-is_tradable :
      let capabilities =
        (validate_pair is_finite fingerprint a b now kind stale skew huge reviewed).capabilities in
      (capabilities.same_asset_opportunity
        ≡ is_tradable is_finite a b now kind stale skew huge reviewed)
      × (capabilities.strategy_alert ≡ capabilities.same_asset_opportunity)
      × (capabilities.automatic_card ≡ capabilities.same_asset_opportunity)
  unfolding validate_pair pair_blockers is_tradable
  validate_pair-is_tradable = (
    simp (is_empty-issue_if, is_empty-append, leg_blockers-is_empty)
        (pair_tests (is_fit is_finite stale now a) (is_fit is_finite stale now b)
            (valuations_differ a b) (has_collision a b) (is_same_kind kind) (is_skewed skew a b)
            (huge ≤? spread_of is_finite a b) reviewed (relation_of a b)
          ∙ ap
              (λ assets.
                is_same_kind kind
                && assets
                && not (valuations_differ a b)
                && not (is_skewed skew a b)
                && (not (huge ≤? spread_of is_finite a b) || reviewed))
              (fit-relation is_finite stale now a b)),
    refl,
    refl,
  )
