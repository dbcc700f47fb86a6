-- ===== src/PairValidation/Pair.antt =====
-- `validate_pair` and `same_asset_eligible` of pair_validation.py, on two legs.
pub mod SameAsset
mod Example
pub mod Fit
use taoli.Base.{
  ℕ, ◌+◌, ◌*◌, String, Bool, true, false, not, ◌&&◌, ◌||◌, Option, none, some, List, [], ◌∷◌, ◌++◌,
  if◌then◌else◌, ◌==◌, string_eq, any, contains, is_empty, ltb, min,
}
use taoli.Base.Number.{Float, ◌⊕◌, ◌⊖◌, ◌⊗◌, ◌⊘◌, ◌<?◌, ◌≤?◌, nought, of_nat, abs, max_of, pos}
use taoli.Models.Identity.{
  Time, second, ComparisonKind, same_asset, custom_cross_asset, IdentityRelation, same, different,
  unresolved, conflict, AnomalyStatus, normal, pending_review, passed, QuoteStatus, executable,
  reference, invalid, UnitStatus, verified, unverified, IssueLeg, buy, sell, pair, ValidationIssue,
  PairCapabilities, PairValidationResult,
}
use taoli.Models.Market.{MarketSnapshot}
use taoli.PairValidation.{
  is_given, market_key, issue_if, issue, observed_at, leg_warnings, leg_valid_until, leg_blockers,
}

abbrev pub is_same : IdentityRelation → Bool
is_same same = true
is_same _ = false

abbrev pub is_different : IdentityRelation → Bool
is_different different = true
is_different _ = false

abbrev pub is_same_kind : ComparisonKind → Bool
is_same_kind same_asset = true
is_same_kind custom_cross_asset = false

-- Both texts are given, and they differ.
abbrev pub texts_differ : Option String → Option String → Bool
texts_differ (some a) (some b) = not (a == "") && not (b == "") && not (a == b)
texts_differ _ _ = false

abbrev pub has_code : List String → List ValidationIssue → Bool
has_code codes issues = any (λ i. contains i.code codes) issues

pub quote_status_of : List ValidationIssue → QuoteStatus
quote_status_of blockers =
    if has_code ("REFERENCE_QUOTE_ONLY" ∷ []) blockers
    then reference
    else if has_code
        ("INVALID_ORDER_BOOK" ∷ "STALE_LEG_QUOTE" ∷ "LEG_TIME_SKEW" ∷ "QUOTE_CONVERSION_UNVERIFIED"
          ∷ [])
        blockers
    then invalid
    else executable

-- `min(first, *rest)`
pub earliest : Time → List Time → Time
earliest first [] = first
earliest first (t ∷ ts) = earliest (min first t) ts

-- Both texts are there, and they are equal.
abbrev pub texts_agree : Option String → Option String → Bool
texts_agree (some a) (some b) = a == b
texts_agree _ _ = false

module _ {W : Type 0} where
  pub both_verified : MarketSnapshot W → MarketSnapshot W → Bool
  both_verified a b = a.identity_status == "verified" && b.identity_status == "verified"

  -- The relation of the two assets, before collisions of their tickers are looked at.
  pub relation_of : MarketSnapshot W → MarketSnapshot W → IdentityRelation
  unfolding both_verified
  relation_of a b =
      if texts_differ a.asset_kind b.asset_kind || texts_differ a.asset_id b.asset_id
      then different
      else if both_verified a b && is_given a.asset_id && is_given b.asset_id
      then same
      else if a.identity_status == "conflict" || b.identity_status == "conflict"
      then conflict
      else unresolved

  pub valuations_differ : MarketSnapshot W → MarketSnapshot W → Bool
  valuations_differ a b =
      (a.contract_kind == "valuation" || b.contract_kind == "valuation")
      && (not (a.contract_kind == b.contract_kind)
          || a.tracking_definition == ""
          || not (a.tracking_definition == b.tracking_definition))

  pub has_collision : MarketSnapshot W → MarketSnapshot W → Bool
  has_collision a b = a.identity_collision || b.identity_collision

  pub is_skewed : ℕ → MarketSnapshot W → MarketSnapshot W → Bool
  is_skewed max_leg_time_skew_seconds a b =
      ltb (observed_at a + max_leg_time_skew_seconds * second) (observed_at b)
      || ltb (observed_at b + max_leg_time_skew_seconds * second) (observed_at a)

  pub same_asset_eligible : MarketSnapshot W → MarketSnapshot W → Bool
  unfolding both_verified has_collision
  same_asset_eligible a b =
      let same_id = texts_agree a.asset_id b.asset_id in
      if a.identity_status == "conflict" || b.identity_status == "conflict"
      then false
      else if texts_differ a.asset_kind b.asset_kind
      then false
      else if texts_differ a.asset_id b.asset_id
      then false
      else if has_collision a b && not (both_verified a b && is_given a.asset_id && same_id)
      then false
      else if not (a.identity_enforced || b.identity_enforced)
      then true
      else (both_verified a b
          && same_id
          && a.unit_status == "verified"
          && b.unit_status == "verified")

module _ {W : Type 0} ⦃f : Float W⦄ (is_finite : W → Bool) where
  pub spread_of : MarketSnapshot W → MarketSnapshot W → W
  spread_of a b =
      let scale = max_of b.bid a.ask in
      if is_finite scale && nought <? scale
      then abs (of_nat 200 ⊗ (b.bid ⊘ scale ⊖ a.ask ⊘ scale) ⊘ (b.bid ⊘ scale ⊕ a.ask ⊘ scale))
      else nought

  -- The blockers of the two legs and of the pair, in the code's order.
  pub pair_blockers :
      MarketSnapshot W
      → MarketSnapshot W
      → Time
      → ComparisonKind
      → ℕ
      → ℕ
      → W
      → Bool
      → List ValidationIssue
  unfolding spread_of
  pair_blockers a b now kind stale_after_seconds max_leg_time_skew_seconds huge_spread_pct
        review_passed =
      let relation = relation_of a b in
      let legs =
        leg_blockers is_finite stale_after_seconds now buy a
        ++ leg_blockers is_finite stale_after_seconds now sell b in
      let b₁ =
        issue_if (is_different relation && is_same_kind kind)
          (issue "DIFFERENT_UNDERLYING_ASSET" "双方属于不同底层资产，不能作为同币配对" pair) legs in
      let b₂ =
        issue_if (valuations_differ a b)
          (issue "INCOMPATIBLE_CONTRACT_SPEC" "估值口径与计价单位不一致，不能直接比较" pair) b₁ in
      let b₃ =
        issue_if (has_collision a b && not (is_same relation) && is_same_kind kind)
          (issue "ASSET_IDENTITY_CONFLICT" "同名代码已确认对应多个资产，须先选择并核验精确市场" pair) b₂ in
      let b₄ =
        issue_if (is_skewed max_leg_time_skew_seconds a b) (issue "LEG_TIME_SKEW" "双方行情时间差过大" pair)
          b₃ in
      issue_if (huge_spread_pct ≤? spread_of a b && is_same_kind kind && not review_passed)
        (issue "SPREAD_REVIEW_PENDING" "大价差等待双腿盘口与深度复核" pair) b₄

module _ {W : Type 0} ⦃f : Float W⦄ (is_finite : W → Bool)
    (fingerprint : MarketSnapshot W → MarketSnapshot W → String) where
  -- `utc` is the identity on instants. `registry_revision` and `raw_market_view` are defaults.
  pub validate_pair :
      MarketSnapshot W
      → MarketSnapshot W
      → Time
      → ComparisonKind
      → ℕ
      → ℕ
      → W
      → Bool
      → PairValidationResult
  unfolding pair_blockers
  validate_pair a b now kind stale_after_seconds max_leg_time_skew_seconds huge_spread_pct
        review_passed =
      let first_relation = relation_of a b in
      let relation =
        if has_collision a b && not (is_same first_relation) && is_same_kind kind
        then conflict
        else first_relation in
      let blockers =
        pair_blockers is_finite a b now kind stale_after_seconds max_leg_time_skew_seconds
          huge_spread_pct review_passed in
      let allowed = is_empty blockers in
      let same_pair = allowed && is_same relation && is_same_kind kind in
      let until =
        leg_valid_until stale_after_seconds now a ++ leg_valid_until stale_after_seconds now b in
      record {
        registry_revision = pos 0;
        comparison_kind = kind;
        identity_relation = relation;
        unit_status =
            if a.unit_status == b.unit_status && b.unit_status == "verified"
            then verified
            else unverified;
        quote_status = quote_status_of blockers;
        anomaly_status =
            if huge_spread_pct ≤? spread_of is_finite a b && is_same_kind kind
            then (if review_passed then passed else pending_review)
            else normal;
        buy_market = market_key a;
        sell_market = market_key b;
        buy_asset_id = a.asset_id;
        sell_asset_id = b.asset_id;
        buy_revision = a.binding_revision;
        sell_revision = b.binding_revision;
        buy_spec_fingerprint = a.binding_fingerprint;
        sell_spec_fingerprint = b.binding_fingerprint;
        quote_fingerprint = fingerprint a b;
        blockers = blockers;
        warnings = leg_warnings buy a ++ leg_warnings sell b;
        capabilities = record {
          raw_market_view = true;
          reference_comparison = is_same relation || not (is_same_kind kind);
          same_asset_opportunity = same_pair;
          strategy_alert = same_pair;
          automatic_card = same_pair;
          manual_card = allowed && (same_pair || not (is_same_kind kind));
        };
        validated_at = now;
        expires_at = earliest (now + 15 * second) until;
      }
