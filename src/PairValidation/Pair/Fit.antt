-- ===== src/PairValidation/Pair/Fit.antt =====
-- What a leg needs to be traded, and what two such legs have in common (pair_validation.py).
use taoli.Base.{
  ℕ, String, Bool, true, false, not, ◌&&◌, ◌||◌, Option, none, some, List, [], ◌∷◌, ◌++◌,
  if◌then◌else◌, ◌==◌, string_eq, ==_iff, is_empty, is_some, ◌≡◌, refl, ◌∙◌, ap, arith, Bool-cases,
  inl, inr,
}
use taoli.Base.Number.{Float, ◌≤?◌}
use taoli.Models.Identity.{
  Time, ComparisonKind, IdentityRelation, same, different, unresolved, conflict, IssueLeg,
  ValidationIssue,
}
use taoli.Models.Market.{MarketSnapshot}
use taoli.PairValidation.{
  is_given, market_key, issue_if, identity_verified, is_reference_only, is_invalid_book, is_stale,
  lacks_conversion, leg_blockers,
}
use taoli.PairValidation.Pair.{
  is_same, is_different, is_same_kind, texts_differ, texts_agree, both_verified, relation_of,
  valuations_differ, is_skewed, spread_of, same_asset_eligible,
}

pub is_empty-issue_if :
    (test : Bool) (i : ValidationIssue) (issues : List ValidationIssue)
    → is_empty (issue_if test i issues) ≡ is_empty issues && not test
is_empty-issue_if test i [] = ground arith
is_empty-issue_if test i (x ∷ xs) = ground arith

pub is_empty-append :
    {A : Type 0} (xs ys : List A) → is_empty (xs ++ ys) ≡ is_empty xs && is_empty ys
is_empty-append [] ys = refl
is_empty-append (x ∷ xs) ys = refl

-- The nine tests of a leg, and the tests of a pair, as they stand in a list of blockers.
pub pair_tests :
    (fit_a fit_b v c k skew h reviewed : Bool) (r : IdentityRelation)
    → ((((((fit_a && fit_b) && not (is_different r && k)) && not v)
              && not (c && not (is_same r) && k))
            && not skew)
          && not (h && k && not reviewed))
        && is_same (if c && not (is_same r) && k then conflict else r)
        && k
      ≡ k && (fit_a && fit_b && is_same r) && not v && not skew && (not h || reviewed)
pair_tests fit_a fit_b v c k skew h reviewed r = ground arith

leg_tests :
    (key c known unit ref inv inverse stale lacks : Bool)
    → (known ≡ true → c ≡ false)
    → not (not key)
        && not c
        && not (not c && not known)
        && not (not unit)
        && not ref
        && not inv
        && not inverse
        && not stale
        && not lacks
      ≡ key && known && unit && not ref && not inv && not inverse && not stale && not lacks
leg_tests key c known unit ref inv inverse stale lacks h = ground (arith, h)

relation_tests :
    (kinds ids known_a known_b id_a id_b conflicted : Bool)
    → known_a ≡ true
    → known_b ≡ true
    → id_a ≡ true
    → id_b ≡ true
    → is_same (
        if kinds || ids
        then different
        else if (known_a && known_b) && id_a && id_b
        then same
        else if conflicted
        then conflict
        else unresolved)
      ≡ not ids && not kinds
relation_tests kinds ids known_a known_b id_a id_b conflicted h₁ h₂ h₃ h₄ =
    ground (arith, h₁, h₂, h₃, h₄)

eligible_tests :
    (conflict_a conflict_b kinds ids collision known_a known_b given agree enforced unit_a
      unit_b : Bool)
    → conflict_a ≡ false
    → conflict_b ≡ false
    → kinds ≡ false
    → not ids ≡ true
    → known_a ≡ true
    → known_b ≡ true
    → given ≡ true
    → agree ≡ true
    → unit_a ≡ true
    → unit_b ≡ true
    → (if conflict_a || conflict_b
        then false
        else if kinds
        then false
        else if ids
        then false
        else if collision && not ((known_a && known_b) && given && agree)
        then false
        else if not enforced
        then true
        else ((known_a && known_b) && agree && unit_a && unit_b))
      ≡ true
eligible_tests ca cb kinds ids col ka kb given agree enforced ua ub h₁ h₂ h₃ h₄ h₅ h₆ h₇ h₈ h₉ h₁₀ =
    ground (arith, h₁, h₂, h₃, h₄, h₅, h₆, h₇, h₈, h₉, h₁₀)

given_differ :
    (x y : Option String)
    → is_given x ≡ true
    → is_given y ≡ true
    → not (texts_differ x y) ≡ texts_agree x y
given_differ none y h k = ground (arith, h)
given_differ (some x) none h k = ground (arith, k)
given_differ (some x) (some y) h k = ground (arith, h, k)

relation-same :
    {W : Type 0} (a b : MarketSnapshot W)
    → (a.identity_status == "verified") ≡ true
    → (b.identity_status == "verified") ≡ true
    → is_given a.asset_id ≡ true
    → is_given b.asset_id ≡ true
    → is_same (relation_of a b)
      ≡ texts_agree a.asset_id b.asset_id && not (texts_differ a.asset_kind b.asset_kind)
unfolding relation_of both_verified
relation-same a b known_a known_b id_a id_b =
    relation_tests _ _ _ _ _ _ _ known_a known_b id_a id_b
    ∙ ap (λ agree. agree && not (texts_differ a.asset_kind b.asset_kind))
        (given_differ a.asset_id b.asset_id id_a id_b)

module _ {W : Type 0} ⦃f : Float W⦄ (is_finite : W → Bool) where
  -- A leg that can be traded: an exact market, a verified identity with evidence that still holds, a
  -- verified unit, a real and valid order book of a contract that is not inverse, a fresh quote, and a
  -- quote currency that converts.
  unfoldable pub is_fit : ℕ → Time → MarketSnapshot W → Bool
  is_fit stale_after_seconds now row =
      is_some (market_key row)
      && identity_verified now row
      && row.unit_status == "verified"
      && not (is_reference_only row)
      && not (is_invalid_book is_finite row)
      && not (row.contract_kind == "inverse")
      && not (is_stale stale_after_seconds now row)
      && not (lacks_conversion now row)

  verified-no_conflict :
      (now : Time) (row : MarketSnapshot W)
      → identity_verified now row ≡ true
      → (row.identity_status == "conflict") ≡ false
  unfolding identity_verified
  verified-no_conflict now row h =
      let status : row.identity_status ≡ "verified" =
        (==_iff row.identity_status "verified").0 (ground (arith, h)) in
      ap (λ status. status == "conflict") status

  pub leg_blockers-is_empty :
      (stale : ℕ) (now : Time) (leg : IssueLeg) (row : MarketSnapshot W)
      → is_empty (leg_blockers is_finite stale now leg row) ≡ is_fit stale now row
  unfolding leg_blockers is_fit
  leg_blockers-is_empty stale now leg row =
      simp is_empty-issue_if (leg_tests _ _ _ _ _ _ _ _ _ (verified-no_conflict now row))

  fit-unit :
      (stale : ℕ) (now : Time) (row : MarketSnapshot W)
      → is_fit stale now row ≡ true
      → ((row.unit_status == "verified") ≡ true) × ((row.identity_status == "conflict") ≡ false)
  unfolding is_fit
  fit-unit stale now row h = (ground (arith, h), verified-no_conflict now row (ground (arith, h)))

  fit-verified :
      (stale : ℕ) (now : Time) (row : MarketSnapshot W)
      → is_fit stale now row ≡ true
      → ((row.identity_status == "verified") ≡ true) × (is_given row.asset_id ≡ true)
  unfolding is_fit identity_verified
  fit-verified stale now row h = ground (arith, h)

  -- What two fit legs say of their assets.
  pub fit-relation :
      (stale : ℕ) (now : Time) (a b : MarketSnapshot W)
      → is_fit stale now a && is_fit stale now b && is_same (relation_of a b)
        ≡ is_fit stale now a
          && is_fit stale now b
          && (texts_agree a.asset_id b.asset_id && not (texts_differ a.asset_kind b.asset_kind))
  fit-relation stale now a b = elim (Bool-cases (is_fit stale now a)) [
    | inr unfit ↦ rw unfit refl
    | inl fit_a ↦ elim (Bool-cases (is_fit stale now b)) [
      | inr unfit ↦ rw unfit (ground arith)
      | inl fit_b ↦
          let (known_a, id_a) = fit-verified stale now a fit_a in
          let (known_b, id_b) = fit-verified stale now b fit_b in
          ap (λ s. is_fit stale now a && is_fit stale now b && s)
            (relation-same a b known_a known_b id_a id_b)
    ]
  ]

  pub fit-eligible :
      (stale : ℕ) (now : Time) (a b : MarketSnapshot W)
      → is_fit stale now a ≡ true
      → is_fit stale now b ≡ true
      → texts_agree a.asset_id b.asset_id ≡ true
      → texts_differ a.asset_kind b.asset_kind ≡ false
      → same_asset_eligible a b ≡ true
  unfolding same_asset_eligible both_verified
  fit-eligible stale now a b fit_a fit_b agree kinds =
      let (known_a, id_a) = fit-verified stale now a fit_a in
      let (known_b, id_b) = fit-verified stale now b fit_b in
      let (unit_a, calm_a) = fit-unit stale now a fit_a in
      let (unit_b, calm_b) = fit-unit stale now b fit_b in
      eligible_tests _ _ _ _ _ _ _ _ _ _ _ _ calm_a calm_b kinds
        (given_differ a.asset_id b.asset_id id_a id_b ∙ agree) known_a known_b id_a agree unit_a
        unit_b

  -- Whether a pair may be traded as one asset: it was asked for as such, both legs are fit, their
  -- assets have one identifier and no two kinds, their valuations are comparable, their quotes are of
  -- the same time, and a large spread was reviewed.
  unfoldable pub is_tradable :
      MarketSnapshot W → MarketSnapshot W → Time → ComparisonKind → ℕ → ℕ → W → Bool → Bool
  is_tradable a b now kind stale skew huge reviewed =
      is_same_kind kind
      && (is_fit stale now a
          && is_fit stale now b
          && (texts_agree a.asset_id b.asset_id && not (texts_differ a.asset_kind b.asset_kind)))
      && not (valuations_differ a b)
      && not (is_skewed skew a b)
      && (not (huge ≤? spread_of is_finite a b) || reviewed)
