-- ===== src/Risk/Labels.antt =====
-- Which conditions hide an opportunity by the labels of risk_labels.py.
use taoli.Base.{
  ap, String, ◌≡◌, refl, Bool, true, false, ◌&&◌, ◌||◌, none, some, map, List, [], ◌∷◌, ◌++◌, arith,
  any, contains, string_eq,
}
use taoli.Base.Text.{upper}
use taoli.Base.Number.{Float}
use taoli.Models.Identity.{Time}
use taoli.Models.Market.{Opportunity}
use taoli.Models.Settings.{RiskSettings}
use taoli.Risk.{
  append_if, validation_blocked, low_volume, stale_data, huge_spread, wide_spread, same_ticker,
  edge_too_small, missing_funding, risk_labels_for, apply_risk_labels, has_non_actionable_risk,
  non_actionable_risk_labels,
}

any-append :
    {A : Type 0} (test : A → Bool) (xs ys : List A)
    → any test (xs ++ ys) ≡ any test xs || any test ys
any-append test [] ys = refl
any-append test (x ∷ xs) ys = ground (arith, any-append test xs ys)

and-true : (b : Bool) → (b && true) ≡ b
and-true b = ground arith

and-false : (b : Bool) → (b && false) ≡ false
and-false b = ground arith

or-false : (b : Bool) → (b || false) ≡ b
or-false b = ground arith

abbrev hides : String → Bool
hides label = contains label non_actionable_risk_labels

any-append_if :
    (test : Bool) (label : String) (labels : List String)
    → any hides (append_if test label labels) ≡ any hides labels || test && hides label
any-append_if test label labels = ground (arith, any-append hides labels (label ∷ []))

module _ {W : Type 0} ⦃f : Float W⦄ (o : Opportunity W) (settings : RiskSettings W)
    (now : Time) where
  -- A labelled opportunity is hidden by default exactly if its validation is blocked, its known volume
  -- is low, its data are stale, its spread is huge and not reviewed or is wide, its ticker collides,
  -- its effective edge is too small, or the funding of a future leg is missing. Unknown volume,
  -- adverse funding and a deviation from the index alone do not hide it.
  pub hidden_iff : has_non_actionable_risk (apply_risk_labels o settings now) none ≡ (
      validation_blocked o settings
      || low_volume o settings
      || stale_data o settings now
      || huge_spread o settings
      || wide_spread o settings
      || same_ticker o settings none
      || edge_too_small o settings
      || missing_funding o settings)
  unfolding has_non_actionable_risk apply_risk_labels risk_labels_for
  hidden_iff = simp any-append_if (simp (and-true, and-false, or-false))

-- The collector's way to label: with the symbols of the settings, in upper case, given.
module _ {W : Type 0} ⦃f : Float W⦄ (o : Opportunity W) (settings : RiskSettings W)
    (now : Time) where
  risk_labels_for-collisions :
      risk_labels_for o settings now (some (map upper settings.ticker_collision_symbols))
      ≡ risk_labels_for o settings now none
  unfolding risk_labels_for same_ticker
  risk_labels_for-collisions = refl

  pub apply_risk_labels-collisions :
      record o {
        risk_labels =
            risk_labels_for o settings now (some (map upper settings.ticker_collision_symbols));
      }
      ≡ apply_risk_labels o settings now
  unfolding apply_risk_labels
  apply_risk_labels-collisions = ap (λ l. record o { risk_labels = l }) risk_labels_for-collisions

  pub apply_risk_labels-eq :
      record o { risk_labels = risk_labels_for o settings now none }
      ≡ apply_risk_labels o settings now
  unfolding apply_risk_labels
  apply_risk_labels-eq = refl
