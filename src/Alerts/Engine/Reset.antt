-- ===== src/Alerts/Engine/Reset.antt =====
-- A key that no opportunity of the round matches starts again from no hits (alert_engine.py).
use taoli.Base.{
  String, ◌≡◌, refl, Bool, true, false, not, ◌&&◌, none, List, [], ◌∷◌, arith, if◌then◌else◌, ◌==◌,
  string_eq, ==_iff, All, All-imp, contains,
}
use taoli.Base.Dict
use taoli.Base.Dict.{Dict}
use taoli.Base.Number.{Float}
use taoli.Models.Identity.{Time}
use taoli.Models.Market.{Opportunity}
use taoli.Models.Settings.{RiskSettings}
use taoli.Models.Alert.{AlertRule}
use taoli.Alerts.Match.{suppresses_sf_negative_funding, opportunity_matches_rule}
use taoli.Alerts.Engine.{AlertEngine, Round, key_of, visit, visit_all, scan, evaluate, start_round}
use taoli.Alerts.Engine.Due.{forget_lem}
use taoli.Alerts.Engine.Justified.{hits_of}

contains-keys :
    {V : Type 0} (d : Dict String V) (key : String)
    → contains key (Dict.keys d) ≡ false
    → Dict.get key d ≡ none
unfolding Dict.get
contains-keys [] key h = refl
contains-keys ((k, v) ∷ d) key h = ground (arith, contains-keys d key, ==_iff k key, ==_iff key k)

module _ {W : Type 0} ⦃f : Float W⦄ (current : Time) (settings : RiskSettings W)
    (key : String) where
  -- The opportunity counts as a hit of the rule, under this key.
  unfoldable pub hits_key : AlertRule W → Opportunity W → Bool
  hits_key rule o =
      not (suppresses_sf_negative_funding rule o)
      && opportunity_matches_rule rule o current settings
      && key == key_of rule o

  abbrev IsInactive : Round W → Type 0
  IsInactive round = contains key round.active_keys ≡ false

  visit-IsInactive :
      (rule : AlertRule W) (round : Round W) (o : Opportunity W)
      → hits_key rule o ≡ false
      → IsInactive round
      → IsInactive (visit rule current settings round o)
  unfolding visit hits_key
  visit-IsInactive rule round o miss h = ground (arith, miss, h)

  visit_all-IsInactive :
      (rule : AlertRule W) (os : List (Opportunity W)) (round : Round W)
      → All (λ o. hits_key rule o ≡ false) os
      → IsInactive round
      → IsInactive (visit_all rule current settings os round)
  unfolding visit_all
  visit_all-IsInactive rule [] round miss h = h
  visit_all-IsInactive rule (o ∷ os) round miss h =
      visit_all-IsInactive rule os _ miss.1 (visit-IsInactive rule round o miss.0 h)

  if-IsInactive :
      (b : Bool) (r₁ r₂ : Round W)
      → (b ≡ true → IsInactive r₁)
      → IsInactive r₂
      → IsInactive (if b then r₁ else r₂)
  if-IsInactive true r₁ r₂ h k = h refl
  if-IsInactive false r₁ r₂ h k = k

  -- No enabled rule has a hit under the key.
  abbrev pub IsMissed : List (AlertRule W) → List (Opportunity W) → Type 0
  IsMissed rules os = All (λ rule. All (λ o. (rule.enabled && hits_key rule o) ≡ false) os) rules

  All-misses :
      (rule : AlertRule W) (os : List (Opportunity W))
      → rule.enabled ≡ true
      → All (λ o. (rule.enabled && hits_key rule o) ≡ false) os
      → All (λ o. hits_key rule o ≡ false) os
  All-misses rule os on = All-imp _ _ os (λ o miss. ground (arith, on, miss))

  scan-IsInactive :
      (rules : List (AlertRule W)) (os : List (Opportunity W)) (round : Round W)
      → IsMissed rules os
      → IsInactive round
      → IsInactive (scan rules os current settings round)
  unfolding scan
  scan-IsInactive [] os round miss h = h
  scan-IsInactive (rule ∷ rules) os round miss h = scan-IsInactive rules os _ miss.1 (
      if-IsInactive rule.enabled _ round
        (λ on. visit_all-IsInactive rule os round (All-misses rule os on miss.0) h) h)

  -- A key under which no enabled rule has a hit in the round has no hits after it, so that hits count
  -- only in a row.
  pub evaluate-resets :
      (engine : AlertEngine W) (os : List (Opportunity W)) (rules : List (AlertRule W))
      → IsMissed rules os
      → hits_of (evaluate engine os rules current settings).0 key ≡ 0
  unfolding evaluate start_round
  evaluate-resets engine os rules miss =
      let round = scan rules os current settings (start_round engine) in
      let inactive = scan-IsInactive rules os (start_round engine) miss refl in
      let (kept, _) = forget_lem round.active_keys (Dict.keys round.engine.hits) round.engine key in
      ground (arith, kept, inactive, contains-keys round.engine.hits key)
