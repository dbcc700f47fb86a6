-- ===== src/PhoneAlerts/Found.antt =====
-- What the inner loop of a round of phone alerts finds (phone_price_alerts.py).
use taoli.Base.{
  Bool, true, false, not, Option, none, some, List, [], ◌∷◌, if◌then◌else◌, string_eq, ◌⊎◌, ◌≡◌,
  refl, ◌∙◌, arith, Bool-cases, inl, inr, Option-cases,
}
use mathlib.Core.Path.{subst}
use taoli.Base.Dict
use taoli.Base.Dict.{Dict}
use taoli.Base.Number.{Float}
use taoli.Models.Identity.{Time}
use taoli.Models.Market.{MarketSnapshot}
use taoli.Models.Alert.{PhonePriceAlertRule}
use taoli.PhoneAlerts.{
  PhonePriceAlertMatch, LastSent, market_matches_rule, resolve_price, price_crosses_threshold,
  is_cooling, match_rule, first_match, evaluate,
}

if-on : {A : Type 0} (b : Bool) (x y : A) → b ≡ true → (if b then x else y) ≡ x
if-on b x y on = ground (arith, on)

if-off : {A : Type 0} (b : Bool) (x y : A) → b ≡ false → (if b then x else y) ≡ y
if-off b x y off = ground (arith, off)

module _ {W : Type 0} ⦃f : Float W⦄ where
  -- A match of a rule: its market fits, and the price of the rule's field crosses the threshold.
  pub record IsTriggered (m : PhonePriceAlertMatch W) : Type 0 where
    pub market_fits : market_matches_rule m.market m.rule ≡ true
    pub price_is :
        (m.observed_price, m.resolved_price_field) ≡ resolve_price m.market m.rule.price_field
    pub crosses : price_crosses_threshold m.rule m.observed_price ≡ true

  -- What the inner loop returns for a rule.
  IsFound : PhonePriceAlertRule W → Time → LastSent → Option (PhonePriceAlertMatch W) → Type 0
  IsFound rule current last_sent none = Unit
  IsFound rule current last_sent (some m) =
      IsTriggered m × (m.rule ≡ rule) × (is_cooling last_sent rule current ≡ false)

  if-IsFound :
      (rule : PhonePriceAlertRule W) (current : Time) (last_sent : LastSent) (b : Bool)
      (x y : Option (PhonePriceAlertMatch W))
      → IsFound rule current last_sent x
      → (b ≡ false → IsFound rule current last_sent y)
      → IsFound rule current last_sent (if b then x else y)
  if-IsFound rule current last_sent true x y h k = h
  if-IsFound rule current last_sent false x y h k = k refl

  abbrev match_of : PhonePriceAlertRule W → MarketSnapshot W → PhonePriceAlertMatch W
  match_of rule market = record {
    rule = rule;
    market = market;
    observed_price = (resolve_price market rule.price_field).0;
    resolved_price_field = (resolve_price market rule.price_field).1;
  }

  first_match-IsFound :
      (rule : PhonePriceAlertRule W) (current : Time) (markets : List (MarketSnapshot W))
      (last_sent : LastSent)
      → IsFound rule current last_sent (first_match rule current markets last_sent)
  unfolding first_match IsFound
  first_match-IsFound rule current [] last_sent = tt
  first_match-IsFound rule current (market ∷ markets) last_sent =
      let ih = first_match-IsFound rule current markets last_sent in
      if-IsFound rule current last_sent (not (market_matches_rule market rule)) _ _ ih (λ fits.
        if-IsFound rule current last_sent
          (not (price_crosses_threshold rule (resolve_price market rule.price_field).0)) _ _ ih
          (λ crosses.
            if-IsFound rule current last_sent (is_cooling last_sent rule current) _
              (some (match_of rule market)) ih
              (λ ready. (
                record {
                  market_fits = ground (arith, fits);
                  price_is = refl;
                  crosses = ground (arith, crosses);
                },
                refl,
                ready,
              ))))

  -- A rule that the round passes over, or one that matches.
  pub match_rule-cases :
      (rule : PhonePriceAlertRule W) (current : Time) (markets : List (MarketSnapshot W))
      (last_sent : LastSent)
      → (match_rule rule current markets last_sent ≡ none)
        ⊎ ((m : PhonePriceAlertMatch W) × (match_rule rule current markets last_sent ≡ some m)
            × IsTriggered m
            × (m.rule ≡ rule)
            × (rule.enabled ≡ true)
            × (is_cooling last_sent rule current ≡ false))
  unfolding match_rule IsFound
  match_rule-cases rule current markets last_sent =
      let first = first_match rule current markets last_sent in
      elim (Bool-cases rule.enabled) [
        | inr off ↦ inl (if-off rule.enabled first none off)
        | inl on ↦ elim (Option-cases first) [
          | inl missing ↦ inl (if-on rule.enabled first none on ∙ missing)
          | inr (m, found) ↦
              let (triggered, same, ready) =
                subst (IsFound rule current last_sent) found
                  (first_match-IsFound rule current markets last_sent) in
              inr (m, if-on rule.enabled first none on ∙ found, triggered, same, on, ready)
        ]
      ]

  pub evaluate-none :
      (markets : List (MarketSnapshot W)) (rule : PhonePriceAlertRule W)
      (rules : List (PhonePriceAlertRule W)) (current : Time) (last_sent : LastSent)
      → match_rule rule current markets last_sent ≡ none
      → evaluate markets (rule ∷ rules) current last_sent ≡ evaluate markets rules current last_sent
  unfolding evaluate
  evaluate-none markets rule rules current last_sent h = rw (evaluate, h) refl

  pub evaluate-some :
      (markets : List (MarketSnapshot W)) (rule : PhonePriceAlertRule W)
      (rules : List (PhonePriceAlertRule W)) (current : Time) (last_sent : LastSent)
      {m : PhonePriceAlertMatch W}
      → match_rule rule current markets last_sent ≡ some m
      → evaluate markets (rule ∷ rules) current last_sent ≡ (
        (evaluate markets rules current (Dict.set rule.id current last_sent)).0,
        m ∷ (evaluate markets rules current (Dict.set rule.id current last_sent)).1,
      )
  unfolding evaluate
  evaluate-some markets rule rules current last_sent h = rw (evaluate, h) refl
