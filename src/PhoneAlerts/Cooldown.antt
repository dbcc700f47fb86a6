-- ===== src/PhoneAlerts/Cooldown.antt =====
-- What a round of phone alerts returns and records (phone_price_alerts.py).
use taoli.Base.{
  ◌+◌, ◌*◌, ◌≤◌, String, Bool, true, false, some, List, [], ◌∷◌, if◌then◌else◌, ◌==◌, string_eq,
  ==_iff, ==_self, ◌≡◌, refl, ◌∙◌, ap, sym, arith, All, All-imp, keep_if, Bool-cases, inl, inr,
}
use mathlib.Core.Path.{subst}
use taoli.Base.Dict
use taoli.Base.Dict.{Dict}
use taoli.Base.Number.{Float}
use taoli.Models.Identity.{Time, second}
use taoli.Models.Market.{MarketSnapshot}
use taoli.Models.Alert.{PhonePriceAlertRule}
use taoli.PhoneAlerts.{PhonePriceAlertMatch, LastSent, is_cooling, evaluate}
use taoli.PhoneAlerts.Found.{IsTriggered, match_rule-cases, evaluate-none, evaluate-some}

if-All :
    {A : Type 0} (P : A → Type 0) (b : Bool) (x : A) (xs : List A)
    → (b ≡ true → P x)
    → All P xs
    → All P (if b then x ∷ xs else xs)
if-All P true x xs h k = (h refl, k)
if-All P false x xs h k = k

-- The time recorded under the key is not before `sent`.
abbrev IsHeld : Time → String → LastSent → Type 0
IsHeld sent key last_sent =
    (latest : Time) × (Dict.get key last_sent ≡ some latest) × (sent ≤ latest)

-- A round of the engine: the markets, the rules and the time.
abbrev pub PhoneRound : Type 0 → Type 0
PhoneRound W = List (MarketSnapshot W) × List (PhonePriceAlertRule W) × Time

module _ {W : Type 0} ⦃f : Float W⦄ where
  pub record IsAlert (after : LastSent) (current : Time) (m : PhonePriceAlertMatch W) : Type 0 where
    pub triggered : IsTriggered m
    pub enabled : m.rule.enabled ≡ true
    pub recorded : Dict.get m.rule.id after ≡ some current

  -- The time that is recorded under a key is the round's from the first match on.
  evaluate-keeps :
      (markets : List (MarketSnapshot W)) (rules : List (PhonePriceAlertRule W)) (current : Time)
      (last_sent : LastSent) (key : String)
      → Dict.get key last_sent ≡ some current
      → Dict.get key (evaluate markets rules current last_sent).0 ≡ some current
  unfolding evaluate
  evaluate-keeps markets [] current last_sent key h = h
  evaluate-keeps markets (rule ∷ rules) current last_sent key h =
      elim (match_rule-cases rule current markets last_sent) [
        | inl none_found ↦
            rw (evaluate-none markets rule rules current last_sent none_found)
              (evaluate-keeps markets rules current last_sent key h)
        | inr (m, found, _, _, _, _) ↦
            rw (evaluate-some markets rule rules current last_sent found) (
              evaluate-keeps markets rules current (Dict.set rule.id current last_sent) key
                (ground (arith, h, Dict.get-set rule.id key current last_sent)))
      ]

  -- Every match of a round comes from an enabled rule, its market fits the rule and its price crosses
  -- the threshold, and the round records its time under the rule.
  pub evaluate-IsAlert :
      (markets : List (MarketSnapshot W)) (rules : List (PhonePriceAlertRule W)) (current : Time)
      (last_sent : LastSent)
      → let (after, matches) = evaluate markets rules current last_sent in
        All (IsAlert after current) matches
  unfolding evaluate
  evaluate-IsAlert markets [] current last_sent = tt
  evaluate-IsAlert markets (rule ∷ rules) current last_sent =
      elim (match_rule-cases rule current markets last_sent) [
        | inl none_found ↦
            rw (evaluate-none markets rule rules current last_sent none_found)
              (evaluate-IsAlert markets rules current last_sent)
        | inr (m, found, triggered, same, on, _) ↦
            let sent = Dict.set rule.id current last_sent in
            let now_sent : Dict.get rule.id sent ≡ some current =
              ground (arith, Dict.get-set rule.id rule.id current last_sent, ==_self rule.id) in
            rw (evaluate-some markets rule rules current last_sent found) (
              record {
                triggered = triggered;
                enabled = ap (λ r. r.enabled) same ∙ on;
                recorded =
                    ap (λ r. Dict.get r.id (evaluate markets rules current sent).0) same
                    ∙ evaluate-keeps markets rules current sent rule.id now_sent;
              },
              evaluate-IsAlert markets rules current sent,
            )
      ]

  is_cooling_lem :
      (rule : PhonePriceAlertRule W) (current latest : Time) (last_sent : LastSent) {key : String}
      → rule.id ≡ key
      → Dict.get key last_sent ≡ some latest
      → is_cooling last_sent rule current ≡ false
      → latest + rule.cooldown_seconds * second ≤ current
  unfolding is_cooling
  is_cooling_lem rule current latest last_sent same h ready = ground (arith, same, h, ready)

  cooldown-le :
      {r₁ r₂ : PhonePriceAlertRule W} (sent current : Time)
      → r₁ ≡ r₂
      → sent + r₂.cooldown_seconds * second ≤ current
      → sent + r₁.cooldown_seconds * second ≤ current
  cooldown-le sent current same h =
      subst (λ r. sent + r.cooldown_seconds * second ≤ current) (sym same) h

  -- A time that is recorded under an identifier holds back the alerts under it.
  recorded_then_cooldown :
      (markets : List (MarketSnapshot W)) (rules : List (PhonePriceAlertRule W))
      (current sent latest : Time) (last_sent : LastSent) (key : String)
      → Dict.get key last_sent ≡ some latest
      → sent ≤ latest
      → All
          (λ m. sent + m.rule.cooldown_seconds * second ≤ current)
          (keep_if (λ m. m.rule.id == key) (evaluate markets rules current last_sent).1)
  unfolding evaluate
  recorded_then_cooldown markets [] current sent latest last_sent key h le = tt
  recorded_then_cooldown markets (rule ∷ rules) current sent latest last_sent key h le =
      elim (match_rule-cases rule current markets last_sent) [
        | inl none_found ↦
            rw (evaluate-none markets rule rules current last_sent none_found)
              (recorded_then_cooldown markets rules current sent latest last_sent key h le)
        | inr (m, found, _, same, _, ready) ↦
            rw (evaluate-some markets rule rules current last_sent found)
              (elim (Bool-cases (rule.id == key)) [
                | inl own ↦
                    let passed =
                      is_cooling_lem rule current latest last_sent ((==_iff rule.id key).0 own) h
                        ready in
                    if-All _ _ m _ (λ _. cooldown-le sent current same (omega (arith, passed, le)))
                      (recorded_then_cooldown markets rules current sent current _ key
                        (ground (arith, own, Dict.get-set rule.id key current last_sent))
                        (omega (arith, passed, le)))
                | inr other ↦
                    if-All _ _ m _ (λ own. ground (arith, own, other, ap (λ r. r.id == key) same))
                      (recorded_then_cooldown markets rules current sent latest _ key
                        (ground (arith, other, h, Dict.get-set rule.id key current last_sent)) le)
              ])
      ]

  -- A round keeps what is recorded under a key, or records its own time there, which is not earlier.
  evaluate-holds :
      (markets : List (MarketSnapshot W)) (rules : List (PhonePriceAlertRule W))
      (current sent : Time) (last_sent : LastSent) (key : String)
      → IsHeld sent key last_sent
      → IsHeld sent key (evaluate markets rules current last_sent).0
  unfolding evaluate
  evaluate-holds markets [] current sent last_sent key h = h
  evaluate-holds markets (rule ∷ rules) current sent last_sent key (latest, h, le) =
      elim (match_rule-cases rule current markets last_sent) [
        | inl none_found ↦
            rw (evaluate-none markets rule rules current last_sent none_found)
              (evaluate-holds markets rules current sent last_sent key (latest, h, le))
        | inr (m, found, _, same, _, ready) ↦
            rw (evaluate-some markets rule rules current last_sent found) (
              evaluate-holds markets rules current sent (Dict.set rule.id current last_sent) key
                (elim (Bool-cases (rule.id == key)) [
                  | inl own ↦
                      let passed =
                        is_cooling_lem rule current latest last_sent ((==_iff rule.id key).0 own) h
                          ready in
                      (
                        current,
                        ground (arith, own, Dict.get-set rule.id key current last_sent),
                        omega (arith, passed, le),
                      )
                  | inr other ↦ (
                    latest,
                    ground (arith, other, h, Dict.get-set rule.id key current last_sent),
                    le,
                  )
                ]))
      ]

  pub evaluate_all : List (PhoneRound W) → LastSent → LastSent
  evaluate_all [] last_sent = last_sent
  evaluate_all ((markets, rules, current) ∷ rounds) last_sent =
      evaluate_all rounds (evaluate markets rules current last_sent).0

  evaluate_all-holds :
      (rounds : List (PhoneRound W)) (sent : Time) (last_sent : LastSent) (key : String)
      → IsHeld sent key last_sent
      → IsHeld sent key (evaluate_all rounds last_sent)
  unfolding evaluate_all
  evaluate_all-holds [] sent last_sent key h = h
  evaluate_all-holds ((markets, rules, current) ∷ rounds) sent last_sent key h =
      evaluate_all-holds rounds sent _ key
        (evaluate-holds markets rules current sent last_sent key h)

  -- After an alert of a round at the time `sent`, whatever rounds follow, a later round returns another
  -- alert under the same identifier only once the cooldown of its rule has passed since `sent`.
  pub evaluate-cooldown :
      (markets : List (MarketSnapshot W)) (rules : List (PhonePriceAlertRule W)) (sent : Time)
      (last_sent : LastSent) (rounds : List (PhoneRound W))
      (later_markets : List (MarketSnapshot W)) (later_rules : List (PhonePriceAlertRule W))
      (current : Time)
      → let (after, alerts) = evaluate markets rules sent last_sent in
        All
          (λ m.
            All
              (λ n. sent + n.rule.cooldown_seconds * second ≤ current)
              (keep_if
                (λ n. n.rule.id == m.rule.id)
                (evaluate later_markets later_rules current (evaluate_all rounds after)).1))
          alerts
  evaluate-cooldown markets rules sent last_sent rounds later_markets later_rules current =
      let (after, alerts) = evaluate markets rules sent last_sent in
      All-imp _ _ alerts
        (λ m alert.
          let (latest, h, le) =
            evaluate_all-holds rounds sent after m.rule.id (sent, alert.recorded, omega arith) in
          recorded_then_cooldown later_markets later_rules current sent latest
            (evaluate_all rounds after) m.rule.id h le)
        (evaluate-IsAlert markets rules sent last_sent)
