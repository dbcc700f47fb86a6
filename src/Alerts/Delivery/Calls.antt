-- ===== src/Alerts/Delivery/Calls.antt =====
-- What the calls of AlertEngine keep between a delivery and a later round (alert_engine.py).
use taoli.Base.{
  ℕ, ◌+◌, ◌≤◌, ◌<◌, String, ◌≡◌, ◌∙◌, ap, Bool, true, false, ◌&&◌, ◌||◌, some, List, [], ◌∷◌, arith,
  if◌then◌else◌, ◌==◌, string_eq, ==_iff, All, any, contains, get_or, Bool-cases, inl, inr, if-rule,
  ◌*◌,
}
use taoli.Base.Dict
use taoli.Base.Dict.{Dict}
use taoli.Base.Number.{Float}
use taoli.Models.Identity.{Time, second}
use taoli.Models.Market.{Opportunity}
use taoli.Models.Settings.{RiskSettings}
use taoli.Models.Alert.{AlertRule}
use taoli.Alerts.Engine.{
  AlertEngine, AlertMatch, Round, key_of, is_waiting, note_hit, is_due, visit, visit_all, scan,
  forget, forget_key, evaluate, start_round,
}
use taoli.Alerts.Engine.Due.{evaluate-IsDueAlert}
use taoli.Alerts.Engine.Reset.{hits_key}
use taoli.Alerts.Delivery.{retry_delay, record_delivery_result, record_sent, record_failure}

-- A round, or the result of a delivery.
pub data AlertCall (W : Type 0) : Type 0 where
  evaluating : List (Opportunity W) → List (AlertRule W) → Time → RiskSettings W → AlertCall W
  recording : AlertMatch W → String → Time → AlertCall W

module _ {W : Type 0} ⦃f : Float W⦄ where
  -- A `ValueError` leaves the engine as it was.
  pub apply_alert_call : AlertCall W → AlertEngine W → AlertEngine W
  apply_alert_call (evaluating os rules now settings) engine =
      (evaluate engine os rules now settings).0
  apply_alert_call (recording m status at) engine =
      get_or (record_delivery_result m status at engine) engine

  pub apply_alert_calls : List (AlertCall W) → AlertEngine W → AlertEngine W
  unfolding apply_alert_call
  apply_alert_calls [] engine = engine
  apply_alert_calls (call ∷ calls) engine = apply_alert_calls calls (apply_alert_call call engine)

  -- The last send under the key is not before `sent`.
  abbrev pub IsSent : Time → String → AlertEngine W → Type 0
  IsSent sent key engine =
      (latest : Time) × (Dict.get key engine.last_sent ≡ some latest) × (sent ≤ latest)

  abbrev pub IsNotEarlier : Time → AlertCall W → Type 0
  IsNotEarlier sent (evaluating os rules now settings) = Unit
  IsNotEarlier sent (recording m status at) = sent ≤ at

  record-IsSent :
      (m : AlertMatch W) (status : String) (sent at : Time) (key : String) (engine : AlertEngine W)
      → sent ≤ at
      → IsSent sent key engine
      → IsSent sent key (get_or (record_delivery_result m status at engine) engine)
  unfolding record_delivery_result record_sent record_failure
  record-IsSent m status sent at key engine later (latest, h, le) =
      let own = key_of m.rule m.opportunity in
      elim (Bool-cases (status == "sent")) [
        | inr other ↦ (latest, ground (arith, other, h), le)
        | inl sending ↦ elim (Bool-cases (own == key)) [
          | inl same ↦
              (at, ground (arith, sending, same, Dict.get-set own key at engine.last_sent), later)
          | inr other ↦ (
            latest,
            ground (arith, sending, other, h, Dict.get-set own key at engine.last_sent),
            le,
          )
        ]
      ]

  pub calls-IsSent :
      (calls : List (AlertCall W)) (sent : Time) (key : String) (engine : AlertEngine W)
      → All (IsNotEarlier sent) calls
      → IsSent sent key engine
      → IsSent sent key (apply_alert_calls calls engine)
  unfolding apply_alert_calls apply_alert_call
  calls-IsSent [] sent key engine later h = h
  calls-IsSent (evaluating os rules now settings ∷ calls) sent key engine later (latest, h, le) =
      calls-IsSent calls sent key _ later.1
        (latest, ap (Dict.get key) (evaluate-IsDueAlert engine now settings os rules).1 ∙ h, le)
  calls-IsSent (recording m status at ∷ calls) sent key engine later h =
      calls-IsSent calls sent key _ later.1 (record-IsSent m status sent at key engine later.0 h)

-- The engine waits for the time `until` before the next attempt under the key, after so many.
abbrev pub IsRetrying : {W : Type 0} → String → Time → ℕ → AlertEngine W → Type 0
IsRetrying key until attempts engine =
    (Dict.get key engine.retry_after ≡ some until)
    × (get_or (Dict.get key engine.retry_attempts) 0 ≡ attempts)

module _ {W : Type 0} ⦃f : Float W⦄ (current : Time) (settings : RiskSettings W)
    (key : String) where
  -- An enabled rule has a hit under the key.
  unfoldable pub is_hit : List (AlertRule W) → List (Opportunity W) → Bool
  is_hit rules os = any (λ rule. rule.enabled && any (hits_key current settings key rule) os) rules

  visit-active :
      (rule : AlertRule W) (round : Round W) (o : Opportunity W)
      → contains key (visit rule current settings round o).active_keys
        ≡ (contains key round.active_keys || hits_key current settings key rule o)
  unfolding visit hits_key
  visit-active rule round o = ground arith

  visit_all-active :
      (rule : AlertRule W) (os : List (Opportunity W)) (round : Round W)
      → contains key (visit_all rule current settings os round).active_keys
        ≡ (contains key round.active_keys || any (hits_key current settings key rule) os)
  unfolding visit_all
  visit_all-active rule [] round = ground arith
  visit_all-active rule (o ∷ os) round =
      let ih = visit_all-active rule os (visit rule current settings round o) in
      ground (arith, ih, visit-active rule round o)

  scan-active :
      (rules : List (AlertRule W)) (os : List (Opportunity W)) (round : Round W)
      → contains key (scan rules os current settings round).active_keys
        ≡ (contains key round.active_keys || is_hit rules os)
  unfolding scan is_hit
  scan-active [] os round = ground arith
  scan-active (rule ∷ rules) os round =
      scan-active rules os
        (if rule.enabled then visit_all rule current settings os round else round)
      ∙ ground (arith, visit_all-active rule os round)

  visit-IsRetrying :
      (rule : AlertRule W) (round : Round W) (o : Opportunity W) (until : Time) (attempts : ℕ)
      → current < until
      → IsRetrying key until attempts round.engine
      → IsRetrying key until attempts (visit rule current settings round o).engine
  unfolding visit note_hit is_due is_waiting
  visit-IsRetrying rule round o until attempts early (h, k) =
      let own = key_of rule o in
      (
        ground (arith, early, h, ==_iff own key, Dict.get-pop own key round.engine.retry_after),
        ground (arith, k),
      )

  visit_all-IsRetrying :
      (rule : AlertRule W) (os : List (Opportunity W)) (round : Round W) (until : Time)
      (attempts : ℕ)
      → current < until
      → IsRetrying key until attempts round.engine
      → IsRetrying key until attempts (visit_all rule current settings os round).engine
  unfolding visit_all
  visit_all-IsRetrying rule [] round until attempts early h = h
  visit_all-IsRetrying rule (o ∷ os) round until attempts early h =
      visit_all-IsRetrying rule os _ until attempts early
        (visit-IsRetrying rule round o until attempts early h)

  scan-IsRetrying :
      (rules : List (AlertRule W)) (os : List (Opportunity W)) (round : Round W) (until : Time)
      (attempts : ℕ)
      → current < until
      → IsRetrying key until attempts round.engine
      → IsRetrying key until attempts (scan rules os current settings round).engine
  unfolding scan
  scan-IsRetrying [] os round until attempts early h = h
  scan-IsRetrying (rule ∷ rules) os round until attempts early h =
      scan-IsRetrying rules os _ until attempts early (
        if-rule (λ r. IsRetrying key until attempts r.engine) rule.enabled _ round
          (λ on. visit_all-IsRetrying rule os round until attempts early h) (λ off. h))

  forget-IsRetrying :
      (active keys : List String) (engine : AlertEngine W) (until : Time) (attempts : ℕ)
      → contains key active ≡ true
      → IsRetrying key until attempts engine
      → IsRetrying key until attempts (forget active keys engine)
  unfolding forget forget_key
  forget-IsRetrying active [] engine until attempts stays h = h
  forget-IsRetrying active (k ∷ keys) engine until attempts stays h =
      forget-IsRetrying active keys (forget_key active k engine) until attempts stays
        (elim (Bool-cases (contains k active)) [
          | inl kept ↦ rw kept h
          | inr gone ↦
              let other : (k == key) ≡ false =
                ground (arith, ==_iff k key, gone, stays, ap (λ j. contains j active)) in
              (
                ground (arith, gone, h.0, other, Dict.get-pop k key engine.retry_after),
                ground (arith, gone, h.1, other, Dict.get-pop k key engine.retry_attempts),
              )
        ])

  evaluate-IsRetrying :
      (os : List (Opportunity W)) (rules : List (AlertRule W)) (engine : AlertEngine W)
      (until : Time) (attempts : ℕ)
      → current < until
      → is_hit rules os ≡ true
      → IsRetrying key until attempts engine
      → IsRetrying key until attempts (evaluate engine os rules current settings).0
  unfolding evaluate start_round
  evaluate-IsRetrying os rules engine until attempts early hit h =
      let round = scan rules os current settings (start_round engine) in
      forget-IsRetrying round.active_keys (Dict.keys round.engine.hits) round.engine until attempts
        (scan-active rules os (start_round engine) ∙ hit)
        (scan-IsRetrying rules os (start_round engine) until attempts early h)

-- A round before the time in which the key has a hit, or a delivery under another key.
abbrev pub IsDuring : {W : Type 0} → ⦃f : Float W⦄ → String → Time → AlertCall W → Type 0
IsDuring key until (evaluating os rules now settings) =
    (now < until) × (is_hit now settings key rules os ≡ true)
IsDuring key until (recording m status at) = (key_of m.rule m.opportunity == key) ≡ false

module _ {W : Type 0} ⦃f : Float W⦄ (key : String) (until : Time) (attempts : ℕ) where
  record-IsRetrying :
      (m : AlertMatch W) (status : String) (at : Time) (engine : AlertEngine W)
      → (key_of m.rule m.opportunity == key) ≡ false
      → IsRetrying key until attempts engine
      → IsRetrying key until attempts (get_or (record_delivery_result m status at engine) engine)
  unfolding record_delivery_result record_sent record_failure
  record-IsRetrying m status at engine other (h, k) =
      let own = key_of m.rule m.opportunity in
      let tries = get_or (Dict.get own engine.retry_attempts) 0 + 1 in
      let wait = at + retry_delay tries m.rule.cooldown_seconds * second in
      (
        ground (
          arith,
          other,
          h,
          Dict.get-set own key wait engine.retry_after,
          Dict.get-pop own key engine.retry_after,
        ),
        ground (
          arith,
          other,
          k,
          Dict.get-set own key tries engine.retry_attempts,
          Dict.get-pop own key engine.retry_attempts,
        ),
      )

  pub calls-IsRetrying :
      (calls : List (AlertCall W)) (engine : AlertEngine W)
      → All (IsDuring key until) calls
      → IsRetrying key until attempts engine
      → IsRetrying key until attempts (apply_alert_calls calls engine)
  unfolding apply_alert_calls apply_alert_call
  calls-IsRetrying [] engine during h = h
  calls-IsRetrying (evaluating os rules now settings ∷ calls) engine during h =
      calls-IsRetrying calls _ during.1 (
        evaluate-IsRetrying now settings key os rules engine until attempts during.0.0 during.0.1 h)
  calls-IsRetrying (recording m status at ∷ calls) engine during h =
      calls-IsRetrying calls _ during.1 (record-IsRetrying m status at engine during.0 h)
