-- ===== src/Alerts/Delivery/Retry.antt =====
-- What a delivery result means for the rounds after it (alert_engine.py).
use taoli.Base.{
  ℕ, zero, suc, ◌+◌, ◌*◌, ◌^◌, ◌≤◌, min, String, ◌≡◌, ◌≢◌, ◌∙◌, ap, some, List, arith,
  if◌then◌else◌, ◌==◌, string_eq, ==_iff, ==_self, All, All-imp, All-keep_if, keep_if, leb, get_or,
}
use taoli.Base.Dict
use taoli.Base.Dict.{Dict}
use taoli.Base.Number.{Float}
use taoli.Models.Identity.{Time, second}
use taoli.Models.Market.{Opportunity}
use taoli.Models.Settings.{RiskSettings}
use taoli.Models.Alert.{AlertRule}
use taoli.Alerts.Engine.{AlertEngine, AlertMatch, key_of, evaluate}
use taoli.Alerts.Engine.Due.{evaluate-IsDueAlert, waits_lem, retries_lem}
use taoli.Alerts.Delivery.Calls.{
  AlertCall, apply_alert_calls, IsNotEarlier, IsDuring, IsRetrying, calls-IsSent, calls-IsRetrying,
}
use taoli.Alerts.Delivery.{retry_delay, record_delivery_result, record_sent, record_failure}

-- The wait after the n-th failure in a row: a minute, doubled with each failure up to the fourth,
-- a quarter of an hour from the fifth on, and never more than the rule's cooldown.
pub retry_delay_exact :
    (n cooldown_seconds : ℕ)
    → retry_delay (suc n) cooldown_seconds
      ≡ min (if leb n 3 then 60 * 2 ^ n else 900) cooldown_seconds
unfolding retry_delay
retry_delay_exact zero c = omega arith
retry_delay_exact (suc zero) c = omega arith
retry_delay_exact (suc (suc zero)) c = omega arith
retry_delay_exact (suc (suc (suc zero))) c = omega arith
retry_delay_exact (suc (suc (suc (suc n)))) c = ground arith

module _ {W : Type 0} ⦃f : Float W⦄ where
  sent_result :
      (m : AlertMatch W) (sent : Time) (engine : AlertEngine W) {after : AlertEngine W}
      → record_delivery_result m "sent" sent engine ≡ some after
      → Dict.get (key_of m.rule m.opportunity) after.last_sent ≡ some sent
  unfolding record_delivery_result record_sent
  sent_result m sent engine h =
      let key = key_of m.rule m.opportunity in
      ground (arith, h, Dict.get-set key key sent engine.last_sent, ==_self key)

  failed_result :
      (m : AlertMatch W) (status : String) (at : Time) (engine : AlertEngine W)
      {after : AlertEngine W}
      → status ≢ "sent"
      → record_delivery_result m status at engine ≡ some after
      → let key = key_of m.rule m.opportunity in
        let attempts = get_or (Dict.get key engine.retry_attempts) 0 + 1 in
        IsRetrying key (at + retry_delay attempts m.rule.cooldown_seconds * second) attempts after
  unfolding record_delivery_result record_failure
  failed_result m status at engine other h =
      let key = key_of m.rule m.opportunity in
      let attempts = get_or (Dict.get key engine.retry_attempts) 0 + 1 in
      let until = at + retry_delay attempts m.rule.cooldown_seconds * second in
      let failing = ==_iff status "sent" in
      (
        ground (arith, h, failing, Dict.get-set key key until engine.retry_after, ==_self key),
        ground
            (arith, h, failing, Dict.get-set key key attempts engine.retry_attempts, ==_self key),
      )

  -- The alerts of a round that have the key of `m`.
  abbrev pub with_key : AlertMatch W → List (AlertMatch W) → List (AlertMatch W)
  with_key m ns = keep_if (λ n. key_of n.rule n.opportunity == key_of m.rule m.opportunity) ns

  -- After an alert was sent, whatever rounds and results of deliveries follow, the latter not earlier, a
  -- round returns another alert under the same key only once the cooldown of its rule has passed.
  pub sent_then_cooldown :
      (m : AlertMatch W) (sent now : Time) (engine after : AlertEngine W)
      (calls : List (AlertCall W)) (os : List (Opportunity W)) (rules : List (AlertRule W))
      (settings : RiskSettings W)
      → record_delivery_result m "sent" sent engine ≡ some after
      → All (IsNotEarlier sent) calls
      → All
          (λ n. sent + n.rule.cooldown_seconds * second ≤ now)
          (with_key m (evaluate (apply_alert_calls calls after) os rules now settings).1)
  sent_then_cooldown m sent now engine after calls os rules settings h later =
      let key = key_of m.rule m.opportunity in
      let at_last = apply_alert_calls calls after in
      let (latest, held, le) =
        calls-IsSent calls sent key after later (sent, sent_result m sent engine h, omega arith) in
      let alerts = (evaluate at_last os rules now settings).1 in
      All-keep_if _ _ alerts (
        All-imp _ _ alerts
          (λ n due same.
            let passed =
              waits_lem at_last n.rule (key_of n.rule n.opportunity) now latest
                (ap (λ key. Dict.get key at_last.last_sent) ((==_iff _ _).0 same) ∙ held)
                due.justified.not_waiting in
            omega (arith, passed, le))
          (evaluate-IsDueAlert at_last now settings os rules).0)

  abbrev pub attempts_before : AlertMatch W → AlertEngine W → ℕ
  attempts_before m engine = get_or (Dict.get (key_of m.rule m.opportunity) engine.retry_attempts) 0

  -- The time of the next attempt after a failure at a time, by the attempts before it.
  abbrev pub next_attempt : AlertMatch W → Time → ℕ → Time
  next_attempt m at attempts = at + retry_delay (attempts + 1) m.rule.cooldown_seconds * second

  -- After a failed or muted delivery the engine holds one attempt more under the key, and the retry wait
  -- for that many. Both last through rounds before the end of the wait in which an enabled rule has a
  -- hit under the key, and through the results of deliveries under other keys: a round that follows them
  -- returns an alert under the key only once the wait has passed.
  pub failed_then_retry :
      (m : AlertMatch W) (status : String) (at now : Time) (engine after : AlertEngine W)
      (calls : List (AlertCall W)) (os : List (Opportunity W)) (rules : List (AlertRule W))
      (settings : RiskSettings W)
      → status ≢ "sent"
      → record_delivery_result m status at engine ≡ some after
      → All
          (IsDuring (key_of m.rule m.opportunity) (next_attempt m at (attempts_before m engine)))
          calls
      → (get_or
            (Dict.get (key_of m.rule m.opportunity) (apply_alert_calls calls after).retry_attempts)
            0
          ≡ attempts_before m engine + 1)
        × All
            (λ n. next_attempt m at (attempts_before m engine) ≤ now)
            (with_key m (evaluate (apply_alert_calls calls after) os rules now settings).1)
  failed_then_retry m status at now engine after calls os rules settings other h during =
      let key = key_of m.rule m.opportunity in
      let attempts = attempts_before m engine in
      let at_last = apply_alert_calls calls after in
      let (held, counted) =
        calls-IsRetrying key (next_attempt m at attempts) (attempts + 1) calls after during
          (failed_result m status at engine other h) in
      let alerts = (evaluate at_last os rules now settings).1 in
      (
        counted,
        All-keep_if _ _ alerts (
            All-imp _ _ alerts
              (λ n due same.
                retries_lem at_last n.rule (key_of n.rule n.opportunity) now _
                  (ap (λ key. Dict.get key at_last.retry_after) ((==_iff _ _).0 same) ∙ held)
                  due.justified.not_waiting)
              (evaluate-IsDueAlert at_last now settings os rules).0),
      )
