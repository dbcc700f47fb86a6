-- ===== src/Examples/Alerts.antt =====
-- One rule that is due at noon, sent or failed, and asked again.
use taoli.Base.{
  ◌+◌, ◌*◌, ◌≤◌, String, ◌≡◌, refl, true, none, some, List, [], ◌∷◌, All, get_or, length, ◌||◌,
  string_eq, arith, ==_iff,
}
use taoli.Base.Dict
use taoli.Base.Number.{ℤ, fixed_float}
use taoli.Models.Identity.{Time, second}
use taoli.Risk.{
  has_non_actionable_risk, apply_risk_labels, validation_blocked, low_volume, stale_data,
  huge_spread, wide_spread, same_ticker, edge_too_small, missing_funding,
}
use taoli.Risk.Labels.{hidden_iff}
use taoli.Edge.{
  effective_open_edge_pct, known_volume_24h_usdt, funding_edge_pct, combined_open_edge_pct,
  next_cycle_funding_edge_pct, current_cycle_funding_edge_pct, rate_edge, side_current_rate_pct,
  side_next_cycle_rate_pct,
}
use taoli.Alerts.Match.{
  suppresses_sf_negative_funding, opportunity_matches_rule, required_open_spread_pct,
  identity_blocks, exchanges_allowed, volume_too_low, favorable_funding,
}
use taoli.Alerts.Engine.{
  AlertEngine, AlertMatch, new_engine, key_of, evaluate, limit_matches_per_symbol,
  max_alerts_per_evaluation, max_alerts_per_symbol,
}
use taoli.Alerts.Engine.Due.{IsDueAlert, evaluate-IsDueAlert}
use taoli.Alerts.Engine.Justified.{hits_of}
use taoli.Alerts.Engine.Limits.{limit_matches_bounds, count_symbol}
use taoli.Alerts.Engine.Reset.{evaluate-resets, hits_key}
use taoli.Alerts.Delivery.Calls.{AlertCall, evaluating, apply_alert_calls, is_hit}
use taoli.Alerts.Delivery.{
  AlertDeliveryState, retry_delay, record_delivery_result, record_sent, record_failure,
}
use taoli.Alerts.Delivery.Retry.{sent_then_cooldown, failed_then_retry, with_key}
use taoli.Examples.Data.{at_noon, bitcoin_opportunity, example_settings, example_rule}

abbrev noon_alert : AlertMatch ℤ
noon_alert = record { rule = example_rule; opportunity = bitcoin_opportunity; observations = [] }

abbrev noon_key : String
noon_key = key_of example_rule bitcoin_opportunity

abbrev one_minute_later : Time
one_minute_later = at_noon + 60 * second

hidden_iff_example :
    has_non_actionable_risk (apply_risk_labels bitcoin_opportunity example_settings at_noon) none
    ≡ (validation_blocked bitcoin_opportunity example_settings
        || low_volume bitcoin_opportunity example_settings
        || stale_data bitcoin_opportunity example_settings at_noon
        || huge_spread bitcoin_opportunity example_settings
        || wide_spread bitcoin_opportunity example_settings
        || same_ticker bitcoin_opportunity example_settings none
        || edge_too_small bitcoin_opportunity example_settings
        || missing_funding bitcoin_opportunity example_settings)
hidden_iff_example = hidden_iff bitcoin_opportunity example_settings at_noon

evaluate-IsDueAlert_example :
    let (after, alerts) =
      evaluate new_engine (bitcoin_opportunity ∷ []) (example_rule ∷ []) at_noon example_settings in
    All (IsDueAlert new_engine at_noon example_settings after) alerts × (after.last_sent ≡ [])
evaluate-IsDueAlert_example =
    evaluate-IsDueAlert new_engine at_noon example_settings (bitcoin_opportunity ∷ [])
      (example_rule ∷ [])

limit_matches_bounds_example :
    (length (limit_matches_per_symbol (noon_alert ∷ noon_alert ∷ noon_alert ∷ noon_alert ∷ []))
      ≤ max_alerts_per_evaluation)
    × (count_symbol "BTCUSDT"
          (limit_matches_per_symbol (noon_alert ∷ noon_alert ∷ noon_alert ∷ noon_alert ∷ []))
        ≤ max_alerts_per_symbol)
limit_matches_bounds_example =
    limit_matches_bounds (noon_alert ∷ noon_alert ∷ noon_alert ∷ noon_alert ∷ []) "BTCUSDT"

abbrev hit_before : AlertEngine ℤ
hit_before = record (new_engine {W = ℤ}) { hits = (noon_key, (1, at_noon)) ∷ [] }

evaluate-resets_example :
    hits_of (evaluate hit_before [] (example_rule ∷ []) at_noon example_settings).0 noon_key ≡ 0
evaluate-resets_example =
    evaluate-resets at_noon example_settings noon_key hit_before [] (example_rule ∷ []) (tt, tt)

abbrev moments_later : Time
moments_later = at_noon + 10 * second

-- A round in which the opportunity matches again.
abbrev calls_between : List (AlertCall ℤ)
calls_between =
    evaluating (bitcoin_opportunity ∷ []) (example_rule ∷ []) moments_later example_settings ∷ []

sent_then_cooldown_example :
    All
      (λ n. at_noon + n.rule.cooldown_seconds * second ≤ one_minute_later)
      (with_key noon_alert
        (evaluate
          (apply_alert_calls calls_between (record_sent noon_key at_noon new_engine))
          (bitcoin_opportunity ∷ [])
          (example_rule ∷ [])
          one_minute_later
          example_settings).1)
unfolding record_delivery_result Dict.get
sent_then_cooldown_example =
    sent_then_cooldown noon_alert at_noon one_minute_later new_engine
      (record_sent noon_key at_noon new_engine) calls_between (bitcoin_opportunity ∷ [])
      (example_rule ∷ []) example_settings refl (tt, tt)

hit_between :
    is_hit moments_later example_settings noon_key (example_rule ∷ []) (bitcoin_opportunity ∷ [])
    ≡ true
unfolding is_hit hits_key suppresses_sf_negative_funding opportunity_matches_rule
    required_open_spread_pct identity_blocks exchanges_allowed volume_too_low favorable_funding
    effective_open_edge_pct known_volume_24h_usdt funding_edge_pct combined_open_edge_pct
    next_cycle_funding_edge_pct current_cycle_funding_edge_pct rate_edge side_current_rate_pct
    side_next_cycle_rate_pct
hit_between = refl

failed_then_retry_example :
    (get_or
        (Dict.get noon_key
          (apply_alert_calls calls_between
            (record_failure noon_key 300 at_noon new_engine)).retry_attempts)
        0
      ≡ 1)
    × All
        (λ n. at_noon + retry_delay 1 300 * second ≤ one_minute_later)
        (with_key noon_alert
          (evaluate
            (apply_alert_calls calls_between (record_failure noon_key 300 at_noon new_engine))
            (bitcoin_opportunity ∷ [])
            (example_rule ∷ [])
            one_minute_later
            example_settings).1)
unfolding record_delivery_result Dict.get retry_delay
failed_then_retry_example =
    failed_then_retry noon_alert "failed" at_noon one_minute_later new_engine
      (record_failure noon_key 300 at_noon new_engine) calls_between (bitcoin_opportunity ∷ [])
      (example_rule ∷ []) example_settings (ground (arith, ==_iff {A = String} "failed" "sent"))
      refl ((omega arith, hit_between), tt)

abbrev waiting_state : AlertDeliveryState
waiting_state = record {
  key = "r1:a";
  last_sent_at = none;
  retry_after = some one_minute_later;
  retry_attempts = 1;
  pending_since = none;
}

abbrev pending_state : AlertDeliveryState
pending_state = record {
  key = "r1:b";
  last_sent_at = none;
  retry_after = none;
  retry_attempts = 0;
  pending_since = some at_noon;
}

abbrev engine_at_start : AlertEngine ℤ
engine_at_start = new_engine
