-- ===== src/Alerts/Delivery.antt =====
-- Delivery results, the stored delivery state and its restoration (alert_engine.py and the record
-- of alert_delivery_store.py).
pub mod Retry
pub mod Restore
pub mod Calls
use taoli.Base.{
  ℕ, zero, suc, ◌+◌, ◌-◌, ◌*◌, ◌^◌, min, String, Bool, true, false, not, ◌&&◌, ◌||◌, Option, none,
  some, List, [], ◌∷◌, ◌++◌, ◌==◌, string_eq, nat_eq, if◌then◌else◌, get_or, or_else, is_some, ltb,
  any, contains, keep_if, is_empty,
}
use taoli.Base.Dict
use taoli.Base.Dict.{Dict}
use taoli.Base.Number.{Float}
use taoli.Models.Identity.{Time, second}
use taoli.Models.Market.{Opportunity}
use taoli.Models.Settings.{RiskSettings}
use taoli.Models.Alert.{AlertRule}
use taoli.Alerts.Match.{opportunity_matches_rule}
use taoli.Alerts.Engine.{AlertEngine, AlertMatch, key_of}

pub record AlertDeliveryState : Type 0 where
  pub key : String
  pub last_sent_at : Option Time
  pub retry_after : Option Time
  pub retry_attempts : ℕ
  pub pending_since : Option Time

abbrev pub delivery_retry_seconds : ℕ
delivery_retry_seconds = 60

abbrev pub max_delivery_retry_seconds : ℕ
max_delivery_retry_seconds = 900

-- The seconds until the next attempt after `attempts` failures, at least one.
unfoldable pub retry_delay : ℕ → ℕ → ℕ
retry_delay attempts cooldown_seconds =
    min (min (delivery_retry_seconds * 2 ^ min (attempts - 1) 4) max_delivery_retry_seconds)
      cooldown_seconds

-- `if value is not None: d[key] = value`.
abbrev pub set_if : {V : Type 0} → String → Option V → Dict String V → Dict String V
set_if key none d = d
set_if key (some v) d = Dict.set key v d

-- The retry time of a state that lies after `now`, and its attempts unless there are none.
abbrev pub future_retry : Time → Option Time → Option Time
future_retry now none = none
future_retry now (some at) = if ltb now at then some at else none

abbrev pub some_attempts : ℕ → Option ℕ
some_attempts zero = none
some_attempts (suc n) = some (suc n)

module _ {W : Type 0} where
  unfoldable pub record_sent : String → Time → AlertEngine W → AlertEngine W
  record_sent key current engine = record engine {
    last_sent = Dict.set key current engine.last_sent;
    retry_after = Dict.pop key engine.retry_after;
    retry_attempts = Dict.pop key engine.retry_attempts;
  }

  unfoldable pub record_failure : String → ℕ → Time → AlertEngine W → AlertEngine W
  record_failure key cooldown_seconds current engine =
      let attempts = get_or (Dict.get key engine.retry_attempts) 0 + 1 in
      record engine {
        retry_attempts = Dict.set key attempts engine.retry_attempts;
        retry_after =
            Dict.set key (current + retry_delay attempts cooldown_seconds * second)
              engine.retry_after;
      }

  -- `none` is the `ValueError` on an unsupported status.
  unfoldable pub record_delivery_result :
      AlertMatch W → String → Time → AlertEngine W → Option (AlertEngine W)
  unfolding record_sent record_failure
  record_delivery_result m status current engine =
      let key = key_of m.rule m.opportunity in
      if status == "sent"
      then some (record_sent key current engine)
      else if status == "failed" || status == "muted"
      then some (record_failure key m.rule.cooldown_seconds current engine)
      else none

  unfoldable pub export_state : AlertEngine W → String → AlertDeliveryState
  export_state engine key = record {
    key = key;
    last_sent_at = Dict.get key engine.last_sent;
    retry_after = Dict.get key engine.retry_after;
    retry_attempts = get_or (Dict.get key engine.retry_attempts) 0;
    pending_since = none;
  }

  -- One turn of the loop of `restore`, with the keys of the interrupted sends.
  unfoldable pub restore_one :
      Time → AlertDeliveryState → AlertEngine W × List String → AlertEngine W × List String
  restore_one now state (engine, unknown_keys) =
      let sent = record engine {
        last_sent =
            set_if state.key (or_else state.pending_since state.last_sent_at) engine.last_sent;
      } in
      if is_some state.pending_since then (sent, unknown_keys ++ (state.key ∷ [])) else (
        record sent {
          retry_after = set_if state.key (future_retry now state.retry_after) sent.retry_after;
          retry_attempts =
              set_if state.key (some_attempts state.retry_attempts) sent.retry_attempts;
        },
        unknown_keys,
      )

  unfoldable pub restore_all :
      Time → List AlertDeliveryState → AlertEngine W × List String → AlertEngine W × List String
  restore_all now [] result = result
  restore_all now (state ∷ states) result = restore_all now states (restore_one now state result)

  -- The engine is emptied first.
  unfoldable pub restore :
      List AlertDeliveryState → Time → AlertEngine W → AlertEngine W × List String
  restore states now engine = restore_all now states (
    record engine {
      hits = [];
      observations = [];
      last_sent = [];
      retry_after = [];
      retry_attempts = [];
    },
    [],
  )

module _ {W : Type 0} ⦃f : Float W⦄ where
  -- The loop of `filter_opportunities_by_alert_rules`.
  pub eligible_from :
      List (AlertRule W)
      → Time
      → RiskSettings W
      → List (Opportunity W)
      → List String
      → List (Opportunity W)
  eligible_from rules now settings [] seen_ids = []
  eligible_from rules now settings (o ∷ os) seen_ids =
      let accepted =
        not (contains o.id seen_ids)
        && any (λ rule. opportunity_matches_rule rule o now settings) rules in
      let rest =
        eligible_from rules now settings os (if accepted then o.id ∷ seen_ids else seen_ids) in
      if accepted then o ∷ rest else rest

  pub filter_opportunities_by_alert_rules :
      List (Opportunity W) → List (AlertRule W) → RiskSettings W → Time → List (Opportunity W)
  unfolding eligible_from
  filter_opportunities_by_alert_rules os rules settings now =
      let active_rules = keep_if (λ rule. rule.enabled) rules in
      if is_empty active_rules then [] else eligible_from active_rules now settings os []
