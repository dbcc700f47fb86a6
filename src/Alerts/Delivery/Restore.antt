-- ===== src/Alerts/Delivery/Restore.antt =====
-- What `restore` of alert_engine.py brings back of a stored delivery state.
use taoli.Base.{
  String, ◌≡◌, false, none, List, [], if◌then◌else◌, ◌==◌, string_eq, All, get_or, or_else, is_some,
  any, true,
}
use taoli.Base.Dict
use taoli.Base.Dict.{Dict}
use taoli.Models.Identity.{Time}
use taoli.Alerts.Engine.{AlertEngine}
use taoli.Alerts.Delivery.{AlertDeliveryState, export_state, future_retry}

abbrev pub Result : Type 0 → Type 0
Result W = AlertEngine W × List String

-- The state that an engine holds after it was restored from `state`: an interrupted send counts as
-- sent when it began; else the retry time stays while it lies ahead.
abbrev pub restored : Time → AlertDeliveryState → AlertDeliveryState
restored now state = record {
  key = state.key;
  last_sent_at = or_else state.pending_since state.last_sent_at;
  retry_after = if is_some state.pending_since then none else future_retry now state.retry_after;
  retry_attempts = if is_some state.pending_since then 0 else state.retry_attempts;
  pending_since = none;
}

abbrev IsOther : String → AlertDeliveryState → Type 0
IsOther key state = (state.key == key) ≡ false

-- The engine holds nothing under the key.
abbrev IsFree : {W : Type 0} → String → AlertEngine W → Type 0
IsFree key engine =
    (Dict.get key engine.last_sent ≡ none)
    × (Dict.get key engine.retry_after ≡ none)
    × (get_or (Dict.get key engine.retry_attempts) 0 ≡ 0)

-- No hits, no observations, and nothing of a delivery under any other than these keys.
abbrev HoldsOnly : {W : Type 0} → (String → Type 0) → AlertEngine W → Type 0
HoldsOnly P engine =
    (engine.hits ≡ [])
    × (engine.observations ≡ [])
    × All P (Dict.keys engine.last_sent)
    × All P (Dict.keys engine.retry_after)
    × All P (Dict.keys engine.retry_attempts)

abbrev IsStored : List AlertDeliveryState → String → Type 0
IsStored states key = any (λ state. state.key == key) states ≡ true

-- What an engine holds after it was restored: of one state, and at all.
abbrev pub IsRestored :
    {W : Type 0} → List AlertDeliveryState → Time → AlertDeliveryState → AlertEngine W → Type 0
IsRestored states now state engine =
    (export_state engine state.key ≡ restored now state) × HoldsOnly (IsStored states) engine
