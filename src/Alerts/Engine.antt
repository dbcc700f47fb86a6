-- ===== src/Alerts/Engine.antt =====
-- The state of `AlertEngine` and its evaluation of a round (alert_engine.py).
pub mod Due
pub mod Limits
pub mod Reset
pub mod Justified
use Prim.Native.String.{◌++◌ as text_append}
use taoli.Base.{
  ℕ, zero, suc, ◌+◌, String, Bool, true, false, not, ◌&&◌, ◌||◌, Option, none, some, List, [], ◌∷◌,
  ◌++◌, map, ◌==◌, string_eq, if◌then◌else◌, contains, is_some, get_or, length, ltb, leb, last_n,
  max, take, keep_if,
}
use taoli.Base.Dict
use taoli.Base.Dict.{Dict}
use taoli.Base.Text.{upper}
use taoli.Base.Number.{Float, ◌⊗◌, ◌⊘◌, ◌<?◌, ◌≤?◌, ◌==?◌, nought, of_nat, negate}
use taoli.Edge.{
  AlertObservation, observe_alert_metrics, combined_open_edge_pct, known_volume_24h_usdt,
}
use taoli.Models.Identity.{Time, age_below}
use taoli.Models.Market.{Opportunity}
use taoli.Models.Settings.{RiskSettings}
use taoli.Models.Alert.{AlertRule}
use taoli.Alerts.Match.{
  suppresses_sf_negative_funding, opportunity_matches_rule, observations_are_stable,
}

abbrev pub max_alerts_per_symbol : ℕ
max_alerts_per_symbol = 3

abbrev pub max_alerts_per_evaluation : ℕ
max_alerts_per_evaluation = 10

pub record AlertMatch (W : Type 0) : Type 0 where
  pub rule : AlertRule W
  pub opportunity : Opportunity W
  pub observations : List (AlertObservation W)

pub record AlertEngine (W : Type 0) : Type 0 where
  pub hits : Dict String (ℕ × Time)
  pub last_sent : Dict String Time
  pub retry_after : Dict String Time
  pub retry_attempts : Dict String ℕ
  pub observations : Dict String (List (AlertObservation W))

abbrev pub new_engine : {W : Type 0} → AlertEngine W
new_engine = record {
  hits = [];
  last_sent = [];
  retry_after = [];
  retry_attempts = [];
  observations = [];
}

-- f"{rule.id}:{opportunity.id}"
abbrev pub key_of : {W : Type 0} → AlertRule W → Opportunity W → String
key_of rule o = text_append rule.id (text_append ":" o.id)

-- What one evaluation carries through its two loops.
pub record Round (W : Type 0) : Type 0 where
  pub engine : AlertEngine W
  pub matches : List (AlertMatch W)
  pub active_keys : List String

unfoldable pub forget_key : {W : Type 0} → List String → String → AlertEngine W → AlertEngine W
forget_key active key engine = if contains key active then engine else record engine {
  hits = Dict.pop key engine.hits;
  observations = Dict.pop key engine.observations;
  retry_after = Dict.pop key engine.retry_after;
  retry_attempts = Dict.pop key engine.retry_attempts;
}

-- The loop that forgets the keys that no longer match, over the keys as they were at its start.
unfoldable pub forget : {W : Type 0} → List String → List String → AlertEngine W → AlertEngine W
forget active [] engine = engine
forget active (key ∷ keys) engine = forget active keys (forget_key active key engine)

module _ {W : Type 0} ⦃f : Float W⦄ where
  -- Whether the two waits of a key are over.
  unfoldable pub is_waiting : AlertEngine W → AlertRule W → String → Time → Bool
  is_waiting engine rule key current =
      elim (Dict.get key engine.last_sent) [
        | none ↦ false
        | some last_sent ↦ age_below current last_sent rule.cooldown_seconds
      ]
      || elim (Dict.get key engine.retry_after) [
        | none ↦ false
        | some retry_after ↦ ltb current retry_after
      ]

  -- The engine with one more hit and observation under the key.
  unfoldable pub note_hit :
      AlertEngine W → AlertRule W → Opportunity W → String → Time → AlertEngine W
  note_hit engine rule o key current =
      let seen =
        get_or (Dict.get key engine.observations) [] ++ (observe_alert_metrics o current ∷ []) in
      let previous = get_or (Dict.get key engine.hits) (0, current) in
      record engine {
        observations = Dict.set key (last_n (max rule.consecutive_hits 1) seen) engine.observations;
        hits = Dict.set key (previous.0 + 1, current) engine.hits;
      }

  -- The tests after the hit is noted: enough hits, stable observations, no wait.
  unfoldable pub is_due : AlertEngine W → AlertRule W → String → Time → RiskSettings W → Bool
  is_due engine rule key current settings =
      not (ltb (get_or (Dict.get key engine.hits) (0, current)).0 rule.consecutive_hits)
      && observations_are_stable (get_or (Dict.get key engine.observations) []) settings
      && not (is_waiting engine rule key current)

  -- The body of the two loops of `evaluate`.
  unfoldable pub visit : AlertRule W → Time → RiskSettings W → Round W → Opportunity W → Round W
  visit rule current settings round o =
      if suppresses_sf_negative_funding rule o
      then round
      else if not (opportunity_matches_rule rule o current settings)
      then round
      else let key = key_of rule o in
        let engine = note_hit round.engine rule o key current in
        let active = key ∷ round.active_keys in
        if is_due engine rule key current settings
        then record {
          engine = record engine { retry_after = Dict.pop key engine.retry_after };
          matches =
              round.matches
              ++ (record {
                rule = rule;
                opportunity = o;
                observations = get_or (Dict.get key engine.observations) [];
              }
                  ∷ []);
          active_keys = active;
        }
        else record round { engine = engine; active_keys = active }

  unfoldable pub visit_all :
      AlertRule W → Time → RiskSettings W → List (Opportunity W) → Round W → Round W
  visit_all rule current settings [] round = round
  visit_all rule current settings (o ∷ os) round =
      visit_all rule current settings os (visit rule current settings round o)

  unfoldable pub scan :
      List (AlertRule W) → List (Opportunity W) → Time → RiskSettings W → Round W → Round W
  scan [] os current settings round = round
  scan (rule ∷ rules) os current settings round =
      scan rules os current settings
        (if rule.enabled then visit_all rule current settings os round else round)

  -- The four numbers of `_alert_rank`.
  unfoldable pub alert_rank : AlertMatch W → List W
  alert_rank m =
      let o = m.opportunity in
      combined_open_edge_pct o
      ∷ o.open_spread_pct
      ∷ get_or (known_volume_24h_usdt o) nought ⊘ of_nat 1000000
      ∷ o.spread_width_pct ⊗ negate (of_nat 1)
      ∷ []

  -- `<` on tuples: by the first place where they differ.
  unfoldable pub rank_lt : List W → List W → Bool
  rank_lt (a ∷ as') (b ∷ bs) = let rest = rank_lt as' bs in if a ==? b then rest else a <? b
  rank_lt [] (b ∷ bs) = true
  rank_lt as' [] = false

  -- `sorted(..., key=_alert_rank, reverse=True)`: stable, the highest rank first.
  unfoldable pub insert_ranked : AlertMatch W → List (AlertMatch W) → List (AlertMatch W)
  insert_ranked m [] = m ∷ []
  insert_ranked m (n ∷ ns) =
      let rest = insert_ranked m ns in
      if rank_lt (alert_rank m) (alert_rank n) then n ∷ rest else m ∷ n ∷ ns

  unfoldable pub sort_ranked : List (AlertMatch W) → List (AlertMatch W)
  sort_ranked [] = []
  sort_ranked (m ∷ ms) = insert_ranked m (sort_ranked ms)

  unfoldable pub group_by_symbol :
      List (AlertMatch W) → Dict String (List (AlertMatch W)) → Dict String (List (AlertMatch W))
  group_by_symbol [] grouped = grouped
  group_by_symbol (m ∷ ms) grouped =
      let symbol = upper m.opportunity.symbol in
      group_by_symbol ms (Dict.set symbol (get_or (Dict.get symbol grouped) [] ++ (m ∷ [])) grouped)

  unfoldable pub best_of_groups : Dict String (List (AlertMatch W)) → List (AlertMatch W)
  best_of_groups [] = []
  best_of_groups ((symbol, ms) ∷ groups) =
      take max_alerts_per_symbol (sort_ranked ms) ++ best_of_groups groups

  unfoldable pub limit_matches_per_symbol : List (AlertMatch W) → List (AlertMatch W)
  limit_matches_per_symbol ms =
      take max_alerts_per_evaluation (sort_ranked (best_of_groups (group_by_symbol ms [])))

  unfoldable pub start_round : AlertEngine W → Round W
  start_round engine = record { engine = engine; matches = []; active_keys = [] }

  unfoldable pub evaluate :
      AlertEngine W
      → List (Opportunity W)
      → List (AlertRule W)
      → Time
      → RiskSettings W
      → AlertEngine W × List (AlertMatch W)
  unfolding start_round
  evaluate engine os rules current settings =
      let round = scan rules os current settings (start_round engine) in
      (
        forget round.active_keys (Dict.keys round.engine.hits) round.engine,
        limit_matches_per_symbol round.matches,
      )
