-- ===== src/Alerts/Engine/Due.antt =====
-- Every alert that a round of alert_engine.py returns is due.
use taoli.Base.{
  ℕ, ◌+◌, ◌*◌, ◌≤◌, String, ◌≡◌, refl, ◌∙◌, true, false, not, ◌&&◌, none, some, List, [], ◌∷◌,
  arith, if◌then◌else◌, ◌==◌, string_eq, ==_iff, All, All-imp, All-both, contains,
}
use taoli.Base.Dict
use taoli.Base.Dict.{Dict}
use taoli.Base.Number.{Float}
use taoli.Models.Identity.{Time, second}
use taoli.Models.Market.{Opportunity}
use taoli.Models.Settings.{RiskSettings}
use taoli.Models.Alert.{AlertRule}
use taoli.Alerts.Engine.{
  AlertMatch, AlertEngine, key_of, is_waiting, scan, forget, forget_key, evaluate, start_round,
}
use taoli.Alerts.Engine.Limits.{limit_matches-All}
use taoli.Alerts.Engine.Justified.{hits_of, IsJustified, IsCounted, scan-IsSound, start-IsSound}

module _ {W : Type 0} where
  forget_key_lem :
      (active : List String) (k key : String) (engine : AlertEngine W)
      → (Dict.get key (forget_key active k engine).hits
          ≡ (if key == k && not (contains key active) then none else Dict.get key engine.hits))
        × ((forget_key active k engine).last_sent ≡ engine.last_sent)
  unfolding forget_key
  forget_key_lem active k key engine =
      let same = ==_iff key k in ground (arith, same, ==_iff k key, Dict.get-pop k key engine.hits)

  -- The loop that forgets keeps the hits of the active keys, drops those of the other keys that it
  -- meets, and leaves the times of delivery alone.
  pub forget_lem :
      (active keys : List String) (engine : AlertEngine W) (key : String)
      → (Dict.get key (forget active keys engine).hits ≡ (
          if contains key keys && not (contains key active)
          then none
          else Dict.get key engine.hits))
        × ((forget active keys engine).last_sent ≡ engine.last_sent)
  unfolding forget
  forget_lem active [] engine key = (refl, refl)
  forget_lem active (k ∷ keys) engine key =
      let step = forget_key_lem active k key engine in
      let rest = forget_lem active keys (forget_key active k engine) key in
      (rest.0 ∙ rw step.0 (ground arith), rest.1 ∙ step.1)

module _ {W : Type 0} ⦃f : Float W⦄ (before : AlertEngine W) (current : Time)
    (settings : RiskSettings W) where
  -- An alert that `evaluate` returns.
  pub record IsDueAlert (after : AlertEngine W) (m : AlertMatch W) : Type 0 where
    pub justified : IsJustified before current settings m
    pub enough_hits : m.rule.consecutive_hits ≤ hits_of after (key_of m.rule m.opportunity)

  hits_stay :
      (active keys : List String) (engine : AlertEngine W) (n : ℕ) (key : String)
      → n ≤ hits_of engine key
      → contains key active ≡ true
      → n ≤ hits_of (forget active keys engine) key
  hits_stay active keys engine n key h stays =
      let (kept, _) = forget_lem active keys engine key in ground (arith, kept, stays, h)

  -- Every alert of a round comes from an enabled rule that its opportunity matches; it is not
  -- suppressed for negative funding, its observations are stable, it has the hits in a row that the
  -- rule asks for, and by the engine before the round neither its cooldown nor its retry wait was
  -- running. The round leaves the times of delivery as they were.
  pub evaluate-IsDueAlert :
      (os : List (Opportunity W)) (rules : List (AlertRule W))
      → let (after, alerts) = evaluate before os rules current settings in
        All (IsDueAlert after) alerts × (after.last_sent ≡ before.last_sent)
  unfolding evaluate
  evaluate-IsDueAlert os rules =
      let round = scan rules os current settings (start_round before) in
      let sound =
        scan-IsSound before current settings rules os (start_round before)
          (start-IsSound before current settings) in
      let engine = round.engine in
      let keys = Dict.keys engine.hits in
      let alert : (m : AlertMatch W)
          → IsJustified before current settings m × IsCounted before current settings round m
          → IsDueAlert (forget round.active_keys keys engine) m =
        λ m h. record {
          justified = h.0;
          enough_hits =
              hits_stay round.active_keys keys engine m.rule.consecutive_hits
                (key_of m.rule m.opportunity) h.1.0 h.1.1;
        } in
      (
        limit_matches-All _ round.matches (
            All-imp _ _ round.matches alert (
              All-both (IsJustified before current settings) _ round.matches sound.justified
                sound.counted)),
        (forget_lem round.active_keys keys engine "").1 ∙ sound.last_sent,
      )

module _ {W : Type 0} ⦃f : Float W⦄ where
  pub waits_lem :
      (engine : AlertEngine W) (rule : AlertRule W) (key : String) (now sent : Time)
      → Dict.get key engine.last_sent ≡ some sent
      → is_waiting engine rule key now ≡ false
      → sent + rule.cooldown_seconds * second ≤ now
  unfolding is_waiting
  waits_lem engine rule key now sent g h = ground (arith, g, h)

  pub retries_lem :
      (engine : AlertEngine W) (rule : AlertRule W) (key : String) (now at : Time)
      → Dict.get key engine.retry_after ≡ some at
      → is_waiting engine rule key now ≡ false
      → at ≤ now
  unfolding is_waiting
  retries_lem engine rule key now at g h = ground (arith, g, h)
