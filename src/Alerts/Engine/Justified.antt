-- ===== src/Alerts/Engine/Justified.antt =====
-- What the loops of AlertEngine.evaluate keep true of the matches so far (alert_engine.py).
use taoli.Base.{
  ℕ, ◌+◌, ◌≤◌, String, ◌≡◌, refl, sym, ◌∙◌, Bool, true, false, Option, none, some, List, [], ◌∷◌,
  arith, if◌then◌else◌, ◌==◌, string_eq, ==_iff, ==_self, All, All-append, All-imp, get_or,
  Bool-cases, inl, inr, ltb, contains,
}
use taoli.Base.Dict
use taoli.Base.Dict.{Dict}
use taoli.Base.Number.{Float}
use taoli.Models.Identity.{Time}
use taoli.Models.Market.{Opportunity}
use taoli.Models.Settings.{RiskSettings}
use taoli.Models.Alert.{AlertRule}
use taoli.Alerts.Match.{
  suppresses_sf_negative_funding, opportunity_matches_rule, observations_are_stable,
}
use taoli.Alerts.Engine.{
  AlertMatch, AlertEngine, Round, key_of, is_waiting, note_hit, is_due, visit, visit_all, scan,
  start_round,
}

abbrev retry_waiting : Time → Option Time → Bool
retry_waiting current none = false
retry_waiting current (some retry_after) = ltb current retry_after

abbrev pub hits_of : {W : Type 0} → AlertEngine W → String → ℕ
hits_of engine key = elim (Dict.get key engine.hits) [ none ↦ 0 | some (n, at) ↦ n ]

module _ {W : Type 0} ⦃f : Float W⦄ (before : AlertEngine W) (current : Time)
    (settings : RiskSettings W) where
  -- What a match of the round satisfies by itself.
  pub record IsJustified (m : AlertMatch W) : Type 0 where
    pub enabled : m.rule.enabled ≡ true
    pub matching : opportunity_matches_rule m.rule m.opportunity current settings ≡ true
    pub not_suppressed : suppresses_sf_negative_funding m.rule m.opportunity ≡ false
    pub not_waiting : is_waiting before m.rule (key_of m.rule m.opportunity) current ≡ false
    pub stable : observations_are_stable m.observations settings ≡ true

  -- What it satisfies in the round so far: enough hits, and a key that stays.
  abbrev pub IsCounted : Round W → AlertMatch W → Type 0
  IsCounted round m =
      (m.rule.consecutive_hits ≤ hits_of round.engine (key_of m.rule m.opportunity))
      × (contains (key_of m.rule m.opportunity) round.active_keys ≡ true)

  pub record IsSound (round : Round W) : Type 0 where
    pub last_sent : round.engine.last_sent ≡ before.last_sent
    pub retry :
        (key : String)
        → retry_waiting current (Dict.get key round.engine.retry_after)
          ≡ retry_waiting current (Dict.get key before.retry_after)
    pub justified : All IsJustified round.matches
    pub counted : All (IsCounted round) round.matches

  hits-note_hit :
      (engine : AlertEngine W) (rule : AlertRule W) (o : Opportunity W) (key j : String)
      → hits_of (note_hit engine rule o key current) j
        ≡ (if key == j then hits_of engine key + 1 else hits_of engine j)
  unfolding note_hit
  hits-note_hit engine rule o key j = ground (
    arith,
    Dict.get-set key j ((get_or (Dict.get key engine.hits) (0, current)).0 + 1, current)
        engine.hits,
  )

  IsCounted-mono :
      (rule : AlertRule W) (o : Opportunity W) (round : Round W) (m : AlertMatch W)
      → let key = key_of rule o in
        IsCounted round m
        → IsCounted
            (record round {
              engine = note_hit round.engine rule o key current;
              active_keys = key ∷ round.active_keys;
            })
            m
  IsCounted-mono rule o round m h =
      let key = key_of rule o in
      let other = key_of m.rule m.opportunity in
      ground (arith, h.0, h.1, hits-note_hit round.engine rule o key other, ==_iff key other)

  -- A key that is due has the hits, stable observations and no wait.
  is_due_parts :
      (engine : AlertEngine W) (rule : AlertRule W) (key : String)
      → is_due engine rule key current settings ≡ true
      → (rule.consecutive_hits ≤ hits_of engine key)
        × (observations_are_stable (get_or (Dict.get key engine.observations) []) settings ≡ true)
        × (is_waiting engine rule key current ≡ false)
  unfolding is_due
  is_due_parts engine rule key due = ground (arith, due)

  is_waiting-eq :
      (engine : AlertEngine W) (rule : AlertRule W) (key : String)
      → engine.last_sent ≡ before.last_sent
      → retry_waiting current (Dict.get key engine.retry_after)
        ≡ retry_waiting current (Dict.get key before.retry_after)
      → is_waiting engine rule key current ≡ is_waiting before rule key current
  unfolding is_waiting
  is_waiting-eq engine rule key sent retry = rw sent (ground (arith, retry))

  retry-pop :
      (engine : AlertEngine W) (rule : AlertRule W) (key j : String)
      → is_waiting engine rule key current ≡ false
      → retry_waiting current (Dict.get j (Dict.pop key engine.retry_after))
        ≡ retry_waiting current (Dict.get j engine.retry_after)
  unfolding is_waiting
  retry-pop engine rule key j free =
      ground (arith, free, Dict.get-pop key j engine.retry_after, ==_iff key j)

  kept-note_hit :
      (engine : AlertEngine W) (rule : AlertRule W) (o : Opportunity W) (key : String)
      → let noted = note_hit engine rule o key current in
        (noted.last_sent ≡ engine.last_sent) × (noted.retry_after ≡ engine.retry_after)
  unfolding note_hit
  kept-note_hit engine rule o key = (refl, refl)

  visit-IsSound :
      (rule : AlertRule W) (round : Round W) (o : Opportunity W)
      → rule.enabled ≡ true
      → IsSound round
      → IsSound (visit rule current settings round o)
  unfolding visit
  visit-IsSound rule round o on h = elim (Bool-cases (suppresses_sf_negative_funding rule o)) [
    | inl suppressed ↦ rw suppressed h
    | inr free ↦ elim (Bool-cases (opportunity_matches_rule rule o current settings)) [
      | inr unmatched ↦ rw (free, unmatched) h
      | inl matched ↦
          let key = key_of rule o in
          let engine = note_hit round.engine rule o key current in
          let (sent_kept, retry_kept) = kept-note_hit round.engine rule o key in
          let sent = sent_kept ∙ h.last_sent in
          let retry : (j : String)
              → retry_waiting current (Dict.get j engine.retry_after)
                ≡ retry_waiting current (Dict.get j before.retry_after) =
            λ j. rw retry_kept (h.retry j) in
          let counted =
            All-imp (IsCounted round) _ round.matches (IsCounted-mono rule o round) h.counted in
          elim (Bool-cases (is_due engine rule key current settings)) [
            | inr early ↦
                rw (free, matched, early)
                  (record {
                    last_sent = sent;
                    retry = retry;
                    justified = h.justified;
                    counted = counted;
                  })
            | inl due ↦
                let (enough, stable, no_wait) = is_due_parts engine rule key due in
                rw (free, matched, due)
                  (record {
                    last_sent = sent;
                    retry = λ j. retry-pop engine rule key j no_wait ∙ retry j;
                    justified = All-append IsJustified round.matches _ h.justified (
                      record {
                        enabled = on;
                        matching = matched;
                        not_suppressed = free;
                        not_waiting =
                            sym (is_waiting-eq engine rule key sent (retry key)) ∙ no_wait;
                        stable = stable;
                      },
                      tt,
                    );
                    counted = All-append _ round.matches _ counted ((enough, rw ==_self), tt);
                  })
          ]
    ]
  ]

  visit_all-IsSound :
      (rule : AlertRule W) (os : List (Opportunity W)) (round : Round W)
      → rule.enabled ≡ true
      → IsSound round
      → IsSound (visit_all rule current settings os round)
  unfolding visit_all
  visit_all-IsSound rule [] round on h = h
  visit_all-IsSound rule (o ∷ os) round on h =
      visit_all-IsSound rule os _ on (visit-IsSound rule round o on h)

  if-IsSound :
      (b : Bool) (r₁ r₂ : Round W)
      → (b ≡ true → IsSound r₁)
      → IsSound r₂
      → IsSound (if b then r₁ else r₂)
  if-IsSound true r₁ r₂ h k = h refl
  if-IsSound false r₁ r₂ h k = k

  pub scan-IsSound :
      (rules : List (AlertRule W)) (os : List (Opportunity W)) (round : Round W)
      → IsSound round
      → IsSound (scan rules os current settings round)
  unfolding scan
  scan-IsSound [] os round h = h
  scan-IsSound (rule ∷ rules) os round h =
      scan-IsSound rules os _
        (if-IsSound rule.enabled _ round (λ on. visit_all-IsSound rule os round on h) h)

  pub start-IsSound : IsSound (start_round before)
  unfolding start_round
  start-IsSound = record { last_sent = refl; retry = λ key. refl; justified = tt; counted = tt }
