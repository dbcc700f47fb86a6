-- ===== src/Round.antt =====
-- backend/app/services/collector.py: one round of the collector, `_collect_once`, from the settings to
-- what is published. What follows the publication where there are no mailboxes, the records of history
-- and of index components, is left out.
pub mod Build
pub mod Publish
pub mod Published
mod Example
use taoli.Base.{
  ℕ, ◌+◌, max, String, Bool, true, false, not, ◌&&◌, Option, none, some, is_some, get_or, List, [],
  ◌∷◌, ◌++◌, map, keep_if, contains, is_empty, if◌then◌else◌, ◌==◌, nat_eq, string_eq, ◌>>=◌,
}
use taoli.Base.Dict
use taoli.Base.Dict.{Dict}
use taoli.Base.Text.{lower}
use taoli.Base.Number.{Float}
use taoli.Models.Identity.{Time}
use taoli.Models.Market.{MarketSnapshot, Opportunity}
use taoli.Models.Settings.{RiskSettings}
use taoli.Collector.{MarketCollector, AdapterPollResult, claim_due_adapters, store_poll_results}
use taoli.Snapshots.{SnapshotStore, LatestSnapshotSlot}
use taoli.Sessions.{Zone}
use taoli.SpreadEngine.{Outside}
use taoli.Filters.{ignored_exchange_set, filter_markets}
use taoli.Aliases.{apply_symbol_aliases}
use Build.{FeeSettings, MarketValidation, labelled_for_publication}
use Publish.{CollectionResult, publish}

-- What a round reads and changes.
pub record RoundState (W : Type 0) : Type 0 where
  pub collector : MarketCollector (MarketSnapshot W)
  pub store : SnapshotStore (MarketSnapshot W) (Opportunity W)
  pub snapshot_slots : Option (List (LatestSnapshotSlot (MarketSnapshot W) (Opportunity W)))
  pub risk_settings : RiskSettings W
  pub risk_settings_loaded : Bool
  pub risk_settings_fallbacks : ℕ

-- What a round meets: the answer of the settings loader, if there is one, and `none` inside if it
-- raises; the clock, at the start and when the round is published; the answers of the exchanges with
-- the text of an exception; whether the mapping of markets changed meanwhile; and what other tasks do
-- to the store and the mailboxes while the round waits.
pub record Meeting (W : Type 0) : Type 0 where
  pub loaded : Option (Option (RiskSettings W))
  pub now : Time
  pub published_now : Time
  pub answer : String → Option (AdapterPollResult (MarketSnapshot W)) × String
  pub mapping_changed : Bool
  pub store_meanwhile :
      SnapshotStore (MarketSnapshot W) (Opportunity W)
      → SnapshotStore (MarketSnapshot W) (Opportunity W)
  pub slots_meanwhile :
      Option (List (LatestSnapshotSlot (MarketSnapshot W) (Opportunity W)))
      → Option (List (LatestSnapshotSlot (MarketSnapshot W) (Opportunity W)))

-- What the collector is made with.
pub record Parts (W : Type 0) : Type 0 where
  pub adapters : List String
  pub fee_settings : FeeSettings W
  pub poll_interval : Time
  pub max_due_adapters_per_cycle : ℕ
  pub market_validation : Option (MarketValidation W)
  pub outside : Outside W
  pub zone : Zone

-- `errors.update(more)`
pub update_errors : Dict String String → Dict String String → Dict String String
update_errors [] errors = errors
update_errors ((key, value) ∷ more) errors = update_errors more (Dict.set key value errors)

module _ {W : Type 0} where
  -- The settings of the round; `none` is the exception of a loader that never succeeded.
  pub load_settings : Option (Option (RiskSettings W)) → RoundState W → Option (RoundState W)
  load_settings none s = some s
  load_settings (some none) s =
      if not s.risk_settings_loaded
      then none
      else some (record s { risk_settings_fallbacks = s.risk_settings_fallbacks + 1 })
  load_settings (some (some risk)) s =
      some (record s { risk_settings = risk; risk_settings_loaded = true })

  pub group_by_exchange :
      List (MarketSnapshot W)
      → Dict String (List (MarketSnapshot W))
      → Dict String (List (MarketSnapshot W))
  group_by_exchange [] groups = groups
  group_by_exchange (m ∷ ms) groups =
      group_by_exchange ms
        (Dict.set m.exchange (get_or (Dict.get m.exchange groups) [] ++ (m ∷ [])) groups)

  -- `_seed_exchange_snapshots_from_store`
  pub seed_exchange_snapshots :
      List (MarketSnapshot W)
      → MarketCollector (MarketSnapshot W)
      → MarketCollector (MarketSnapshot W)
  unfolding group_by_exchange
  seed_exchange_snapshots markets c =
      if not (is_empty c.exchange_snapshots)
      then c
      else record c { exchange_snapshots = group_by_exchange markets [] }

  pub combined_exchange_markets :
      List String → MarketCollector (MarketSnapshot W) → List (MarketSnapshot W)
  combined_exchange_markets [] c = []
  combined_exchange_markets (name ∷ names) c =
      get_or (Dict.get name c.exchange_snapshots) [] ++ combined_exchange_markets names c

  pub combined_exchange_errors :
      List String → MarketCollector (MarketSnapshot W) → Dict String String → Dict String String
  unfolding update_errors
  combined_exchange_errors [] c errors = errors
  combined_exchange_errors (name ∷ names) c errors =
      combined_exchange_errors names c
        (update_errors (get_or (Dict.get name c.exchange_errors) []) errors)

  pub active_adapters : Parts W → RiskSettings W → List String
  active_adapters parts risk =
      keep_if (λ name. not (contains (lower name) (ignored_exchange_set risk))) parts.adapters

  -- The stage "poll".
  pub poll_round :
      Parts W
      → Meeting W
      → List String
      → SnapshotStore (MarketSnapshot W) (Opportunity W)
      → MarketCollector (MarketSnapshot W)
      → MarketCollector (MarketSnapshot W)
  unfolding seed_exchange_snapshots
  poll_round parts met active store c =
      let (claimed, due) =
        claim_due_adapters (max 1 parts.max_due_adapters_per_cycle) active met.now
          (seed_exchange_snapshots store.markets c) in
      store_poll_results parts.poll_interval
        (map (λ name. (name, (met.answer name).0, (met.answer name).1)) due) met.now claimed

module _ {W : Type 0} ⦃f : Float W⦄ where
  -- The markets under their compared symbols, with the identities of the service; `none` is an exception.
  pub prepared :
      Parts W → RiskSettings W → List (MarketSnapshot W) → Option (List (MarketSnapshot W))
  prepared parts risk markets =
      let aliased = apply_symbol_aliases markets risk.symbol_aliases in
      elim parts.market_validation [
        | none ↦ some aliased
        | some service ↦ service.prepare aliased risk
      ]

  -- The stages "prepare" and "build": all markets, those that are not filtered out, and the
  -- opportunities to publish.
  pub prepare_round :
      Parts W
      → RiskSettings W
      → Time
      → List (MarketSnapshot W)
      → Option (List (MarketSnapshot W) × List (MarketSnapshot W) × List (Opportunity W))
  prepare_round parts risk now markets = do
    aliased ← prepared parts risk markets
    opportunities ←
        labelled_for_publication parts.outside parts.zone parts.fee_settings parts.market_validation
          risk now (filter_markets aliased risk)
    some (aliased, filter_markets aliased risk, opportunities)

  -- The stage "publish", with the mailboxes after it.
  pub published :
      Parts W
      → Meeting W
      → List (MarketSnapshot W)
      → CollectionResult W
      → RoundState W
      → Option (CollectionResult W) × RoundState W
  published parts met all_markets result s =
      let (store, slots) =
        publish (some all_markets) result met.published_now s.store s.snapshot_slots in
      if met.mapping_changed && is_some parts.market_validation
      then (none, s)
      else (some result, record s { store = store; snapshot_slots = slots })

  -- The end of a round that was polled: its result, or `none` if it raises, and the state after it.
  pub conclude :
      Parts W
      → Meeting W
      → List String
      → RoundState W
      → Option (List (MarketSnapshot W) × List (MarketSnapshot W) × List (Opportunity W))
      → Option (CollectionResult W) × RoundState W
  conclude parts met active s none = (none, s)
  conclude parts met active s (some (all_markets, markets, opportunities)) =
      published parts met all_markets
        (record {
          markets = markets;
          opportunities = opportunities;
          exchange_errors = combined_exchange_errors active s.collector [];
        })
        s

  -- The state after what other tasks do while the round waits.
  abbrev pub others : Meeting W → RoundState W → RoundState W
  others met s = record s {
    store = met.store_meanwhile s.store;
    snapshot_slots = met.slots_meanwhile s.snapshot_slots;
  }

  pub finish_round :
      Parts W → Meeting W → List String → RoundState W → Option (CollectionResult W) × RoundState W
  finish_round parts met active s =
      let c = poll_round parts met active s.store s.collector in
      conclude parts met active (record (others met s) { collector = c })
        (prepare_round parts s.risk_settings met.now (combined_exchange_markets active c))

  -- A round with its settings: without an exchange that is not ignored, it publishes nothing at all.
  pub collect_with : Parts W → Meeting W → RoundState W → Option (CollectionResult W) × RoundState W
  collect_with parts met s =
      let active = active_adapters parts s.risk_settings in
      let nothing : CollectionResult W = record {
        markets = [];
        opportunities = [];
        exchange_errors = [];
      } in
      let (store, slots) = publish none nothing met.published_now s.store s.snapshot_slots in
      let finished = finish_round parts met active s in
      if is_empty active
      then (some nothing, record s { store = store; snapshot_slots = slots })
      else finished

  pub collect_once : Parts W → Meeting W → RoundState W → Option (CollectionResult W) × RoundState W
  collect_once parts met s = elim (load_settings met.loaded s) [
    | none ↦ (none, s)
    | some loaded ↦ collect_with parts met loaded
  ]
