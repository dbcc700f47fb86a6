-- ===== src/Round/Published.antt =====
-- What a round of the collector publishes, and that a round that raises publishes nothing.
use mathlib.Core.Path.{subst}
use taoli.Base.{
  ◌+◌, true, ◌&&◌, Option, none, some, is_some, List, [], ◌∷◌, All, ◌≡◌, refl, ap, ◌∙◌, arith,
  IfSome, >>=-IfSome, Bool-cases, ◌⊎◌, inl, inr, is_empty, String,
}
use taoli.Base.Dict.{Dict}
use taoli.Base.Number.{Float}
use taoli.Models.Identity.{Time}
use taoli.Models.Market.{MarketSnapshot, Opportunity}
use taoli.Models.Settings.{RiskSettings}
use taoli.Filters.{filter_markets, market_is_included}
use taoli.Filters.Included.{filter_markets-is_included}
use taoli.Snapshots.{LatestSnapshotSlot, SnapshotStore}
use taoli.Round.{
  RoundState, Meeting, Parts, collect_once, collect_with, others, finish_round, published, conclude,
  prepare_round, prepared, load_settings, poll_round, combined_exchange_markets,
  combined_exchange_errors, active_adapters,
}
use taoli.Round.Build.{labelled_for_publication}
use taoli.Round.Build.Filtered.{IsPublishable, labelled_for_publication-IsPublishable}
use taoli.Round.Publish.{CollectionResult, publish, publish_to_slots}

module _ {W : Type 0} ⦃f : Float W⦄ (parts : Parts W) (met : Meeting W) where
  abbrev pub IsResult : RiskSettings W → CollectionResult W → Type 0
  IsResult risk result =
      All (IsPublishable parts.zone parts.market_validation risk met.now result.markets)
        result.opportunities
      × All (λ m. market_is_included risk m ≡ true) result.markets

  -- A mailbox with the lists of a result as the newest of the store.
  abbrev pub HasResult :
      CollectionResult W
      → SnapshotStore (MarketSnapshot W) (Opportunity W)
      → LatestSnapshotSlot (MarketSnapshot W) (Opportunity W)
      → Type 0
  HasResult result store slot =
      IfSome
        (λ s.
          (s.markets ≡ result.markets)
          × (s.opportunities ≡ result.opportunities)
          × (s.generation ≡ store.generation)
          × (s.opportunities_version ≡ some store.opportunities_version))
        slot.latest
      × (is_some slot.latest ≡ true)

  published-HasResult :
      (result : CollectionResult W) (at : Time)
      (store : SnapshotStore (MarketSnapshot W) (Opportunity W))
      (slots : List (LatestSnapshotSlot (MarketSnapshot W) (Opportunity W)))
      → All (HasResult result store) (publish_to_slots result at store slots)
  unfolding publish_to_slots
  published-HasResult result at store [] = tt
  published-HasResult result at store (slot ∷ slots) =
      (((refl, refl, refl, refl), refl), published-HasResult result at store slots)

  slots-HaveResult :
      (result : CollectionResult W) (at : Time)
      (store : SnapshotStore (MarketSnapshot W) (Opportunity W))
      (slots : Option (List (LatestSnapshotSlot (MarketSnapshot W) (Opportunity W))))
      → IfSome
          (All (HasResult result store))
          (elim slots
            as (λ x. Option (List (LatestSnapshotSlot (MarketSnapshot W) (Opportunity W)))) [
              | none ↦ none
              | some ss ↦ some (publish_to_slots result at store ss)
            ])
  slots-HaveResult result at store none = tt
  slots-HaveResult result at store (some ss) = published-HasResult result at store ss

  -- The store and the mailboxes after a round that went well.
  abbrev pub IsPublished : CollectionResult W → RoundState W → RoundState W → Type 0
  IsPublished result s t =
      (t.store.markets ≡ result.markets)
      × (t.store.opportunities ≡ result.opportunities)
      × (t.store.exchange_errors ≡ result.exchange_errors)
      × (t.store.generation ≡ s.store.generation + 1)
      × (t.store.opportunities_version ≡ s.store.opportunities_version + 1)
      × IfSome (All (HasResult result t.store)) t.snapshot_slots

  -- How a round ends.
  abbrev pub IsRound : RoundState W → Option (CollectionResult W) × RoundState W → Type 0
  IsRound s (none, t) = (t.store ≡ s.store) × (t.snapshot_slots ≡ s.snapshot_slots)
  IsRound s (some result, t) = IsResult t.risk_settings result × IsPublished result s t

  -- A stage "publish" that follows the state `t`, whose store is that of `s`.
  publish-IsPublished :
      (all_markets : Option (List (MarketSnapshot W))) (result : CollectionResult W) (at : Time)
      (s t : RoundState W)
      → let (store, slots) = publish all_markets result at s.store s.snapshot_slots in
        IsPublished result s (record t { store = store; snapshot_slots = slots })
  unfolding publish
  publish-IsPublished none result at s t = (
    refl,
    refl,
    refl,
    refl,
    refl,
    slots-HaveResult result at (publish none result at s.store s.snapshot_slots).0 s.snapshot_slots,
  )
  publish-IsPublished (some ms) result at s t = (
    refl,
    refl,
    refl,
    refl,
    refl,
    slots-HaveResult result at (publish (some ms) result at s.store s.snapshot_slots).0
        s.snapshot_slots,
  )

  load_settings-keeps :
      (loaded : Option (Option (RiskSettings W))) (s : RoundState W)
      → IfSome
          (λ t. (t.store ≡ s.store) × (t.snapshot_slots ≡ s.snapshot_slots))
          (load_settings loaded s)
  unfolding load_settings
  load_settings-keeps none s = (refl, refl)
  load_settings-keeps (some none) s = ground arith
  load_settings-keeps (some (some risk)) s = (refl, refl)

  prepare_round-IsResult :
      (risk : RiskSettings W) (markets : List (MarketSnapshot W)) (errors : Dict String String)
      → IfSome
          (λ x.
            IsResult risk (record { markets = x.1; opportunities = x.2; exchange_errors = errors }))
          (prepare_round parts risk met.now markets)
  unfolding prepare_round
  prepare_round-IsResult risk markets errors =
      >>=-IfSome Good (prepared parts risk markets) _ (λ aliased e.
        >>=-IfSome Good
          (labelled_for_publication parts.outside parts.zone parts.fee_settings
            parts.market_validation risk met.now (filter_markets aliased risk))
          _
          (λ os e. (
            subst
                (IfSome (
                  All (
                    IsPublishable parts.zone parts.market_validation risk met.now
                      (filter_markets aliased risk))))
                e
                (labelled_for_publication-IsPublishable parts.zone parts.market_validation
                  parts.outside parts.fee_settings risk met.now (filter_markets aliased risk)),
            filter_markets-is_included risk aliased,
          )))
    where
      Good : List (MarketSnapshot W) × List (MarketSnapshot W) × List (Opportunity W) → Type 0
      Good x =
          IsResult risk (record { markets = x.1; opportunities = x.2; exchange_errors = errors })

  published-IsRound :
      (all_markets : List (MarketSnapshot W)) (result : CollectionResult W) (s : RoundState W)
      → IsResult s.risk_settings result
      → IsRound s (published parts met all_markets result s)
  unfolding published
  published-IsRound all_markets result s h =
      elim (Bool-cases (met.mapping_changed && is_some parts.market_validation)) [
        | inl changed ↦ rw changed (refl, refl)
        | inr kept ↦
            rw kept (h, publish-IsPublished (some all_markets) result met.published_now s s)
      ]

  conclude-IsRound :
      (active : List String) (s : RoundState W)
      (x : Option (List (MarketSnapshot W) × List (MarketSnapshot W) × List (Opportunity W)))
      → IfSome
          (λ x. IsResult s.risk_settings (record {
            markets = x.1;
            opportunities = x.2;
            exchange_errors = combined_exchange_errors active s.collector [];
          }))
          x
      → IsRound s (conclude parts met active s x)
  unfolding conclude
  conclude-IsRound active s none h = (refl, refl)
  conclude-IsRound active s (some (all_markets, markets, opportunities)) h =
      published-IsRound all_markets _ s h

  finish_round-IsRound :
      (active : List String) (s : RoundState W)
      → IsRound (others met s) (finish_round parts met active s)
  unfolding finish_round
  finish_round-IsRound active s =
      let c = poll_round parts met active s.store s.collector in
      let polled = record (others met s) { collector = c } in
      conclude-IsRound active polled
        (prepare_round parts s.risk_settings met.now (combined_exchange_markets active c))
        (prepare_round-IsResult s.risk_settings (combined_exchange_markets active c)
          (combined_exchange_errors active c []))

  -- The store and the mailboxes before the publication: those at the start, or what other tasks made of
  -- them while the round waited.
  abbrev pub IsRoundFrom : RoundState W → Option (CollectionResult W) × RoundState W → Type 0
  IsRoundFrom s x = IsRound s x ⊎ IsRound (others met s) x

  collect_with-IsRoundFrom : (s : RoundState W) → IsRoundFrom s (collect_with parts met s)
  unfolding collect_with
  collect_with-IsRoundFrom s =
      elim (Bool-cases (is_empty (active_adapters parts s.risk_settings))) [
        | inl idle ↦
            let nothing : CollectionResult W = record {
              markets = [];
              opportunities = [];
              exchange_errors = [];
            } in
            rw idle (inl ((tt, tt), publish-IsPublished none nothing met.published_now s s))
        | inr busy ↦ rw busy (inr (finish_round-IsRound (active_adapters parts s.risk_settings) s))
      ]

  -- A round is judged by the store and the mailboxes before it.
  IsRound-congr :
      (s t : RoundState W) (x : Option (CollectionResult W) × RoundState W)
      → t.store ≡ s.store
      → t.snapshot_slots ≡ s.snapshot_slots
      → IsRound t x
      → IsRound s x
  IsRound-congr s t (none, u) h k (i, j) = (i ∙ h, j ∙ k)
  IsRound-congr s t (some result, u) h k (i, (ms, os, es, g, v, slots)) = (
    i,
    (
      ms,
      os,
      es,
      g ∙ ap (λ store. store.generation + 1) h,
      v ∙ ap (λ store. store.opportunities_version + 1) h,
      slots,
    ),
  )

  -- A round that raises before it is published leaves the store and the mailboxes as they were, the
  -- changes of other tasks aside. Any other round publishes its result in the store and in every
  -- mailbox, as the next generation: every opportunity has a positive spread and is labelled by the
  -- settings of the round; where there is a validation service, both its legs are among the published
  -- markets, its validation is the answer of the service to these two, and that does not forbid it; it
  -- is left in by the settings, tradable now included, as is every market.
  pub collect_once-IsRoundFrom : (s : RoundState W) → IsRoundFrom s (collect_once parts met s)
  unfolding collect_once
  collect_once-IsRoundFrom s =
      of_loaded (load_settings met.loaded s) (load_settings-keeps met.loaded s)
    where
      of_loaded :
          (x : Option (RoundState W))
          → IfSome (λ t. (t.store ≡ s.store) × (t.snapshot_slots ≡ s.snapshot_slots)) x
          → IsRoundFrom s (elim x as (λ x. Option (CollectionResult W) × RoundState W) [
            | none ↦ (none, s)
            | some loaded ↦ collect_with parts met loaded
          ])
      of_loaded none h = inl (refl, refl)
      of_loaded (some loaded) (h, k) = elim (collect_with-IsRoundFrom loaded) [
        | inl r ↦ inl (IsRound-congr s loaded (collect_with parts met loaded) h k r)
        | inr r ↦ inr (
            IsRound-congr (others met s) (others met loaded) (collect_with parts met loaded)
              (ap met.store_meanwhile h) (ap met.slots_meanwhile k) r)
      ]
