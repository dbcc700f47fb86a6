-- ===== src/Round/Publish.antt =====
-- The last stage of a round of the collector: the store and the mailboxes get its result.
use taoli.Base.{Option, none, some, List, map}
use taoli.Base.Dict.{Dict}
use taoli.Base.{String}
use taoli.Models.Identity.{Time}
use taoli.Models.Market.{MarketSnapshot, Opportunity}
use taoli.Snapshots.{
  SnapshotStore, PublishedSnapshot, LatestSnapshotSlot, set_markets, set_all_markets,
  set_opportunities, set_exchange_errors, mark_published, put,
}

pub record CollectionResult (W : Type 0) : Type 0 where
  pub markets : List (MarketSnapshot W)
  pub opportunities : List (Opportunity W)
  pub exchange_errors : Dict String String

module _ {W : Type 0} where
  -- `_publish_to_slots`, right after the store was marked with the time.
  unfoldable pub publish_to_slots :
      CollectionResult W
      → Time
      → SnapshotStore (MarketSnapshot W) (Opportunity W)
      → List (LatestSnapshotSlot (MarketSnapshot W) (Opportunity W))
      → List (LatestSnapshotSlot (MarketSnapshot W) (Opportunity W))
  unfolding put
  publish_to_slots result now store slots =
      let snapshot : PublishedSnapshot (MarketSnapshot W) (Opportunity W) = record {
        generation = store.generation;
        published_at = now;
        markets = result.markets;
        opportunities = result.opportunities;
        opportunities_version = some store.opportunities_version;
      } in
      map (put snapshot) slots

  -- The stage "publish"; a round without exchanges does not set all markets.
  unfoldable pub publish :
      Option (List (MarketSnapshot W))
      → CollectionResult W
      → Time
      → SnapshotStore (MarketSnapshot W) (Opportunity W)
      → Option (List (LatestSnapshotSlot (MarketSnapshot W) (Opportunity W)))
      → SnapshotStore (MarketSnapshot W) (Opportunity W)
        × Option (List (LatestSnapshotSlot (MarketSnapshot W) (Opportunity W)))
  unfolding publish_to_slots set_markets set_all_markets set_opportunities set_exchange_errors
      mark_published
  publish all_markets result now store slots =
      let with_all : SnapshotStore (MarketSnapshot W) (Opportunity W) = elim all_markets [
        | none ↦ store
        | some ms ↦ set_all_markets ms store
      ] in
      let published : SnapshotStore (MarketSnapshot W) (Opportunity W) = mark_published now (
        set_exchange_errors result.exchange_errors
          (set_opportunities result.opportunities (set_markets result.markets with_all))) in
      (
        published,
        elim slots [ none ↦ none | some ss ↦ some (publish_to_slots result now published ss) ],
      )
