-- ===== src/Snapshots.antt =====
-- backend/app/services/snapshot_store.py and snapshot_consumers.py: the latest published lists, and
-- the mailbox of one consumer. `M` is the type of a market and `O` that of an opportunity. The store's
-- lock makes each method one step; the mailbox belongs to one event loop.
pub mod Versions
pub mod Consumer
use taoli.Base.{
  ℕ, zero, suc, ◌+◌, ◌-◌, String, Bool, true, false, not, ◌&&◌, ◌||◌, Option, none, some, List, [],
  ◌∷◌, ◌++◌, if◌then◌else◌, ◌==◌, nat_eq, ltb, get_or, or_else, length, last_n, max,
}
use taoli.Base.Dict.{Dict}
use taoli.Base.Number.{ℤ}
use taoli.Models.Identity.{Time}

pub record SnapshotStore (M O : Type 0) : Type 0 where
  pub generation : ℕ
  pub published_at : Option Time
  pub markets : List M
  pub all_markets : Option (List M)
  pub opportunities : List O
  pub opportunities_version : ℕ
  pub exchange_errors : Dict String String

abbrev pub empty_snapshot_store : {M O : Type 0} → SnapshotStore M O
empty_snapshot_store = record {
  generation = 0;
  published_at = none;
  markets = [];
  all_markets = none;
  opportunities = [];
  opportunities_version = 0;
  exchange_errors = [];
}

module _ {M O : Type 0} where
  unfoldable pub set_markets : List M → SnapshotStore M O → SnapshotStore M O
  set_markets markets s = record s { markets = markets }

  unfoldable pub set_all_markets : List M → SnapshotStore M O → SnapshotStore M O
  set_all_markets markets s = record s { all_markets = some markets }

  pub get_all_markets : SnapshotStore M O → List M
  get_all_markets s = get_or s.all_markets s.markets

  unfoldable pub set_opportunities : List O → SnapshotStore M O → SnapshotStore M O
  set_opportunities opportunities s = record s {
    opportunities = opportunities;
    opportunities_version = s.opportunities_version + 1;
  }

  unfoldable pub set_opportunities_if_version :
      List O → ℕ → SnapshotStore M O → SnapshotStore M O × Bool
  unfolding set_opportunities
  set_opportunities_if_version opportunities expected_version s =
      if not (s.opportunities_version == expected_version)
      then (s, false)
      else (set_opportunities opportunities s, true)

  -- The three lengths of `sizes`.
  pub sizes : SnapshotStore M O → ℕ × ℕ × ℕ
  unfolding get_all_markets
  sizes s = (length s.markets, length (get_all_markets s), length s.opportunities)

  unfoldable pub set_exchange_errors : Dict String String → SnapshotStore M O → SnapshotStore M O
  set_exchange_errors errors s = record s { exchange_errors = errors }

  unfoldable pub mark_published : Time → SnapshotStore M O → SnapshotStore M O
  mark_published now s = record s { generation = s.generation + 1; published_at = some now }

pub record PublishedSnapshot (M O : Type 0) : Type 0 where
  pub generation : ℕ
  pub published_at : Time
  pub markets : List M
  pub opportunities : List O
  pub opportunities_version : Option ℕ

pub record LatestSnapshotSlot (M O : Type 0) : Type 0 where
  pub latest : Option (PublishedSnapshot M O)
  pub pending : Bool
  pub dropped : ℕ

abbrev pub empty_slot : {M O : Type 0} → LatestSnapshotSlot M O
empty_slot = record { latest = none; pending = false; dropped = 0 }

module _ {M O : Type 0} where
  unfoldable pub put : PublishedSnapshot M O → LatestSnapshotSlot M O → LatestSnapshotSlot M O
  put snapshot slot = record {
    latest = some snapshot;
    pending = true;
    dropped = if slot.pending then slot.dropped + 1 else slot.dropped;
  }

  -- The test of `get_newer`; `none` is to wait for the next `put`.
  pub get_newer :
      ℕ → LatestSnapshotSlot M O → Option (LatestSnapshotSlot M O × PublishedSnapshot M O)
  get_newer after_generation slot = elim slot.latest [
    | none ↦ none
    | some snapshot ↦
        if ltb after_generation snapshot.generation
        then some (record slot { pending = false }, snapshot)
        else none
  ]

pub record SnapshotConsumer (M O W : Type 0) : Type 0 where
  pub slot : LatestSnapshotSlot M O
  pub durations : List W
  pub processed_generation : ℕ
  pub processed : ℕ
  pub failed : ℕ

abbrev pub new_consumer : {M O W : Type 0} → SnapshotConsumer M O W
new_consumer = record {
  slot = empty_slot;
  durations = [];
  processed_generation = 0;
  processed = 0;
  failed = 0;
}

-- How a call of the handler ends; each end but a cancellation has a duration.
pub data Outcome (W : Type 0) : Type 0 where
  handled : W → Outcome W
  handler_failed : W → Outcome W
  handler_cancelled : Outcome W

module _ {M O W : Type 0} (window : ℕ) where
  -- The end of one turn of the loop of `run`, after the snapshot was handled.
  pub finish : PublishedSnapshot M O → Bool → W → SnapshotConsumer M O W → SnapshotConsumer M O W
  finish snapshot ok duration consumer = record consumer {
    processed = if ok then consumer.processed + 1 else consumer.processed;
    failed = if ok then consumer.failed else consumer.failed + 1;
    processed_generation = snapshot.generation;
    durations = last_n (max 1 window) (consumer.durations ++ (duration ∷ []));
  }

  -- One turn of the loop of `run`: nothing happens while no newer snapshot is there.
  pub turn : Outcome W → SnapshotConsumer M O W → SnapshotConsumer M O W
  unfolding get_newer finish
  turn outcome consumer = elim (get_newer consumer.processed_generation consumer.slot) [
    | none ↦ consumer
    | some (slot, snapshot) ↦
        let taken = record consumer { slot = slot } in
        elim outcome [
          | handled duration ↦ finish snapshot true duration taken
          | handler_failed duration ↦ finish snapshot false duration taken
          | handler_cancelled ↦ taken
        ]
  ]
