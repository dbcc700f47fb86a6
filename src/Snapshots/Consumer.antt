-- ===== src/Snapshots/Consumer.antt =====
-- A consumer handles each generation at most once, and the newest first (snapshot_consumers.py).
use taoli.Base.{
  ℕ, suc, ◌+◌, ◌≤◌, ◌<◌, not, ◌&&◌, List, [], ◌∷◌, if◌then◌else◌, ltb, ◌≡◌, refl, ap, Bool, true,
  is_some, arith, length, ltb→lt, Bool-cases, inl, inr,
}
use taoli.Snapshots.{PublishedSnapshot, SnapshotConsumer, Outcome, put, get_newer, finish, turn}

-- A snapshot is put into the mailbox, or the consumer takes a turn.
pub data Action (M O W : Type 0) : Type 0 where
  putting : PublishedSnapshot M O → Action M O W
  turning : Outcome W → Action M O W

-- Greater than `low`, and each greater than the one before.
abbrev pub IsIncreasing : ℕ → List ℕ → Type 0
IsIncreasing low [] = Unit
IsIncreasing low (n ∷ ns) = (low < n) × IsIncreasing n ns

IsIncreasing-mono :
    (low high : ℕ) (ns : List ℕ) → low ≤ high → IsIncreasing high ns → IsIncreasing low ns
IsIncreasing-mono low high [] le h = tt
IsIncreasing-mono low high (n ∷ ns) le h = (omega (arith, le, h.0), h.1)

module _ {M O W : Type 0} (window : ℕ) where
  pub act : Action M O W → SnapshotConsumer M O W → SnapshotConsumer M O W
  unfolding put turn
  act (putting snapshot) consumer = record consumer { slot = put snapshot consumer.slot }
  act (turning outcome) consumer = turn window outcome consumer

  pub act_all : List (Action M O W) → SnapshotConsumer M O W → SnapshotConsumer M O W
  act_all [] consumer = consumer
  act_all (action ∷ actions) consumer = act_all actions (act action consumer)

  -- The generations of the snapshots that the consumer finished with, in order.
  pub completed : List (Action M O W) → SnapshotConsumer M O W → List ℕ
  completed [] consumer = []
  completed (action ∷ actions) consumer =
      let after = act action consumer in
      let rest = completed actions after in
      if ltb consumer.processed_generation after.processed_generation
      then after.processed_generation ∷ rest
      else rest

  -- What an action adds to the mailbox, and whether it takes a snapshot for the first time.
  abbrev pub put_count : Action M O W → ℕ
  put_count (putting snapshot) = 1
  put_count (turning outcome) = 0

  pub put_total : List (Action M O W) → ℕ
  put_total [] = 0
  put_total (action ∷ actions) = put_count action + put_total actions

  abbrev pub pending_count : SnapshotConsumer M O W → ℕ
  pending_count consumer = if consumer.slot.pending then 1 else 0

  -- How often a turn takes a snapshot that no turn has taken before, as its `get_newer` answers; `fresh`
  -- says that the latest one is such.
  pub taken_total : List (Action M O W) → Bool → SnapshotConsumer M O W → ℕ
  taken_total [] fresh consumer = 0
  taken_total (putting snapshot ∷ actions) fresh consumer =
      taken_total actions true (act (putting snapshot) consumer)
  taken_total (turning outcome ∷ actions) fresh consumer =
      let after = act (turning outcome) consumer in
      let taken = is_some (get_newer consumer.processed_generation consumer.slot) in
      let rest = taken_total actions (fresh && not taken) after in
      if fresh && taken then suc rest else rest

  abbrev pub handled_count : SnapshotConsumer M O W → ℕ
  handled_count consumer = consumer.processed + consumer.failed

  -- An action never lowers the processed generation, and counts exactly if it raises it; what it puts
  -- is pending, or replaces a pending snapshot, which is then dropped.
  act_lem :
      (action : Action M O W) (consumer : SnapshotConsumer M O W)
      → let after = act action consumer in
        (consumer.processed_generation ≤ after.processed_generation)
        × (handled_count after
            ≡ handled_count consumer
              + (if ltb consumer.processed_generation after.processed_generation then 1 else 0))
        × (consumer.slot.dropped + pending_count consumer + put_count action
            ≡ after.slot.dropped
              + pending_count after
              + (if consumer.slot.pending && not after.slot.pending then 1 else 0))
  unfolding act put turn get_newer finish
  act_lem (putting snapshot) consumer = ground arith
  act_lem (turning outcome) consumer = ground arith

  -- A turn takes what is pending off, exactly if it takes a snapshot.
  turn-pending :
      (outcome : Outcome W) (consumer : SnapshotConsumer M O W)
      → (act (turning outcome) consumer).slot.pending
        ≡ consumer.slot.pending
          && not (is_some (get_newer consumer.processed_generation consumer.slot))
  unfolding act turn get_newer finish
  turn-pending outcome consumer = ground arith

  put-pending :
      (snapshot : PublishedSnapshot M O) (consumer : SnapshotConsumer M O W)
      → (act (putting snapshot) consumer).slot.pending ≡ true
  unfolding act put
  put-pending snapshot consumer = refl

  -- Whatever is put and however the calls of the handler end, the consumer finishes with snapshots of
  -- strictly increasing generations, so with none twice; a snapshot whose handler failed counts as
  -- finished and one whose handler was cancelled does not. The two counters count the finished ones.
  pub completed-IsIncreasing :
      (actions : List (Action M O W)) (consumer : SnapshotConsumer M O W)
      → IsIncreasing consumer.processed_generation (completed actions consumer)
        × (handled_count (act_all actions consumer)
            ≡ handled_count consumer + length (completed actions consumer))
  unfolding completed act_all
  completed-IsIncreasing [] consumer = (tt, omega arith)
  completed-IsIncreasing (action ∷ actions) consumer =
      let after = act action consumer in
      let step = act_lem action consumer in
      let ih = completed-IsIncreasing actions after in
      elim (Bool-cases (ltb consumer.processed_generation after.processed_generation)) [
        | inl up ↦ rw up ((ltb→lt _ _ up, ih.0), ground (arith, up, ih.1, step.1))
        | inr same ↦ rw same (
          IsIncreasing-mono consumer.processed_generation after.processed_generation
              (completed actions after) step.0 ih.0,
          ground (arith, same, ih.1, step.1),
        )
      ]

  -- Every snapshot that was put has been taken by a turn, was dropped for a newer one, or is pending, and
  -- none is counted twice, also if its handler was cancelled and a later turn takes it again.
  pub put_total_lem :
      (actions : List (Action M O W)) (consumer : SnapshotConsumer M O W)
      → let after = act_all actions consumer in
        consumer.slot.dropped + pending_count consumer + put_total actions
        ≡ after.slot.dropped
          + pending_count after
          + taken_total actions consumer.slot.pending consumer
  unfolding put_total taken_total act_all
  put_total_lem [] consumer = omega arith
  put_total_lem (putting snapshot ∷ actions) consumer =
      let after = act (putting snapshot) consumer in
      let step = act_lem (putting snapshot) consumer in
      let ih = put_total_lem actions after in
      let fresh = ap (λ b. taken_total actions b after) (put-pending snapshot consumer) in
      ground (arith, step.2, ih, fresh, put-pending snapshot consumer)
  put_total_lem (turning outcome ∷ actions) consumer =
      let after = act (turning outcome) consumer in
      let step = act_lem (turning outcome) consumer in
      let ih = put_total_lem actions after in
      let fresh = ap (λ b. taken_total actions b after) (turn-pending outcome consumer) in
      ground (arith, step.2, ih, fresh, turn-pending outcome consumer)
