-- ===== src/Examples/Runtime.antt =====
-- The scheduling of two exchanges, a supervised task, and the snapshots.
use taoli.Base.{
  ℕ, ◌+◌, ◌*◌, ◌%◌, String, true, false, ◌&&◌, none, some, List, [], ◌∷◌, ◌≡◌, refl, ◌⊎◌, length,
  take, keep_if, contains, if◌then◌else◌, leb, string_eq, arith, ◌==◌, ==_iff, IsDistinct,
}
use taoli.Base.Number.{ℤ, pos, fixed_float, ◌⊗◌, nought, of_nat, min_of}
use taoli.Models.Identity.{second}
use taoli.Collector.{
  MarketCollector, AdapterPollResult, claim_due_adapters, ordered_adapters, state_for, is_due,
  store_adapter_result,
}
use taoli.Collector.ClaimLoop.{due_in, in_flight_if}
use taoli.Collector.Claim.{
  CollectorCall, claiming, storing, apply_collector_calls, claim_due_adapters_lem, claims_exclude,
}
use taoli.Collector.Result.{store_adapter_result-is_due, wait_after}
use taoli.Supervisor.{
  Policy, Task, Happening, ended, beaten, stop_began, began, raised, slept, cancelled, run_task,
  new_task, in_coroutine, over, settle, stopped, failed, running,
}
use taoli.Supervisor.Ladder.{IsLawful, run_task_lem}
use taoli.Supervisor.Restart.{wait_of, restarts_after_failure, stop_is_final}
use taoli.Snapshots.{
  SnapshotStore, empty_snapshot_store, set_opportunities, set_opportunities_if_version,
  PublishedSnapshot, SnapshotConsumer, new_consumer, handled, handler_failed, handler_cancelled,
}
use taoli.Snapshots.Versions.{
  Call, opportunities_set, errors_set, apply_calls, replaces_any, set_opportunities_if_version_lem,
}
use taoli.Snapshots.Consumer.{
  Action, putting, turning, act_all, completed, IsIncreasing, handled_count, pending_count,
  put_total, taken_total, completed-IsIncreasing, put_total_lem,
}
use taoli.Examples.Data.{at_noon}

abbrev two_exchanges : List String
two_exchanges = "binance" ∷ "okx" ∷ []

two_exchanges-IsDistinct : IsDistinct two_exchanges
two_exchanges-IsDistinct k = ground (
  arith,
  ==_iff {A = String} k "binance",
  ==_iff {A = String} k "okx",
  ==_iff {A = String} "binance" "okx",
)

abbrev fresh_collector : MarketCollector ℕ
fresh_collector = record {
  poll_states = [];
  exchange_snapshots = [];
  exchange_errors = [];
  adapter_cursor = 1;
}

claim_due_adapters_lem_example :
    let (after, claimed) = claim_due_adapters 1 two_exchanges at_noon fresh_collector in
    (claimed ≡ take 1 (keep_if (due_in [] at_noon) (ordered_adapters (1 % 2) two_exchanges)))
    × ((name : String)
        → state_for name after.poll_states
          ≡ in_flight_if (contains name claimed) (state_for name []))
claim_due_adapters_lem_example =
    claim_due_adapters_lem 1 two_exchanges at_noon fresh_collector two_exchanges-IsDistinct
      (omega arith)

abbrev timed_out : AdapterPollResult ℕ
timed_out = record {
  markets = [];
  errors = ("okx:spot", "ReadTimeout") ∷ [];
  should_cool_down = true;
  cooldown_seconds = none;
}

-- Another exchange answers, and more are claimed.
abbrev calls_meanwhile : List (CollectorCall ℕ)
calls_meanwhile =
    storing (5 * second) "bybit" timed_out at_noon ∷ claiming 2 two_exchanges at_noon ∷ []

claims_exclude_example :
    let (after, claimed) = claim_due_adapters 1 two_exchanges at_noon fresh_collector in
    (contains "okx" claimed
      && contains "okx"
          (claim_due_adapters 1 two_exchanges at_noon
            (apply_collector_calls calls_meanwhile after)).1)
    ≡ false
claims_exclude_example =
    claims_exclude 1 1 two_exchanges two_exchanges at_noon at_noon fresh_collector "okx"
      calls_meanwhile two_exchanges-IsDistinct two_exchanges-IsDistinct (omega arith) (omega arith)
      (refl, ((two_exchanges-IsDistinct, omega arith), tt))

abbrev okx : String
okx = "okx"

store_adapter_result-is_due_example :
    is_due
      (state_for okx
        (store_adapter_result (5 * second) "okx" timed_out at_noon fresh_collector).poll_states)
      (at_noon + 20 * second)
    ≡ (if okx == "okx"
        then leb
            (at_noon + wait_after (5 * second) "okx" timed_out at_noon fresh_collector)
            (at_noon + 20 * second)
        else is_due (state_for okx []) (at_noon + 20 * second))
store_adapter_result-is_due_example =
    store_adapter_result-is_due (5 * second) "okx" timed_out at_noon fresh_collector "okx"
      (at_noon + 20 * second)

abbrev five_seconds : Policy ℤ
five_seconds = record { initial_backoff = pos 5000000; max_backoff = pos 300000000 }

abbrev one_failure : List Happening
one_failure =
    ended (began at_noon)
    ∷ beaten at_noon true
    ∷ ended (raised at_noon "TimeoutError")
    ∷ ended (slept at_noon)
    ∷ []

run_task_lem_example :
    IsLawful five_seconds
      (run_task five_seconds one_failure (false, new_task five_seconds true true))
run_task_lem_example = run_task_lem five_seconds one_failure true true

abbrev running_task : Task ℤ
running_task = record {
  status = record {
    critical = true;
    state = running;
    started_at = some at_noon;
    last_iteration_at = none;
    last_ok_at = none;
    last_error = none;
    iterations = 0;
    restarts = 0;
    last_failure_at = none;
    backoff_seconds = nought;
    last_rss_anon_mb = none;
    last_rss_delta_mb = none;
  };
  delay = pos 5000000;
  restart = true;
  phase = in_coroutine none;
}

restarts_after_failure_example :
    (run_task five_seconds
      (ended (raised at_noon "OSError")
        ∷ ended (slept (at_noon + second))
        ∷ ended (slept (at_noon + 5 * second))
        ∷ [])
      (false, running_task)).1
    ≡ record {
      status = record running_task.status {
        state = running;
        started_at = some (at_noon + 5 * second);
        last_error = some "OSError";
        last_failure_at = some at_noon;
        restarts = 1;
        backoff_seconds = nought;
      };
      delay = min_of five_seconds.max_backoff (wait_of five_seconds running_task none ⊗ of_nat 2);
      restart = true;
      phase = in_coroutine none;
    }
restarts_after_failure_example =
    restarts_after_failure five_seconds running_task none at_noon (at_noon + second)
      (at_noon + 5 * second) "OSError" refl refl

stop_is_final_example :
    let (_, after) =
      run_task five_seconds
        (stop_began ∷ ended cancelled ∷ ended (began at_noon) ∷ [])
        (false, running_task) in
    (after.phase ≡ over)
    × (((settle after.status).state ≡ stopped) ⊎ ((settle after.status).state ≡ failed))
stop_is_final_example = stop_is_final five_seconds running_task (ended (began at_noon) ∷ [])

abbrev snapshot_of : ℕ → PublishedSnapshot ℕ ℕ
snapshot_of generation = record {
  generation = generation;
  published_at = at_noon;
  markets = [];
  opportunities = [];
  opportunities_version = none;
}

abbrev idle_consumer : SnapshotConsumer ℕ ℕ ℤ
idle_consumer = new_consumer

abbrev three_puts : List (Action ℕ ℕ ℤ)
three_puts =
    putting (snapshot_of 1)
    ∷ putting (snapshot_of 2)
    ∷ turning handler_cancelled
    ∷ turning (handler_failed nought)
    ∷ turning (handled nought)
    ∷ putting (snapshot_of 3)
    ∷ turning (handled nought)
    ∷ []

completed-IsIncreasing_example :
    IsIncreasing 0 (completed 120 three_puts idle_consumer)
    × (handled_count 120 (act_all 120 three_puts idle_consumer)
        ≡ 0 + length (completed 120 three_puts idle_consumer))
completed-IsIncreasing_example = completed-IsIncreasing 120 three_puts idle_consumer

put_total_lem_example :
    let after = act_all 120 three_puts idle_consumer in
    0 + pending_count 120 idle_consumer + put_total 120 three_puts
    ≡ after.slot.dropped + pending_count 120 after + taken_total 120 three_puts false idle_consumer
put_total_lem_example = put_total_lem 120 three_puts idle_consumer

abbrev empty_store_of_numbers : SnapshotStore ℕ ℕ
empty_store_of_numbers = empty_snapshot_store

abbrev one_replacement : List (Call ℕ ℕ)
one_replacement = errors_set [] ∷ opportunities_set (7 ∷ []) ∷ []

set_opportunities_if_version_lem_example :
    let after = apply_calls one_replacement empty_store_of_numbers in
    set_opportunities_if_version (8 ∷ []) 0 after ≡ (
      if replaces_any one_replacement empty_store_of_numbers
      then (after, false)
      else (set_opportunities (8 ∷ []) after, true))
set_opportunities_if_version_lem_example =
    set_opportunities_if_version_lem one_replacement (8 ∷ []) empty_store_of_numbers
