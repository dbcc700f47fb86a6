-- ===== src/Collector.antt =====
-- backend/app/services/collector.py: when an exchange is polled, and what a poll leaves. An adapter
-- is its name; `M` is the type of a market, and what an adapter fetches is a parameter. A duration is
-- a count of microseconds.
pub mod Claim
pub mod Result
pub mod Poll
pub mod ClaimLoop
use taoli.Base.{
  ℕ, zero, suc, ◌+◌, ◌-◌, ◌*◌, ◌%◌, min, max, String, Bool, true, false, not, ◌&&◌, ◌||◌, Option,
  none, some, List, [], ◌∷◌, ◌++◌, if◌then◌else◌, string_eq, is_some, get_or, or_else, ltb, leb,
  length, take, drop, any, is_empty, ◌==◌, nat_eq,
}
use taoli.Base.Dict
use taoli.Base.Dict.{Dict}
use taoli.Base.Text.{lower}
use taoli.Models.Identity.{Time, second}

pub data PollStatus : Type 0 where
  healthy degraded cooling_down : PollStatus

pub record ExchangePollState : Type 0 where
  pub status : PollStatus
  pub last_success_at : Option Time
  pub last_error_at : Option Time
  pub consecutive_failures : ℕ
  pub cooldown_until : Option Time
  pub next_due_at : Option Time
  pub in_flight : Bool

abbrev pub new_poll_state : ExchangePollState
new_poll_state = record {
  status = healthy;
  last_success_at = none;
  last_error_at = none;
  consecutive_failures = 0;
  cooldown_until = none;
  next_due_at = none;
  in_flight = false;
}

pub record AdapterPollResult (M : Type 0) : Type 0 where
  pub markets : List M
  pub errors : Dict String String
  pub should_cool_down : Bool
  pub cooldown_seconds : Option Time

pub record MarketCollector (M : Type 0) : Type 0 where
  pub poll_states : Dict String ExchangePollState
  pub exchange_snapshots : Dict String (List M)
  pub exchange_errors : Dict String (Dict String String)
  pub adapter_cursor : ℕ

abbrev pub legal_restriction_cooldown_seconds : Time
legal_restriction_cooldown_seconds = 3600 * second

-- `EXCHANGE_COOLDOWN_SECONDS[min(max(n, 1), 3) - 1]`
unfoldable pub cooldown_seconds : ℕ → Time
cooldown_seconds n = elim (min (max n 1) 3 - 1) [
  | zero ↦ 15 * second
  | suc zero ↦ 30 * second
  | suc (suc k) ↦ 60 * second
]

-- `a or b` on a duration: 0 is false.
abbrev pub or_duration : Option Time → Time → Time
or_duration none d = d
or_duration (some zero) d = d
or_duration (some (suc n)) d = suc n

-- `_state_for`, without the entry that it adds.
abbrev pub state_for : String → Dict String ExchangePollState → ExchangePollState
state_for name states = get_or (Dict.get name states) new_poll_state

abbrev pub before_time : Time → Option Time → Bool
before_time now none = false
before_time now (some until) = ltb now until

unfoldable pub is_due : ExchangePollState → Time → Bool
is_due state now =
    if state.in_flight
    then false
    else if before_time now state.cooldown_until
    then false
    else not (before_time now state.next_due_at)

-- What one claim carries: the states, the claimed adapters, and the index of the last one.
pub record Claimed : Type 0 where
  pub states : Dict String ExchangePollState
  pub due_adapters : List String
  pub last_claimed_index : Option ℕ

module _ (limit count start : ℕ) (now : Time) where
  pub claim_one : ℕ → String → Claimed → Claimed
  claim_one offset name claimed = record {
    states =
        Dict.set name (record (state_for name claimed.states) { in_flight = true }) claimed.states;
    due_adapters = claimed.due_adapters ++ (name ∷ []);
    last_claimed_index = some ((start + offset) % count);
  }

  -- The loop of `_claim_due_adapters` from an offset on.
  pub claim_from : ℕ → List String → Claimed → Claimed
  unfolding claim_one
  claim_from offset [] claimed = claimed
  claim_from offset (name ∷ names) claimed =
      let state = state_for name claimed.states in
      let kept = record claimed { states = Dict.set name state claimed.states } in
      let taken = claim_one offset name claimed in
      elim (is_due state now) [
        | false ↦ claim_from (offset + 1) names kept
        | true ↦ elim (leb limit (length taken.due_adapters)) [
          | true ↦ taken
          | false ↦ claim_from (offset + 1) names taken
        ]
      ]

-- `adapters[start:] + adapters[:start]`
abbrev pub ordered_adapters : ℕ → List String → List String
ordered_adapters start adapters = drop start adapters ++ take start adapters

module _ {M : Type 0} where
  -- `limit` is `max(1, max_due_adapters_per_cycle)`.
  pub claim_due_adapters :
      ℕ → List String → Time → MarketCollector M → MarketCollector M × List String
  unfolding claim_from
  claim_due_adapters limit [] now c = (c, [])
  claim_due_adapters limit (name ∷ names) now c =
      let adapters = name ∷ names in
      let start = c.adapter_cursor % length adapters in
      let claimed =
        claim_from limit (length adapters) start now 0 (ordered_adapters start adapters)
          (record { states = c.poll_states; due_adapters = []; last_claimed_index = none }) in
      (
        record c {
          poll_states = claimed.states;
          adapter_cursor = elim claimed.last_claimed_index [
            | none ↦ c.adapter_cursor
            | some index ↦ (index + 1) % length adapters
          ];
        },
        claimed.due_adapters,
      )

  -- The new state of an exchange after a poll.
  pub polled_state : Time → AdapterPollResult M → Time → ExchangePollState → ExchangePollState
  polled_state poll_interval result now state =
      let failures = state.consecutive_failures + 1 in
      let until = now + or_duration result.cooldown_seconds (cooldown_seconds failures) in
      if is_empty result.errors
      then record state {
        in_flight = false;
        status = healthy;
        last_success_at = some now;
        consecutive_failures = 0;
        cooldown_until = none;
        next_due_at = some (now + poll_interval);
      }
      else if result.should_cool_down
      then record state {
        in_flight = false;
        last_error_at = some now;
        consecutive_failures = failures;
        status = cooling_down;
        cooldown_until = some until;
        next_due_at = some until;
      }
      else record state {
        in_flight = false;
        last_error_at = some now;
        consecutive_failures = failures;
        status = degraded;
        cooldown_until = none;
        next_due_at = some (now + poll_interval);
      }

  -- `pack` compacts the markets for storage, and keeps them.
  pub store_adapter_result :
      Time → String → AdapterPollResult M → Time → MarketCollector M → MarketCollector M
  unfolding polled_state
  store_adapter_result poll_interval name result now c =
      let state = polled_state poll_interval result now (state_for name c.poll_states) in
      let states = Dict.set name state c.poll_states in
      let usable = not (is_empty result.markets) && not result.should_cool_down in
      if is_empty result.errors
      then record c {
        poll_states = states;
        exchange_snapshots = Dict.set name result.markets c.exchange_snapshots;
        exchange_errors = Dict.pop name c.exchange_errors;
      }
      else record c {
        poll_states = states;
        exchange_snapshots =
            if usable
            then Dict.set name result.markets c.exchange_snapshots
            else c.exchange_snapshots;
        exchange_errors = Dict.set name result.errors c.exchange_errors;
      }

  -- A poll that raised, `none` here, is stored as an error that cools down.
  pub stored_result : String → Option (AdapterPollResult M) → String → AdapterPollResult M
  stored_result name none message = record {
    markets = [];
    errors = (name, message) ∷ [];
    should_cool_down = true;
    cooldown_seconds = none;
  }
  stored_result name (some result) message = result

  -- The loop of `_store_poll_results`, over the adapters with their results and error messages.
  pub store_poll_results :
      Time
      → List (String × Option (AdapterPollResult M) × String)
      → Time
      → MarketCollector M
      → MarketCollector M
  unfolding store_adapter_result stored_result
  store_poll_results poll_interval [] now c = c
  store_poll_results poll_interval ((name, result, message) ∷ results) now c =
      store_poll_results poll_interval results now
        (store_adapter_result poll_interval name (stored_result name result message) now c)
