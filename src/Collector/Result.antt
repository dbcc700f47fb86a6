-- ===== src/Collector/Result.antt =====
-- When an exchange is due again after a poll (collector.py).
use taoli.Base.{
  ℕ, zero, suc, ◌+◌, ◌*◌, ◌≤◌, String, not, ◌&&◌, if◌then◌else◌, leb, string_eq, is_empty, ◌≡◌,
  refl, arith, ◌==◌, Bool-cases, inl, inr,
}
use taoli.Base.Dict
use taoli.Base.Dict.{Dict}
use taoli.Models.Identity.{Time, second}
use taoli.Collector.{
  AdapterPollResult, MarketCollector, ExchangePollState, cooldown_seconds, or_duration, state_for,
  is_due, polled_state, store_adapter_result,
}

module _ {M : Type 0} (poll_interval : Time) (name : String) (result : AdapterPollResult M)
    (now : Time) (c : MarketCollector M) where
  -- The wait until the next poll: the poll interval, or for a result that cools down its own duration,
  -- or else the one for the failures in a row.
  abbrev pub wait_after : Time
  wait_after =
      if not (is_empty result.errors) && result.should_cool_down
      then or_duration result.cooldown_seconds
          (cooldown_seconds ((state_for name c.poll_states).consecutive_failures + 1))
      else poll_interval

  polled-is_due :
      (state : ExchangePollState) (later : Time)
      → is_due (polled_state poll_interval result now state) later
        ≡ leb
            (now
              + (if not (is_empty result.errors) && result.should_cool_down
                  then or_duration result.cooldown_seconds
                      (cooldown_seconds (state.consecutive_failures + 1))
                  else poll_interval))
            later
  unfolding is_due polled_state
  polled-is_due state later = ground arith

  pub stored_states :
      (store_adapter_result poll_interval name result now c).poll_states
      ≡ Dict.set name
          (polled_state poll_interval result now (state_for name c.poll_states))
          c.poll_states
  unfolding store_adapter_result
  stored_states = elim (Bool-cases (is_empty result.errors)) [
    | inl e ↦ rw e refl
    | inr e ↦ rw e refl
  ]

  -- After the result of a poll was stored, the exchange is due exactly from the wait on; every other
  -- exchange has the state that it had.
  pub store_adapter_result-is_due :
      (other : String) (later : Time)
      → is_due
          (state_for other (store_adapter_result poll_interval name result now c).poll_states)
          later
        ≡ (if name == other
            then leb (now + wait_after) later
            else is_due (state_for other c.poll_states) later)
  store_adapter_result-is_due other later =
      let state = polled_state poll_interval result now (state_for name c.poll_states) in
      rw stored_states (
        ground (
          arith,
          Dict.get-set name other state c.poll_states,
          polled-is_due (state_for name c.poll_states) later,
        ))

-- The wait before an exchange that keeps failing is polled again is at least 15 seconds, never shrinks
-- with another failure, and is a minute from the third failure on.
pub cooldown_bounds :
    (n : ℕ)
    → (15 * second ≤ cooldown_seconds n)
      × (cooldown_seconds n ≤ cooldown_seconds (n + 1))
      × (cooldown_seconds (n + 3) ≡ 60 * second)
unfolding cooldown_seconds
cooldown_bounds zero = ground arith
cooldown_bounds (suc zero) = ground arith
cooldown_bounds (suc (suc zero)) = ground arith
cooldown_bounds (suc (suc (suc n))) = ground arith
