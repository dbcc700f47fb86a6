-- ===== src/Collector/Claim.antt =====
-- Which exchanges a claim takes (collector.py).
use taoli.Base.{
  ℕ, zero, suc, ◌-◌, ◌%◌, ◌≤◌, String, Bool, true, false, ◌&&◌, none, List, [], ◌∷◌, string_eq, ◌≡◌,
  refl, ◌∙◌, ap, sym, arith, ==_iff, Bool-cases, inl, inr, All, ◌==◌, length, take, keep_if,
  contains, IsDistinct, rotate-IsDistinct, take-nil,
}
use taoli.Models.Identity.{Time}
use taoli.Collector.{
  MarketCollector, ExchangePollState, AdapterPollResult, polled_state, store_adapter_result,
  state_for, is_due, claim_due_adapters, ordered_adapters,
}
use taoli.Base.Dict
use taoli.Collector.Result.{stored_states}
use taoli.Collector.ClaimLoop.{due_in, in_flight_if, claim_from-IsClaim}

ordered_adapters-nil : (start : ℕ) → ordered_adapters start [] ≡ []
ordered_adapters-nil zero = refl
ordered_adapters-nil (suc start) = refl

-- A claim takes the exchanges that are due, in the order from the cursor on, as many as the limit
-- allows; those it takes are in flight afterwards, and every other state stays as it was.
pub claim_due_adapters_lem :
    {M : Type 0} (limit : ℕ) (adapters : List String) (now : Time) (c : MarketCollector M)
    → IsDistinct adapters
    → 1 ≤ limit
    → let (after, claimed) = claim_due_adapters limit adapters now c in
      (claimed
        ≡ take limit (
            keep_if
              (due_in c.poll_states now)
              (ordered_adapters (c.adapter_cursor % length adapters) adapters)))
      × ((name : String)
          → state_for name after.poll_states
            ≡ in_flight_if (contains name claimed) (state_for name c.poll_states))
unfolding claim_due_adapters
claim_due_adapters_lem limit [] now c distinct room = (
  sym (take-nil limit)
      ∙ ap (λ names. take limit (keep_if (due_in c.poll_states now) names))
          (sym (ordered_adapters-nil (c.adapter_cursor % 0))),
  λ name. refl,
)
claim_due_adapters_lem limit (a ∷ as') now c distinct room =
    let adapters = a ∷ as' in
    let start = c.adapter_cursor % length adapters in
    let h =
      claim_from-IsClaim limit (length adapters) start now (ordered_adapters start adapters) 0
        (record { states = c.poll_states; due_adapters = []; last_claimed_index = none })
        (rotate-IsDistinct start adapters distinct) (omega (arith, room)) in
    let whole : limit - 0 ≡ limit = omega arith in
    (
      h.adapters
          ∙ ap
              (λ room.
                take room (keep_if (due_in c.poll_states now) (ordered_adapters start adapters)))
              whole,
      λ name.
          h.states name
          ∙ ap (λ names. in_flight_if (contains name names) (state_for name c.poll_states))
              (sym h.adapters),
    )

flying-is_due :
    (state : ExchangePollState) (now : Time) → state.in_flight ≡ true → is_due state now ≡ false
unfolding is_due
flying-is_due state now h = ground (arith, h)

contains-keep_if :
    (test : String → Bool) (xs : List String) (name : String)
    → test name ≡ false
    → contains name (keep_if test xs) ≡ false
contains-keep_if test [] name h = refl
contains-keep_if test (x ∷ xs) name h =
    ground (arith, h, contains-keep_if test xs name h, ==_iff name x)

contains-take :
    (k : ℕ) (xs : List String) (name : String)
    → contains name xs ≡ false
    → contains name (take k xs) ≡ false
contains-take zero xs name h = refl
contains-take (suc k) [] name h = refl
contains-take (suc k) (x ∷ xs) name h = ground (arith, h, contains-take k xs name)

-- A claim, or the storing of the result of a poll.
pub data CollectorCall (M : Type 0) : Type 0 where
  claiming : ℕ → List String → Time → CollectorCall M
  storing : Time → String → AdapterPollResult M → Time → CollectorCall M

module _ {M : Type 0} where
  pub apply_collector_call : CollectorCall M → MarketCollector M → MarketCollector M
  apply_collector_call (claiming limit adapters now) c = (claim_due_adapters limit adapters now c).0
  apply_collector_call (storing poll_interval name result now) c =
      store_adapter_result poll_interval name result now c

  pub apply_collector_calls : List (CollectorCall M) → MarketCollector M → MarketCollector M
  unfolding apply_collector_call
  apply_collector_calls [] c = c
  apply_collector_calls (call ∷ calls) c = apply_collector_calls calls (apply_collector_call call c)

  -- A claim of distinct exchanges with room for one, or the result of another exchange.
  abbrev pub IsElsewhere : String → CollectorCall M → Type 0
  IsElsewhere name (claiming limit adapters now) = IsDistinct adapters × (1 ≤ limit)
  IsElsewhere name (storing poll_interval other result now) = (other == name) ≡ false

  abbrev IsFlying : String → MarketCollector M → Type 0
  IsFlying name c = (state_for name c.poll_states).in_flight ≡ true

  call-IsFlying :
      (call : CollectorCall M) (name : String) (c : MarketCollector M)
      → IsElsewhere name call
      → IsFlying name c
      → IsFlying name (apply_collector_call call c)
  unfolding apply_collector_call
  call-IsFlying (claiming limit adapters now) name c (distinct, room) flying =
      let (_, states) = claim_due_adapters_lem limit adapters now c distinct room in
      ground (arith, states name, flying)
  call-IsFlying (storing poll_interval other result now) name c elsewhere flying =
      let state = polled_state poll_interval result now (state_for other c.poll_states) in
      rw (stored_states poll_interval other result now c)
        (ground (arith, Dict.get-set other name state c.poll_states, elsewhere, flying))

  calls-IsFlying :
      (calls : List (CollectorCall M)) (name : String) (c : MarketCollector M)
      → All (IsElsewhere name) calls
      → IsFlying name c
      → IsFlying name (apply_collector_calls calls c)
  unfolding apply_collector_calls
  calls-IsFlying [] name c elsewhere flying = flying
  calls-IsFlying (call ∷ calls) name c elsewhere flying =
      calls-IsFlying calls name _ elsewhere.1 (call-IsFlying call name c elsewhere.0 flying)

  -- An exchange that a claim took is not taken by a later one, at whatever time, while other claims and
  -- the results of other exchanges come in between, so before its own result is stored: no exchange is
  -- polled twice at the same time. Every claim is of distinct exchanges, with a limit of at least 1.
  pub claims_exclude :
      (limit later_limit : ℕ) (adapters others : List String) (now later : Time)
      (c : MarketCollector M) (name : String) (calls : List (CollectorCall M))
      → IsDistinct adapters
      → IsDistinct others
      → 1 ≤ limit
      → 1 ≤ later_limit
      → All (IsElsewhere name) calls
      → let (after, claimed) = claim_due_adapters limit adapters now c in
        (contains name claimed
          && contains name
              (claim_due_adapters later_limit others later (apply_collector_calls calls after)).1)
        ≡ false
  claims_exclude limit later_limit adapters others now later c name calls distinct distinct' room
        room' elsewhere =
      let (after, claimed) = claim_due_adapters limit adapters now c in
      let at_last = apply_collector_calls calls after in
      let first = claim_due_adapters_lem limit adapters now c distinct room in
      let second = claim_due_adapters_lem later_limit others later at_last distinct' room' in
      elim (Bool-cases (contains name claimed)) [
        | inr other ↦ rw other refl
        | inl taken ↦
            let flying : due_in at_last.poll_states later name ≡ false =
              flying-is_due (state_for name at_last.poll_states) later
                (calls-IsFlying calls name after elsewhere (ground (arith, first.1 name, taken))) in
            let ordered = ordered_adapters (at_last.adapter_cursor % length others) others in
            rw taken (
              ap (contains name) second.0
              ∙ contains-take later_limit (keep_if (due_in at_last.poll_states later) ordered) name
                  (contains-keep_if (due_in at_last.poll_states later) ordered name flying))
      ]
