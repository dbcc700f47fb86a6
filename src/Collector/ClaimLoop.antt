-- ===== src/Collector/ClaimLoop.antt =====
-- What the loop of _claim_due_adapters takes (collector.py).
use taoli.Base.{
  ℕ, ◌+◌, ◌-◌, ◌<◌, String, Bool, true, false, ◌||◌, List, [], ◌∷◌, ◌++◌, if◌then◌else◌, leb,
  string_eq, ◌≡◌, refl, ◌∙◌, ap, sym, arith, ==_self, ◌==◌, ==_iff, Bool-cases, inl, inr, length,
  take, keep_if, contains, count, IsDistinct, All-of_count, keep_if-congr, keep_if-ext, take-cons,
  take-nil, append-nil, leb→le, append_one-append, length-append,
}
use taoli.Base.Dict
use taoli.Base.Dict.{Dict}
use taoli.Models.Identity.{Time}
use taoli.Collector.{ExchangePollState, state_for, is_due, Claimed, claim_one, claim_from}

-- Whether an exchange is due by the states.
abbrev pub due_in : Dict String ExchangePollState → Time → String → Bool
due_in states now name = is_due (state_for name states) now

abbrev pub in_flight_if : Bool → ExchangePollState → ExchangePollState
in_flight_if taken state = if taken then record state { in_flight = true } else state

state_for-set :
    (name j : String) (state : ExchangePollState) (states : Dict String ExchangePollState)
    → state_for j (Dict.set name state states) ≡ (if name == j then state else state_for j states)
state_for-set name j state states = ground (arith, Dict.get-set name j state states)

state_for-kept :
    (name j : String) (states : Dict String ExchangePollState)
    → state_for j (Dict.set name (state_for name states) states) ≡ state_for j states
state_for-kept name j states =
    ground (arith, state_for-set name j (state_for name states) states, ==_iff name j)

marked_lem :
    (name j : String) (taken : Bool) (states : Dict String ExchangePollState)
    → in_flight_if taken
        (state_for j (Dict.set name (record (state_for name states) { in_flight = true }) states))
      ≡ in_flight_if (j == name || taken) (state_for j states)
marked_lem name j taken states =
    rw (state_for-set name j (record (state_for name states) { in_flight = true }) states)
      (ground (arith, ==_iff name j, ==_iff j name))

module _ (limit n start : ℕ) (now : Time) where
  -- The claimed exchanges among `names`, where `room` more fit.
  abbrev taken : ℕ → Dict String ExchangePollState → List String → List String
  taken room states names = take room (keep_if (due_in states now) names)

  pub record IsClaim (claimed : Claimed) (names : List String) (after : Claimed) : Type 0 where
    pub adapters :
        after.due_adapters
        ≡ claimed.due_adapters ++ taken (limit - length claimed.due_adapters) claimed.states names
    pub states :
        (j : String)
        → state_for j after.states
          ≡ in_flight_if
              (contains j (taken (limit - length claimed.due_adapters) claimed.states names))
              (state_for j claimed.states)

  -- An exchange that is not due is passed over.
  passed-IsClaim :
      (name : String) (names : List String) (claimed after : Claimed)
      → due_in claimed.states now name ≡ false
      → IsClaim
          (record claimed { states = Dict.set name (state_for name claimed.states) claimed.states })
          names
          after
      → IsClaim claimed (name ∷ names) after
  passed-IsClaim name names claimed after idle h =
      let kept = Dict.set name (state_for name claimed.states) claimed.states in
      let same : keep_if (due_in kept now) names
          ≡ keep_if (due_in claimed.states now) (name ∷ names) =
        keep_if-ext (due_in kept now) (due_in claimed.states now) names
          (λ j. ap (λ state. is_due state now) (state_for-kept name j claimed.states))
        ∙ rw idle refl in
      let room = limit - length claimed.due_adapters in
      record {
        adapters = h.adapters ∙ ap (λ names. claimed.due_adapters ++ take room names) same;
        states = λ j.
            h.states j
            ∙ ap (λ names. in_flight_if (contains j (take room names)) (state_for j kept)) same
            ∙ ap (in_flight_if (contains j (taken room claimed.states (name ∷ names))))
                (state_for-kept name j claimed.states);
      }

  -- A due exchange is taken, and the rest follows where more fit.
  taken-IsClaim :
      (offset : ℕ) (name : String) (names : List String) (claimed after : Claimed)
      → due_in claimed.states now name ≡ true
      → length claimed.due_adapters < limit
      → count name names ≡ 0
      → IsClaim (claim_one limit n start now offset name claimed) names after
      → IsClaim claimed (name ∷ names) after
  unfolding claim_one
  taken-IsClaim offset name names claimed after due fits new h =
      let marked =
        Dict.set name (record (state_for name claimed.states) { in_flight = true })
          claimed.states in
      let idle = keep_if (due_in claimed.states now) names in
      let left = limit - length claimed.due_adapters in
      let rest : keep_if (due_in marked now) names ≡ idle =
        keep_if-congr (due_in marked now) (due_in claimed.states now) names (
          All-of_count _ name names
            (λ j other.
              ap (λ state. is_due state now)
                (state_for-set name j _ claimed.states ∙ rw other refl))
            new) in
      let room : limit - length (claimed.due_adapters ++ (name ∷ [])) ≡ left - 1 =
        omega (arith, length-append claimed.due_adapters (name ∷ [])) in
      let first : taken left claimed.states (name ∷ names) ≡ name ∷ take (left - 1) idle =
        rw due (take-cons left name idle (omega (arith, fits))) in
      record {
        adapters =
            h.adapters
            ∙ ap (λ names. (claimed.due_adapters ++ (name ∷ [])) ++ names) (rw (room, rest) refl)
            ∙ append_one-append claimed.due_adapters name (take (left - 1) idle)
            ∙ ap (λ names. claimed.due_adapters ++ names) (sym first);
        states = λ j.
            h.states j
            ∙ rw (room, rest) (marked_lem name j (contains j (take (left - 1) idle)) claimed.states)
            ∙ ap (λ names. in_flight_if (contains j names) (state_for j claimed.states))
                (sym first);
      }

  -- A claim that takes nothing more.
  same-IsClaim :
      (names : List String) (claimed : Claimed)
      → taken (limit - length claimed.due_adapters) claimed.states names ≡ []
      → IsClaim claimed names claimed
  same-IsClaim names claimed h = record {
    adapters =
        sym (append-nil claimed.due_adapters) ∙ ap (λ names. claimed.due_adapters ++ names) (sym h);
    states =
        λ j. ap (λ names. in_flight_if (contains j names) (state_for j claimed.states)) (sym h);
  }

  pub claim_from-IsClaim :
      (names : List String) (offset : ℕ) (claimed : Claimed)
      → IsDistinct names
      → length claimed.due_adapters < limit
      → IsClaim claimed names (claim_from limit n start now offset names claimed)
  unfolding claim_from
  claim_from-IsClaim [] offset claimed distinct fits =
      same-IsClaim [] claimed (take-nil (limit - length claimed.due_adapters))
  claim_from-IsClaim (name ∷ names) offset claimed distinct fits =
      let fresh : IsDistinct names = λ k. omega (arith, distinct k) in
      let taking = claim_one limit n start now offset name claimed in
      let new : count name names ≡ 0 = ground (arith, distinct name, ==_self name) in
      elim (Bool-cases (due_in claimed.states now name)) [
        | inr idle ↦
            rw (claim_from, idle)
              (passed-IsClaim name names claimed _ idle
                (claim_from-IsClaim names (offset + 1) _ fresh fits))
        | inl due ↦ elim (Bool-cases (leb limit (length taking.due_adapters))) [
          | inl full ↦
              let no_room : limit - length taking.due_adapters ≡ 0 =
                omega (arith, leb→le _ _ full) in
              rw (claim_from, due, full)
                (taken-IsClaim offset name names claimed taking due fits new
                  (same-IsClaim names taking (ap (λ room. taken room taking.states names) no_room)))
          | inr more ↦
              rw (claim_from, due, more)
                (taken-IsClaim offset name names claimed _ due fits new
                  (claim_from-IsClaim names (offset + 1) taking fresh (ground (arith, more))))
        ]
      ]
