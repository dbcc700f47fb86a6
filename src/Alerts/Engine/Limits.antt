-- ===== src/Alerts/Engine/Limits.antt =====
-- What `_limit_matches_per_symbol` of alert_engine.py lets through: at most ten matches, at most
-- three of a symbol, each one of the matches that it was given.
use taoli.Base.{
  ℕ, zero, suc, ◌+◌, ◌≤◌, String, ◌≡◌, refl, false, none, List, [], ◌∷◌, ◌++◌, arith, if◌then◌else◌,
  ◌==◌, string_eq, ==_iff, length, take, All, All-append, All-take, get_or, length-take, Bool-cases,
  inl, inr, sym,
}
use mathlib.Core.Path.{subst}
use taoli.Base.Dict
use taoli.Base.Dict.{Dict}
use taoli.Base.Text.{upper}
use taoli.Base.Number.{Float}
use taoli.Alerts.Engine.{
  AlertMatch, alert_rank, rank_lt, insert_ranked, sort_ranked, group_by_symbol, best_of_groups,
  limit_matches_per_symbol, max_alerts_per_symbol, max_alerts_per_evaluation,
}

-- The matches of a symbol, in a list.
pub count_symbol : {W : Type 0} → String → List (AlertMatch W) → ℕ
count_symbol symbol [] = 0
count_symbol symbol (m ∷ ms) =
    (if upper m.opportunity.symbol == symbol then 1 else 0) + count_symbol symbol ms

module _ {W : Type 0} ⦃f : Float W⦄ where
  module _ (P : AlertMatch W → Type 0) where
    insert_ranked-All :
        (m : AlertMatch W) (ms : List (AlertMatch W)) → P m → All P ms → All P (insert_ranked m ms)
    unfolding insert_ranked
    insert_ranked-All m [] p h = (p, tt)
    insert_ranked-All m (n ∷ ns) p h = elim (Bool-cases (rank_lt (alert_rank m) (alert_rank n))) [
      | inl lower ↦ rw lower (h.0, insert_ranked-All m ns p h.1)
      | inr higher ↦ rw higher (p, h)
    ]

    sort_ranked-All : (ms : List (AlertMatch W)) → All P ms → All P (sort_ranked ms)
    unfolding sort_ranked
    sort_ranked-All [] h = tt
    sort_ranked-All (m ∷ ms) h = insert_ranked-All m (sort_ranked ms) h.0 (sort_ranked-All ms h.1)

    abbrev Groups : Dict String (List (AlertMatch W)) → Type 0
    Groups [] = Unit
    Groups ((symbol, ms) ∷ groups) = All P ms × Groups groups

    get-Groups :
        (symbol : String) (groups : Dict String (List (AlertMatch W)))
        → Groups groups
        → All P (get_or (Dict.get symbol groups) [])
    unfolding Dict.get
    get-Groups symbol [] h = tt
    get-Groups symbol ((s, ms) ∷ groups) h = elim (Bool-cases (s == symbol)) [
      | inl same ↦ rw same h.0
      | inr other ↦ rw other (get-Groups symbol groups h.1)
    ]

    set-Groups :
        (symbol : String) (ms : List (AlertMatch W)) (groups : Dict String (List (AlertMatch W)))
        → All P ms
        → Groups groups
        → Groups (Dict.set symbol ms groups)
    unfolding Dict.set
    set-Groups symbol ms [] p h = (p, tt)
    set-Groups symbol ms ((s, ns) ∷ groups) p h = elim (Bool-cases (s == symbol)) [
      | inl same ↦ rw same (p, h.1)
      | inr other ↦ rw other (h.0, set-Groups symbol ms groups p h.1)
    ]

    group_by_symbol-Groups :
        (ms : List (AlertMatch W)) (groups : Dict String (List (AlertMatch W)))
        → All P ms
        → Groups groups
        → Groups (group_by_symbol ms groups)
    unfolding group_by_symbol
    group_by_symbol-Groups [] groups p h = h
    group_by_symbol-Groups (m ∷ ms) groups p h =
        let symbol = upper m.opportunity.symbol in
        let old = get_or (Dict.get symbol groups) [] in
        group_by_symbol-Groups ms _ p.1 (
          set-Groups symbol (old ++ (m ∷ [])) groups
            (All-append P old (m ∷ []) (get-Groups symbol groups h) (p.0, tt)) h)

    best_of_groups-All :
        (groups : Dict String (List (AlertMatch W))) → Groups groups → All P (best_of_groups groups)
    unfolding best_of_groups
    best_of_groups-All [] h = tt
    best_of_groups-All ((symbol, ms) ∷ groups) h =
        All-append P (take max_alerts_per_symbol (sort_ranked ms)) (best_of_groups groups)
          (All-take P max_alerts_per_symbol (sort_ranked ms) (sort_ranked-All ms h.0))
          (best_of_groups-All groups h.1)

    -- What holds of all matches holds of those let through.
    pub limit_matches-All :
        (ms : List (AlertMatch W)) → All P ms → All P (limit_matches_per_symbol ms)
    unfolding limit_matches_per_symbol
    limit_matches-All ms h =
        All-take P max_alerts_per_evaluation _
          (sort_ranked-All _ (best_of_groups-All _ (group_by_symbol-Groups ms [] h tt)))

  count_symbol-insert_ranked :
      (symbol : String) (m : AlertMatch W) (ms : List (AlertMatch W))
      → count_symbol symbol (insert_ranked m ms) ≡ count_symbol symbol (m ∷ ms)
  unfolding count_symbol insert_ranked
  count_symbol-insert_ranked symbol m [] = refl
  count_symbol-insert_ranked symbol m (n ∷ ns) =
      ground (arith, count_symbol-insert_ranked symbol m ns)

  count_symbol-sort_ranked :
      (symbol : String) (ms : List (AlertMatch W))
      → count_symbol symbol (sort_ranked ms) ≡ count_symbol symbol ms
  unfolding count_symbol sort_ranked
  count_symbol-sort_ranked symbol [] = refl
  count_symbol-sort_ranked symbol (m ∷ ms) = omega (
    arith,
    count_symbol-insert_ranked symbol m (sort_ranked ms),
    count_symbol-sort_ranked symbol ms,
  )

  count_symbol-take :
      (symbol : String) (n : ℕ) (ms : List (AlertMatch W))
      → (count_symbol symbol (take n ms) ≤ count_symbol symbol ms)
        × (count_symbol symbol (take n ms) ≤ n)
  unfolding count_symbol
  count_symbol-take symbol zero ms = omega arith
  count_symbol-take symbol (suc n) [] = omega arith
  count_symbol-take symbol (suc n) (m ∷ ms) = ground (arith, count_symbol-take symbol n ms)

  count_symbol-append :
      (symbol : String) (ms ns : List (AlertMatch W))
      → count_symbol symbol (ms ++ ns) ≡ count_symbol symbol ms + count_symbol symbol ns
  unfolding count_symbol
  count_symbol-append symbol [] ns = omega arith
  count_symbol-append symbol (m ∷ ms) ns = omega (arith, count_symbol-append symbol ms ns)

  -- The groups are keyed by the symbols of their members, each symbol once.
  abbrev IsOf : String → AlertMatch W → Type 0
  IsOf symbol m = upper m.opportunity.symbol ≡ symbol

  abbrev Keyed : Dict String (List (AlertMatch W)) → Type 0
  Keyed [] = Unit
  Keyed ((symbol, ms) ∷ groups) = All (IsOf symbol) ms × Keyed groups

  get-Keyed :
      (symbol : String) (groups : Dict String (List (AlertMatch W)))
      → Keyed groups
      → All (IsOf symbol) (get_or (Dict.get symbol groups) [])
  unfolding Dict.get
  get-Keyed symbol [] h = tt
  get-Keyed symbol ((s, ms) ∷ groups) h = elim (Bool-cases (s == symbol)) [
    | inl same ↦ rw same (subst (λ t. All (IsOf t) ms) ((==_iff s symbol).0 same) h.0)
    | inr other ↦ rw other (get-Keyed symbol groups h.1)
  ]

  set-Keyed :
      (symbol : String) (ms : List (AlertMatch W)) (groups : Dict String (List (AlertMatch W)))
      → All (IsOf symbol) ms
      → Keyed groups
      → Keyed (Dict.set symbol ms groups)
  unfolding Dict.set
  set-Keyed symbol ms [] p h = (p, tt)
  set-Keyed symbol ms ((s, ns) ∷ groups) p h = elim (Bool-cases (s == symbol)) [
    | inl same ↦ rw same (subst (λ t. All (IsOf t) ms) (sym ((==_iff s symbol).0 same)) p, h.1)
    | inr other ↦ rw other (h.0, set-Keyed symbol ms groups p h.1)
  ]

  group_by_symbol-Keyed :
      (ms : List (AlertMatch W)) (groups : Dict String (List (AlertMatch W)))
      → Keyed groups × Dict.NoDup groups
      → Keyed (group_by_symbol ms groups) × Dict.NoDup (group_by_symbol ms groups)
  unfolding group_by_symbol
  group_by_symbol-Keyed [] groups h = h
  group_by_symbol-Keyed (m ∷ ms) groups h =
      let symbol = upper m.opportunity.symbol in
      let old = get_or (Dict.get symbol groups) [] in
      group_by_symbol-Keyed ms _ (
        set-Keyed symbol (old ++ (m ∷ [])) groups
            (All-append (IsOf symbol) old (m ∷ []) (get-Keyed symbol groups h.0) (refl, tt)) h.0,
        Dict.set-NoDup symbol (old ++ (m ∷ [])) groups h.1,
      )

  count_symbol-of_other :
      (symbol key : String) (ms : List (AlertMatch W))
      → All (IsOf key) ms
      → (key == symbol) ≡ false
      → count_symbol symbol ms ≡ 0
  unfolding count_symbol
  count_symbol-of_other symbol key [] h other = refl
  count_symbol-of_other symbol key (m ∷ ms) h other =
      rw (h.0, other) (omega (arith, count_symbol-of_other symbol key ms h.1 other))

  best_of_groups-count :
      (symbol : String) (groups : Dict String (List (AlertMatch W)))
      → Keyed groups
      → Dict.NoDup groups
      → (count_symbol symbol (best_of_groups groups) ≤ max_alerts_per_symbol)
        × (Dict.get symbol groups ≡ none → count_symbol symbol (best_of_groups groups) ≡ 0)
  unfolding best_of_groups Dict.get count_symbol
  best_of_groups-count symbol [] h d = (omega arith, λ free. refl)
  best_of_groups-count symbol ((key, ms) ∷ groups) h d =
      let best = take max_alerts_per_symbol (sort_ranked ms) in
      let ih = best_of_groups-count symbol groups h.1 d.1 in
      ground (
        arith,
        ih.0,
        ih.1,
        d.0,
        ==_iff key symbol,
        count_symbol-append symbol best (best_of_groups groups),
        count_symbol-take symbol max_alerts_per_symbol (sort_ranked ms),
        count_symbol-sort_ranked symbol ms,
        count_symbol-of_other symbol key ms h.0,
      )

  -- A round lets through at most ten alerts, and at most three of any one symbol, the case of its
  -- letters aside.
  pub limit_matches_bounds :
      (ms : List (AlertMatch W)) (symbol : String)
      → (length (limit_matches_per_symbol ms) ≤ max_alerts_per_evaluation)
        × (count_symbol symbol (limit_matches_per_symbol ms) ≤ max_alerts_per_symbol)
  unfolding limit_matches_per_symbol
  limit_matches_bounds ms symbol =
      let groups = group_by_symbol ms [] in
      let (keyed, distinct) = group_by_symbol-Keyed ms [] (tt, tt) in
      let best = best_of_groups groups in
      omega (
        arith,
        length-take max_alerts_per_evaluation (sort_ranked best),
        count_symbol-take symbol max_alerts_per_evaluation (sort_ranked best),
        count_symbol-sort_ranked symbol best,
        best_of_groups-count symbol groups keyed distinct,
      )
