-- ===== src/FundingHistory/History.antt =====
-- The result of collect_funding_pages (funding_history_pagination.py), complete or partial.
use taoli.Base.{
  ℕ, zero, suc, ◌≤◌, ◌<◌, List, [], ◌∷◌, ◌==◌, nat_eq, map, arith, Bool-cases, inl, inr, All,
}
use taoli.FundingHistory.{
  Query, Paging, Verdict, finished, continued, failed, HistoryOutcome, collected, partial, rejected,
  page_step, PairSpreadFundingPoint, finish_history, collect_from, collect_funding_pages,
  sorted_points, sort_by_time, first_paging,
}
use taoli.FundingHistory.Sorted.{Entry, IsAscending, sort_by_time-All, sort_by_time-IsAscending}
use taoli.FundingHistory.Within.{IsWanted, IsKept, paging_of, page_step-IsKept}

abbrev pub points_of : {W : Type 0} → HistoryOutcome W → List (PairSpreadFundingPoint W)
points_of (collected points) = points
points_of (partial problem points) = points
points_of rejected = []

-- Every settlement is later than the one before it.
abbrev pub IsInOrder : {W : Type 0} → List (PairSpreadFundingPoint W) → Type 0
IsInOrder [] = Unit
IsInOrder (p ∷ ps) = All (λ q. p.funding_time < q.funding_time) ps × IsInOrder ps

module _ {R W : Type 0} (query : Query R W) where
  abbrev IsInRange : PairSpreadFundingPoint W → Type 0
  IsInRange p = (query.start ≤ p.funding_time) × (p.funding_time ≤ query.end)

  abbrev IsHistory : List (PairSpreadFundingPoint W) → Type 0
  IsHistory points = All IsInRange points × IsInOrder points

  later_points :
      (e : Entry W) (es : List (Entry W))
      → IsWanted query e
      → All (IsWanted query) es
      → All (λ d. e.0 < d.0) es
      → All (λ q. e.1.funding_time < q.funding_time) (map (λ d. d.1) es)
  later_points e [] h k l = tt
  later_points e (d ∷ ds) h k l = (ground (arith, h.0, k.0, l.0), later_points e ds h k.1 l.1)

  entries-IsHistory :
      (es : List (Entry W))
      → All (IsWanted query) es
      → IsAscending es
      → IsHistory (map (λ e. e.1) es)
  entries-IsHistory [] h k = (tt, tt)
  entries-IsHistory (e ∷ es) h k =
      let rest = entries-IsHistory es h.1 k.1 in
      (((h.0.1, h.0.2), rest.0), (later_points e es h.0 h.1 k.0, rest.1))

  sorted_points-IsHistory : (s : Paging W) → IsKept query s → IsHistory (sorted_points s)
  sorted_points-IsHistory s h =
      entries-IsHistory (sort_by_time s.points) (sort_by_time-All (IsWanted query) s.points h.0)
        (sort_by_time-IsAscending s.points h.1)

  finish_history-IsHistory :
      (s : Paging W) → IsKept query s → IsHistory (points_of (finish_history query s))
  unfolding finish_history
  finish_history-IsHistory s h = elim (Bool-cases (s.invalid == 0)) [
    | inl valid ↦ rw valid (sorted_points-IsHistory s h)
    | inr omits ↦ rw omits (sorted_points-IsHistory s h)
  ]

  collect_from-IsHistory :
      (left page : ℕ) (s : Paging W)
      → IsKept query s
      → IsHistory (points_of (collect_from query left page s))
  unfolding collect_from
  collect_from-IsHistory zero page s h = sorted_points-IsHistory s h
  collect_from-IsHistory (suc left) page s h =
      after (λ t k. collect_from-IsHistory left (suc page) t k) (page_step query s page)
        (page_step-IsKept query s page h)
    where
      after :
          ((t : Paging W)
            → IsKept query t
            → IsHistory (points_of (collect_from query left (suc page) t)))
          → (verdict : Verdict W) → IsKept query (paging_of query verdict)
          → IsHistory (
              points_of (elim verdict [
                | finished t ↦ finish_history query t
                | continued t ↦ collect_from query left (suc page) t
                | failed problem t ↦ partial problem (sorted_points t)
              ]))
      after rest (finished t) k = finish_history-IsHistory t k
      after rest (continued t) k = rest t k
      after rest (failed problem t) k = sorted_points-IsHistory t k

  -- Whatever the requests answer, the points returned, or carried by the error, lie in the range that was
  -- asked for and have strictly increasing times, so that no settlement stands twice.
  pub collect_funding_pages-IsHistory :
      let points = points_of (collect_funding_pages query) in
      All (λ p. (query.start ≤ p.funding_time) × (p.funding_time ≤ query.end)) points
      × IsInOrder points
  unfolding collect_funding_pages
  collect_funding_pages-IsHistory = elim (Bool-cases (query.budget == 0)) [
    | inl no_budget ↦ rw no_budget (tt, tt)
    | inr budget ↦ rw budget (collect_from-IsHistory 100 1 (first_paging query) (tt, tt))
  ]
