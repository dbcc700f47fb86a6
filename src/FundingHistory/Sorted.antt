-- ===== src/FundingHistory/Sorted.antt =====
-- The points of funding_history_pagination.py in the order of their times.
use taoli.Base.{
  ◌<◌, true, false, List, [], ◌∷◌, ◌==◌, nat_eq, ltb, arith, ◌≡◌, All, Bool-cases, inl, inr, ==_iff,
}
use taoli.Base.Dict
use taoli.Base.Dict.{Dict}
use taoli.Models.Identity.{Time}
use taoli.FundingHistory.{PairSpreadFundingPoint, insert_by_time, sort_by_time}

abbrev pub Entry : Type 0 → Type 0
Entry W = Time × PairSpreadFundingPoint W

module _ {W : Type 0} where
  -- No entry has the time `at`, and no time stands at two entries.
  abbrev IsFresh : Time → List (Entry W) → Type 0
  IsFresh at d = All (λ e. (e.0 == at) ≡ false) d

  abbrev pub HasDistinctTimes : List (Entry W) → Type 0
  HasDistinctTimes [] = Unit
  HasDistinctTimes (e ∷ es) = IsFresh e.0 es × HasDistinctTimes es

  -- Every time is after the one before it.
  abbrev pub IsAscending : List (Entry W) → Type 0
  IsAscending [] = Unit
  IsAscending (e ∷ es) = All (λ d. e.0 < d.0) es × IsAscending es

  pub set-All :
      (P : Entry W → Type 0) (at : Time) (p : PairSpreadFundingPoint W) (d : List (Entry W))
      → P (at, p)
      → All P d
      → All P (Dict.set at p d)
  unfolding Dict.set
  set-All P at p [] h k = (h, tt)
  set-All P at p ((i, q) ∷ d) h k = elim (Bool-cases (i == at)) [
    | inl same ↦ rw (same, (==_iff i at).0 same) (h, k.1)
    | inr other ↦ rw other (k.0, set-All P at p d h k.1)
  ]

  pub set-HasDistinctTimes :
      (at : Time) (p : PairSpreadFundingPoint W) (d : List (Entry W))
      → HasDistinctTimes d
      → HasDistinctTimes (Dict.set at p d)
  unfolding Dict.set
  set-HasDistinctTimes at p [] h = (tt, tt)
  set-HasDistinctTimes at p ((i, q) ∷ d) h = elim (Bool-cases (i == at)) [
    | inl same ↦ rw same h
    | inr other ↦ rw other (
      set-All (λ e. (e.0 == i) ≡ false) at p d (ground (arith, other)) h.0,
      set-HasDistinctTimes at p d h.1,
    )
  ]

  insert_by_time-All :
      (P : Entry W → Type 0) (e : Entry W) (es : List (Entry W))
      → P e
      → All P es
      → All P (insert_by_time e es)
  unfolding insert_by_time
  insert_by_time-All P e [] h k = (h, tt)
  insert_by_time-All P e (d ∷ ds) h k = elim (Bool-cases (ltb e.0 d.0)) [
    | inl less ↦ rw less (h, k)
    | inr not_less ↦ rw not_less (k.0, insert_by_time-All P e ds h k.1)
  ]

  pub sort_by_time-All :
      (P : Entry W → Type 0) (es : List (Entry W)) → All P es → All P (sort_by_time es)
  unfolding sort_by_time
  sort_by_time-All P [] h = tt
  sort_by_time-All P (e ∷ es) h =
      insert_by_time-All P e (sort_by_time es) h.0 (sort_by_time-All P es h.1)

  All-after :
      (e d : Entry W) (ds : List (Entry W))
      → ltb e.0 d.0 ≡ true
      → All (λ c. d.0 < c.0) ds
      → All (λ c. e.0 < c.0) ds
  All-after e d [] h k = tt
  All-after e d (c ∷ ds) h k = (ground (arith, h, k.0), All-after e d ds h k.1)

  insert_by_time-IsAscending :
      (e : Entry W) (es : List (Entry W))
      → IsFresh e.0 es
      → IsAscending es
      → IsAscending (insert_by_time e es)
  unfolding insert_by_time
  insert_by_time-IsAscending e [] fresh h = (tt, tt)
  insert_by_time-IsAscending e (d ∷ ds) fresh h = elim (Bool-cases (ltb e.0 d.0)) [
    | inl less ↦ rw less ((ground (arith, less), All-after e d ds less h.0), h)
    | inr not_less ↦ rw not_less (
      insert_by_time-All (λ c. d.0 < c.0) e ds (ground (arith, not_less, fresh.0)) h.0,
      insert_by_time-IsAscending e ds fresh.1 h.1,
    )
  ]

  pub sort_by_time-IsAscending :
      (es : List (Entry W)) → HasDistinctTimes es → IsAscending (sort_by_time es)
  unfolding sort_by_time
  sort_by_time-IsAscending [] h = tt
  sort_by_time-IsAscending (e ∷ es) h =
      insert_by_time-IsAscending e (sort_by_time es)
        (sort_by_time-All (λ c. (c.0 == e.0) ≡ false) es h.0) (sort_by_time-IsAscending es h.1)
