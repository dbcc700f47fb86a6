-- ===== src/FundingHistory/Within.antt =====
-- The points that collect_funding_pages returns (funding_history_pagination.py).
use taoli.Base.{
  ℕ, ◌≤◌, Bool, true, false, not, ◌&&◌, Option, none, some, List, [], ◌∷◌, String, if◌then◌else◌,
  ◌==◌, nat_eq, ltb, leb, length, arith, ◌≡◌, Bool-cases, inl, inr, All, refl,
}
use taoli.Base.Number.{ℤ}
use taoli.Models.Identity.{Time}
use taoli.FundingHistory.{
  Query, Reading, value, missing, broken, after_reading, Paging, Verdict, finished, continued,
  failed, Answer, rows, not_a_list, raised, next_cursor, advance, after_rows, row_times, read_rows,
  read_row, read_parsed, read_point, page_step, is_ahead, is_past, no_valid_timestamps,
  budget_exhausted, invalid_response, request_failed, did_not_advance, PairSpreadFundingPoint,
}
use taoli.FundingHistory.Sorted.{Entry, HasDistinctTimes, set-All, set-HasDistinctTimes}

module _ {R W : Type 0} (query : Query R W) where
  -- The entry stands under its own time, which lies in the range that was asked for.
  abbrev pub IsWanted : Entry W → Type 0
  IsWanted e =
      (e.0 ≡ e.1.funding_time) × (query.start ≤ e.1.funding_time) × (e.1.funding_time ≤ query.end)

  abbrev pub IsKept : Paging W → Type 0
  IsKept s = All IsWanted s.points × HasDistinctTimes s.points

  read_point-IsKept :
      (point : PairSpreadFundingPoint W) (s : Paging W)
      → IsKept s
      → IsKept (read_point query point s)
  unfolding read_point
  read_point-IsKept point s h =
      elim (Bool-cases (leb query.start point.funding_time && leb point.funding_time query.end)) [
        | inr outside ↦ rw outside h
        | inl within ↦ rw within (
          set-All IsWanted point.funding_time point s.points
              (refl, ground (arith, within), ground (arith, within)) h.0,
          set-HasDistinctTimes point.funding_time point s.points h.1,
        )
      ]

  read_parsed-IsKept :
      (parsed : Reading (PairSpreadFundingPoint W)) (s : Paging W)
      → IsKept s
      → IsKept (read_parsed query parsed s).0
  unfolding read_parsed
  read_parsed-IsKept missing s h = h
  read_parsed-IsKept (broken message) s h = h
  read_parsed-IsKept (value point) s h = read_point-IsKept point s h

  read_row-IsKept : (row : Option R) (s : Paging W) → IsKept s → IsKept (read_row query row s).0
  unfolding read_row
  read_row-IsKept none s h = h
  read_row-IsKept (some r) s h = timed (query.timestamp r)
    where
      timed :
          (at : Reading Time)
          → IsKept
              (elim at as (λ x. Paging W × Option String) [
                | broken message ↦ (s, some message)
                | missing ↦ read_parsed query (query.parse r) s
                | value at ↦ read_parsed query (query.parse r) s
              ]).0
      timed missing = read_parsed-IsKept (query.parse r) s h
      timed (broken message) = h
      timed (value at) = read_parsed-IsKept (query.parse r) s h

  read_rows-IsKept :
      (rs : List (Option R)) (s : Paging W) → IsKept s → IsKept (read_rows query rs s).0
  unfolding read_rows
  read_rows-IsKept [] s h = h
  read_rows-IsKept (row ∷ rs) s h =
      let (t, raised_by) = read_row query row s in
      let kept = read_row-IsKept row s h in further raised_by t kept (read_rows-IsKept rs t kept)
    where
      further :
          (raised_by : Option String) (t : Paging W)
          → IsKept t
          → IsKept (read_rows query rs t).0
          → IsKept
              (elim raised_by as (λ x. Paging W × Option String) [
                | some message ↦ (t, some message)
                | none ↦ read_rows query rs t
              ]).0
      further none t kept rest = rest
      further (some message) t kept rest = kept

  abbrev pub paging_of : Verdict W → Paging W
  paging_of (finished t) = t
  paging_of (continued t) = t
  paging_of (failed problem t) = t

  advance-IsKept :
      (s : Paging W) (page : ℕ) (next : ℤ)
      → IsKept s
      → IsKept (paging_of (advance query s page next))
  unfolding advance
  advance-IsKept s page next h =
      either
        (not (query.page_numbered && page == 1) && not (is_ahead query.direction next s.cursor))
        (is_past query next)
    where
      either :
          (stuck past : Bool)
          → let t : Paging W = record s { cursor = next } in
            IsKept (
              paging_of (
                if stuck
                then failed did_not_advance s
                else if past
                then finished t
                else continued t))
      either true past = h
      either false true = h
      either false false = h

  after_rows-IsKept :
      (rs : List (Option R)) (s : Paging W) (page : ℕ)
      → IsKept s
      → IsKept (paging_of (after_rows query rs s page))
  unfolding after_rows
  after_rows-IsKept rs s page h = after_times (ltb (length rs) query.limit) (row_times query rs)
    where
      after_times :
          (short : Bool) (times : List ℤ)
          → IsKept (
              paging_of (
                if short then finished s else elim times [
                  | [] ↦ failed no_valid_timestamps s
                  | t ∷ ts ↦ advance query s page (next_cursor query.direction t ts)
                ]))
      after_times true times = h
      after_times false [] = h
      after_times false (t ∷ ts) = advance-IsKept s page (next_cursor query.direction t ts) h

  after_reading-IsKept :
      (rs : List (Option R)) (read : Paging W × Option String) (page : ℕ)
      → IsKept read.0
      → IsKept (paging_of (after_reading query rs read page))
  unfolding after_reading
  after_reading-IsKept rs (s, none) page h = after_rows-IsKept rs s page h
  after_reading-IsKept rs (s, some message) page h = h

  pub page_step-IsKept :
      (s : Paging W) (page : ℕ) → IsKept s → IsKept (paging_of (page_step query s page))
  unfolding page_step
  page_step-IsKept s page h =
      answered (leb query.budget (query.elapsed page)) (query.fetch_page s.cursor page)
    where
      answered :
          (late : Bool) (answer : Answer R)
          → IsKept (
              paging_of (
                if late then failed budget_exhausted s else elim answer [
                  | rows rs ↦ after_reading query rs (read_rows query rs s) page
                  | not_a_list ↦ failed invalid_response s
                  | raised message ↦ failed (request_failed message) s
                ]))
      answered true answer = h
      answered false not_a_list = h
      answered false (raised message) = h
      answered false (rows rs) =
          after_reading-IsKept rs (read_rows query rs s) page (read_rows-IsKept rs s h)
