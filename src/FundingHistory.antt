-- ===== src/FundingHistory.antt =====
-- backend/app/services/funding_history_pagination.py: collect_funding_pages. The requests, the reading of
-- a row, the clock and the rounding of a time to milliseconds are parameters.
pub mod Sorted
pub mod Within
pub mod History
mod Example
pub mod Cursor
use taoli.Base.{
  ℕ, zero, suc, ◌≤◌, String, Bool, true, false, not, ◌&&◌, Option, none, some, List, [], ◌∷◌,
  if◌then◌else◌, ◌==◌, nat_eq, ltb, leb, length, map,
}
use taoli.Base.Dict
use taoli.Base.Dict.{Dict}
use taoli.Base.Number.{ℤ, pos, negsuc, fixed_float, ◌<?◌, max_list, min_list}
use taoli.Models.Identity.{Time}

pub record PairSpreadFundingPoint (W : Type 0) : Type 0 where
  pub exchange : String
  pub symbol : String
  pub funding_time : Time
  pub funding_rate_pct : W
  pub dex : Option String

pub data Direction : Type 0 where
  forward : Direction
  backward : Direction

-- The answer to a request: rows, of which `none` is not a dictionary; another value; or an exception,
-- such as the one of a page that takes longer than its share of the time.
pub data Answer (R : Type 0) : Type 0 where
  rows : List (Option R) → Answer R
  not_a_list : Answer R
  raised : String → Answer R

-- What `timestamp` or `parse` makes of a row: a value, `None`, or an exception.
pub data Reading (A : Type 0) : Type 0 where
  value : A → Reading A
  missing : Reading A
  broken : String → Reading A

-- What the code raises inside its `try`.
pub data Problem : Type 0 where
  request_failed : String → Problem
  row_failed : String → Problem
  budget_exhausted : Problem
  invalid_response : Problem
  no_valid_timestamps : Problem
  did_not_advance : Problem
  too_many_pages : Problem
  omitted : ℕ → Problem

-- The arguments of `collect_funding_pages`; `elapsed` is the time that has passed before a page.
pub record Query (R W : Type 0) : Type 0 where
  pub fetch_page : ℤ → ℕ → Answer R
  pub timestamp : R → Reading Time
  pub parse : R → Reading (PairSpreadFundingPoint W)
  pub start : Time
  pub end : Time
  pub limit : ℕ
  pub direction : Direction
  pub page_numbered : Bool
  pub budget : ℕ
  pub elapsed : ℕ → ℕ
  pub to_ms : Time → ℤ

pub record Paging (W : Type 0) : Type 0 where
  pub points : Dict Time (PairSpreadFundingPoint W)
  pub invalid : ℕ
  pub cursor : ℤ

pub data Verdict (W : Type 0) : Type 0 where
  finished : Paging W → Verdict W
  continued : Paging W → Verdict W
  failed : Problem → Paging W → Verdict W

-- `rejected` is the ValueError for the budget, `partial` is PartialFundingHistoryError.
pub data HistoryOutcome (W : Type 0) : Type 0 where
  collected : List (PairSpreadFundingPoint W) → HistoryOutcome W
  partial : Problem → List (PairSpreadFundingPoint W) → HistoryOutcome W
  rejected : HistoryOutcome W

abbrev pub succ : ℤ → ℤ
succ (pos n) = pos (suc n)
succ (negsuc zero) = pos 0
succ (negsuc (suc n)) = negsuc n

abbrev pub pred : ℤ → ℤ
pred (pos zero) = negsuc 0
pred (pos (suc n)) = pos n
pred (negsuc n) = negsuc (suc n)

-- `max(times) + 1` and `min(times) - 1`.
pub next_cursor : Direction → ℤ → List ℤ → ℤ
next_cursor forward t ts = succ (max_list t ts)
next_cursor backward t ts = pred (min_list t ts)

-- A cursor lies ahead of another in the direction of the paging.
abbrev pub is_ahead : Direction → ℤ → ℤ → Bool
is_ahead forward next cursor = cursor <? next
is_ahead backward next cursor = next <? cursor

module _ {W : Type 0} where
  -- `[points[t] for t in sorted(points)]`
  pub insert_by_time :
      Time × PairSpreadFundingPoint W
      → Dict Time (PairSpreadFundingPoint W)
      → Dict Time (PairSpreadFundingPoint W)
  insert_by_time e [] = e ∷ []
  insert_by_time e (d ∷ ds) =
      let rest = insert_by_time e ds in if ltb e.0 d.0 then e ∷ d ∷ ds else d ∷ rest

  pub sort_by_time : Dict Time (PairSpreadFundingPoint W) → Dict Time (PairSpreadFundingPoint W)
  unfolding insert_by_time
  sort_by_time [] = []
  sort_by_time (e ∷ es) = insert_by_time e (sort_by_time es)

  abbrev pub sorted_points : Paging W → List (PairSpreadFundingPoint W)
  sorted_points s = map (λ e. e.1) (sort_by_time s.points)

module _ {R W : Type 0} (query : Query R W) where
  pub row_times : List (Option R) → List ℤ
  row_times [] = []
  row_times (none ∷ rs) = row_times rs
  row_times (some r ∷ rs) =
      let rest = row_times rs in
      elim (query.timestamp r) [
        | missing ↦ rest
        | broken message ↦ rest
        | value at ↦ query.to_ms at ∷ rest
      ]

  pub read_point : PairSpreadFundingPoint W → Paging W → Paging W
  read_point point s =
      if leb query.start point.funding_time && leb point.funding_time query.end
      then record s { points = Dict.set point.funding_time point s.points }
      else s

  -- What was read, with the message of an exception.
  pub read_parsed : Reading (PairSpreadFundingPoint W) → Paging W → Paging W × Option String
  unfolding read_point
  read_parsed missing s = (record s { invalid = suc s.invalid }, none)
  read_parsed (broken message) s = (s, some message)
  read_parsed (value point) s = (read_point point s, none)

  -- `timestamp` comes before `parse`.
  pub read_row : Option R → Paging W → Paging W × Option String
  unfolding read_parsed
  read_row none s = (record s { invalid = suc s.invalid }, none)
  read_row (some r) s = elim (query.timestamp r) [
    | broken message ↦ (s, some message)
    | missing ↦ read_parsed (query.parse r) s
    | value at ↦ read_parsed (query.parse r) s
  ]

  -- The loop over the rows of a page, up to an exception.
  pub read_rows : List (Option R) → Paging W → Paging W × Option String
  unfolding read_row
  read_rows [] s = (s, none)
  read_rows (row ∷ rs) s =
      let (t, raised_by) = read_row row s in
      elim raised_by [ some message ↦ (t, some message) | none ↦ read_rows rs t ]

  abbrev pub is_past : ℤ → Bool
  is_past cursor = elim query.direction [
    | forward ↦ query.to_ms query.end <? cursor
    | backward ↦ cursor <? query.to_ms query.start
  ]

  pub advance : Paging W → ℕ → ℤ → Verdict W
  advance s page next =
      let t : Paging W = record s { cursor = next } in
      if not (query.page_numbered && page == 1) && not (is_ahead query.direction next s.cursor)
      then failed did_not_advance s
      else if is_past next
      then finished t
      else continued t

  pub after_rows : List (Option R) → Paging W → ℕ → Verdict W
  unfolding advance row_times next_cursor
  after_rows rs s page =
      let further : Verdict W = elim (row_times rs) [
        | [] ↦ failed no_valid_timestamps s
        | t ∷ ts ↦ advance s page (next_cursor query.direction t ts)
      ] in
      if ltb (length rs) query.limit then finished s else further

  pub after_reading : List (Option R) → Paging W × Option String → ℕ → Verdict W
  after_reading rs (s, none) page = after_rows rs s page
  after_reading rs (s, some message) page = failed (row_failed message) s

  -- One turn of the loop over the pages.
  pub page_step : Paging W → ℕ → Verdict W
  unfolding after_reading after_rows read_rows
  page_step s page =
      let answered : Verdict W = elim (query.fetch_page s.cursor page) [
        | rows rs ↦ after_reading rs (read_rows rs s) page
        | not_a_list ↦ failed invalid_response s
        | raised message ↦ failed (request_failed message) s
      ] in
      if leb query.budget (query.elapsed page) then failed budget_exhausted s else answered

  pub finish_history : Paging W → HistoryOutcome W
  unfolding sort_by_time
  finish_history s =
      if s.invalid == 0
      then collected (sorted_points s)
      else partial (omitted s.invalid) (sorted_points s)

  -- The loop with the pages that are left.
  pub collect_from : ℕ → ℕ → Paging W → HistoryOutcome W
  unfolding page_step finish_history sort_by_time
  collect_from zero page s = partial too_many_pages (sorted_points s)
  collect_from (suc left) page s = elim (page_step s page) [
    | finished t ↦ finish_history t
    | continued t ↦ collect_from left (suc page) t
    | failed problem t ↦ partial problem (sorted_points t)
  ]

  abbrev pub first_paging : Paging W
  first_paging = record {
    points = [];
    invalid = 0;
    cursor = query.to_ms (elim query.direction [ forward ↦ query.start | backward ↦ query.end ]);
  }

  pub collect_funding_pages : HistoryOutcome W
  unfolding collect_from
  collect_funding_pages = if query.budget == 0 then rejected else collect_from 100 1 first_paging
