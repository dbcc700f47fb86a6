-- ===== src/FundingHistory/Cursor.antt =====
-- The cursors of collect_funding_pages (funding_history_pagination.py).
use taoli.Base.{
  String, ℕ, suc, ◌≤◌, ◌<◌, Bool, true, false, ◌&&◌, Option, List, [], ◌∷◌, if◌then◌else◌, ◌==◌,
  nat_eq, ltb, leb, length, arith, ◌≡◌, Bool-cases, inl, inr, none, some, refl, ◌∙◌,
}
use mathlib.Core.Path.{subst}
use taoli.Base.Number.{ℤ, fixed_float}
use taoli.Models.Identity.{Time}
use taoli.FundingHistory.{
  Reading, value, missing, broken, after_reading, Query, Paging, Verdict, finished, continued,
  failed, Answer, rows, not_a_list, raised, Direction, forward, backward, is_ahead, next_cursor,
  advance, after_rows, row_times, read_rows, read_point, read_row, read_parsed, page_step, is_past,
  no_valid_timestamps, budget_exhausted, invalid_response, request_failed, PairSpreadFundingPoint,
}

module _ {R W : Type 0} (query : Query R W) where
  -- From the request of one page to that of a later one, each turn of the loop going on.
  pub data Leads : ℕ → Paging W → ℕ → Paging W → Type 0 where
    one_page :
        {page : ℕ} {s t : Paging W}
        → page_step query s page ≡ continued t
        → Leads page s (suc page) t
    more_pages :
        {page later : ℕ} {s t u : Paging W}
        → Leads page s later t
        → page_step query t later ≡ continued u
        → Leads page s (suc later) u

  abbrev IsAheadOf : ℤ → Verdict W → Type 0
  IsAheadOf cursor (finished t) = Unit
  IsAheadOf cursor (continued t) = is_ahead query.direction t.cursor cursor ≡ true
  IsAheadOf cursor (failed problem t) = Unit

  advance-IsAheadOf :
      (s : Paging W) (page : ℕ) (next : ℤ)
      → (query.page_numbered && page == 1) ≡ false
      → IsAheadOf s.cursor (advance query s page next)
  unfolding advance
  advance-IsAheadOf s page next numbered =
      elim (Bool-cases (is_ahead query.direction next s.cursor)) [
        | inr behind ↦ rw (numbered, behind) tt
        | inl ahead ↦ elim (Bool-cases (is_past query next)) [
          | inl past ↦ rw (numbered, ahead, past) tt
          | inr within ↦ rw (numbered, ahead, within) ahead
        ]
      ]

  after_rows-IsAheadOf :
      (rs : List (Option R)) (s : Paging W) (page : ℕ)
      → (query.page_numbered && page == 1) ≡ false
      → IsAheadOf s.cursor (after_rows query rs s page)
  unfolding after_rows
  after_rows-IsAheadOf rs s page numbered =
      after_times (ltb (length rs) query.limit) (row_times query rs)
    where
      after_times :
          (short : Bool) (times : List ℤ)
          → IsAheadOf s.cursor (
              if short then finished s else elim times [
                | [] ↦ failed no_valid_timestamps s
                | t ∷ ts ↦ advance query s page (next_cursor query.direction t ts)
              ])
      after_times true times = tt
      after_times false [] = tt
      after_times false (t ∷ ts) =
          advance-IsAheadOf s page (next_cursor query.direction t ts) numbered

  read_point-cursor :
      (point : PairSpreadFundingPoint W) (s : Paging W)
      → (read_point query point s).cursor ≡ s.cursor
  unfolding read_point
  read_point-cursor point s =
      elim (Bool-cases (leb query.start point.funding_time && leb point.funding_time query.end)) [
        | inl within ↦ rw within refl
        | inr outside ↦ rw outside refl
      ]

  read_parsed-cursor :
      (parsed : Reading (PairSpreadFundingPoint W)) (s : Paging W)
      → (read_parsed query parsed s).0.cursor ≡ s.cursor
  unfolding read_parsed
  read_parsed-cursor missing s = refl
  read_parsed-cursor (broken message) s = refl
  read_parsed-cursor (value point) s = read_point-cursor point s

  read_row-cursor : (row : Option R) (s : Paging W) → (read_row query row s).0.cursor ≡ s.cursor
  unfolding read_row
  read_row-cursor none s = refl
  read_row-cursor (some r) s = timed (query.timestamp r)
    where
      timed :
          (at : Reading Time)
          → (elim at as (λ x. Paging W × Option String) [
            | broken message ↦ (s, some message)
            | missing ↦ read_parsed query (query.parse r) s
            | value at ↦ read_parsed query (query.parse r) s
          ]).0.cursor
            ≡ s.cursor
      timed missing = read_parsed-cursor (query.parse r) s
      timed (broken message) = refl
      timed (value at) = read_parsed-cursor (query.parse r) s

  read_rows-cursor :
      (rs : List (Option R)) (s : Paging W) → (read_rows query rs s).0.cursor ≡ s.cursor
  unfolding read_rows
  read_rows-cursor [] s = refl
  read_rows-cursor (row ∷ rs) s =
      let (t, raised_by) = read_row query row s in
      further raised_by t (read_rows-cursor rs t) ∙ read_row-cursor row s
    where
      further :
          (raised_by : Option String) (t : Paging W)
          → (read_rows query rs t).0.cursor ≡ t.cursor
          → (elim raised_by as (λ x. Paging W × Option String) [
            | some message ↦ (t, some message)
            | none ↦ read_rows query rs t
          ]).0.cursor
            ≡ t.cursor
      further none t rest = rest
      further (some message) t rest = refl

  after_reading-IsAheadOf :
      (rs : List (Option R)) (read : Paging W × Option String) (page : ℕ)
      → (query.page_numbered && page == 1) ≡ false
      → IsAheadOf read.0.cursor (after_reading query rs read page)
  unfolding after_reading
  after_reading-IsAheadOf rs (s, none) page numbered = after_rows-IsAheadOf rs s page numbered
  after_reading-IsAheadOf rs (s, some message) page numbered = tt

  page_step-IsAheadOf :
      (s : Paging W) (page : ℕ)
      → (query.page_numbered && page == 1) ≡ false
      → IsAheadOf s.cursor (page_step query s page)
  unfolding page_step
  page_step-IsAheadOf s page numbered =
      answered (leb query.budget (query.elapsed page)) (query.fetch_page s.cursor page)
    where
      answered :
          (late : Bool) (answer : Answer R)
          → IsAheadOf s.cursor (
              if late then failed budget_exhausted s else elim answer [
                | rows rs ↦ after_reading query rs (read_rows query rs s) page
                | not_a_list ↦ failed invalid_response s
                | raised message ↦ failed (request_failed message) s
              ])
      answered true answer = tt
      answered false not_a_list = tt
      answered false (raised message) = tt
      answered false (rows rs) =
          subst (λ c. IsAheadOf c (after_reading query rs (read_rows query rs s) page))
            (read_rows-cursor rs s)
            (after_reading-IsAheadOf rs (read_rows query rs s) page numbered)

  is_ahead_trans :
      (direction : Direction) (a b c : ℤ)
      → is_ahead direction b a ≡ true
      → is_ahead direction c b ≡ true
      → is_ahead direction c a ≡ true
  is_ahead_trans forward a b c h k = ground arith
  is_ahead_trans backward a b c h k = ground arith

  continued-is_ahead :
      (s t : Paging W) (page : ℕ)
      → (query.page_numbered && page == 1) ≡ false
      → page_step query s page ≡ continued t
      → is_ahead query.direction t.cursor s.cursor ≡ true
  continued-is_ahead s t page numbered h =
      subst (IsAheadOf s.cursor) h (page_step-IsAheadOf s page numbered)

  page_lt : {page later : ℕ} {s t : Paging W} → Leads page s later t → page < later
  page_lt (one_page h) = omega arith
  page_lt (more_pages path h) = omega (arith, page_lt path)

  not_first :
      (page later : ℕ) → 1 ≤ page → page < later → (query.page_numbered && later == 1) ≡ false
  not_first page later h k = ground arith

  -- A later page is asked for with a cursor that lies ahead in the direction of the paging, so that no
  -- cursor is used twice; with page numbers this holds from the second page on.
  pub cursors_advance :
      {page later : ℕ} {s t : Paging W}
      → 1 ≤ page
      → (query.page_numbered && page == 1) ≡ false
      → Leads page s later t
      → is_ahead query.direction t.cursor s.cursor ≡ true
  cursors_advance first numbered (one_page {page} {s} {t} h) =
      continued-is_ahead s t page numbered h
  cursors_advance first numbered (more_pages {page} {later} {s} {t} {u} path h) =
      is_ahead_trans query.direction s.cursor t.cursor u.cursor
        (cursors_advance first numbered path)
        (continued-is_ahead t u later (not_first page later first (page_lt path)) h)
