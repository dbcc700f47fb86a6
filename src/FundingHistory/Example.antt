-- ===== src/FundingHistory/Example.antt =====
-- A history of three settlements in pages of two rows (funding_history_pagination.py).
use taoli.Base.{ℕ, zero, suc, ◌≤◌, ◌/◌, true, false, none, some, [], ◌∷◌, arith, ◌≡◌, refl, All}
use taoli.Base.Dict
use taoli.Base.Number.{pos, fixed_float}
use taoli.Models.Identity.{Time}
use taoli.FundingHistory.{
  value, after_reading, Query, Paging, Answer, rows, forward, is_ahead, PairSpreadFundingPoint,
  collected, continued, collect_funding_pages, collect_from, page_step, after_rows, advance,
  row_times, read_rows, read_row, read_parsed, read_point, next_cursor, finish_history,
  sort_by_time, insert_by_time, first_paging,
}
use taoli.FundingHistory.Cursor.{one_page, cursors_advance}
use taoli.FundingHistory.History.{points_of, IsInOrder, collect_funding_pages-IsHistory}

abbrev settled : Time → PairSpreadFundingPoint ℕ
settled at = record {
  exchange = "okx";
  symbol = "BTC";
  funding_time = at;
  funding_rate_pct = 1;
  dex = none;
}

abbrev page_of : ℕ → Answer Time
page_of (suc zero) = rows (some 3000 ∷ some 2000 ∷ [])
page_of _ = rows (some 4000 ∷ [])

abbrev query : Query Time ℕ
query = record {
  fetch_page = λ cursor page. page_of page;
  timestamp = λ at. value at;
  parse = λ at. value (settled at);
  start = 1000;
  end = 9000;
  limit = 2;
  direction = forward;
  page_numbered = false;
  budget = 45;
  elapsed = λ page. page;
  to_ms = λ at. pos (at / 1000);
}

all_settlements :
    collect_funding_pages query ≡ collected (settled 2000 ∷ settled 3000 ∷ settled 4000 ∷ [])
unfolding collect_funding_pages collect_from page_step after_reading after_rows advance row_times
    read_rows read_row read_parsed read_point next_cursor finish_history sort_by_time insert_by_time
    Dict.set
all_settlements = refl

abbrev second_paging : Paging ℕ
second_paging = record {
  points = (3000, settled 3000) ∷ (2000, settled 2000) ∷ [];
  invalid = 0;
  cursor = pos 4;
}

first_page : page_step query (first_paging query) 1 ≡ continued second_paging
unfolding page_step after_reading after_rows advance row_times read_rows read_row read_parsed
    read_point next_cursor Dict.set
first_page = refl

cursors_advance_example : is_ahead forward (pos 4) (pos 1) ≡ true
cursors_advance_example = cursors_advance query (omega arith) refl (one_page first_page)

collect_funding_pages-IsHistory_example :
    let points = points_of (collect_funding_pages query) in
    All (λ p. (1000 ≤ p.funding_time) × (p.funding_time ≤ 9000)) points × IsInOrder points
collect_funding_pages-IsHistory_example = collect_funding_pages-IsHistory query
