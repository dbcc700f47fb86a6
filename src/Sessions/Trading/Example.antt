-- ===== src/Sessions/Trading/Example.antt =====
-- The calendar of 2026, and the day after Thanksgiving.
use taoli.Base.{ℕ, ◌*◌, ◌≡◌, refl, none, some, [], ◌∷◌, arith}
use taoli.Sessions.{
  date, ordinal, holidays_of, session_close, us_stock_holidays, us_stock_session_close,
  observed_fixed_holiday, nth_weekday, last_weekday, easter_sunday, easter_number, year_of,
  holidays_around_year, holiday_dates_around, early_close_dates, previous_trading_day,
  trading_day_until, minute,
}
use taoli.Sessions.Trading.{HasSession, us_stock_session_close_lem}

holidays_2026 :
    us_stock_holidays 2026
    ≡ some (
        ordinal 2026 1 1
        ∷ ordinal 2026 1 19
        ∷ ordinal 2026 2 16
        ∷ ordinal 2026 4 3
        ∷ ordinal 2026 5 25
        ∷ ordinal 2026 7 3
        ∷ ordinal 2026 9 7
        ∷ ordinal 2026 11 26
        ∷ ordinal 2026 12 25
        ∷ ordinal 2026 6 19
        ∷ [])
unfolding us_stock_holidays holidays_of date ordinal observed_fixed_holiday nth_weekday last_weekday
    easter_sunday easter_number
holidays_2026 = refl

abbrev black_friday : ℕ
black_friday = 739947

black_friday-date : black_friday ≡ ordinal 2026 11 27
unfolding ordinal
black_friday-date = refl

black_friday-year : year_of black_friday ≡ 2026
unfolding year_of
black_friday-year = refl

closes_early : us_stock_session_close black_friday ≡ some (some (780 * minute))
unfolding us_stock_session_close session_close us_stock_holidays holidays_of date ordinal
    observed_fixed_holiday nth_weekday last_weekday easter_sunday easter_number year_of
    holidays_around_year holiday_dates_around early_close_dates previous_trading_day
    trading_day_until
closes_early = refl

us_stock_session_close_lem_example : HasSession black_friday
us_stock_session_close_lem_example =
    us_stock_session_close_lem black_friday (omega (arith, black_friday-year))
      (omega (arith, black_friday-year))

-- The last year has none after it.
no_year_10000 : us_stock_session_close (ordinal 9999 6 1) ≡ none
unfolding us_stock_session_close us_stock_holidays holidays_of date ordinal year_of
    holiday_dates_around
no_year_10000 = refl
