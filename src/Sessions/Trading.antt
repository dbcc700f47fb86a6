-- ===== src/Sessions/Trading.antt =====
-- The trading days of market_sessions.py.
pub mod Example
use mathlib.Core.Path.{subst}
use taoli.Base.{
  ℕ, zero, suc, ◌+◌, ◌-◌, ◌*◌, ◌≤◌, ◌<◌, ◌≡◌, ◌↔◌, refl, Bool, true, false, not, ◌&&◌, Option, none,
  some, is_some, List, [], ◌∷◌, All, arith, if◌then◌else◌, leb, contains, inl, inr, ◌⊎◌, Bool-cases,
  Option-cases, ◌==◌, nat_eq, IfSome, ==_iff, sym, ap, ◌∙◌,
}
use taoli.Sessions.{
  date, holidays_of, us_stock_holidays, session_close, days_before_year, weekday,
  observed_fixed_holiday, nth_weekday, holiday_dates_around, holidays_around_year, year_of,
  is_closed, trading_day_until, previous_trading_day, early_close_dates, us_stock_session_close,
  minute,
}
use taoli.Sessions.Calendar.{
  days_before_year_mono, holidays_around-bound, contains-below, observed-ge,
}
use taoli.Models.Identity.{Time}
use taoli.Sessions.Previous.{IsLastOpen, previous_trading_day-IsLastOpen}

abbrev pub IsEarlyClose : ℕ → Type 0
IsEarlyClose day =
    let holidays = holidays_around_year (year_of day) in
    (day ≡ nth_weekday (year_of day) 11 3 4 + 1)
    ⊎ IsLastOpen holidays (observed_fixed_holiday (year_of day) 7 4) day
    ⊎ IsLastOpen holidays (observed_fixed_holiday (year_of day) 12 25) day

weekday_of_three :
    (b : ℕ)
    → (leb 5 (weekday b) ≡ false)
      ⊎ (leb 5 (weekday (b + 1)) ≡ false)
      ⊎ (leb 5 (weekday (b + 2)) ≡ false)
weekday_of_three b = ground arith

-- Before every holiday around a year there is a weekday.
weekday_before :
    (y : ℕ)
    → 3 ≤ y
    → (e : ℕ) × (1 ≤ e) × (e < days_before_year y) × (is_closed (holidays_around_year y) e ≡ false)
weekday_before y h =
    let b = days_before_year (y - 1) - 4 in
    elim (weekday_of_three b) [
      | inl e ↦ open_at b e (omega (arith, enough)) (omega (arith, enough))
      | inr (inl e) ↦ open_at (b + 1) e (omega (arith, enough)) (omega (arith, enough))
      | inr (inr e) ↦ open_at (b + 2) e (omega (arith, enough)) (omega (arith, enough))
    ]
  where
    enough : 365 ≤ days_before_year (y - 1)
    enough = omega (arith, h)

    open_at :
        (e : ℕ)
        → leb 5 (weekday e) ≡ false
        → 1 ≤ e
        → e + 1 < days_before_year (y - 1)
        → (e : ℕ) × (1 ≤ e)
          × (e < days_before_year y)
          × (is_closed (holidays_around_year y) e ≡ false)
    open_at e work one before = (
      e,
      one,
      omega (arith, before),
      ground (
        arith,
        work,
        contains-below (days_before_year (y - 1)) e (holidays_around_year y)
            (holidays_around-bound y) before,
      ),
    )

contains_three :
    (d x y z : ℕ) → (contains d (x ∷ y ∷ z ∷ []) ≡ true) ↔ ((d ≡ x) ⊎ (d ≡ y) ⊎ (d ≡ z))
contains_three d x y z = (
  λ h. elim (Bool-cases (d == x)) [
    | inl e ↦ inl ((==_iff d x).0 e)
    | inr no_x ↦ elim (Bool-cases (d == y)) [
      | inl e ↦ inr (inl ((==_iff d y).0 e))
      | inr no_y ↦ inr (inr ((==_iff d z).0 (ground (arith, h, no_x, no_y))))
    ]
  ],
  λ h. elim h [
    | inl e ↦ ground (arith, (==_iff d x).1 e)
    | inr (inl e) ↦ ground (arith, (==_iff d y).1 e)
    | inr (inr e) ↦ ground (arith, (==_iff d z).1 e)
  ],
)

early_close_dates-eq :
    (day : ℕ) (holidays : List ℕ) (a b : ℕ)
    → previous_trading_day (observed_fixed_holiday (year_of day) 7 4) holidays ≡ some a
    → previous_trading_day (observed_fixed_holiday (year_of day) 12 25) holidays ≡ some b
    → early_close_dates day holidays ≡ some ((nth_weekday (year_of day) 11 3 4 + 1) ∷ a ∷ b ∷ [])
unfolding early_close_dates
early_close_dates-eq day holidays a b h k = rw (early_close_dates, h, k) refl

early_close_dates_lem :
    (day : ℕ)
    → 3 ≤ year_of day
    → (dates : List ℕ) × (early_close_dates day (holidays_around_year (year_of day)) ≡ some dates)
      × ((contains day dates ≡ true) ↔ IsEarlyClose day)
early_close_dates_lem day later =
    let y = year_of day in
    let holidays = holidays_around_year y in
    let (e, one, before, work) = weekday_before y later in
    let (a, a_eq, a_last) =
      previous_trading_day-IsLastOpen holidays (observed_fixed_holiday y 7 4) e one
        (omega (arith, before, observed-ge y 7 4 (omega arith))) work in
    let (b, b_eq, b_last) =
      previous_trading_day-IsLastOpen holidays (observed_fixed_holiday y 12 25) e one
        (omega (arith, before, observed-ge y 12 25 (omega arith))) work in
    let either = contains_three day (nth_weekday y 11 3 4 + 1) a b in
    (
      (nth_weekday y 11 3 4 + 1) ∷ a ∷ b ∷ [],
      early_close_dates-eq day holidays a b a_eq b_eq,
      (
        λ h. elim (either.0 h) [
          | inl t ↦ inl t
          | inr (inl i) ↦ inr (inl ((a_last day).0 i))
          | inr (inr c) ↦ inr (inr ((b_last day).0 c))
        ],
        λ h. either.1 (elim h [
          | inl t ↦ inl t
          | inr (inl i) ↦ inr (inl ((a_last day).1 i))
          | inr (inr c) ↦ inr (inr ((b_last day).1 c))
        ]),
      ),
    )

-- The exchange is closed, closes at 13:00, or closes at 16:00.
abbrev pub HasSession : ℕ → Type 0
HasSession day =
    let holidays = holidays_around_year (year_of day) in
    ((is_closed holidays day ≡ true) × (us_stock_session_close day ≡ some none))
    ⊎ ((is_closed holidays day ≡ false)
        × IsEarlyClose day
        × (us_stock_session_close day ≡ some (some (780 * minute))))
    ⊎ ((is_closed holidays day ≡ false)
        × (IsEarlyClose day → ⊥)
        × (us_stock_session_close day ≡ some (some (960 * minute))))

calendar_year : (year : ℕ) → 1 ≤ year → year ≤ 9999 → (leb 1 year && leb year 9999) ≡ true
calendar_year year from to = ground (arith, from, to)

us_stock_holidays-eq :
    (year : ℕ) → 1 ≤ year → year ≤ 9999 → us_stock_holidays year ≡ some (holidays_of year)
unfolding us_stock_holidays date
us_stock_holidays-eq year from to = rw (calendar_year year from to) refl

holiday_dates_around-eq :
    (day : ℕ)
    → 2 ≤ year_of day
    → year_of day ≤ 9998
    → holiday_dates_around day ≡ some (holidays_around_year (year_of day))
unfolding holiday_dates_around holidays_around_year
holiday_dates_around-eq day from to =
    let year = year_of day in
    rw
      (
        us_stock_holidays-eq (year - 1) (omega (arith, from)) (omega (arith, to)),
        us_stock_holidays-eq year (omega (arith, from)) (omega (arith, to)),
        us_stock_holidays-eq (year + 1) (omega (arith, from)) (omega (arith, to)),
      )
      refl

us_stock_session_close-eq :
    (day : ℕ)
    → 2 ≤ year_of day
    → year_of day ≤ 9998
    → us_stock_session_close day ≡ session_close day (holidays_around_year (year_of day))
unfolding us_stock_session_close
us_stock_session_close-eq day from to = rw (holiday_dates_around-eq day from to) refl

-- The session of a date of the years 3 to 9998 is found without an exception: there is none at weekends
-- and on the holidays of the years around, it ends at 13:00 on the day after Thanksgiving and on the
-- last trading day before the observed Independence Day and before the observed Christmas, and on no
-- other day, and else at 16:00.
pub us_stock_session_close_lem : (day : ℕ) → 3 ≤ year_of day → year_of day ≤ 9998 → HasSession day
unfolding session_close
us_stock_session_close_lem day later earlier =
    let found = us_stock_session_close-eq day (omega (arith, later)) earlier in
    let holidays = holidays_around_year (year_of day) in
    elim (Bool-cases (is_closed holidays day)) [
      | inl closed ↦ inl (closed, found ∙ rw closed refl)
      | inr open_day ↦
          let (dates, eq, iff) = early_close_dates_lem day later in
          inr (elim (Bool-cases (contains day dates)) [
            | inl early ↦ inl (open_day, iff.0 early, found ∙ rw (open_day, eq, early) refl)
            | inr normal ↦ inr (
              open_day,
              λ h. ground (arith, normal, iff.1 h),
              found ∙ rw (open_day, eq, normal) refl,
            )
          ])
    ]
