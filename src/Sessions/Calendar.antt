-- ===== src/Sessions/Calendar.antt =====
-- The calendar of market_sessions.py: its holidays lie in their year.
use taoli.Base.{
  ℕ, ◌+◌, ◌-◌, ◌/◌, ◌%◌, ◌≤◌, ◌<◌, ◌≡◌, refl, Bool, true, false, List, [], ◌∷◌, ◌++◌, All,
  All-append, All-imp, arith, if◌then◌else◌, leb, contains, nat_eq,
}
use taoli.Sessions.{
  ordinal, days_before_year, observed_fixed_holiday, nth_weekday, last_weekday, easter_sunday,
  easter_number, holidays_of, holidays_around_year,
}

pub days_before_year_mono : (y : ℕ) → days_before_year y ≤ days_before_year (y + 1)
days_before_year_mono y = omega arith

ordinal-ge : (y m d : ℕ) → days_before_year y + d ≤ ordinal y m d
unfolding ordinal
ordinal-ge y m d = omega arith

pub observed-ge : (y m d : ℕ) → 1 ≤ d → days_before_year y ≤ observed_fixed_holiday y m d
unfolding observed_fixed_holiday
observed-ge y m d h = ground (arith, ordinal-ge y m d)

nth-ge : (y m w k : ℕ) → days_before_year y ≤ nth_weekday y m w k
unfolding nth_weekday
nth-ge y m w k = omega (arith, ordinal-ge y m 1)

last_weekday-ge : (y : ℕ) → days_before_year y ≤ last_weekday y 5 0
unfolding last_weekday ordinal
last_weekday-ge y = omega arith

easter-ge : (y : ℕ) → days_before_year y + 1 ≤ easter_sunday y
unfolding easter_sunday
easter-ge y = omega (arith, ordinal-ge y (easter_number y / 31) (easter_number y % 31 + 1))

-- A date on or after the eve of the year's first day.
abbrev pub IsNotBefore : ℕ → ℕ → Type 0
IsNotBefore year day = days_before_year year ≤ day + 1

holidays-bound : (y : ℕ) → All (IsNotBefore y) (holidays_of y)
unfolding holidays_of
holidays-bound y = (
  omega (arith, observed-ge y 1 1 (omega arith)),
  (
    omega (arith, nth-ge y 1 0 3),
    (
      omega (arith, nth-ge y 2 0 3),
      (
        omega (arith, easter-ge y),
        (
          omega (arith, last_weekday-ge y),
          (
            omega (arith, observed-ge y 7 4 (omega arith)),
            (
              omega (arith, nth-ge y 9 0 1),
              (
                omega (arith, nth-ge y 11 3 4),
                (omega (arith, observed-ge y 12 25 (omega arith)), juneteenth (leb 2022 y)),
              ),
            ),
          ),
        ),
      ),
    ),
  ),
)
  where
    juneteenth :
        (b : Bool) → All (IsNotBefore y) (if b then observed_fixed_holiday y 6 19 ∷ [] else [])
    juneteenth true = (omega (arith, observed-ge y 6 19 (omega arith)), tt)
    juneteenth false = tt

-- No holiday around a year lies before the eve of the first day of the year before.
pub holidays_around-bound : (y : ℕ) → All (IsNotBefore (y - 1)) (holidays_around_year y)
unfolding holidays_around_year
holidays_around-bound y =
    All-append (IsNotBefore (y - 1)) (holidays_of (y - 1)) (holidays_of y ++ holidays_of (y + 1))
      (holidays-bound (y - 1))
      (All-append (IsNotBefore (y - 1)) (holidays_of y) (holidays_of (y + 1))
        (All-imp (IsNotBefore y) (IsNotBefore (y - 1)) (holidays_of y) (λ d h. omega (arith, h))
          (holidays-bound y))
        (All-imp (IsNotBefore (y + 1)) (IsNotBefore (y - 1)) (holidays_of (y + 1))
          (λ d h. omega (arith, h)) (holidays-bound (y + 1))))

pub contains-below :
    (b d : ℕ) (hs : List ℕ) → All (λ h. b ≤ h + 1) hs → d + 1 < b → contains d hs ≡ false
contains-below b d [] all h = refl
contains-below b d (x ∷ hs) all h = ground (arith, contains-below b d hs all.1 h, all.0)
