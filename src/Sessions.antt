-- ===== src/Sessions.antt =====
-- backend/app/services/market_sessions.py, and the stock tokens of market_labels.py. A `date` is its
-- number of `date.toordinal`, and a `time` of the day counts microseconds. The time zone of New York is
-- a parameter.
pub mod Calendar
pub mod Previous
pub mod Trading
use Prim.Native.Char.{Char, code}
use taoli.Base.{
  ℕ, zero, suc, ◌+◌, ◌-◌, ◌*◌, ◌/◌, ◌%◌, String, Bool, true, false, not, ◌&&◌, ◌||◌, Option, none,
  some, get_or, ◌>>=◌, List, [], ◌∷◌, ◌++◌, if◌then◌else◌, ◌==◌, nat_eq, string_eq, ltb, leb,
  contains,
}
use taoli.Base.Text.{upper, lower, char_count}
use taoli.Models.Identity.{Time, second}
use taoli.Models.Market.{MarketSnapshot, Opportunity, MarketType, spot, market_type_eq}
use taoli.PairValidation.{strip}

abbrev pub is_leap : ℕ → Bool
is_leap year = year % 4 == 0 && (not (year % 100 == 0) || year % 400 == 0)

-- The days of the years before one, and of the months before one in its year.
abbrev pub days_before_year : ℕ → ℕ
days_before_year year = let y = year - 1 in y * 365 + y / 4 - y / 100 + y / 400

abbrev pub days_before_month : ℕ → ℕ → ℕ
days_before_month year month =
    let leap : ℕ = if is_leap year && leb 3 month then 1 else 0 in
    (if leb month 1
      then 0
      else if month == 2
      then 31
      else if month == 3
      then 59
      else if month == 4
      then 90
      else if month == 5
      then 120
      else if month == 6
      then 151
      else if month == 7
      then 181
      else if month == 8
      then 212
      else if month == 9
      then 243
      else if month == 10
      then 273
      else if month == 11
      then 304
      else 334)
    + leap

-- The number of a day, in whatever year.
unfoldable pub ordinal : ℕ → ℕ → ℕ → ℕ
ordinal year month day = days_before_year year + days_before_month year month + day

-- `date(year, month, day)`, which raises outside of the years 1 to 9999.
unfoldable pub date : ℕ → ℕ → ℕ → Option ℕ
unfolding ordinal
date year month day = if leb 1 year && leb year 9999 then some (ordinal year month day) else none

-- Monday is 0.
abbrev pub weekday : ℕ → ℕ
weekday day = (day + 6) % 7

pub observed_fixed_holiday : ℕ → ℕ → ℕ → ℕ
unfolding ordinal
observed_fixed_holiday year month day =
    let actual = ordinal year month day in
    if weekday actual == 5 then actual - 1 else if weekday actual == 6 then actual + 1 else actual

pub nth_weekday : ℕ → ℕ → ℕ → ℕ → ℕ
unfolding ordinal
nth_weekday year month day occurrence =
    let first = ordinal year month 1 in first + (day + 7 - weekday first) % 7 + (occurrence - 1) * 7

pub last_weekday : ℕ → ℕ → ℕ → ℕ
unfolding ordinal
last_weekday year month day =
    let next_month = if month == 12 then ordinal (year + 1) 1 1 else ordinal year (month + 1) 1 in
    let last = next_month - 1 in last - (weekday last + 7 - day) % 7

-- `h + l - 7 * m + 114` of `_easter_sunday`; no difference falls below 0.
pub easter_number : ℕ → ℕ
easter_number year =
    let a = year % 19 in
    let b = year / 100 in
    let c = year % 100 in
    let d = b / 4 in
    let e = b % 4 in
    let f = (b + 8) / 25 in
    let g = (b + 1 - f) / 3 in
    let h = (19 * a + b + 15 - d - g) % 30 in
    let i = c / 4 in
    let k = c % 4 in
    let l = (32 + 2 * e + 2 * i - h - k) % 7 in
    let m = (a + 11 * h + 22 * l) / 451 in h + l + 114 - 7 * m

pub easter_sunday : ℕ → ℕ
unfolding easter_number ordinal
easter_sunday year = ordinal year (easter_number year / 31) (easter_number year % 31 + 1)

-- The dates of `_us_stock_holidays`, which are those of one year.
pub holidays_of : ℕ → List ℕ
unfolding observed_fixed_holiday nth_weekday last_weekday easter_sunday
holidays_of year =
    observed_fixed_holiday year 1 1
    ∷ nth_weekday year 1 0 3
    ∷ nth_weekday year 2 0 3
    ∷ (easter_sunday year - 2)
    ∷ last_weekday year 5 0
    ∷ observed_fixed_holiday year 7 4
    ∷ nth_weekday year 9 0 1
    ∷ nth_weekday year 11 3 4
    ∷ observed_fixed_holiday year 12 25
    ∷ (if leb 2022 year then observed_fixed_holiday year 6 19 ∷ [] else [])

-- `.year` of the date with this number.
pub year_of : ℕ → ℕ
year_of day =
    let n = day - 1 in
    let n400 = n / 146097 in
    let r400 = n % 146097 in
    let n100 = r400 / 36524 in
    let r100 = r400 % 36524 in
    let n4 = r100 / 1461 in
    let n1 = r100 % 1461 / 365 in
    let year = n400 * 400 + n100 * 100 + n4 * 4 + n1 in
    if n1 == 4 || n100 == 4 then year else year + 1

-- All dates of a year raise, or none.
pub us_stock_holidays : ℕ → Option (List ℕ)
unfolding date holidays_of
us_stock_holidays year = do first ← date year 1 1; some (holidays_of year)

-- The holidays of a year and of the years around it.
pub holidays_around_year : ℕ → List ℕ
holidays_around_year year = holidays_of (year - 1) ++ (holidays_of year ++ holidays_of (year + 1))

pub holiday_dates_around : ℕ → Option (List ℕ)
unfolding us_stock_holidays holidays_around_year
holiday_dates_around local_date =
    let year = year_of local_date in
    do
      before ← us_stock_holidays (year - 1)
      own ← us_stock_holidays year
      next ← us_stock_holidays (year + 1)
      some (before ++ (own ++ next))

abbrev pub is_closed : List ℕ → ℕ → Bool
is_closed holidays day = leb 5 (weekday day) || contains day holidays

-- The loop of `_previous_trading_day` from a candidate on; the calendar ends at its first day.
pub trading_day_until : List ℕ → ℕ → Option ℕ
trading_day_until holidays zero = none
trading_day_until holidays (suc n) =
    let earlier = trading_day_until holidays n in
    if is_closed holidays (suc n) then earlier else some (suc n)

pub previous_trading_day : ℕ → List ℕ → Option ℕ
unfolding trading_day_until
previous_trading_day zero holidays = none
previous_trading_day (suc n) holidays = trading_day_until holidays n

pub early_close_dates : ℕ → List ℕ → Option (List ℕ)
early_close_dates local_date holidays =
    let year = year_of local_date in
    elim (previous_trading_day (observed_fixed_holiday year 7 4) holidays) [
      | none ↦ none
      | some independence ↦
          elim (previous_trading_day (observed_fixed_holiday year 12 25) holidays) [
            | none ↦ none
            | some christmas ↦ some ((nth_weekday year 11 3 4 + 1) ∷ independence ∷ christmas ∷ [])
          ]
    ]

abbrev pub minute : Time
minute = 60 * second

-- `us_stock_session_close`; the outer `none` is an exception.
pub session_close : ℕ → List ℕ → Option (Option Time)
session_close local_date holidays =
    if is_closed holidays local_date
    then some none
    else elim (early_close_dates local_date holidays) [
      | none ↦ none
      | some dates ↦ some (some (if contains local_date dates then 780 * minute else 960 * minute))
    ]

-- The outer `none` is an exception, as in the first and the last year of the calendar.
pub us_stock_session_close : ℕ → Option (Option Time)
unfolding session_close
us_stock_session_close local_date = holiday_dates_around local_date >>= session_close local_date

-- The local date and time in New York of an instant.
pub record Zone : Type 0 where
  pub local_date : Time → ℕ
  pub local_time : Time → Time

abbrev skips : Char → Bool
skips c = code c == 45 || code c == 95 || code c == 47

pub without_marks : String → String
without_marks String.[] = String.[]
without_marks (String.◌∷◌ c s) =
    let rest = without_marks s in if skips c then rest else String.◌∷◌ c rest

pub normalize_market_symbol : String → String
unfolding without_marks
normalize_market_symbol value = without_marks (upper value)

-- `raw.startswith("R") and raw[1:] == canonical`
pub follows_r : String → String → Bool
follows_r String.[] canonical = false
follows_r (String.◌∷◌ c s) canonical = code c == 82 && s == canonical

pub is_bitget_rtoken_spot : String → MarketType → Option String → Option String → Bool
unfolding normalize_market_symbol follows_r
is_bitget_rtoken_spot exchange market_type raw_symbol canonical_symbol =
    let raw = normalize_market_symbol (get_or raw_symbol "") in
    let canonical = normalize_market_symbol (get_or canonical_symbol "") in
    if not (lower (strip exchange) == "bitget")
      || not (market_type == spot)
      || get_or raw_symbol "" == ""
      || get_or canonical_symbol "" == ""
    then false
    else ltb 4 (char_count canonical) && ltb 1 (char_count raw) && follows_r raw canonical

module _ (zone : Zone) where
  -- `none` is an exception, as at the ends of the calendar.
  pub is_us_stock_market_open : Time → Option Bool
  unfolding us_stock_session_close
  is_us_stock_market_open at = elim (us_stock_session_close (zone.local_date at)) [
    | none ↦ none
    | some none ↦ some false
    | some (some close) ↦
        some (leb (570 * minute) (zone.local_time at) && ltb (zone.local_time at) close)
  ]

  pub is_bitget_rtoken_spot_open :
      String → MarketType → Option String → Option String → Time → Option Bool
  unfolding is_bitget_rtoken_spot is_us_stock_market_open
  is_bitget_rtoken_spot_open exchange market_type raw_symbol canonical_symbol at =
      if not (is_bitget_rtoken_spot exchange market_type raw_symbol canonical_symbol)
      then some true
      else is_us_stock_market_open at

  module _ {W : Type 0} where
    pub is_market_snapshot_tradable : MarketSnapshot W → Time → Option Bool
    unfolding is_bitget_rtoken_spot_open
    is_market_snapshot_tradable m at =
        is_bitget_rtoken_spot_open m.exchange m.market_type (some m.raw_symbol) (some m.symbol) at

    pub is_opportunity_tradable : Opportunity W → Time → Option Bool
    unfolding is_bitget_rtoken_spot_open
    is_opportunity_tradable o at =
        let sell_open =
          is_bitget_rtoken_spot_open o.sell_exchange o.sell_market_type o.sell_raw_symbol
            (some o.symbol) at in
        elim (is_bitget_rtoken_spot_open o.buy_exchange o.buy_market_type o.buy_raw_symbol
          (some o.symbol) at) [ none ↦ none | some false ↦ some false | some true ↦ sell_open ]
