-- ===== src/Filters.antt =====
-- backend/app/services/data_filters.py: which markets and opportunities the settings leave out. A set
-- is the list of its elements; `none` is an exception of the calendar.
pub mod Included
use Prim.Native.Char.{Char, code}
use taoli.Base.{
  String, Bool, true, false, not, ◌&&◌, ◌||◌, Option, none, some, List, [], ◌∷◌, map, if◌then◌else◌,
  ◌==◌, nat_eq, string_eq, contains, keep_if, ◌>>=◌,
}
use taoli.Base.Dict.{Dict}
use taoli.Base.Text.{upper, lower}
use taoli.Models.Identity.{Time}
use taoli.Models.Market.{MarketSnapshot, Opportunity}
use taoli.Models.Settings.{RiskSettings}
use taoli.PairValidation.{before_colon}
use taoli.Sessions.{Zone, is_opportunity_tradable}

abbrev skips : Char → Bool
skips c = code c == 45 || code c == 95

pub without_dashes : String → String
without_dashes String.[] = String.[]
without_dashes (String.◌∷◌ c s) =
    let rest = without_dashes s in if skips c then rest else String.◌∷◌ c rest

pub normalize_symbol : String → String
unfolding without_dashes
normalize_symbol value = without_dashes (upper value)

abbrev pub normalize_exchange : String → String
normalize_exchange value = lower value

module _ {W : Type 0} where
  abbrev pub excluded_symbol_set : RiskSettings W → List String
  excluded_symbol_set settings = map normalize_symbol settings.excluded_symbols

  abbrev pub ignored_exchange_set : RiskSettings W → List String
  ignored_exchange_set settings = map normalize_exchange settings.ignored_exchanges

  pub symbol_is_excluded : String → RiskSettings W → Bool
  symbol_is_excluded symbol settings =
      contains (normalize_symbol symbol) (excluded_symbol_set settings)

  abbrev pub is_ignored : String → RiskSettings W → Bool
  is_ignored exchange settings =
      contains (normalize_exchange exchange) (ignored_exchange_set settings)

  pub market_is_excluded : MarketSnapshot W → RiskSettings W → Bool
  unfolding symbol_is_excluded
  market_is_excluded market settings =
      symbol_is_excluded market.symbol settings || is_ignored market.exchange settings

  -- `_market_is_included`
  pub market_is_included : RiskSettings W → MarketSnapshot W → Bool
  market_is_included settings market =
      not (contains (normalize_symbol market.symbol) (excluded_symbol_set settings))
      && not (contains (normalize_exchange market.exchange) (ignored_exchange_set settings))

  -- `filter_markets`, and `filter_markets_async` without its pauses.
  pub filter_markets : List (MarketSnapshot W) → RiskSettings W → List (MarketSnapshot W)
  unfolding market_is_included
  filter_markets markets settings = keep_if (market_is_included settings) markets

  -- `filter_exchange_errors`
  pub filter_exchange_errors : Dict String String → RiskSettings W → Dict String String
  filter_exchange_errors errors settings =
      keep_if (λ e. not (is_ignored (before_colon e.0) settings)) errors

module _ {W : Type 0} (zone : Zone) (settings : RiskSettings W) (now : Time) where
  pub opportunity_is_excluded : Opportunity W → Option Bool
  unfolding symbol_is_excluded
  opportunity_is_excluded o =
      let closed : Option Bool = (do
        tradable ← is_opportunity_tradable zone o now
        some (not tradable)) in
      if symbol_is_excluded o.symbol settings
      then some true
      else if is_ignored o.buy_exchange settings || is_ignored o.sell_exchange settings
      then some true
      else closed

  -- The condition of `filter_opportunities`.
  pub opportunity_is_included : Opportunity W → Option Bool
  opportunity_is_included o =
      let tradable = is_opportunity_tradable zone o now in
      if not (contains (normalize_symbol o.symbol) (excluded_symbol_set settings))
        && not (is_ignored o.buy_exchange settings)
        && not (is_ignored o.sell_exchange settings)
      then tradable
      else some false

  pub filter_opportunities : List (Opportunity W) → Option (List (Opportunity W))
  unfolding opportunity_is_included
  filter_opportunities [] = some []
  filter_opportunities (o ∷ os) = do
    included ← opportunity_is_included o
    rest ← filter_opportunities os
    some (if included then o ∷ rest else rest)
