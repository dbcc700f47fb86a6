-- ===== src/Aliases.antt =====
-- backend/app/services/symbol_aliases.py: the symbol under which a market is compared. `None` as an
-- entry of a dict is the inner `none`.
use text.Mathlib.Text.{find?}
use taoli.Base.{
  String, not, ◌&&◌, Option, none, some, is_some, or_else, List, [], ◌∷◌, ◌++◌, map, if◌then◌else◌,
  ◌==◌, string_eq, pair_eq, option_eq,
}
use taoli.Base.Dict
use taoli.Base.Dict.{Dict}
use taoli.Base.Text.{upper, lower}
use taoli.Base.Number.{Float, ◌⊗◌, ◌⊘◌, ◌==?◌, of_nat}
use taoli.Models.Market.{MarketSnapshot, future, market_type_value}
use taoli.Models.Settings.{SymbolAlias}
use taoli.PairValidation.{strip, before_colon}

-- (exchange, symbol, market type), and the same with a dex.
abbrev pub MarketName : Type 0
MarketName = String × (String × Option String)

abbrev pub AliasKey : Type 0
AliasKey = MarketName × Option String

pub record SymbolAliasResolver (W : Type 0) : Type 0 where
  pub by_key : Dict AliasKey (SymbolAlias W)
  pub implicit_dex_aliases : Dict MarketName (Option (SymbolAlias W))

-- `text.removesuffix("USDT")`
pub base_from_symbol : String → String
base_from_symbol String.[] = String.[]
base_from_symbol (String.◌∷◌ c s) =
    let rest = base_from_symbol s in
    if String.◌∷◌ c s == "USDT" then String.[] else String.◌∷◌ c rest

module _ {W : Type 0} where
  abbrev pub alias_key : SymbolAlias W → AliasKey
  alias_key alias =
      let market_type : Option String = elim alias.market_type [
        | none ↦ none
        | some t ↦ some (market_type_value t)
      ] in
      ((lower alias.exchange, (upper alias.symbol, market_type)), alias.dex)

  pub index_aliases :
      List (SymbolAlias W) → Dict AliasKey (SymbolAlias W) → Dict AliasKey (SymbolAlias W)
  index_aliases [] by_key = by_key
  index_aliases (alias ∷ aliases) by_key =
      index_aliases aliases (Dict.set (alias_key alias) alias by_key)

  -- The loop of `__init__` over the aliases by key.
  pub index_implicit :
      Dict AliasKey (SymbolAlias W)
      → Dict MarketName (Option (SymbolAlias W))
      → Dict MarketName (Option (SymbolAlias W))
  index_implicit [] implicit = implicit
  index_implicit (((name, none), alias) ∷ entries) implicit = index_implicit entries implicit
  index_implicit (((name, some dex), alias) ∷ entries) implicit =
      index_implicit entries
        (Dict.set name (if Dict.has name implicit then none else some alias) implicit)

  pub first_present : List AliasKey → Dict AliasKey (SymbolAlias W) → Option (SymbolAlias W)
  first_present [] by_key = none
  first_present (key ∷ keys) by_key = or_else (Dict.get key by_key) (first_present keys by_key)

  pub implicit_alias : String → String → String → SymbolAliasResolver W → Option (SymbolAlias W)
  implicit_alias exchange symbol market_type resolver =
      elim (Dict.get (exchange, (symbol, some market_type)) resolver.implicit_dex_aliases) [
        | some entry ↦ entry
        | none ↦ elim (Dict.get (exchange, (symbol, none)) resolver.implicit_dex_aliases) [
          | some entry ↦ entry
          | none ↦ none
        ]
      ]

  pub direct_alias :
      String → String → String → Option String → SymbolAliasResolver W → Option (SymbolAlias W)
  unfolding first_present implicit_alias
  direct_alias exchange symbol market_type none resolver =
      or_else
        (first_present
          (((exchange, (symbol, some market_type)), none) ∷ ((exchange, (symbol, none)), none) ∷ [])
          resolver.by_key)
        (implicit_alias exchange symbol market_type resolver)
  direct_alias exchange symbol market_type (some dex) resolver =
      first_present
        (((exchange, (symbol, some market_type)), some dex)
          ∷ ((exchange, (symbol, none)), some dex)
          ∷ ((exchange, (symbol, some market_type)), none)
          ∷ ((exchange, (symbol, none)), none)
          ∷ [])
        resolver.by_key

  pub alias_for : MarketSnapshot W → SymbolAliasResolver W → Option (SymbolAlias W)
  unfolding direct_alias
  alias_for market resolver =
      let exchange = lower market.exchange in
      let prefix = lower (strip (before_colon market.raw_symbol)) in
      let dex : Option String =
        if exchange == "hyperliquid" && is_some (find? market.raw_symbol ":") && not (prefix == "")
        then some prefix
        else none in
      direct_alias exchange (upper market.symbol) (market_type_value market.market_type) dex
        resolver

  pub canonical_symbol_for : MarketSnapshot W → SymbolAliasResolver W → String
  unfolding alias_for
  canonical_symbol_for market resolver = elim (alias_for market resolver) [
    | none ↦ upper market.symbol
    | some alias ↦ alias.canonical_symbol
  ]

module _ {W : Type 0} ⦃f : Float W⦄ where
  -- With the symbols as the validator of `SymbolAlias` writes them.
  pub known_symbol_aliases : List (SymbolAlias W)
  known_symbol_aliases =
      record {
        exchange = "hyperliquid";
        symbol = "ANTHUSDT";
        canonical_symbol = "ANTHROPICUSDT";
        market_type = some future;
        dex = some "io";
        price_multiplier = of_nat 1;
      }
      ∷ record {
        exchange = "okx";
        symbol = "ANTHROPICUSDT";
        canonical_symbol = "ANTHROPICUSDT";
        market_type = some future;
        dex = none;
        price_multiplier = of_nat 10;
      }
      ∷ []

  pub new_resolver : List (SymbolAlias W) → SymbolAliasResolver W
  unfolding known_symbol_aliases index_aliases index_implicit
  new_resolver aliases =
      let by_key = index_aliases (known_symbol_aliases ++ aliases) [] in
      record { by_key = by_key; implicit_dex_aliases = index_implicit by_key [] }

  abbrev pub scaled : Option W → W → Option W
  scaled none multiplier = none
  scaled (some value) multiplier = some (value ⊗ multiplier)

  abbrev pub scaled_size : Option W → W → Option W
  scaled_size none multiplier = none
  scaled_size (some value) multiplier = some (value ⊘ multiplier)

  pub aliased : MarketSnapshot W → SymbolAlias W → MarketSnapshot W
  unfolding base_from_symbol
  aliased market alias =
      let multiplier = alias.price_multiplier in
      record market {
        symbol = alias.canonical_symbol;
        base = base_from_symbol alias.canonical_symbol;
        bid = market.bid ⊗ multiplier;
        ask = market.ask ⊗ multiplier;
        bid_size = scaled_size market.bid_size multiplier;
        ask_size = scaled_size market.ask_size multiplier;
        mark_price = scaled market.mark_price multiplier;
        index_price = scaled market.index_price multiplier;
        symbol_alias_original_symbol = some market.symbol;
        symbol_alias_price_multiplier = multiplier;
      }

  pub apply_symbol_alias : SymbolAliasResolver W → MarketSnapshot W → MarketSnapshot W
  unfolding alias_for aliased
  apply_symbol_alias resolver market = elim (alias_for market resolver) [
    | none ↦ market
    | some alias ↦
        if alias.canonical_symbol == market.symbol && alias.price_multiplier ==? of_nat 1
        then market
        else aliased market alias
  ]

  -- `apply_symbol_aliases`, and the asynchronous one without its pauses.
  pub apply_symbol_aliases :
      List (MarketSnapshot W) → List (SymbolAlias W) → List (MarketSnapshot W)
  unfolding new_resolver apply_symbol_alias
  apply_symbol_aliases markets aliases = map (apply_symbol_alias (new_resolver aliases)) markets
