-- ===== src/Orderbook.antt =====
-- backend/app/services/orderbook_validator.py: how much of a notional two order books can fill, and
-- whether an opportunity passes. What an adapter answers is a parameter; so is `render`, the text of a
-- blocker with its formatted numbers.
pub mod Validate
use taoli.Base.{
  ℕ, String, Bool, true, false, not, ◌&&◌, ◌||◌, Option, none, some, List, [], ◌∷◌, ◌++◌,
  if◌then◌else◌, map, is_empty, keep_if, or_else, get_or, string_eq, is_some, ◌==◌,
}
use taoli.Base.Dict
use taoli.Base.Dict.{Dict}
use taoli.Base.Text.{lower}
use taoli.Base.Number.{
  Float, ◌⊕◌, ◌⊖◌, ◌⊗◌, ◌⊘◌, ◌<?◌, ◌≤?◌, nought, of_nat, min_of, max_of, sum_from,
}
use taoli.Edge.{funding_edge_pct}
use taoli.Models.Market.{
  Opportunity, OrderBookLevel, OrderBookSnapshot, DepthValidationResult, MarketType,
}
use taoli.Models.Settings.{RiskSettings}
use taoli.Risk.{append_if}

pub data BookSide : Type 0 where
  ask bid : BookSide

pub record FillResult (W : Type 0) : Type 0 where
  pub depth_usdt : W
  pub filled_usdt : W
  pub base_size : W
  pub vwap : Option W

-- What `fetch_order_book` does: it returns a book or `None`, or it raises.
pub data Fetched (W : Type 0) : Type 0 where
  answered : Option (OrderBookSnapshot W) → Fetched W
  request_raised : String → Fetched W

abbrev pub OrderBookAdapter : Type 0 → Type 0
OrderBookAdapter W = String → MarketType → String → ℕ → Fetched W

-- `a or b` on a text that may be missing: the empty text is false.
abbrev pub text_or : Option String → String → String
text_or none symbol = symbol
text_or (some raw_symbol) symbol = if raw_symbol == "" then symbol else raw_symbol

pub data Leg : Type 0 where
  buy_leg sell_leg : Leg

-- Why an opportunity does not pass.
pub data Blocker (W : Type 0) : Type 0 where
  adapter_missing : Leg → Blocker W
  request_failed : Leg → String → Blocker W
  book_missing : Leg → Blocker W
  depth_short : Leg → W → W → Blocker W
  fill_short : Leg → W → W → Blocker W
  edge_low : W → W → Blocker W

-- `if test: blockers.append(blocker)`
abbrev pub block_if : {W : Type 0} → Bool → Blocker W → List (Blocker W) → List (Blocker W)
block_if test blocker blockers = if test then blockers ++ (blocker ∷ []) else blockers

module _ {W : Type 0} ⦃f : Float W⦄ where
  abbrev pub book_epsilon : W
  book_epsilon = f.ratio 1 1000000000

  pub is_level_inside_band : OrderBookLevel W → BookSide → W → W → Bool
  is_level_inside_band level side reference_price band_pct =
      if band_pct <? nought then false else elim side [
        | ask ↦ level.price ≤? reference_price ⊗ (of_nat 1 ⊕ band_pct ⊘ of_nat 100) ⊕ book_epsilon
        | bid ↦ reference_price ⊗ (of_nat 1 ⊖ band_pct ⊘ of_nat 100) ⊖ book_epsilon ≤? level.price
      ]

  -- The loop of `_fill_quote_notional`: what is filled, its size, and what remains.
  pub fill_from : List (OrderBookLevel W) → W → W → W → W × W
  fill_from [] remaining filled base_size = (filled, base_size)
  fill_from (level ∷ levels) remaining filled base_size =
      let take_notional = min_of (level.price ⊗ level.size) remaining in
      let skip = fill_from levels remaining filled base_size in
      let filled' = filled ⊕ take_notional in
      let base_size' = base_size ⊕ take_notional ⊘ level.price in
      let remaining' = remaining ⊖ take_notional in
      let more = fill_from levels remaining' filled' base_size' in
      if take_notional ≤? nought
      then skip
      else if remaining' ≤? book_epsilon
      then (filled', base_size')
      else more

  pub fill_quote_notional : List (OrderBookLevel W) → W → BookSide → W → FillResult W
  unfolding is_level_inside_band fill_from
  fill_quote_notional [] target_notional side band_pct = record {
    depth_usdt = nought;
    filled_usdt = nought;
    base_size = nought;
    vwap = none;
  }
  fill_quote_notional (first ∷ rest) target_notional side band_pct =
      let band_levels =
        keep_if (λ level. is_level_inside_band level side first.price band_pct) (first ∷ rest) in
      let (filled, base_size) = fill_from band_levels target_notional nought nought in
      record {
        depth_usdt = sum_from nought (map (λ level. level.price ⊗ level.size) band_levels);
        filled_usdt = filled;
        base_size = base_size;
        vwap = if base_size ≤? nought then none else some (filled ⊘ base_size);
      }

  pub cost_pct : Opportunity W → W
  cost_pct o = o.open_spread_pct ⊖ o.fee_adjusted_open_pct

  pub required_depth_usdt : RiskSettings W → W
  required_depth_usdt settings =
      max_of settings.min_top_of_book_depth_usdt
        (settings.signal_validation_notional_usdt ⊗ settings.orderbook_depth_safety_multiple)

  -- `self.adapters.get(exchange.lower())`, asked for the book of one leg.
  pub fetch_leg :
      Dict String (OrderBookAdapter W)
      → ℕ
      → String
      → String
      → MarketType
      → Option String
      → Option (Fetched W)
  fetch_leg adapters limit exchange symbol market_type raw_symbol =
      elim (Dict.get (lower exchange) adapters) [
        | none ↦ none
        | some adapter ↦ some (adapter symbol market_type (text_or raw_symbol symbol) limit)
      ]
