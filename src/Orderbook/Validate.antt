-- ===== src/Orderbook/Validate.antt =====
-- OrderBookDepthValidator.validate of orderbook_validator.py on what the two legs answer.
pub mod Passes
use taoli.Base.{
  ℕ, String, Bool, true, false, not, ◌&&◌, ◌||◌, Option, none, some, List, [], ◌∷◌, ◌++◌,
  if◌then◌else◌, map, is_empty, keep_if, or_else, get_or, string_eq, is_some, ◌==◌,
}
use taoli.Base.Dict
use taoli.Base.Dict.{Dict}
use taoli.Base.Text.{lower}
use taoli.Base.Number.{
  Float, ◌⊕◌, ◌⊖◌, ◌⊗◌, ◌⊘◌, ◌<?◌, ◌≤?◌, nought, of_nat, min_of, max_of, sum_from,
}
use taoli.Edge.{funding_edge_pct}
use taoli.Models.Market.{
  Opportunity, OrderBookLevel, OrderBookSnapshot, DepthValidationResult, MarketType,
}
use taoli.Models.Settings.{RiskSettings}
use taoli.Risk.{append_if}
use taoli.Orderbook.{
  BookSide, ask, bid, FillResult, Fetched, answered, request_raised, OrderBookAdapter, Leg, buy_leg,
  sell_leg, Blocker, adapter_missing, request_failed, book_missing, depth_short, fill_short,
  edge_low, block_if, book_epsilon, fill_quote_notional, cost_pct, required_depth_usdt, fetch_leg,
}

module _ {W : Type 0} ⦃f : Float W⦄ where
  -- The blockers of a leg without an adapter, of one whose request failed, and of one without a book.
  pub adapter_blockers : Leg → Option (Fetched W) → List (Blocker W)
  adapter_blockers leg none = adapter_missing leg ∷ []
  adapter_blockers leg (some fetched) = []

  pub request_blockers : Leg → Option (Fetched W) → List (Blocker W)
  request_blockers leg (some (request_raised message)) = request_failed leg message ∷ []
  request_blockers leg _ = []

  pub book_blockers : Leg → Option (Fetched W) → List (Blocker W)
  book_blockers leg (some (answered none)) = book_missing leg ∷ []
  book_blockers leg _ = []

  -- `_result`.
  pub failed_result : Opportunity W → W → W → W → List String → DepthValidationResult W
  failed_result o target required_depth band_pct blockers = record {
    passed = false;
    target_notional_usdt = target;
    required_depth_usdt = some required_depth;
    price_band_pct = some band_pct;
    buy_depth_usdt = none;
    sell_depth_usdt = none;
    min_depth_usdt = none;
    buy_filled_usdt = nought;
    sell_filled_usdt = nought;
    buy_vwap = none;
    sell_vwap = none;
    quoted_open_pct = o.open_spread_pct;
    executable_open_pct = none;
    cost_pct = none;
    funding_edge_pct = none;
    slippage_buffer_pct = none;
    effective_executable_edge_pct = none;
    slippage_loss_pct = none;
    blockers = blockers;
    warnings = [];
  }

  -- The open spread between the two average prices.
  pub executable_open_pct : FillResult W → FillResult W → Option W
  executable_open_pct buy_fill sell_fill = elim buy_fill.vwap [
    | none ↦ none
    | some buy ↦ elim sell_fill.vwap [
      | none ↦ none
      | some sell ↦ some ((sell ⊖ buy) ⊘ buy ⊗ of_nat 100)
    ]
  ]

  pub effective_edge : Opportunity W → RiskSettings W → W → W
  unfolding cost_pct
  effective_edge o settings executable_open =
      executable_open ⊖ cost_pct o ⊕ funding_edge_pct o ⊖ settings.signal_slippage_buffer_pct

  -- The blockers of two fills: too little depth, too little filled, too small an edge.
  pub fill_blockers :
      Opportunity W → RiskSettings W → FillResult W → FillResult W → List (Blocker W)
  unfolding required_depth_usdt executable_open_pct effective_edge
  fill_blockers o settings buy_fill sell_fill =
      let target = settings.signal_validation_notional_usdt in
      let required = required_depth_usdt settings in
      let short_of : FillResult W → Bool =
        λ fill. nought <? required && fill.depth_usdt ⊕ book_epsilon <? required in
      let b₁ = block_if (short_of buy_fill) (depth_short buy_leg buy_fill.depth_usdt required) [] in
      let b₂ =
        block_if (short_of sell_fill) (depth_short sell_leg sell_fill.depth_usdt required) b₁ in
      let b₃ =
        block_if (buy_fill.filled_usdt ⊕ book_epsilon <? target)
          (fill_short buy_leg buy_fill.filled_usdt target) b₂ in
      let b₄ =
        block_if (sell_fill.filled_usdt ⊕ book_epsilon <? target)
          (fill_short sell_leg sell_fill.filled_usdt target) b₃ in
      elim (executable_open_pct buy_fill sell_fill) [
        | none ↦ b₄
        | some spread ↦
            let edge = effective_edge o settings spread in
            block_if (edge ⊕ book_epsilon <? settings.min_effective_open_pct)
              (edge_low edge settings.min_effective_open_pct) b₄
      ]

  pub book_of : Option (Fetched W) → Option (OrderBookSnapshot W)
  book_of (some (answered book)) = book
  book_of _ = none

  module _ (render : Blocker W → String) where
    -- The end of `validate`, once both books are there.
    pub filled_result :
        Opportunity W → RiskSettings W → FillResult W → FillResult W → DepthValidationResult W
    unfolding fill_blockers executable_open_pct effective_edge
    filled_result o settings buy_fill sell_fill =
        let blockers = fill_blockers o settings buy_fill sell_fill in
        let spread = executable_open_pct buy_fill sell_fill in
        let if_open : (W → W) → Option W =
          λ value. elim spread [ none ↦ none | some spread ↦ some (value spread) ] in
        record {
          passed = is_empty blockers;
          target_notional_usdt = settings.signal_validation_notional_usdt;
          required_depth_usdt = some (required_depth_usdt settings);
          price_band_pct = some settings.orderbook_depth_band_pct;
          buy_depth_usdt = some buy_fill.depth_usdt;
          sell_depth_usdt = some sell_fill.depth_usdt;
          min_depth_usdt = some (min_of buy_fill.depth_usdt sell_fill.depth_usdt);
          buy_filled_usdt = buy_fill.filled_usdt;
          sell_filled_usdt = sell_fill.filled_usdt;
          buy_vwap = buy_fill.vwap;
          sell_vwap = sell_fill.vwap;
          quoted_open_pct = o.open_spread_pct;
          executable_open_pct = spread;
          cost_pct = if_open (λ spread. cost_pct o);
          funding_edge_pct = if_open (λ spread. funding_edge_pct o);
          slippage_buffer_pct = if_open (λ spread. settings.signal_slippage_buffer_pct);
          effective_executable_edge_pct = if_open (effective_edge o settings);
          slippage_loss_pct = if_open (λ spread. o.open_spread_pct ⊖ spread);
          blockers = map render blockers;
          warnings = [];
        }

    -- `validate` on what the two legs answer.
    pub validate_books :
        Opportunity W
        → RiskSettings W
        → Option (Fetched W)
        → Option (Fetched W)
        → DepthValidationResult W
    unfolding filled_result failed_result adapter_blockers request_blockers book_blockers book_of
    validate_books o settings buy sell =
        let target = settings.signal_validation_notional_usdt in
        let required = required_depth_usdt settings in
        let band = settings.orderbook_depth_band_pct in
        let fail : List (Blocker W) → DepthValidationResult W =
          λ blockers. failed_result o target required band (map render blockers) in
        let missing = adapter_blockers buy_leg buy ++ adapter_blockers sell_leg sell in
        let failing = request_blockers buy_leg buy ++ request_blockers sell_leg sell in
        let empty = book_blockers buy_leg buy ++ book_blockers sell_leg sell in
        if not (is_empty missing)
        then fail missing
        else if not (is_empty failing)
        then fail failing
        else elim (book_of buy) [
          | none ↦ fail empty
          | some buy_book ↦ elim (book_of sell) [
            | none ↦ fail empty
            | some sell_book ↦
                filled_result o settings (fill_quote_notional buy_book.asks target ask band)
                  (fill_quote_notional sell_book.bids target bid band)
          ]
        ]

    pub validate :
        Dict String (OrderBookAdapter W)
        → ℕ
        → Opportunity W
        → RiskSettings W
        → DepthValidationResult W
    unfolding validate_books fetch_leg
    validate adapters limit o settings =
        validate_books o settings
          (fetch_leg adapters limit o.buy_exchange o.symbol o.buy_market_type o.buy_raw_symbol)
          (fetch_leg adapters limit o.sell_exchange o.symbol o.sell_market_type o.sell_raw_symbol)
