-- ===== src/Orderbook/Validate/Passes.antt =====
-- What it takes to pass the validation of the order books (orderbook_validator.py).
use taoli.Base.{
  ℕ, String, Bool, true, false, not, ◌&&◌, Option, none, some, List, [], ◌∷◌, map, is_empty,
  string_eq, ◌≡◌, refl, sym, arith, Option-cases, inl, inr,
}
use taoli.Base.Dict.{Dict}
use taoli.Base.Number.{Float, ◌⊕◌, ◌<?◌, nought}
use taoli.Models.Market.{Opportunity, OrderBookSnapshot}
use taoli.Models.Settings.{RiskSettings}
use taoli.Orderbook.{
  ask, bid, FillResult, Fetched, answered, OrderBookAdapter, Blocker, book_epsilon,
  fill_quote_notional, required_depth_usdt, fetch_leg, block_if,
}
use taoli.Orderbook.Validate.{
  adapter_blockers, request_blockers, book_blockers, failed_result, executable_open_pct,
  effective_edge, fill_blockers, filled_result, book_of, validate_books, validate,
}

is_empty-block_if :
    {W : Type 0} (test : Bool) (blocker : Blocker W) (blockers : List (Blocker W))
    → is_empty (block_if test blocker blockers) ≡ is_empty blockers && not test
is_empty-block_if test blocker [] = ground arith
is_empty-block_if test blocker (b ∷ bs) = ground arith

is_empty-map : {A B : Type 0} (g : A → B) (xs : List A) → is_empty (map g xs) ≡ is_empty xs
is_empty-map g [] = refl
is_empty-map g (x ∷ xs) = refl

four :
    (a b c d : Bool)
    → (not a && not b && not c && not d) ≡ (not a && not c) && (not b && not d) && true
four a b c d = ground arith

five :
    (a b c d e : Bool)
    → (not a && not b && not c && not d && not e) ≡ (not a && not c) && (not b && not d) && not e
five a b c d e = ground arith

module _ {W : Type 0} ⦃f : Float W⦄ (o : Opportunity W) (settings : RiskSettings W) where
  -- A fill has the required depth and the whole notional.
  pub is_ample : FillResult W → Bool
  is_ample fill =
      not (
        nought <? required_depth_usdt settings
        && fill.depth_usdt ⊕ book_epsilon <? required_depth_usdt settings)
      && not (fill.filled_usdt ⊕ book_epsilon <? settings.signal_validation_notional_usdt)

  -- The edge that is left at the average prices, if there are any, reaches the minimum.
  pub is_profitable : FillResult W → FillResult W → Bool
  is_profitable buy_fill sell_fill = elim (executable_open_pct buy_fill sell_fill) [
    | none ↦ true
    | some spread ↦
        not (effective_edge o settings spread ⊕ book_epsilon <? settings.min_effective_open_pct)
  ]

  fill_blockers-is_empty :
      (buy_fill sell_fill : FillResult W)
      → is_empty (fill_blockers o settings buy_fill sell_fill)
        ≡ is_ample buy_fill && is_ample sell_fill && is_profitable buy_fill sell_fill
  unfolding fill_blockers is_ample is_profitable
  fill_blockers-is_empty buy_fill sell_fill =
      elim (Option-cases (executable_open_pct buy_fill sell_fill)) [
        | inl no_price ↦
            rw (fill_blockers, is_profitable, no_price) (simp is_empty-block_if (four _ _ _ _))
        | inr (spread, priced) ↦
            rw (fill_blockers, is_profitable, priced) (simp is_empty-block_if (five _ _ _ _ _))
      ]

  pub fill_buy : OrderBookSnapshot W → FillResult W
  fill_buy book =
      fill_quote_notional book.asks settings.signal_validation_notional_usdt ask
        settings.orderbook_depth_band_pct

  pub fill_sell : OrderBookSnapshot W → FillResult W
  fill_sell book =
      fill_quote_notional book.bids settings.signal_validation_notional_usdt bid
        settings.orderbook_depth_band_pct

  pub both_pass : Option (OrderBookSnapshot W) → Option (OrderBookSnapshot W) → Bool
  both_pass none sell = false
  both_pass (some b) none = false
  both_pass (some b) (some s) =
      is_ample (fill_buy b) && is_ample (fill_sell s) && is_profitable (fill_buy b) (fill_sell s)

module _ {W : Type 0} ⦃f : Float W⦄ (render : Blocker W → String) (o : Opportunity W)
    (settings : RiskSettings W) where
  filled-passes :
      (buy_fill sell_fill : FillResult W)
      → let result = filled_result render o settings buy_fill sell_fill in
        (result.passed
          ≡ is_ample o settings buy_fill
            && is_ample o settings sell_fill
            && is_profitable o settings buy_fill sell_fill)
        × (result.passed ≡ is_empty result.blockers)
  unfolding filled_result
  filled-passes buy_fill sell_fill = (
    fill_blockers-is_empty o settings buy_fill sell_fill,
    sym (is_empty-map render (fill_blockers o settings buy_fill sell_fill)),
  )

  books-passes :
      (buy sell : Option (Fetched W))
      → let result = validate_books render o settings buy sell in
        (result.passed ≡ both_pass o settings (book_of buy) (book_of sell))
        × (result.passed ≡ is_empty result.blockers)
  unfolding validate_books both_pass book_of adapter_blockers request_blockers book_blockers
      failed_result fill_buy fill_sell
  books-passes (some (answered (some b))) (some (answered (some s))) =
      filled-passes (fill_buy o settings b) (fill_sell o settings s)
  books-passes buy sell = ground arith

  -- An opportunity passes exactly if both exchanges have an adapter that answers with a book, both
  -- sides fill the notional with the required depth inside the band, and the edge at their average
  -- prices reaches the minimum, where both sides have an average price; without one the edge is not
  -- tested. It passes exactly if no blocker is reported.
  pub validate_passes :
      (adapters : Dict String (OrderBookAdapter W)) (limit : ℕ)
      → let result = validate render adapters limit o settings in
        let buy =
          fetch_leg adapters limit o.buy_exchange o.symbol o.buy_market_type o.buy_raw_symbol in
        let sell =
          fetch_leg adapters limit o.sell_exchange o.symbol o.sell_market_type o.sell_raw_symbol in
        (result.passed ≡ both_pass o settings (book_of buy) (book_of sell))
        × (result.passed ≡ is_empty result.blockers)
  unfolding validate
  validate_passes adapters limit = books-passes _ _
