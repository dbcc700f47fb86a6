-- ===== src/Examples/Markets.antt =====
-- The order books of one opportunity, and a price alert by phone.
use taoli.Base.{
  ℕ, ◌+◌, ◌*◌, ◌≤◌, String, true, some, List, [], ◌∷◌, ◌≡◌, All, keep_if, is_empty, string_eq, ◌==◌,
}
use taoli.Base.Dict.{Dict}
use taoli.Base.Number.{ℤ, fixed_float, of_nat}
use taoli.Models.Identity.{second}
use taoli.Models.Market.{OrderBookLevel, OrderBookSnapshot, spot}
use taoli.Models.Alert.{PhonePriceAlertRule, above, mid_price}
use taoli.Orderbook.{Blocker, OrderBookAdapter, answered, fetch_leg}
use taoli.Orderbook.Validate.{book_of, validate}
use taoli.Orderbook.Validate.Passes.{both_pass, validate_passes}
use taoli.PhoneAlerts.{evaluate}
use taoli.PhoneAlerts.Cooldown.{
  PhoneRound, evaluate_all, IsAlert, evaluate-IsAlert, evaluate-cooldown,
}
use taoli.Examples.Data.{at_noon, bitcoin_opportunity, bitcoin_market, example_settings}

abbrev level : ℕ → ℕ → OrderBookLevel ℤ
level price size = record { price = of_nat price; size = of_nat size }

abbrev book : OrderBookSnapshot ℤ
book = record {
  exchange = "binance";
  market_type = spot;
  symbol = "BTCUSDT";
  raw_symbol = "BTCUSDT";
  bids = level 102 50 ∷ [];
  asks = level 100 50 ∷ [];
  timestamp = at_noon;
  timestamp_source = "exchange";
}

abbrev adapter : OrderBookAdapter ℤ
adapter symbol market_type raw_symbol limit = answered (some book)

abbrev both_adapters : Dict String (OrderBookAdapter ℤ)
both_adapters = ("binance", adapter) ∷ ("okx", adapter) ∷ []

abbrev no_text : Blocker ℤ → String
no_text blocker = ""

validate_passes_example :
    let o = bitcoin_opportunity in
    let result = validate no_text both_adapters 20 o example_settings in
    let buy =
      fetch_leg both_adapters 20 o.buy_exchange o.symbol o.buy_market_type o.buy_raw_symbol in
    let sell =
      fetch_leg both_adapters 20 o.sell_exchange o.symbol o.sell_market_type o.sell_raw_symbol in
    (result.passed ≡ both_pass bitcoin_opportunity example_settings (book_of buy) (book_of sell))
    × (result.passed ≡ is_empty result.blockers)
validate_passes_example =
    validate_passes no_text bitcoin_opportunity example_settings both_adapters 20

abbrev phone_rule : PhonePriceAlertRule ℤ
phone_rule = record {
  id = "p1";
  name = "bitcoin";
  enabled = true;
  symbol = "BTCUSDT";
  exchange = some "binance";
  market_type = spot;
  price_field = mid_price;
  condition = above;
  target_price = of_nat 90;
  cooldown_seconds = 600;
}

evaluate-IsAlert_example :
    let (after, matches) = evaluate (bitcoin_market ∷ []) (phone_rule ∷ []) at_noon [] in
    All (IsAlert after at_noon) matches
evaluate-IsAlert_example = evaluate-IsAlert (bitcoin_market ∷ []) (phone_rule ∷ []) at_noon []

abbrev one_round : List (PhoneRound ℤ)
one_round = (bitcoin_market ∷ [], phone_rule ∷ [], at_noon + 300 * second) ∷ []

evaluate-cooldown_example :
    let (after, alerts) = evaluate (bitcoin_market ∷ []) (phone_rule ∷ []) at_noon [] in
    All
      (λ m.
        All
          (λ n. at_noon + n.rule.cooldown_seconds * second ≤ at_noon + 600 * second)
          (keep_if
            (λ n. n.rule.id == m.rule.id)
            (evaluate
              (bitcoin_market ∷ [])
              (phone_rule ∷ [])
              (at_noon + 600 * second)
              (evaluate_all one_round after)).1))
      alerts
evaluate-cooldown_example =
    evaluate-cooldown (bitcoin_market ∷ []) (phone_rule ∷ []) at_noon [] one_round
      (bitcoin_market ∷ []) (phone_rule ∷ []) (at_noon + 600 * second)
