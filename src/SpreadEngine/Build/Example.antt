-- ===== src/SpreadEngine/Build/Example.antt =====
-- A spot market and two futures at noon (spread_engine.py).
use taoli.Base.{
  true, false, some, List, [], ◌∷◌, map, ◌≡◌, arith, ◌+◌, ◌*◌, ◌++◌, All, IsDistinct, string_eq,
  pair_eq,
}
use taoli.Base.Number.{ℤ, fixed_float, of_nat, ◌<?◌, ◌≤?◌, ◌==?◌, nought}
use taoli.Models.Identity.{second}
use taoli.Models.Market.{MarketSnapshot, future, sf, ff, ss}
use taoli.Examples.Data.{at_noon, bitcoin_market}
use mathlib.Core.List.{Perm}
use taoli.SpreadEngine.{Outside, market_identity}
use taoli.SpreadEngine.Build.{
  choose, pairs_of, pair_key, build_all_opportunities, group_tradable_markets,
  build_grouped_opportunities, texts_eq,
}
use taoli.SpreadEngine.Build.Pairs.{types_fit}
use taoli.SpreadEngine.Build.Sound.{build_all_opportunities-IsFitting}
use taoli.SpreadEngine.Build.Unique.{choose-IsDistinct}
use taoli.SpreadEngine.Build.Order.{IsDescending, build_all_opportunities-IsDescending}

abbrev spot_leg : MarketSnapshot ℤ
spot_leg = record bitcoin_market {
  asset_id = some "bitcoin";
  binding_valid_until = some (at_noon + 3600 * second);
  quote_kind = "book";
  upstream_timestamp = some at_noon;
  identity_enforced = true;
}

abbrev future_leg : MarketSnapshot ℤ
future_leg = record spot_leg {
  exchange = "okx";
  market_type = future;
  bid = of_nat 101;
  ask = of_nat 102;
}

abbrev other_future : MarketSnapshot ℤ
other_future = record future_leg { exchange = "bybit"; bid = of_nat 105; ask = of_nat 106 }

abbrev markets : List (MarketSnapshot ℤ)
markets = spot_leg ∷ future_leg ∷ other_future ∷ []

abbrev outside : Outside ℤ
outside = record {
  is_market_open = λ snapshot current. true;
  number_text = λ w. "1";
  digest = λ text. text;
  same_model = λ a b. a.bid ==? b.bid;
  is_finite = λ w. true;
  fingerprint = λ a b. "";
  clock = at_noon;
}

ℤ-asymmetric : (a b : ℤ) → (a <? b) ≡ true → (b <? a) ≡ false
ℤ-asymmetric a b h = ground arith

build_all_opportunities-IsFitting_example :
    All
      (λ o.
        (types_fit o.type o.buy_market_type o.sell_market_type ≡ true)
        × ((o.open_spread_pct ≤? nought) ≡ false))
      (build_all_opportunities outside markets nought nought nought at_noon (some 60))
build_all_opportunities-IsFitting_example =
    build_all_opportunities-IsFitting outside markets nought nought nought at_noon (some 60)

choose-IsDistinct_example : IsDistinct (
    map
      (λ c. pair_key (market_identity outside c.buy_leg) (market_identity outside c.sell_leg))
      (choose outside ff (pairs_of ff markets) []))
choose-IsDistinct_example = choose-IsDistinct outside ff markets

build_all_opportunities-IsDescending_example :
    let groups = group_tradable_markets outside markets at_noon (some 60) [] in
    let result = build_all_opportunities outside markets nought nought nought at_noon (some 60) in
    IsDescending result
    × Perm result (
        build_grouped_opportunities outside groups sf nought nought nought
        ++ build_grouped_opportunities outside groups ff nought nought nought
        ++ build_grouped_opportunities outside groups ss nought nought nought)
build_all_opportunities-IsDescending_example =
    build_all_opportunities-IsDescending outside ℤ-asymmetric markets nought nought nought at_noon
      (some 60)
