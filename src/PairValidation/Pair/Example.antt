-- ===== src/PairValidation/Pair/Example.antt =====
-- A verified pair of two exchanges (pair_validation.py).
use taoli.Base.{String, Bool, true, false, some, ◌≡◌, refl, ◌*◌, ◌+◌, string_eq}
use taoli.Base.Text.{lower, char_count}
use taoli.Base.Number.{ℤ, fixed_float, of_nat}
use taoli.Models.Identity.{same_asset, second}
use taoli.Models.Market.{MarketSnapshot, future}
use taoli.PairValidation.{
  market_key, strip, strip_left, strip_right, before_colon, exact_key, market_prefix,
  normalized_key, identity_verified, is_reference_only, is_stale, quote_currency, lacks_conversion,
  is_invalid_book,
}
use taoli.PairValidation.Pair.{
  valuations_differ, is_skewed, spread_of, same_asset_eligible, validate_pair,
}
use taoli.PairValidation.Pair.Fit.{is_fit, is_tradable}
use taoli.PairValidation.Pair.SameAsset.{validate_pair-is_tradable, tradable-eligible}
use taoli.Examples.Data.{at_noon, bitcoin_market}

abbrev spot_leg : MarketSnapshot ℤ
spot_leg = record bitcoin_market {
  asset_id = some "bitcoin";
  binding_valid_until = some (at_noon + 3600 * second);
  quote_kind = "book";
  upstream_timestamp = some at_noon;
  identity_enforced = true;
}

abbrev future_leg : MarketSnapshot ℤ
future_leg = record spot_leg {
  exchange = "okx";
  market_type = future;
  bid = of_nat 101;
  ask = of_nat 102;
}

abbrev all_finite : ℤ → Bool
all_finite w = true

abbrev no_fingerprint : MarketSnapshot ℤ → MarketSnapshot ℤ → String
no_fingerprint a b = ""

validate_pair-is_tradable_example :
    let capabilities =
      (validate_pair all_finite no_fingerprint spot_leg future_leg at_noon same_asset 30 10
        (of_nat 10)
        false).capabilities in
    (capabilities.same_asset_opportunity
      ≡ is_tradable all_finite spot_leg future_leg at_noon same_asset 30 10 (of_nat 10) false)
    × (capabilities.strategy_alert ≡ capabilities.same_asset_opportunity)
    × (capabilities.automatic_card ≡ capabilities.same_asset_opportunity)
validate_pair-is_tradable_example =
    validate_pair-is_tradable all_finite no_fingerprint spot_leg future_leg at_noon same_asset 30 10
      (of_nat 10) false

legs_are_tradable :
    is_tradable all_finite spot_leg future_leg at_noon same_asset 30 10 (of_nat 10) false ≡ true
unfolding is_tradable is_fit market_key strip strip_left strip_right before_colon exact_key
    market_prefix normalized_key char_count identity_verified is_reference_only is_stale
    quote_currency lacks_conversion is_invalid_book valuations_differ is_skewed spread_of lower
legs_are_tradable = refl

tradable-eligible_example : same_asset_eligible spot_leg future_leg ≡ true
tradable-eligible_example =
    tradable-eligible all_finite spot_leg future_leg at_noon same_asset 30 10 (of_nat 10) false
      legs_are_tradable
