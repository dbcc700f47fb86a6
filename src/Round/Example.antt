-- ===== src/Round/Example.antt =====
-- A round over a spot market of one exchange and a future of another.
use taoli.Base.{
  ◌+◌, ◌*◌, ◌%◌, String, true, false, Option, none, some, [], ◌∷◌, ◌==◌, string_eq, if◌then◌else◌,
}
use taoli.Base.Number.{ℤ, fixed_float, of_nat, ◌==?◌, nought}
use taoli.Models.Identity.{second}
use taoli.Models.Market.{MarketSnapshot, future}
use taoli.Examples.Data.{at_noon, bitcoin_market, example_settings}
use taoli.SpreadEngine.{Outside}
use taoli.Snapshots.{empty_snapshot_store, empty_slot}
use taoli.Collector.{AdapterPollResult}
use taoli.Round.{Parts, Meeting, RoundState, collect_once}
use taoli.Round.Published.{IsRoundFrom, collect_once-IsRoundFrom}

abbrev spot_market : MarketSnapshot ℤ
spot_market = record bitcoin_market {
  asset_id = some "bitcoin";
  binding_valid_until = some (at_noon + 3600 * second);
  quote_kind = "book";
  upstream_timestamp = some at_noon;
}

abbrev future_market : MarketSnapshot ℤ
future_market = record spot_market {
  exchange = "okx";
  market_type = future;
  bid = of_nat 101;
  ask = of_nat 102;
}

abbrev answer : String → Option (AdapterPollResult (MarketSnapshot ℤ)) × String
answer name = (
  some (record {
    markets = (if name == "okx" then future_market ∷ [] else spot_market ∷ []);
    errors = [];
    should_cool_down = false;
    cooldown_seconds = none;
  }),
  "",
)

abbrev outside : Outside ℤ
outside = record {
  is_market_open = λ snapshot current. true;
  number_text = λ w. "1";
  digest = λ text. text;
  same_model = λ a b. a.bid ==? b.bid;
  is_finite = λ w. true;
  fingerprint = λ a b. "";
  clock = at_noon;
}

abbrev parts : Parts ℤ
parts = record {
  adapters = "binance" ∷ "okx" ∷ [];
  fee_settings = record {
    spot_fee_pct = nought;
    future_fee_pct = nought;
    safety_slippage_pct = nought;
  };
  poll_interval = 5 * second;
  max_due_adapters_per_cycle = 6;
  market_validation = none;
  outside = outside;
  zone = record { local_date = λ at. 739947; local_time = λ at. at % (86400 * second) };
}

abbrev meeting : Meeting ℤ
meeting = record {
  loaded = some (some example_settings);
  now = at_noon;
  published_now = at_noon + second;
  answer = answer;
  mapping_changed = false;
  store_meanwhile = λ store. record store { exchange_errors = [] };
  slots_meanwhile = λ slots. slots;
}

abbrev first_round : RoundState ℤ
first_round = record {
  collector = record {
    poll_states = [];
    exchange_snapshots = [];
    exchange_errors = [];
    adapter_cursor = 0;
  };
  store = empty_snapshot_store;
  snapshot_slots = some (empty_slot ∷ []);
  risk_settings = example_settings;
  risk_settings_loaded = false;
  risk_settings_fallbacks = 0;
}

collect_once-IsRoundFrom_example :
    IsRoundFrom parts meeting first_round (collect_once parts meeting first_round)
collect_once-IsRoundFrom_example = collect_once-IsRoundFrom parts meeting first_round
