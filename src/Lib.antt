-- ===== src/Lib.antt =====
-- The arbitrage radar of backend/app: what its scheduling, its caches, its labels and its alerts do.
--
-- A collector polls exchange adapters, builds opportunities (a purchase on one market against a sale
-- on another) and publishes them; a snapshot store and mailboxes hand them to consumers; risk labels
-- hide unfit ones; the alert engine turns the rest into alerts by rules, which are delivered and
-- retried; an order book check precedes an order card; a phone engine watches single prices; series
-- caches bound the points kept for charts; a supervisor restarts the tasks that do all this.
--
-- Files and the code they model, below backend/app:
--   Models         models/market_identity.py, market.py, opportunity.py, orderbook.py, settings.py,
--                  alert.py, phone_alert.py, gate_twap.py: the records, field by field
--   Edge           services/funding_edge.py, alert_metrics.py: funding edge, open edge
--   PairValidation services/pair_validation.py: validate_pair, same_asset_eligible
--   SpreadEngine   services/spread_engine.py and the times of quote_age.py: an opportunity of two
--                  quotes; Build: build_opportunities, build_all_opportunities
--   Risk           services/risk_labels.py: risk_labels_for, has_non_actionable_risk
--   Alerts         services/alert_engine.py: Match (when a rule applies), Engine (AlertEngine.evaluate
--                  and the limits), Delivery (record_delivery_result, restore, export_state)
--   PhoneAlerts    services/phone_price_alerts.py
--   Orderbook      services/orderbook_validator.py
--   Collector      services/collector.py: due exchanges, results of polls, cooldowns
--   Round          services/collector.py: _collect_once, a round from the settings to the publication
--   Aliases        services/symbol_aliases.py: the compared symbol of a market
--   Filters        services/data_filters.py
--   Sessions       services/market_sessions.py: the trading days of the stock exchange
--   Snapshots      services/snapshot_store.py, snapshot_consumers.py
--   SeriesCache    services/realtime_series_cache.py: RealtimeSeriesBudget and RealtimeSeriesCache
--   Supervisor     runtime/supervisor.py: TaskSupervisor
--   Base           what all share: Dict (Python's dict in insertion order), Number (floats), Text
--   FundingHistory services/funding_history_pagination.py: collect_funding_pages
--   Auth           Totp: core/totp.py; Store: db/auth.py, AuthStore; Access: core/security.py and the
--                  route POST /login of api/routes_auth.py
--   GateTwap       services/gate_twap.py: Size (build_plan), Payload (rules_from_contract), Job
--                  (GateTwapJobManager._run from wait to wait), Manager (preview, start, cancel,
--                  aclose)
--   Examples       tests
--
-- A function of the models has the name of the code's function, without its leading underscore. State
-- is a record that an operation returns anew; a `KeyError` or `ValueError` is `none`. A `datetime` is a
-- count of microseconds, its resolution, and `now` is always an argument. A `float` is an abstract type
-- with the operations of `Float`: it stands for every arithmetic, rounding included; the tests
-- run on integers that count millionths. A number that its model keeps at least 0 is a natural number.
--
-- The loops over lists are recursion on the list. The two `while` loops of the series budget run on
-- fuel, the number of series and of entries: each turn removes one, and running out of fuel counts
-- as an error. The loop over pages counts the pages that are left, of 100. The coroutine of a
-- supervised task, the handler of a consumer, the answers of an exchange, the zone of New York, the
-- calendar of the spread engine, the service of the market validation, SHA-1, the fingerprint of a
-- pair and the formatted text of a number or a blocker are parameters or events, and so are Base32,
-- HMAC-SHA-1, SHA-256, the conversions between floats and decimals, and the formatted sizes of
-- orders. The tables of the authentication are lists, a statement is the change of a list, and a
-- transaction that is rolled back leaves them as they were. The points at which the generator of
-- the spread engine pauses are dropped.
--
-- Not modelled: requests to exchanges and other services, the database, the HTTP interface, the texts
-- of messages, the percentiles of measurements, and the records that a round leaves besides what it
-- publishes. Upper and lower case are those of ASCII letters.
pub mod Base
pub mod SeriesCache
pub mod Models
pub mod Edge
pub mod Risk
pub mod Alerts
pub mod Supervisor
pub mod Collector
pub mod Snapshots
pub mod Orderbook
pub mod PhoneAlerts
pub mod PairValidation
pub mod SpreadEngine
pub mod FundingHistory
pub mod Auth
pub mod Sessions
pub mod Filters
pub mod Aliases
pub mod Round
pub mod GateTwap
pub mod Examples
