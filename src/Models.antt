-- ===== src/Models.antt =====
-- backend/app/models: the records that the services exchange.
pub mod Identity
pub mod Market
pub mod Settings
pub mod Alert
pub mod GateTwap
