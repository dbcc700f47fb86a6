-- ===== src/Alerts.antt =====
-- backend/app/services/alert_engine.py: which opportunities raise an alert, and when.
pub mod Match
pub mod Engine
pub mod Delivery
