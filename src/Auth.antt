-- ===== src/Auth.antt =====
-- The login of the dashboard: core/totp.py, db/auth.py, core/security.py and api/routes_auth.py.
pub mod Totp
pub mod Store
pub mod Access
