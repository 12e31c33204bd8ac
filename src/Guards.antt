-- ===== src/Guards.antt =====
-- The guards of the routes: backend/src/auth.
pub mod ApiKey
pub mod RateLimit
