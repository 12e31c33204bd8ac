-- ===== src/Stellar.antt =====
-- The Stellar side of the backend (backend/src/stellar).
pub mod Amount
pub mod Sdk
pub mod Validation
pub mod Service
pub mod Accounts
pub mod Soroban
pub mod Build
pub mod Routes
