-- ===== src/Browser.antt =====
-- What the pages of frontend/src do with amounts and transactions: printing, signing, and the flow of
-- a payment.
pub mod Print
pub mod Format
pub mod Sign
pub mod Send
pub mod Access
pub mod Api
pub mod Activity
pub mod Address
pub mod Request
pub mod Account
pub mod Theme
pub mod Dates
