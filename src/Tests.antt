-- ===== src/Tests.antt =====
-- Runs of the models on concrete data, at which the theorems are applied.
mod Samples
mod OfStellar
mod OfPayments
mod OfMomo
mod OfGuards
mod OfRoutes
mod OfWallet
mod OfAccess
mod OfBrowser
mod OfBuilding
mod OfSending
mod OfLate
mod OfTables
mod OfPages
mod OfShell
