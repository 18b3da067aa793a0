-- ===== src/Tests.antt =====
-- Concrete runs: at each one a theorem of the library is applied, its hypotheses computed.
mod Data
mod Treasury
mod Guardian
mod Payments
mod Requests
mod Guard
mod World
mod Accounts
mod Shop
mod Setup
mod Selfie
mod Mandates
mod Eip712
mod Scripts
