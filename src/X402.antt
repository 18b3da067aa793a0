-- ===== src/X402.antt =====
-- backend/src/x402: payments of agents over HTTP 402.
pub mod Ethers
pub mod Guard
pub mod Requests
pub mod Spending
pub mod Configuration
pub mod Transfers
pub mod Justification
pub mod Escalation
pub mod Payments
