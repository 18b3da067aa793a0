-- ===== src/Guardian.antt =====
-- backend/src/guardian/risk-analysis.service.ts with backend/src/common/adversarial-patterns.constants.ts:
-- the semantic analysis of a justification, and the Guardian's decision on an action.
pub mod Normalize
pub mod Tokens
pub mod Semantic
pub mod Decide
pub mod Decisions
pub mod Words
pub mod Search
pub mod Leetspeak
