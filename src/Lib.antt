-- ===== src/Lib.antt =====
-- Chapter 2: the Guardian backend, which lets agents spend from a treasury within a mandate.
--
-- The parts and their files. Paths of the program are from the root of the repository.
--   Domain: the entities of backend/src/domain.
--   ActionStore: ActionStoreService (backend/src/actions/action-store.service.ts) over its table, with
--     createAction, getAction, listActions, updateStatus, clear and the start from the table. A Map
--     is an association list in insertion order (Common.Dict). Mirror, Reached, Restart and Loaded
--     are about the map and the table.
--   Policy: PolicyEngineService (backend/src/policies/policy-engine.service.ts): the mandate, the
--     deterministic rules, the total of each day. Ledger, Reload and Rules hold the
--     theorems.
--   Reservations: BalanceReservationService (backend/src/reservations/balance-reservation.service.ts).
--     Budget, Commit and Steps hold the theorems.
--   Guardian: RiskAnalysisService (backend/src/guardian/risk-analysis.service.ts): Normalize, Tokens,
--     Semantic and Decide follow normalizeText, containsTokenFromCluster,
--     performMultiLayerSemanticAnalysis and evaluateAction; Words, Search, Decisions and Leetspeak
--     hold theorems.
--   Actions: proposeAction, approveAction and rejectAction of
--     backend/src/actions/actions.controller.ts, which compose the four services above.
--   Agents: AgentsService (backend/src/agents/agents.service.ts): bindAgent, the lookups and the
--     checks of the owner. Lookup and Ownership are about the checks; Owners, Keyed, Written and Bind
--     about the bindings.
--   Eip712: Eip712Service (backend/src/crypto/eip712.service.ts); Payload is about its round trip.
--   Mandates: getActiveMandate, deployAgent and updateCaps of
--     backend/src/policies/mandates.controller.ts; Takeover is about who can change the limits.
--   Auth: login of backend/src/auth/auth.controller.ts with verifyAuthToken, syncUser, getUser and
--     deleteUserAccount of backend/src/auth/privy-auth.service.ts.
--   World: WorldIdApproverService (backend/src/world/world-id-approver.service.ts). Bindings is the
--     table human_bindings with assertLedgerApproverVerifiedForApproval, Sessions one session with its
--     polling loop, Approver the calls, Steps the calls and callbacks in any order; Fresh, Machine,
--     Unique, Nullifiers and Bound hold theorems. Configuration is loadWorldIdConfig of
--     backend/src/world/world-id.config.ts. Selfie is WorldSelfieService
--     (backend/src/world/world-selfie.service.ts), its bindings in Selfie.Registry, with the checks
--     of backend/src/world/world.controller.ts; Selfie.Shared is about the table that both share.
--   X402.Guard: canActivate of backend/src/x402/guards/agent-signature.guard.ts, with the map of used
--     signatures as its state. Signed and Replay hold the theorems.
--   X402.Spending, X402.Payments, X402.Transfers, X402.Escalation, X402.Justification: the payments
--     of backend/src/x402 (x402-spending-policy.service.ts, x402-payments.service.ts), the check of a
--     transfer of backend/src/blockchain/on-chain-executor.service.ts. An approval calls the check of
--     the human in World.Bindings.
--   X402.Configuration: loadX402Config of backend/src/x402/x402.config.ts; Partner is about the
--     spending policy under what it loads.
--   X402.Requests: backend/src/x402/x402-purchase-requests.service.ts, with claim, reportProgress and
--     reportResult; Create has createRequest, listForUser and getForUser, and Queue is about the
--     claims that empty the queue.
--   Vendor: accounts, bills and the redemption of payments of backend/src/vendor/vendor.service.ts.
--   Scripts: payX402Resource of scripts/lib/x402-payment-flow.ts, with the calls that it makes in
--     order; Paid is about what a run signs.
--   Common: helpers; Common.Text holds the string methods, Common.BigInt the bigint conversions.
--   Tests: concrete runs.
--
-- How the code corresponds. A service is a record of its fields with the tables that it alone
-- writes; a method is a function to its result and the new state, and an exception is a value of
-- HttpError after which the writes made so far stay. A table is the in-memory one of
-- backend/src/database/database.service.ts. The time is an argument, in seconds or milliseconds as
-- in the source; a generated id is an argument too. Strings are lists of UTF-16 code units,
-- toLowerCase changes only the characters whose lower case holds an ASCII letter, a bigint is an
-- integer without bound. Messages of exceptions are left out; the reasons of a decision are
-- constructors. Requests run to their end one after the other: the lock that orders the claims of
-- an agent makes each claim one step, while the guard of agents' requests has no such lock. Where
-- the code awaits something, a redemption is in two steps, its beginning and its end (Vendor), and
-- a poll in three: it fires, is answered by the bridge, and is answered by the portal
-- (World.Sessions), with other calls between them. A session is in one of these phases, so no
-- second poll of it fires meanwhile. The other methods that await an answer, such as the approval
-- of an action, a settlement and the guard, are one step, with the answer as an argument. No
-- function runs on fuel: each loop is a structural recursion on the list that it walks, so each
-- method returns.
--
-- Parameters: the checksummed form of an address and the recovery of a signer (ethers), the hash
-- of the mandate with the EIP-712 check and the human signer of the guard contract
-- (Actions.Chain), the functions of ethers on typed data (Eip712.TypedDataLibrary), whose coder
-- gives bytes back in lower case, the receipts of the chain, the digest of a request's body, the
-- client of Privy (Auth.Privy), the answers of the bridge, the portal and the endpoint of World ID
-- and hashSignal of idkit, the catalog of the vendor, what the script's calls of the network and
-- of the x402 SDK return (Scripts.Services), the test whether a text is a URL, and the
-- floating-point step of the risk score, with its values on the quotients up to the limit
-- (Guardian.Decide.FloatPoints).
--
-- Not modelled: timestamps of the guard that are not whole numbers; network, PostgreSQL and
-- sockets; the guards of the routes of users; the vendor's search and invocation of services; the
-- Ledger prompts, the loop of the agent's script, the approval console; the parts in Dart and
-- Solidity.
pub mod Common
pub mod Domain
pub mod ActionStore
pub mod Policy
pub mod Reservations
pub mod Guardian
pub mod Actions
pub mod Agents
pub mod Eip712
pub mod Mandates
pub mod Auth
pub mod World
pub mod X402
pub mod Vendor
pub mod Scripts
pub mod Tests
