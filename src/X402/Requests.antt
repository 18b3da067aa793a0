-- ===== src/X402/Requests.antt =====
-- backend/src/x402/x402-purchase-requests.service.ts over the x402_purchase_requests table of
-- backend/src/database/database.service.ts.
pub mod Lifecycle
pub mod Claims
pub mod Reports
pub mod Create
pub mod Queue
use ethonline.Common.{
  ℕ, ◌+◌, Bool, true, false, not, ◌&&◌, ◌||◌, Option, none, some, List, [], ◌∷◌, ltb, leb, find,
  if◌then◌else◌,
}
use ethonline.Common.Text.{
  Text, codes, text_eq, starts_with, drop_prefix, to_lower, is_space, is_empty, truthy,
}
use ethonline.Common.Dict.{Dict, lookup, insert, values}
use ethonline.Common.Results.{HttpError, Result, ok, err}
use ethonline.Domain.{Decision, ActionStatus, same_status, TreasuryAction}
use ethonline.ActionStore.{Store, get_action}
use ethonline.X402.Ethers.{Ethers, is_same_address_or_text}

-- `PurchaseRequestStatus`
pub data PurchaseStatus : Type 0 where
  queued processing authorized paid blocked rejected expired failed : PurchaseStatus

-- `PurchaseRequestResultStatus`
pub data ResultStatus : Type 0 where
  paid blocked rejected expired failed : ResultStatus

-- `X402PurchaseRequestRow`; the JSON columns of the query parameters and the reasons are values.
pub record Row : Type 0 where
  pub id : Text
  pub user_id : Text
  pub agent_address : Text
  pub service_name : Text
  pub resource_url : Text
  pub query_params : Dict Text
  pub justification : Text
  pub amount : Text
  pub status : PurchaseStatus
  pub action_id : Option Text
  pub decision : Option Decision
  pub reasons : List Text
  pub transaction_hash : Option Text
  pub response : Option Text
  pub error : Option Text
  pub created_at : ℕ
  pub updated_at : ℕ

-- The table, and the store of actions that the service reads.
pub record Desk : Type 0 where
  pub requests : Dict Row
  pub store : Store

-- `ReportPurchaseRequestProgressDto`
pub record ProgressDto : Type 0 where
  pub action_id : Text
  pub decision : Decision
  pub reasons : List Text

-- `ReportPurchaseRequestResultDto`; the response is the text that `JSON.stringify` makes of it.
pub record ResultDto : Type 0 where
  pub status : ResultStatus
  pub action_id : Option Text
  pub decision : Option Decision
  pub reasons : Option (List Text)
  pub transaction_hash : Option Text
  pub response : Option Text
  pub error : Option Text

-- `PURCHASE_REQUEST_TERMINAL_STATUSES.includes(status)`
abbrev pub is_terminal : PurchaseStatus → Bool
is_terminal PurchaseStatus.queued = false
is_terminal PurchaseStatus.processing = false
is_terminal PurchaseStatus.authorized = false
is_terminal _ = true

abbrev pub is_queued : PurchaseStatus → Bool
is_queued PurchaseStatus.queued = true
is_queued _ = false

abbrev pub is_processing : PurchaseStatus → Bool
is_processing PurchaseStatus.processing = true
is_processing _ = false

abbrev pub is_authorized : PurchaseStatus → Bool
is_authorized PurchaseStatus.authorized = true
is_authorized _ = false

abbrev pub status_of : ResultStatus → PurchaseStatus
status_of ResultStatus.paid = PurchaseStatus.paid
status_of ResultStatus.blocked = PurchaseStatus.blocked
status_of ResultStatus.rejected = PurchaseStatus.rejected
status_of ResultStatus.expired = PurchaseStatus.expired
status_of ResultStatus.failed = PurchaseStatus.failed

-- `a ?? b`
abbrev pub or_else {ℓ} : {A : Type ℓ} → Option A → Option A → Option A
or_else none b = b
or_else (some a) b = some a

-- `SELECT * FROM x402_purchase_requests WHERE agent_address = ? ORDER BY created_at ASC`
unfoldable pub insert_by_age : Row → List Row → List Row
insert_by_age r [] = r ∷ []
insert_by_age r (q ∷ qs) =
    let rest = insert_by_age r qs in if leb r.created_at q.created_at then r ∷ q ∷ qs else q ∷ rest

unfoldable pub rows_of_agent : Text → List Row → List Row
unfolding insert_by_age
rows_of_agent agent [] = []
rows_of_agent agent (r ∷ rs) =
    let rest = rows_of_agent agent rs in
    if text_eq (to_lower r.agent_address) (to_lower agent) then insert_by_age r rest else rest

-- `claimOldestQueued`: the conditional update, and the row that is read back.
unfoldable pub claim_row : Text → ℕ → Dict Row → Option Row × Dict Row
claim_row id now d = elim (lookup id d) [
  | none ↦ (none, d)
  | some r ↦
      let claimed = record r { status = PurchaseStatus.processing; updated_at = now } in
      if is_queued r.status then (some claimed, insert id claimed d) else (none, d)
]

unfoldable pub claim_oldest_queued : Text → ℕ → Dict Row → Option Row × Dict Row
claim_oldest_queued agent now d =
    elim (find (λ r. is_queued r.status) (rows_of_agent agent (values d))) [
      | none ↦ (none, d)
      | some oldest ↦ claim_row oldest.id now d
    ]

-- The group of `/^x402: (\S+)/`.
unfoldable pub up_to_space : Text → Text
up_to_space [] = []
up_to_space (c ∷ s) = let rest = up_to_space s in if is_space c then [] else c ∷ rest

-- `actionAuthorizesResource`
unfoldable pub action_authorizes_resource : Text → Text → Bool
action_authorizes_resource justification resource_url =
    elim (drop_prefix (codes "x402: ") justification) [
      | none ↦ false
      | some rest ↦ not (is_empty (up_to_space rest)) && starts_with (up_to_space rest) resource_url
    ]

-- `Buffer.byteLength(s, 'utf8')` of a well-formed string: each half of a surrogate pair counts two.
unfoldable pub byte_length : Text → ℕ
byte_length [] = 0
byte_length (c ∷ s) =
    let rest = byte_length s in
    (if ltb c 128 then 1 else if ltb c 2048 then 2 else if leb 55296 c && leb c 57343 then 2 else 3)
    + rest

abbrev pub max_response_bytes : ℕ
max_response_bytes = 32768

-- `serializeResponse`
unfoldable pub serialize_response : Option Text → Result (Option Text)
serialize_response none = ok none
serialize_response (some s) =
    if ltb max_response_bytes (byte_length s) then err HttpError.bad_request else ok (some s)

module _ (ethers : Ethers) (agent : Text) where
  -- `claim`, one at a time
  unfoldable pub claim : ℕ → Desk → Result (Option Row) × Desk
  claim now s = elim (ethers.get_address agent) [
    | none ↦ (err HttpError.internal, s)
    | some address ↦
        let (claimed, requests) = claim_oldest_queued address now s.requests in
        (ok claimed, record s { requests = requests })
  ]

  abbrev pub authorizes : Row → Option TreasuryAction → Bool
  authorizes r none = false
  authorizes r (some a) =
      is_same_address_or_text ethers a.agent_address agent
      && action_authorizes_resource a.justification r.resource_url

  -- `reportProgress`
  unfoldable pub report_progress : Text → ProgressDto → ℕ → Desk → Result Row × Desk
  report_progress id dto now s = elim (lookup id s.requests) [
    | none ↦ (err HttpError.not_found, s)
    | some r ↦
        let (found, store) = get_action dto.action_id s.store in
        let updated = record r {
          status = PurchaseStatus.authorized;
          action_id = truthy (some dto.action_id);
          decision = some dto.decision;
          reasons = dto.reasons;
          updated_at = now;
        } in
        if is_same_address_or_text ethers r.agent_address agent
        then if is_processing r.status
          then if authorizes r found
            then (ok updated, record { requests = insert id updated s.requests; store = store })
            else (err HttpError.bad_request, record s { store = store })
          else (err HttpError.bad_request, s)
        else (err HttpError.forbidden, s)
  ]

  -- The conditions on the action of `assertPaidResultIsBackedByAnExecutedAction`.
  abbrev pub is_executed_by : Text → Option TreasuryAction → Bool
  is_executed_by hash none = false
  is_executed_by hash (some a) =
      is_same_address_or_text ethers a.agent_address agent
      && same_status a.status ActionStatus.executed
      && elim (truthy a.tx_hash) [ none ↦ false | some h ↦ text_eq (to_lower h) (to_lower hash) ]

  -- `assertPaidResultIsBackedByAnExecutedAction`
  unfoldable pub assert_paid : ResultDto → Store → Result (Unit {0}) × Store
  assert_paid dto store = elim (truthy dto.action_id) [
    | none ↦ (err HttpError.bad_request, store)
    | some action_id ↦ elim (truthy dto.transaction_hash) [
      | none ↦ (err HttpError.bad_request, store)
      | some hash ↦
          let (found, store') = get_action action_id store in
          (if is_executed_by hash found then ok tt else err HttpError.bad_request, store')
    ]
  ]

  -- The checks that depend on the reported status.
  unfoldable pub assert_result : ResultDto → Store → Result (Unit {0}) × Store
  assert_result dto store = elim dto.status [
    | ResultStatus.paid ↦ assert_paid dto store
    | ResultStatus.blocked ↦
        (elim dto.decision [ some Decision.block ↦ ok tt | _ ↦ err HttpError.bad_request ], store)
    | _ ↦ (ok tt, store)
  ]

  unfoldable pub resolved_row : ResultDto → Option Text → ℕ → Row → Row
  resolved_row dto response now r = record r {
    status = status_of dto.status;
    action_id = truthy (or_else dto.action_id r.action_id);
    decision = or_else dto.decision r.decision;
    reasons = elim dto.reasons [ none ↦ r.reasons | some reasons ↦ reasons ];
    transaction_hash = elim (truthy dto.transaction_hash) [
      | none ↦ truthy r.transaction_hash
      | some hash ↦ some (to_lower hash)
    ];
    response = truthy response;
    error = truthy dto.error;
    updated_at = now;
  }

  -- The part of `reportResult` after the guards on the row's status.
  unfoldable pub resolve : Text → ResultDto → ℕ → Row → Desk → Result Row × Desk
  resolve id dto now r s =
      let (asserted, store) = assert_result dto s.store in
      let s' = record s { store = store } in
      elim asserted [
        | err e ↦ (err e, s')
        | ok _ ↦ elim (serialize_response dto.response) [
          | err e ↦ (err e, s')
          | ok response ↦
              let updated = resolved_row dto response now r in
              (ok updated, record s' { requests = insert id updated s'.requests })
        ]
      ]

  -- `reportResult`
  unfoldable pub report_result : Text → ResultDto → ℕ → Desk → Result Row × Desk
  report_result id dto now s = elim (lookup id s.requests) [
    | none ↦ (err HttpError.not_found, s)
    | some r ↦
        if is_same_address_or_text ethers r.agent_address agent
        then if is_terminal r.status
          then (err HttpError.conflict, s)
          else if is_processing r.status || is_authorized r.status
          then resolve id dto now r s
          else (err HttpError.bad_request, s)
        else (err HttpError.forbidden, s)
  ]
