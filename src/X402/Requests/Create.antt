-- ===== src/X402/Requests/Create.antt =====
-- createRequest, validateQueryParams, listForUser and getForUser of
-- backend/src/x402/x402-purchase-requests.service.ts.
use ethonline.Common.{
  ℕ, zero, suc, Bool, ◌||◌, none, some, List, [], ◌∷◌, ltb, leb, keep, find, length, if◌then◌else◌,
}
use ethonline.Common.Text.{Text, codes, text_eq, contains, trim, is_empty}
use ethonline.Common.Dict.{Dict, lookup, insert, values}
use ethonline.Common.Results.{HttpError, Result, ok, err}
use ethonline.Agents.{Agent, assert_agent_ownership}
use ethonline.X402.Ethers.{Ethers}
use ethonline.X402.Requests.{PurchaseStatus, Row, Desk}

-- A value of `queryParams`, which the client sends as JSON.
pub data ParamValue : Type 0 where
  text : Text → ParamValue
  other : ParamValue

-- `CreatePurchaseRequestDto`
pub record CreateDto : Type 0 where
  pub agent_address : Text
  pub resource_url : Text
  pub query_params : Dict ParamValue
  pub justification : Text

-- What the service reads of an entry of the vendor's catalog; `query_params` are the allowed names.
pub record CatalogEntry : Type 0 where
  pub resource : Text
  pub service_name : Text
  pub amount : Text
  pub query_params : List Text

-- The names that every JavaScript object has from its prototype.
abbrev pub prototype_names : List Text
prototype_names =
    codes "constructor"
    ∷ codes "__defineGetter__"
    ∷ codes "__defineSetter__"
    ∷ codes "hasOwnProperty"
    ∷ codes "__lookupGetter__"
    ∷ codes "__lookupSetter__"
    ∷ codes "isPrototypeOf"
    ∷ codes "propertyIsEnumerable"
    ∷ codes "toString"
    ∷ codes "valueOf"
    ∷ codes "__proto__"
    ∷ codes "toLocaleString"
    ∷ []

-- `key in allowedQueryParams`
unfoldable pub is_allowed : Text → List Text → Bool
is_allowed key allowed = contains allowed key || contains prototype_names key

-- `result[key] = value`, which does nothing for the prototype
unfoldable pub assign : Text → Text → Dict Text → Dict Text
assign key value d = if text_eq key (codes "__proto__") then d else insert key value d

abbrev pub max_query_param_value_length : ℕ
max_query_param_value_length = 100

abbrev pub max_justification_length : ℕ
max_justification_length = 280

-- `validateQueryParams`, with the parameters that are valid so far
unfoldable pub validate_query_params : List Text → Dict ParamValue → Dict Text → Result (Dict Text)
validate_query_params allowed [] params = ok params
validate_query_params allowed ((key, other) ∷ rest) params = err HttpError.bad_request
validate_query_params allowed ((key, text value) ∷ rest) params =
    let valid = validate_query_params allowed rest (assign key value params) in
    if is_allowed key allowed
    then if is_empty value || ltb max_query_param_value_length (length value)
      then err HttpError.bad_request
      else valid
    else err HttpError.bad_request

-- `INSERT INTO x402_purchase_requests`
abbrev pub queued_request : Text → Text → Text → CatalogEntry → Dict Text → CreateDto → ℕ → Row
queued_request id user address entry params dto now = record {
  id = id;
  user_id = user;
  agent_address = address;
  service_name = entry.service_name;
  resource_url = dto.resource_url;
  query_params = params;
  justification = dto.justification;
  amount = entry.amount;
  status = PurchaseStatus.queued;
  action_id = none;
  decision = none;
  reasons = [];
  transaction_hash = none;
  response = none;
  error = none;
  created_at = now;
  updated_at = now;
}

-- The checks of `createRequest`, in its order: the checksummed agent, the entry and the parameters.
unfoldable pub check_request :
    Ethers
    → Dict Agent
    → List CatalogEntry
    → Text
    → CreateDto
    → Result (Text × CatalogEntry × Dict Text)
check_request ethers agents catalog user dto =
    elim (assert_agent_ownership ethers user dto.agent_address agents) [
      | err e ↦ err e
      | ok _ ↦ elim (ethers.get_address dto.agent_address) [
        | none ↦ err HttpError.internal
        | some address ↦
            elim (find (λ (c : CatalogEntry). text_eq c.resource dto.resource_url) catalog) [
              | none ↦ err HttpError.bad_request
              | some entry ↦ elim (validate_query_params entry.query_params dto.query_params []) [
                | err e ↦ err e
                | ok params ↦
                    if is_empty (trim dto.justification)
                      || ltb max_justification_length (length dto.justification)
                    then err HttpError.bad_request
                    else ok (address, entry, params)
              ]
            ]
      ]
    ]

-- `createRequest`; `id` is the new id.
unfoldable pub create_request :
    Ethers → Dict Agent → List CatalogEntry → Text → Text → CreateDto → ℕ → Desk → Result Row × Desk
create_request ethers agents catalog user id dto now s =
    elim (check_request ethers agents catalog user dto) [
      | err e ↦ (err e, s)
      | ok (address, entry, params) ↦
          let row = queued_request id user address entry params dto now in
          (ok row, record s { requests = insert id row s.requests })
    ]

-- `getForUser`
unfoldable pub get_for_user : Text → Text → Desk → Result Row
get_for_user user id s = elim (lookup id s.requests) [
  | none ↦ err HttpError.not_found
  | some r ↦ if text_eq r.user_id user then ok r else err HttpError.not_found
]

-- The order of `ORDER BY created_at DESC`
unfoldable pub insert_newest : Row → List Row → List Row
insert_newest r [] = r ∷ []
insert_newest r (q ∷ qs) =
    let rest = insert_newest r qs in if leb q.created_at r.created_at then r ∷ q ∷ qs else q ∷ rest

unfoldable pub newest_first : List Row → List Row
newest_first [] = []
newest_first (r ∷ rs) = insert_newest r (newest_first rs)

abbrev pub first_fifty : ℕ → List Row → List Row
first_fifty zero rs = []
first_fifty (suc n) [] = []
first_fifty (suc n) (r ∷ rs) = r ∷ first_fifty n rs

-- `listForUser`
unfoldable pub list_for_user : Text → Desk → List Row
list_for_user user s =
    first_fifty 50 (newest_first (keep (λ (r : Row). text_eq r.user_id user) (values s.requests)))
