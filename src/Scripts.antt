-- ===== src/Scripts.antt =====
-- scripts/lib/x402-payment-flow.ts: how the agent's script pays for one resource. What the script
-- asks of the network and of the x402 SDK is answered by `Services`, and each such call that asks for
-- a payment, signs one or reports one is kept in order.
pub mod Paid
use ethonline.Common.{
  ℕ, Bool, true, false, not, ◌&&◌, ◌==◌, Option, none, some, List, [], ◌∷◌, ◌++◌, find,
  if◌then◌else◌,
}
use ethonline.Common.Text.{Text, codes, text_eq, to_lower, truthy}
use ethonline.Common.Results.{HttpError, Result, ok, err}
use ethonline.Domain.{Decision}
use ethonline.X402.Spending.{Requirements}
use ethonline.X402.Payments.{AuthorizeDto}

-- The body of the answer, which is cast and not checked: its decision is any text.
pub record AuthorizePaymentResponse : Type 0 where
  pub action_id : Text
  pub decision : Text
  pub risk_score : ℕ
  pub reasons : List Text

-- The agent's own Key Ring wallet, or a Ledger that a human holds, for one action.
pub data Signer : Type 0 where
  agent_signer : Signer
  ledger_signer : Text → Signer

pub data PaymentSigningOutcome : Type 0 where
  blocks : Text → ℕ → List Text → PaymentSigningOutcome
  signs : Text → Decision → ℕ → Signer → PaymentSigningOutcome

pub data PayResourceResult : Type 0 where
  blocked : Text → ℕ → List Text → PayResourceResult
  paid : Text → Decision → Text → Text → PayResourceResult

-- An HTTP answer with its JSON body, which may fail to parse.
pub record Response (A : Type 0) : Type 0 where
  pub is_ok : Bool
  pub body : Result A

-- The answer to the paid request: what the SDK reads of its header, and its data.
pub record PaidResponse : Type 0 where
  pub is_ok : Bool
  pub settlement : Result (Bool × Text)
  pub data_body : Result Text

-- The client of the SDK: how it selects, what it may spend at most, and with what it signs.
pub record PaymentClient : Type 0 where
  pub selector : List Requirements → Option Requirements
  pub allowed_network : Text
  pub allowed_asset : Text
  pub max_amount_per_payment : Text
  pub signer : Signer
  pub networks : List Text

pub record Services : Type 0 where
  pub fetch_status : Text → Result ℕ
  pub get_payment_required : Text → Result (List Requirements)
  pub post_authorization : AuthorizeDto → Result (Response AuthorizePaymentResponse)
  pub on_authorized : AuthorizePaymentResponse → Result (Unit {0})
  pub create_payment_payload : PaymentClient → List Requirements → Result Text
  pub fetch_paid : Text → Text → Result PaidResponse
  pub post_settlement : Text → Text → Result (Response (Unit {0}))

pub record PayResourceDeps : Type 0 where
  pub base_url : Text
  pub network : Text
  pub usdc_address : Text
  pub resource_path : Text
  pub justification : Text

pub data Call : Type 0 where
  authorizes : AuthorizeDto → Call
  waits : Call
  creates_payload : PaymentClient → Call
  retries : Text → Call
  settles : Text → Text → Call

abbrev pub Run : Type 0
Run = Result PayResourceResult × List Call

abbrev logged : Call → Run → Run
logged call (result, calls) = (result, call ∷ calls)

abbrev pub is_accepted : Text → Text → Requirements → Bool
is_accepted network asset accept =
    text_eq accept.network network && text_eq (to_lower accept.asset) (to_lower asset)

abbrev found_accept : Option Requirements → Result Requirements
found_accept none = err HttpError.internal
found_accept (some accept) = ok accept

abbrev pub select_payment_requirement : List Requirements → Text → Text → Result Requirements
select_payment_requirement accepts network usdc_address =
    found_accept (find (is_accepted network usdc_address) accepts)

abbrev read_response : {A : Type 0} → Result (Response A) → Result A
read_response (err e) = err e
read_response (ok response) = elim response.is_ok [
  | true ↦ response.body
  | false ↦ err HttpError.internal
]

abbrev pub authorize_payment : Services → AuthorizeDto → Result AuthorizePaymentResponse
authorize_payment s dto = read_response (s.post_authorization dto)

abbrev pub settle_payment : Services → Text → Text → Result (Unit {0})
settle_payment s action_id hash = read_response (s.post_settlement action_id hash)

-- A decision that is neither BLOCK nor ESCALATE is signed like ALLOW.
resolve_payment_signer : AuthorizePaymentResponse → PaymentSigningOutcome
resolve_payment_signer a =
    if text_eq a.decision (codes "BLOCK")
    then blocks a.action_id a.risk_score a.reasons
    else if text_eq a.decision (codes "ESCALATE")
    then signs a.action_id Decision.escalate a.risk_score (ledger_signer a.action_id)
    else signs a.action_id Decision.allow a.risk_score agent_signer

-- `requirements.find(…) ?? requirements[0]`
abbrev or_first : Option Requirements → List Requirements → Option Requirements
or_first (some candidate) requirements = some candidate
or_first none [] = none
or_first none (first ∷ rest) = some first

abbrev pub create_guardian_capped_payment_client : Requirements → Signer → Text → PaymentClient
create_guardian_capped_payment_client accept signer network = record {
  selector = λ requirements.
      or_first (find (is_accepted accept.network accept.asset) requirements) requirements;
  allowed_network = accept.network;
  allowed_asset = accept.asset;
  max_amount_per_payment = accept.amount;
  signer = signer;
  networks = network ∷ [];
}

-- The transaction that the facilitator reports, and the resource itself.
settled_transaction : PaidResponse → Result (Text × Text)
settled_transaction r = if not r.is_ok then err HttpError.internal else elim r.settlement [
  | err e ↦ err e
  | ok (success, transaction) ↦
      if not success then err HttpError.internal else elim (truthy (some transaction)) [
        | none ↦ err HttpError.internal
        | some hash ↦ elim r.data_body [ err e ↦ err e | ok body ↦ ok (hash, body) ]
      ]
]

module _ (s : Services) where
  report_settlement : Text → Decision → Result (Text × Text) → Run
  report_settlement action_id decision (err e) = (err e, [])
  report_settlement action_id decision (ok (hash, body)) =
      logged (settles action_id hash) (elim (settle_payment s action_id hash) [
        | err e ↦ (err e, [])
        | ok answer ↦ (ok (paid action_id decision hash body), [])
      ])

  retry : Text → Text → Decision → Result Text → Run
  retry url action_id decision (err e) = (err e, [])
  retry url action_id decision (ok header) =
      logged (retries header) (elim (s.fetch_paid url header) [
        | err e ↦ (err e, [])
        | ok response ↦ report_settlement action_id decision (settled_transaction response)
      ])

  sign_and_pay : Text → List Requirements → PaymentClient → Text → Decision → Run
  sign_and_pay url accepts client action_id decision =
      logged (creates_payload client)
        (retry url action_id decision (s.create_payment_payload client accepts))

  pay_by_outcome : Text → Text → List Requirements → Requirements → PaymentSigningOutcome → Run
  pay_by_outcome network url accepts accept (blocks action_id risk_score reasons) =
      (ok (blocked action_id risk_score reasons), [])
  pay_by_outcome network url accepts accept (signs action_id decision risk_score signer) =
      let client = create_guardian_capped_payment_client accept signer network in
      let run = sign_and_pay url accepts client action_id decision in
      elim decision [
        | Decision.escalate ↦ logged waits run
        | Decision.allow ↦ run
        | Decision.block ↦ run
      ]

  pay_authorized :
      Text → Text → List Requirements → Requirements → Result AuthorizePaymentResponse → Run
  pay_authorized network url accepts accept (err e) = (err e, [])
  pay_authorized network url accepts accept (ok authorization) =
      elim (s.on_authorized authorization) [
        | err e ↦ (err e, [])
        | ok done ↦ pay_by_outcome network url accepts accept (resolve_payment_signer authorization)
      ]

  pay_selected : PayResourceDeps → List Requirements → Result Requirements → Run
  pay_selected d accepts (err e) = (err e, [])
  pay_selected d accepts (ok accept) =
      let url = d.base_url ++ d.resource_path in
      let dto : AuthorizeDto = record {
        resource_url = url;
        requirements = accept;
        justification = d.justification;
      } in
      logged (authorizes dto)
        (pay_authorized d.network url accepts accept (authorize_payment s dto))

  pay_required : PayResourceDeps → Result (List Requirements) → Run
  pay_required d (err e) = (err e, [])
  pay_required d (ok accepts) =
      pay_selected d accepts (select_payment_requirement accepts d.network d.usdc_address)

  pub pay_x402_resource : PayResourceDeps → Run
  pay_x402_resource d =
      let url = d.base_url ++ d.resource_path in
      elim (s.fetch_status url) [
        | err e ↦ (err e, [])
        | ok status ↦
            if status == 402
            then pay_required d (s.get_payment_required url)
            else (err HttpError.internal, [])
      ]
