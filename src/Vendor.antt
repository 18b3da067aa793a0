-- ===== src/Vendor.antt =====
-- backend/src/vendor/vendor.service.ts: the accounts, the bills and the receipts of payments, over the
-- table x402_payment_receipts of backend/src/database/database.service.ts; and payBill's check of the
-- account in vendor.controller.ts. A redemption is in two steps, around the answer of the chain.
pub mod Redeem
use ethonline.Common.{
  ℕ, suc, zero, ◌+◌, Bool, true, false, not, ◌&&◌, ◌||◌, ◌==◌, Option, none, some, List, [], ◌∷◌,
  ◌++◌, find, length, if◌then◌else◌,
}
use ethonline.Common.Int.{ℤ}
use ethonline.Common.Text.{Text, codes, text_eq, to_lower, truthy, drop_prefix, all_hex}
use ethonline.Common.Dict.{Dict, insert, has}
use ethonline.Common.BigInt.{parse_big_int, print_big_int, print_nat}
use ethonline.Common.Results.{HttpError, Result, ok, err}
use ethonline.X402.Transfers.{Verification, verified, unverified}

-- `PaymentRequirements`
pub record Requirements : Type 0 where
  pub address : Text
  pub amount : Text
  pub token : Text
  pub chain_id : ℕ

-- `X402PaymentReceiptRow`
pub record PaymentReceipt : Type 0 where
  pub tx_hash : Text
  pub resource : Text
  pub amount : Text
  pub redeemed_at : ℕ

pub data AccountStatus : Type 0 where
  connected disconnected : AccountStatus

-- `ConnectedAccount`
pub record Account : Type 0 where
  pub id : Text
  pub provider : Text
  pub name : Text
  pub organization : Text
  pub account_id : Text
  pub status : AccountStatus
  pub connected_at : ℕ
  pub projects : List Text

-- `ComputeResourceGrant`, without its fixed texts
pub record Grant : Type 0 where
  pub resource : Text
  pub tx_hash : Text
  pub session_token : Text
  pub expires_at : ℕ

pub data BillStatus : Type 0 where
  unpaid_402 settled_200 : BillStatus

-- `CompanyBill`
pub record Bill : Type 0 where
  pub id : Text
  pub provider : Text
  pub service_name : Text
  pub account_id : Text
  pub invoice_number : Text
  pub amount : Text
  pub description : Text
  pub payment_identifier : Text
  pub status : BillStatus
  pub payment_requirements : Requirements
  pub tx_hash : Option Text
  pub unlocked_grant : Option Grant

pub record Vendor : Type 0 where
  pub accounts : List Account
  pub bills : List Bill
  pub receipts : Dict PaymentReceipt

-- `connectAccount`
pub record ConnectDto : Type 0 where
  pub provider : Text
  pub name : Text
  pub organization : Option Text
  pub account_id : Text
  pub projects : Option (List Text)

abbrev pub new_account : ConnectDto → ℕ → Account
new_account dto now = record {
  id = codes "acc_" ++ (dto.provider ++ (codes "_" ++ print_nat now));
  provider = dto.provider;
  name = dto.name;
  organization = elim (truthy dto.organization) [
    | some o ↦ o
    | none ↦ codes "Acme Global Enterprises Inc."
  ];
  account_id = dto.account_id;
  status = AccountStatus.connected;
  connected_at = now;
  projects = elim dto.projects [ some ps ↦ ps | none ↦ codes "default-project" ∷ [] ];
}

abbrev pub reconnected : ConnectDto → ℕ → Account → Account
reconnected dto now a = record a {
  status = AccountStatus.connected;
  connected_at = now;
  projects = elim dto.projects [ some ps ↦ ps | none ↦ a.projects ];
}

-- `connectAccount`: the first account with the id is connected again, or a new one is added
unfoldable pub connect_account : ConnectDto → ℕ → List Account → Account × List Account
connect_account dto now [] = (new_account dto now, new_account dto now ∷ [])
connect_account dto now (a ∷ rest) =
    let (found, rest') = connect_account dto now rest in
    if text_eq a.account_id dto.account_id
    then (reconnected dto now a, reconnected dto now a ∷ rest)
    else (found, a ∷ rest')

-- `disconnectAccount`
unfoldable pub disconnect_account : Text → List Account → Bool × List Account
disconnect_account id [] = (false, [])
disconnect_account id (a ∷ rest) =
    let (found, rest') = disconnect_account id rest in
    if text_eq a.account_id id
    then (true, record a { status = AccountStatus.disconnected } ∷ rest)
    else (found, a ∷ rest')

-- `getBillById`
unfoldable pub get_bill_by_id : Text → List Bill → Option Bill
get_bill_by_id id bills = find (λ (b : Bill). text_eq b.id id) bills

-- `s.substring(2, 10)`
abbrev pub take : ℕ → Text → Text
take zero s = []
take (suc n) [] = []
take (suc n) (c ∷ s) = c ∷ take n s

abbrev pub short_hash : Text → Text
short_hash [] = []
short_hash (a ∷ []) = []
short_hash (a ∷ b ∷ s) = take 8 s

abbrev pub session_token : ℕ → Text → Text
session_token now hash = codes "sess_" ++ (print_nat now ++ (codes "_" ++ short_hash hash))

abbrev pub settled : Text → ℕ → Bill → Bill
settled hash now b = record b {
  status = BillStatus.settled_200;
  tx_hash = some hash;
  unlocked_grant = some (record {
    resource = b.provider ++ (codes ":" ++ b.invoice_number);
    tx_hash = hash;
    session_token = session_token now hash;
    expires_at = now + 2592000000;
  });
}

-- `markBillSettled`
unfoldable pub mark_bill_settled : Text → Text → ℕ → List Bill → Result Bill × List Bill
mark_bill_settled id hash now [] = (err HttpError.not_found, [])
mark_bill_settled id hash now (b ∷ rest) =
    let (found, rest') = mark_bill_settled id hash now rest in
    if text_eq b.id id
    then (ok (settled hash now b), settled hash now b ∷ rest)
    else (found, b ∷ rest')

-- `addBill`
abbrev pub add_bill : Bill → Vendor → Vendor
add_bill b s = record s { bills = s.bills ++ b ∷ [] }

-- `TX_HASH_PATTERN`
unfoldable pub is_tx_hash : Text → Bool
is_tx_hash s = elim (drop_prefix (codes "0x") s) [
  | none ↦ false
  | some digits ↦ length digits == 64 && all_hex digits
]

-- `redeemPayment`, up to the call of `verifyTokenTransfer`: the key of the receipt and the least amount.
unfoldable pub begin_redemption : ℕ → Text → Requirements → Dict PaymentReceipt → Result (Text × ℤ)
begin_redemption chain_id hash requirements receipts =
    if not (is_tx_hash hash) || not (requirements.chain_id == chain_id)
    then err HttpError.bad_request
    else if has (to_lower hash) receipts
    then err HttpError.bad_request
    else elim (parse_big_int requirements.amount) [
      | none ↦ err HttpError.internal
      | some minimum ↦ ok (to_lower hash, minimum)
    ]

-- `redeemPayment`, from the answer of the chain on: the insertion that does nothing on a conflict.
unfoldable pub finish_redemption :
    Text → Result Verification → Text → ℕ → Dict PaymentReceipt → Result Text × Dict PaymentReceipt
finish_redemption hash answer resource now receipts = elim answer [
  | err e ↦ (err e, receipts)
  | ok unverified ↦ (err HttpError.bad_request, receipts)
  | ok (verified amount) ↦ if has hash receipts then (err HttpError.bad_request, receipts) else (
    ok hash,
    insert hash
        (record {
          tx_hash = hash;
          resource = resource;
          amount = print_big_int amount;
          redeemed_at = now;
        })
        receipts,
  )
]

-- `verifyAndGrantAccess`, from the answer of the chain on
unfoldable pub grant_access : Text → Result Verification → ℕ → Vendor → Result Grant × Vendor
grant_access hash answer now s =
    let (redeemed, receipts) =
      finish_redemption hash answer (codes "vendor:compute") now s.receipts in
    elim redeemed [
      | err e ↦ (err e, record s { receipts = receipts })
      | ok h ↦ (
        ok (record {
          resource = codes "compute:dedicated-cluster:h100-gpu-node-01";
          tx_hash = h;
          session_token = session_token now h;
          expires_at = now + 3600000;
        }),
        record s { receipts = receipts },
      )
    ]

-- What `settleBillWithPayment` does before it awaits the chain: the settled bill, or a redemption.
pub data Settlement : Type 0 where
  already : Bill → Settlement
  redeems : Text → ℤ → Settlement

abbrev pub settled_hash : Bill → Option Text
settled_hash b = elim b.status [ BillStatus.settled_200 ↦ truthy b.tx_hash | _ ↦ none ]

unfoldable pub begin_settlement : ℕ → Text → Text → Vendor → Result Settlement
begin_settlement chain_id id hash s = elim (get_bill_by_id id s.bills) [
  | none ↦ err HttpError.not_found
  | some b ↦ elim (settled_hash b) [
    | some paid ↦
        if text_eq (to_lower paid) (to_lower hash)
        then ok (already b)
        else err HttpError.bad_request
    | none ↦ elim (begin_redemption chain_id hash b.payment_requirements s.receipts) [
      | err e ↦ err e
      | ok (key, minimum) ↦ ok (redeems key minimum)
    ]
  ]
]

-- `settleBillWithPayment`, from the answer of the chain on
unfoldable pub finish_settlement :
    Text → Text → Result Verification → ℕ → Vendor → Result Bill × Vendor
finish_settlement id key answer now s =
    let (redeemed, receipts) = finish_redemption key answer (codes "bill:" ++ id) now s.receipts in
    elim redeemed [
      | err e ↦ (err e, record s { receipts = receipts })
      | ok h ↦
          let (bill, bills) = mark_bill_settled id h now s.bills in
          (bill, record s { bills = bills; receipts = receipts })
    ]
