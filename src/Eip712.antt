-- ===== src/Eip712.antt =====
-- backend/src/crypto/eip712.service.ts: the typed data of an approval, its signature and its payload.
-- What the service calls of ethers is `TypedDataLibrary`; `none` stands for an exception.
pub mod Payload
use ethonline.Common.{ℕ, Bool, false, ◌||◌, Option, none, some, if◌then◌else◌}
use ethonline.Common.Int.{ℤ}
use ethonline.Common.Text.{Text, codes, text_eq, is_empty}
use ethonline.Common.BigInt.{parse_big_int, print_big_int}
use ethonline.Common.Results.{HttpError, Result, ok, err}
use ethonline.Actions.{ApprovalParams}

-- `Eip712Domain`
pub record Domain : Type 0 where
  pub name : Text
  pub version : Text
  pub chain_id : ℕ
  pub verifying_contract : Text

-- `DEFAULT_BASE_SEPOLIA_DOMAIN`
abbrev pub default_base_sepolia_domain : Domain
default_base_sepolia_domain = record {
  name = codes "Chapter2";
  version = codes "1";
  chain_id = 84532;
  verifying_contract = codes "0x9b6023D1B6D3b076C8d999Ba406AE486750ce7d3";
}

-- What `formatMessage` makes of the parameters.
pub record Message : Type 0 where
  pub action_id : Text
  pub agent : Text
  pub recipient : Text
  pub token : Text
  pub amount : ℤ
  pub nonce : ℕ
  pub deadline : ℕ
  pub mandate_hash : Text
  pub risk_score : ℤ

-- getAddress, verifyTypedData, the hashes of TypedDataEncoder, and the coder of the ABI.
pub record TypedDataLibrary : Type 0 where
  pub get_address : Text → Option Text
  pub verify_typed_data : Domain → Message → Text → Option Text
  pub hash_domain : Domain → Option Text
  pub hash_struct : Message → Option Text
  pub hash_typed_data : Domain → Message → Option Text
  pub encode : Message → Text → Option Text
  pub decode : Text → Option (Message × Text)

-- The typed data for the wallet; its type names are fixed.
pub record Envelope : Type 0 where
  pub domain : Domain
  pub message : Message
  -- the amount of the message, as text
  pub amount : Text

abbrev pub or_internal {ℓ} : {A : Type ℓ} → Option A → Result A
or_internal none = err HttpError.internal
or_internal (some a) = ok a

module _ (lib : TypedDataLibrary) where
  -- `formatDomain`
  unfoldable pub format_domain : Domain → Option Domain
  format_domain d = elim (lib.get_address d.verifying_contract) [
    | none ↦ none
    | some contract ↦ some (record d { verifying_contract = contract })
  ]

  -- `formatMessage`
  unfoldable pub format_message : ApprovalParams → Option Message
  format_message p = elim (lib.get_address p.agent) [
    | none ↦ none
    | some agent ↦ elim (lib.get_address p.recipient) [
      | none ↦ none
      | some recipient ↦ elim (lib.get_address p.token) [
        | none ↦ none
        | some token ↦ elim (parse_big_int p.amount) [
          | none ↦ none
          | some amount ↦ some (record {
            action_id = p.action_id;
            agent = agent;
            recipient = recipient;
            token = token;
            amount = amount;
            nonce = p.nonce;
            deadline = p.deadline;
            mandate_hash = p.mandate_hash;
            risk_score = p.risk_score;
          })
        ]
      ]
    ]
  ]

  -- `generateTypedData`
  unfoldable pub generate_typed_data : ApprovalParams → Domain → Result Envelope
  generate_typed_data p d = elim (format_domain d) [
    | none ↦ err HttpError.internal
    | some domain ↦ elim (format_message p) [
      | none ↦ err HttpError.internal
      | some m ↦ ok (record { domain = domain; message = m; amount = print_big_int m.amount })
    ]
  ]

  -- `computeDomainSeparator`
  unfoldable pub compute_domain_separator : Domain → Result Text
  compute_domain_separator d = elim (format_domain d) [
    | none ↦ err HttpError.internal
    | some domain ↦ or_internal (lib.hash_domain domain)
  ]

  -- `computeStructHash`
  unfoldable pub compute_struct_hash : ApprovalParams → Result Text
  compute_struct_hash p = elim (format_message p) [
    | none ↦ err HttpError.internal
    | some m ↦ or_internal (lib.hash_struct m)
  ]

  -- `computeDigest`
  unfoldable pub compute_digest : ApprovalParams → Domain → Result Text
  compute_digest p d = elim (format_domain d) [
    | none ↦ err HttpError.internal
    | some domain ↦ elim (format_message p) [
      | none ↦ err HttpError.internal
      | some m ↦ or_internal (lib.hash_typed_data domain m)
    ]
  ]

  -- `recoverSigner`
  unfoldable pub recover_signer : ApprovalParams → Text → Domain → Result Text
  recover_signer p signature d = elim (format_domain d) [
    | none ↦ err HttpError.bad_request
    | some domain ↦ elim (format_message p) [
      | none ↦ err HttpError.bad_request
      | some m ↦ elim (lib.verify_typed_data domain m signature) [
        | none ↦ err HttpError.bad_request
        | some signer ↦ ok signer
      ]
    ]
  ]

  -- `getAddress(a) === getAddress(b)`, where an exception counts as false
  unfoldable pub is_same_signer : Text → Text → Bool
  is_same_signer a b = elim (lib.get_address a) [
    | none ↦ false
    | some x ↦ elim (lib.get_address b) [ none ↦ false | some y ↦ text_eq x y ]
  ]

  -- `verifySignature`
  unfoldable pub verify_signature : ApprovalParams → Text → Text → Domain → Bool
  verify_signature p signature expected d =
      if is_empty signature || is_empty expected
      then false
      else elim (recover_signer p signature d) [
        | err e ↦ false
        | ok recovered ↦ is_same_signer recovered expected
      ]

  -- `encodeEscalatedPayload`
  unfoldable pub encode_escalated_payload : ApprovalParams → Text → Result Text
  encode_escalated_payload p signature = elim (format_message p) [
    | none ↦ err HttpError.internal
    | some m ↦ or_internal (lib.encode m signature)
  ]

  -- The approval of a decoded message.
  abbrev pub params_of : Message → ApprovalParams
  params_of m = record {
    action_id = m.action_id;
    agent = m.agent;
    recipient = m.recipient;
    token = m.token;
    amount = print_big_int m.amount;
    nonce = m.nonce;
    deadline = m.deadline;
    mandate_hash = m.mandate_hash;
    risk_score = m.risk_score;
  }

  -- `decodeEscalatedPayload`
  unfoldable pub decode_escalated_payload : Text → Result (ApprovalParams × Text)
  decode_escalated_payload payload = elim (lib.decode payload) [
    | none ↦ err HttpError.bad_request
    | some (m, signature) ↦ ok (params_of m, signature)
  ]
