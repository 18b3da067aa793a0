-- ===== src/Tests/Eip712.antt =====
-- A run of the payload of an approval, with a small coder in place of the one of the ABI.
use ethonline.Common.{
  ℕ, zero, suc, ◌≡◌, refl, sym, ap, ◌∙◌, Option, none, some, [], ◌∷◌, ◌++◌, length,
}
use ethonline.Common.Int.{ℤ, pos, negsuc}
use ethonline.Common.Text.{Text, codes, to_lower}
use ethonline.Common.BigInt.{parse_big_int}
use ethonline.Common.Results.{ok, some_injective}
use ethonline.Actions.{ApprovalParams}
use ethonline.Eip712.{
  Message, TypedDataLibrary, default_base_sepolia_domain, format_message, verify_signature,
  encode_escalated_payload, decode_escalated_payload,
}
use ethonline.Eip712.Payload.{decode-encode_escalated_payload}

-- A text with its length before it.
abbrev put : Text → Text → Text
put t rest = length t ∷ (t ++ rest)

cut : ℕ → Text → Option (Text × Text)
cut zero s = some ([], s)
cut (suc n) [] = none
cut (suc n) (c ∷ s) = elim (cut n s) [ none ↦ none | some (t, rest) ↦ some (c ∷ t, rest) ]

get : Text → Option (Text × Text)
get [] = none
get (n ∷ s) = cut n s

cut-append : (t rest : Text) → cut (length t) (t ++ rest) ≡ some (t, rest)
unfolding cut
cut-append [] rest = refl
cut-append (c ∷ t) rest = rw (cut-append t rest) refl

get-put : (t rest : Text) → get (put t rest) ≡ some (t, rest)
unfolding get
get-put t rest = cut-append t rest

abbrev integer : ℤ → Text → Text
integer (pos n) rest = 0 ∷ n ∷ rest
integer (negsuc n) rest = 1 ∷ n ∷ rest

get_integer : Text → Option (ℤ × Text)
get_integer (zero ∷ n ∷ rest) = some (pos n, rest)
get_integer (suc tag ∷ n ∷ rest) = some (negsuc n, rest)
get_integer _ = none

get-integer : (z : ℤ) (rest : Text) → get_integer (integer z rest) ≡ some (z, rest)
unfolding get_integer
get-integer (pos n) rest = refl
get-integer (negsuc n) rest = refl

encode : Message → Text → Option Text
encode m s = some (
    put m.action_id (
      put m.agent (
        put m.recipient (
          put m.token (
            put m.mandate_hash
              (put s (integer m.amount (integer m.risk_score (m.nonce ∷ m.deadline ∷ [])))))))))

numbers : Text → Option (ℕ × ℕ)
numbers (n ∷ d ∷ []) = some (n, d)
numbers _ = none

decode_numbers : Text → Text → Text → Text → Text → Text → Text → Option (Message × Text)
decode_numbers id agent recipient token hash signature t = elim (get_integer t) [
  | none ↦ none
  | some (amount, t1) ↦ elim (get_integer t1) [
    | none ↦ none
    | some (risk, t2) ↦ elim (numbers t2) [
      | none ↦ none
      | some (nonce, deadline) ↦ some (
        record {
          action_id = id;
          agent = agent;
          recipient = recipient;
          token = token;
          amount = amount;
          nonce = nonce;
          deadline = deadline;
          mandate_hash = hash;
          risk_score = risk;
        },
        signature,
      )
    ]
  ]
]

decode_texts : Text → Text → Text → Text → Option (Message × Text)
decode_texts id agent recipient t = elim (get t) [
  | none ↦ none
  | some (token, t1) ↦ elim (get t1) [
    | none ↦ none
    | some (hash, t2) ↦ elim (get t2) [
      | none ↦ none
      | some (signature, t3) ↦ decode_numbers id agent recipient token hash signature t3
    ]
  ]
]

decode : Text → Option (Message × Text)
decode t = elim (get t) [
  | none ↦ none
  | some (id, t1) ↦ elim (get t1) [
    | none ↦ none
    | some (agent, t2) ↦ elim (get t2) [
      | none ↦ none
      | some (recipient, t3) ↦ decode_texts id agent recipient t3
    ]
  ]
]

decode-encode : (m : Message) (s t : Text) → encode m s ≡ some t → decode t ≡ some (m, s)
unfolding encode decode decode_texts decode_numbers numbers
decode-encode m s t e =
    ap decode (sym (some_injective _ t e))
    ∙ rw
        (
          decode, get-put, get-put, get-put, decode_texts, get-put, get-put, get-put,
          decode_numbers, get-integer, get-integer,
        )
        refl

abbrev library : TypedDataLibrary
library = record {
  get_address = some;
  verify_typed_data = λ d m signature. some signature;
  hash_domain = λ d. some d.name;
  hash_struct = λ m. some m.action_id;
  hash_typed_data = λ d m. some m.action_id;
  encode = encode;
  decode = decode;
}

abbrev params : ApprovalParams
params = record {
  action_id = codes "act-1";
  agent = codes "0xAgent";
  recipient = codes "0xShop";
  token = codes "0xUsdc";
  amount = codes "0x3C";
  nonce = 1;
  deadline = 9000;
  mandate_hash = codes "0xfe";
  risk_score = pos 10;
}

abbrev signature : Text
signature = codes "0xab"

abbrev payload : Text
payload = put params.action_id (
    put params.agent (
      put params.recipient (
        put params.token (
          put params.mandate_hash
            (put signature (integer (pos 60) (integer (pos 10) (1 ∷ 9000 ∷ []))))))))

payload_lem : encode_escalated_payload library params signature ≡ ok payload
unfolding encode_escalated_payload format_message encode parse_big_int
payload_lem = refl

decode-encode_escalated_payload_example :
    (q : ApprovalParams) × (decode_escalated_payload library payload ≡ ok (q, signature))
    × (encode_escalated_payload library q signature ≡ ok payload)
    × (verify_signature library q signature signature default_base_sepolia_domain
        ≡ verify_signature library params signature signature default_base_sepolia_domain)
decode-encode_escalated_payload_example =
    decode-encode_escalated_payload library (λ a b e. refl) params signature payload signature
      default_base_sepolia_domain (λ m s t formatted low_hash low. decode-encode m s t)
      (unfold to_lower in refl) (unfold to_lower in refl) payload_lem
