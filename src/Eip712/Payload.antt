-- ===== src/Eip712/Payload.antt =====
-- The payload for the guard contract holds the approval that was signed.
use ethonline.Common.{◌≡◌, refl, sym, ap, ◌∙◌, arith, Option, none, some, Option-cases, inl, inr}
use ethonline.Common.Text.{Text, to_lower}
use ethonline.Common.BigInt.{parse_big_int}
use ethonline.Common.BigInt.RoundTrip.{parse_big_int-print_big_int}
use ethonline.Common.Results.{HttpError, ok, err_ne_ok, ok_injective, some_injective}
use ethonline.Actions.{ApprovalParams}
use ethonline.Eip712.{
  Domain, Message, TypedDataLibrary, or_internal, format_domain, format_message, recover_signer,
  verify_signature, encode_escalated_payload, params_of, decode_escalated_payload,
}

or_internal-ok : (o : Option Text) (t : Text) → or_internal o ≡ ok t → o ≡ some t
or_internal-ok none t e = absurd (err_ne_ok HttpError.internal t e)
or_internal-ok (some s) t e = ap some (ok_injective s t e)

module _ (lib : TypedDataLibrary)
    (checksum : (a b : Text) → lib.get_address a ≡ some b → lib.get_address b ≡ some b) where
  -- The addresses of a formatted message are checksummed.
  pub record IsFormatted (m : Message) : Type 0 where
    agent : lib.get_address m.agent ≡ some m.agent
    recipient : lib.get_address m.recipient ≡ some m.recipient
    token : lib.get_address m.token ≡ some m.token

  format_message-IsFormatted :
      (p : ApprovalParams) (m : Message) → format_message lib p ≡ some m → IsFormatted m
  unfolding format_message
  format_message-IsFormatted p m e = elim (Option-cases (lib.get_address p.agent)) [
    | inl bad ↦ cc
    | inr (agent, h1) ↦ elim (Option-cases (lib.get_address p.recipient)) [
      | inl bad ↦ cc
      | inr (recipient, h2) ↦ elim (Option-cases (lib.get_address p.token)) [
        | inl bad ↦ cc
        | inr (token, h3) ↦ elim (Option-cases (parse_big_int p.amount)) [
          | inl bad ↦ cc
          | inr (amount, h4) ↦
              let same = some_injective _ m (rw (format_message, h1, h2, h3, h4) at e) in
              rw (sym same) (record {
                agent = checksum p.agent agent h1;
                recipient = checksum p.recipient recipient h2;
                token = checksum p.token token h3;
              })
        ]
      ]
    ]
  ]

  format_message-kept :
      (p : ApprovalParams) (m : Message)
      → format_message lib p ≡ some m
      → m.mandate_hash ≡ p.mandate_hash
  unfolding format_message
  format_message-kept p m e = ground arith

  -- Formatting the decoded approval gives the message again.
  format_message-params_of :
      (m : Message) → IsFormatted m → format_message lib (params_of lib m) ≡ some m
  unfolding format_message
  format_message-params_of m h =
      rw (format_message, h.agent, h.recipient, h.token, parse_big_int-print_big_int m.amount) refl

  recover_signer-format :
      (p q : ApprovalParams) (signature : Text) (d : Domain)
      → format_message lib p ≡ format_message lib q
      → recover_signer lib p signature d ≡ recover_signer lib q signature d
  unfolding recover_signer
  recover_signer-format p q signature d e = elim (Option-cases (format_domain lib d)) [
    | inl bad ↦ rw (recover_signer, bad) refl
    | inr (domain, good) ↦ rw (recover_signer, good, e) refl
  ]

  -- The coder of the ABI gives checksummed addresses and lower-case hexadecimal bytes back: it decodes
  -- what it encodes if the message and the signature have this form.
  abbrev pub IsCoder : Type 0
  IsCoder =
      (m : Message) (s t : Text)
      → IsFormatted m
      → to_lower m.mandate_hash ≡ m.mandate_hash
      → to_lower s ≡ s
      → lib.encode m s ≡ some t
      → lib.decode t ≡ some (m, s)

  -- The payload for the guard contract of an approval, whose mandate hash and signature are in
  -- lower-case hexadecimal, decodes to an approval with the same signature; it encodes to the same
  -- payload again, and a signature is valid for it exactly when it is for the approval that was
  -- encoded. The coder of the ABI is taken to decode what it encodes of this form, and the checksummed
  -- form of a checksummed address to be itself.
  pub decode-encode_escalated_payload :
      (p : ApprovalParams) (signature payload signer : Text) (d : Domain)
      → IsCoder
      → to_lower p.mandate_hash ≡ p.mandate_hash
      → to_lower signature ≡ signature
      → encode_escalated_payload lib p signature ≡ ok payload
      → (q : ApprovalParams) × (decode_escalated_payload lib payload ≡ ok (q, signature))
        × (encode_escalated_payload lib q signature ≡ ok payload)
        × (verify_signature lib q signature signer d ≡ verify_signature lib p signature signer d)
  unfolding encode_escalated_payload decode_escalated_payload verify_signature
  decode-encode_escalated_payload p signature payload signer d abi low_hash low done =
      elim (Option-cases (format_message lib p)) [
        | inl bad ↦
            absurd
              (err_ne_ok HttpError.internal payload (rw (encode_escalated_payload, bad) at done))
        | inr (m, formatted) ↦
            let coded =
              or_internal-ok (lib.encode m signature) payload
                (rw (encode_escalated_payload, formatted) at done) in
            let shaped = format_message-IsFormatted p m formatted in
            let same_hash = format_message-kept p m formatted in
            let again = format_message-params_of m shaped in
            let back = abi m signature payload shaped (rw same_hash low_hash) low coded in
            let same =
              recover_signer-format (params_of lib m) p signature d (again ∙ sym formatted) in
            (
              params_of lib m,
              rw (decode_escalated_payload, back) refl,
              rw (encode_escalated_payload, again, coded) refl,
              rw (verify_signature, same) refl,
            )
      ]
