-- ===== src/World/Sessions.antt =====
-- A verification session of backend/src/world/world-id-approver.service.ts, and what its polling loop
-- does to it: startPollingLoop, handleConfirmedProof and the status that getOrbVerification reads.
-- A poll is in two steps, around the answer of the bridge, and a confirmed proof in a third one, around
-- the answer of the portal: other calls may run while one of them is awaited.
use ethonline.Common.{
  ℕ, Bool, true, false, not, ◌&&◌, ◌||◌, ◌⊎◌, inl, inr, Option, none, some, List, ◌++◌, leb, find,
  if◌then◌else◌,
}
use ethonline.Common.Text.{Text, codes, text_eq, to_lower, truthy}
use ethonline.Common.Dict.{Dict}
use ethonline.X402.Ethers.{Ethers}
use ethonline.World.Bindings.{Binding, binding_with}

-- `OrbVerificationStatus`
pub data OrbStatus : Type 0 where
  waiting_for_world_app awaiting_confirmation verified bound failed expired : OrbStatus

-- An item of `responses` in the proof that the World App gives.
pub record ResponseItem : Type 0 where
  pub identifier : Text
  pub signal_hash : Option Text
  pub nullifier : Option Text

-- The result of the idkit bridge, as far as the service reads it.
pub record IdkitResult : Type 0 where
  pub action : Option Text
  pub responses : List ResponseItem

-- An item of `results` in the answer of the portal.
pub record VerifyItem : Type 0 where
  pub identifier : Text
  pub success : Bool

-- The answer of the portal; `results` is `none` when it is no array.
pub record VerifyResponse : Type 0 where
  pub success : Bool
  pub results : Option (List VerifyItem)

-- What `pollOnce` resolves to.
pub data PollResult : Type 0 where
  nothing awaiting_confirmation : PollResult
  failed : Text → PollResult
  confirmed : IdkitResult → PollResult
  throws : PollResult

-- The error messages.
pub data Failure : Type 0 where
  proof_rejected orb_failed action_mismatch missing_orb signal_mismatch missing_nullifier : Failure
  bound_to_another thrown : Failure
  idkit : Text → Failure

-- What the loop awaits: nothing, the bridge, or the portal with a proof.
pub data Phase : Type 0 where
  resting polling : Phase
  verifying : IdkitResult → Phase

-- `VerificationSession`; `has_timer` says whether pollInterval is set, and `phase` is the local
-- isPollInFlight with the point that the loop has reached.
pub record Session : Type 0 where
  pub request_id : Text
  pub user_id : Text
  pub status : OrbStatus
  pub connector_url : Option Text
  pub expires_at : ℕ
  pub bind_message : Option Text
  pub error_message : Option Failure
  pub nullifier : Option Text
  pub has_timer : Bool
  pub phase : Phase

-- `isAwaitingWorldId`
abbrev pub is_awaiting : OrbStatus → Bool
is_awaiting OrbStatus.waiting_for_world_app = true
is_awaiting OrbStatus.awaiting_confirmation = true
is_awaiting _ = false

abbrev pub is_waiting : OrbStatus → Bool
is_waiting OrbStatus.waiting_for_world_app = true
is_waiting _ = false

abbrev pub is_verified : OrbStatus → Bool
is_verified OrbStatus.verified = true
is_verified _ = false

abbrev pub is_bound : OrbStatus → Bool
is_bound OrbStatus.bound = true
is_bound _ = false

abbrev pub is_resting : Phase → Bool
is_resting Phase.resting = true
is_resting _ = false

-- `formatIdkitError`
unfoldable pub format_idkit_error : Text → Text
format_idkit_error e =
    if text_eq e (codes "rp_signature_expired")
    then codes "The relying party signature expired (rp_signature_expired)"
    else if text_eq e (codes "unknown_rp")
    then codes "Unknown relying party configuration (unknown_rp)"
    else if text_eq e (codes "invalid_rp_signature")
    then codes "Invalid relying party signature (invalid_rp_signature)"
    else if text_eq e (codes "user_rejected")
    then codes "Verification was cancelled by the user in World App"
    else if text_eq e (codes "verification_rejected")
    then codes "Verification was rejected by World App"
    else codes "World ID verification failed: " ++ e

abbrev pub fail : Failure → Session → Session
fail e x = record x {
  status = OrbStatus.failed;
  connector_url = none;
  error_message = some e;
  phase = Phase.resting;
}

-- `stopPolling`
abbrev pub stop_polling : Session → Session
stop_polling x = record x { has_timer = false }

abbrev pub is_over : ℕ → Session → Bool
is_over now x = leb x.expires_at now

-- The timer fires: up to the call of `pollOnce`.
unfoldable pub tick : ℕ → Session → Session
tick now x =
    if not x.has_timer || not (is_resting x.phase) || not (is_awaiting x.status)
    then x
    else if is_over now x
    then record x { has_timer = false; status = OrbStatus.expired; connector_url = none }
    else record x { phase = Phase.polling }

-- `pollOnce` resolves or throws, while the loop awaits it.
unfoldable pub poll_returns : PollResult → Session → Session
poll_returns r x = elim x.phase [
  | Phase.polling ↦ elim r [
    | PollResult.throws ↦
        if is_awaiting x.status
        then fail Failure.thrown (stop_polling x)
        else record x { has_timer = false; phase = Phase.resting }
    | PollResult.nothing ↦ record x { phase = Phase.resting }
    | PollResult.awaiting_confirmation ↦
        if is_waiting x.status
        then record x { status = OrbStatus.awaiting_confirmation; phase = Phase.resting }
        else record x { phase = Phase.resting }
    | PollResult.failed e ↦
        if is_awaiting x.status
        then fail (Failure.idkit (format_idkit_error e)) (stop_polling x)
        else record x { phase = Phase.resting }
    | PollResult.confirmed result ↦
        if is_awaiting x.status
        then record x { has_timer = false; phase = Phase.verifying result }
        else record x { phase = Phase.resting }
  ]
  | _ ↦ x
]

-- `results.find((r) => r.identifier === 'orb')?.success === true`
unfoldable pub orb_succeeds : Option (List VerifyItem) → Bool
orb_succeeds none = false
orb_succeeds (some items) =
    elim (find (λ (i : VerifyItem). text_eq i.identifier (codes "orb")) items) [
      | none ↦ false
      | some i ↦ i.success
    ]

-- `a === b` on two optional strings
unfoldable pub same_option : Option Text → Option Text → Bool
same_option none none = true
same_option (some a) (some b) = text_eq a b
same_option _ _ = false

-- `chapter2-world-bind:${nullifier}`
unfoldable pub bind_message_of : Text → Text
bind_message_of nullifier = codes "chapter2-world-bind:" ++ nullifier

module _ (ethers : Ethers) where
  -- Whether a row of the nullifier names another signer; `none` when `getAddress` throws.
  unfoldable pub is_bound_elsewhere : Text → Text → Dict Binding → Option Bool
  is_bound_elsewhere approver nullifier d = elim (binding_with nullifier d) [
    | none ↦ some false
    | some b ↦ elim (ethers.get_address b.signer_address) [
      | none ↦ none
      | some signer ↦ some (not (text_eq signer approver))
    ]
  ]

  -- `hash_signal` is hashSignal of idkit-core, `action` the one of the configuration.
  module _ (hash_signal : Text → Text) (action : Option Text) (approver : Text) where
    -- Checks 3 to 5 of `handleConfirmedProof`: the nullifier of the proof, or why it fails.
    unfoldable pub check_response : Option ResponseItem → Dict Binding → Text ⊎ Failure
    check_response none d = inr Failure.missing_orb
    check_response (some item) d = elim (truthy item.signal_hash) [
      | none ↦ inr Failure.signal_mismatch
      | some hash ↦
          if text_eq (to_lower hash) (to_lower (hash_signal approver))
          then elim (truthy item.nullifier) [
            | none ↦ inr Failure.missing_nullifier
            | some raw ↦ elim (is_bound_elsewhere approver (to_lower raw) d) [
              | none ↦ inr Failure.thrown
              | some true ↦ inr Failure.bound_to_another
              | some false ↦ inl (to_lower raw)
            ]
          ]
          else inr Failure.signal_mismatch
    ]

    -- `handleConfirmedProof`; the answer is `none` when the call throws, `some none` when it is falsy.
    unfoldable pub check_proof :
        IdkitResult → Option (Option VerifyResponse) → Dict Binding → Text ⊎ Failure
    check_proof result none d = inr Failure.thrown
    check_proof result (some none) d = inr Failure.proof_rejected
    check_proof result (some (some response)) d =
        if response.success
        then if orb_succeeds response.results
          then if same_option result.action action
            then check_response
                (find (λ (i : ResponseItem). text_eq i.identifier (codes "orb")) result.responses) d
            else inr Failure.action_mismatch
          else inr Failure.orb_failed
        else inr Failure.proof_rejected

    -- The portal answers, while the loop awaits it.
    unfoldable pub verify_returns :
        Option (Option VerifyResponse) → Dict Binding → Session → Session
    verify_returns response d x = elim x.phase [
      | Phase.verifying result ↦ elim (check_proof result response d) [
        | inr e ↦ fail e x
        | inl nullifier ↦ record x {
          status = OrbStatus.verified;
          nullifier = some nullifier;
          bind_message = some (bind_message_of nullifier);
          connector_url = none;
          phase = Phase.resting;
        }
      ]
      | _ ↦ x
    ]

-- What `getOrbVerification` writes before it answers.
unfoldable pub expire : ℕ → Session → Session
expire now x =
    if is_over now x && not (is_bound x.status)
    then record x { status = OrbStatus.expired; connector_url = none }
    else x

-- `OrbVerification`
pub record OrbVerification : Type 0 where
  pub request_id : Text
  pub status : OrbStatus
  pub connector_url : Option Text
  pub expires_at : ℕ
  pub bind_message : Option Text
  pub error_message : Option Failure

abbrev pub is_failed : OrbStatus → Bool
is_failed OrbStatus.failed = true
is_failed _ = false

-- `toOrbVerificationResponse`
unfoldable pub to_response : Session → OrbVerification
to_response x = record {
  request_id = x.request_id;
  status = x.status;
  connector_url = if is_awaiting x.status then x.connector_url else none;
  expires_at = x.expires_at;
  bind_message = if is_verified x.status then x.bind_message else none;
  error_message = if is_failed x.status then x.error_message else none;
}
