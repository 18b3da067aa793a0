-- ===== src/World/Selfie.antt =====
-- backend/src/world/world-selfie.service.ts: verifySelfieProof. The answer of the World ID endpoint is a
-- parameter; the messages of the errors are constructors.
pub mod Registry
pub mod Shared
use ethonline.Common.{
  ℕ, ◌+◌, Bool, true, false, not, ◌||◌, ◌⊎◌, inl, inr, Option, none, some, length, ltb,
  if◌then◌else◌,
}
use ethonline.Common.Text.{Text, codes, text_eq, starts_with, is_empty, truthy}
use ethonline.X402.Ethers.{Ethers, is_same_address_or_text}

-- `WorldVerificationMode | 'DISABLED'`
pub data Mode : Type 0 where
  sandbox cloud_api disabled : Mode

-- `WorldCredentialType`; `eleven` is the number 11
pub data Credential : Type 0 where
  eleven selfie orb device : Credential

-- `WorldIdSelfieProof`
pub record SelfieProof : Type 0 where
  pub merkle_root : Text
  pub nullifier_hash : Text
  pub proof : Text
  pub credential_type : Credential
  pub action : Text
  pub signal : Option Text

pub data SelfieError : Type 0 where
  not_configured malformed insufficient action_mismatch signal_mismatch : SelfieError
  invalid_nullifier api_error : SelfieError

-- What the endpoint answers: an error, or success with the nullifier that it names.
pub data CloudAnswer : Type 0 where
  rejected : CloudAnswer
  accepted : Option Text → CloudAnswer

-- A `SelfieVerificationResult` that is a success
pub record Verified : Type 0 where
  pub nullifier_hash : Text
  pub expires_at : ℕ

-- The inactivity window of 90 days.
abbrev pub inactivity_window : ℕ
inactivity_window = 7776000000

abbrev pub is_selfie_or_orb : Credential → Bool
is_selfie_or_orb Credential.device = false
is_selfie_or_orb _ = true

abbrev pub is_disabled : Mode → Bool
is_disabled Mode.disabled = true
is_disabled _ = false

-- The check of the signal, which a proof without a signal passes.
abbrev pub signal_matches : Ethers → Option Text → Option Text → Bool
signal_matches ethers expected signal = elim (truthy expected) [
  | none ↦ true
  | some e ↦ elim (truthy signal) [ none ↦ true | some s ↦ is_same_address_or_text ethers e s ]
]

-- `verifyInSandbox`
unfoldable pub verify_in_sandbox : SelfieProof → ℕ → Verified ⊎ SelfieError
verify_in_sandbox p now =
    if not (starts_with p.nullifier_hash (codes "0x")) || ltb (length p.nullifier_hash) 10
    then inr SelfieError.invalid_nullifier
    else inl (record { nullifier_hash = p.nullifier_hash; expires_at = now + inactivity_window })

-- `verifyWithCloudApi`
unfoldable pub verify_with_cloud_api : CloudAnswer → SelfieProof → ℕ → Verified ⊎ SelfieError
verify_with_cloud_api CloudAnswer.rejected p now = inr SelfieError.api_error
verify_with_cloud_api (CloudAnswer.accepted named) p now = inl (record {
  nullifier_hash = elim (truthy named) [ some n ↦ n | none ↦ p.nullifier_hash ];
  expires_at = now + inactivity_window;
})

-- `verifySelfieProof`, with the mode and the action of the service
unfoldable pub verify_selfie_proof :
    Ethers → Mode → Text → CloudAnswer → SelfieProof → Option Text → ℕ → Verified ⊎ SelfieError
verify_selfie_proof ethers mode action answer p expected now =
    if is_disabled mode
    then inr SelfieError.not_configured
    else if is_empty p.nullifier_hash || is_empty p.merkle_root || is_empty p.proof
    then inr SelfieError.malformed
    else if not (is_selfie_or_orb p.credential_type)
    then inr SelfieError.insufficient
    else if not (text_eq p.action action)
    then inr SelfieError.action_mismatch
    else if not (signal_matches ethers expected p.signal)
    then inr SelfieError.signal_mismatch
    else elim mode [
      | Mode.sandbox ↦ verify_in_sandbox p now
      | _ ↦ verify_with_cloud_api answer p now
    ]
