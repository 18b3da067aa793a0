-- ===== src/Tests/Selfie.antt =====
-- A run of a binding by a selfie, without a signal, for the address of the Ledger approver.
use ethonline.Common.{◌≡◌, refl, true, none, some, [], if◌then◌else◌, leb}
use ethonline.Common.Text.{Text, codes, text_eq}
use ethonline.Common.Dict.{lookup}
use ethonline.Common.Results.{HttpError, ok, err}
use ethonline.X402.Ethers.{Ethers}
use ethonline.World.Bindings.{binding_with, assert_verified_for_approval}
use ethonline.World.Selfie.{
  Mode, Credential, SelfieProof, CloudAnswer, verify_selfie_proof, verify_with_cloud_api,
}
use ethonline.World.Selfie.Registry.{
  Humans, new_human_binding, existing_signer, is_human_signer_verified, bind_human_signer,
}
use ethonline.World.Selfie.Shared.{bind_human_signer-approves}

abbrev ethers : Ethers
ethers = record { get_address = some; verify_message = λ message signature. some signature }

abbrev ledger : Text
ledger = codes "0xLedger"

abbrev action : Text
action = codes "chapter2_human_verification"

abbrev proof : SelfieProof
proof = record {
  merkle_root = codes "0x01";
  nullifier_hash = codes "0xAB";
  proof = codes "0x02";
  credential_type = Credential.selfie;
  action = action;
  signal = none;
}

abbrev before : Humans
before = record { bindings = []; signers = []; table = [] }

abbrev after : Humans
after =
    (bind_human_signer ethers Mode.cloud_api action (CloudAnswer.accepted none) ledger proof 1000
      before).1

bound_lem :
    (bind_human_signer ethers Mode.cloud_api action
      (CloudAnswer.accepted none)
      ledger
      proof
      1000
      before).0
    ≡ ok (new_human_binding ledger proof 1000)
unfolding bind_human_signer verify_selfie_proof verify_with_cloud_api text_eq existing_signer lookup
    binding_with
bound_lem = refl

bind_human_signer-approves_example :
    ((is_human_signer_verified ethers ledger 5000 after).0 ≡ ok (leb 5000 7776001000))
    × ((assert_verified_for_approval ethers ledger true 5000 after.table).0
        ≡ (if leb 7776001000 5000 then err HttpError.forbidden else ok tt))
bind_human_signer-approves_example =
    bind_human_signer-approves ethers Mode.cloud_api action (CloudAnswer.accepted none) ledger
      ledger proof 1000 5000 before (new_human_binding ledger proof 1000) bound_lem refl
