-- ===== src/World/Bindings.antt =====
-- The table human_bindings of backend/src/database/database.service.ts, and the check of the approver
-- in backend/src/world/world-id-approver.service.ts that reads it. Times are in milliseconds.
use ethonline.Common.{ℕ, ◌+◌, Bool, Option, none, some, [], ◌∷◌, leb, if◌then◌else◌}
use ethonline.Common.Text.{Text, text_eq, to_lower}
use ethonline.Common.Dict.{Dict, lookup, insert}
use ethonline.Common.Results.{HttpError, Result, ok, err}
use ethonline.X402.Ethers.{Ethers}

-- `HumanBindingRow`
pub record Binding : Type 0 where
  pub signer_address : Text
  pub nullifier_hash : Text
  pub bound_at : ℕ
  pub expires_at : ℕ

-- A binding of a human lasts 90 days.
abbrev pub binding_ttl : ℕ
binding_ttl = 7776000000

-- `SELECT * FROM human_bindings WHERE signer_address = ?`
unfoldable pub binding_of : Text → Dict Binding → Option Binding
binding_of signer d = lookup (to_lower signer) d

-- `SELECT * FROM human_bindings WHERE nullifier_hash = ?`: at most the first row
unfoldable pub binding_with : Text → Dict Binding → Option Binding
binding_with nullifier [] = none
binding_with nullifier ((k, b) ∷ d) =
    let rest = binding_with nullifier d in
    if text_eq b.nullifier_hash nullifier then some b else rest

-- `INSERT OR REPLACE INTO human_bindings`
unfoldable pub insert_binding : Binding → Dict Binding → Dict Binding
insert_binding b d = insert (to_lower b.signer_address) b d

-- `UPDATE human_bindings SET expires_at = ? WHERE signer_address = ?`
unfoldable pub update_binding : ℕ → Text → Dict Binding → Dict Binding
update_binding expires signer d = elim (lookup (to_lower signer) d) [
  | none ↦ d
  | some b ↦ insert (to_lower signer) (record b { expires_at = expires }) d
]

-- `assertLedgerApproverVerifiedForApproval`
unfoldable pub assert_verified_for_approval :
    Ethers → Text → Bool → ℕ → Dict Binding → Result (Unit {0}) × Dict Binding
assert_verified_for_approval ethers address required now d =
    if required
    then elim (ethers.get_address address) [
      | none ↦ (err HttpError.internal, d)
      | some approver ↦ elim (binding_of approver d) [
        | none ↦ (err HttpError.forbidden, d)
        | some b ↦
            if leb b.expires_at now
            then (err HttpError.forbidden, d)
            else (ok tt, update_binding (now + binding_ttl) approver d)
      ]
    ]
    else (ok tt, d)
