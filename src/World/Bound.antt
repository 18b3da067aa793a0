-- ===== src/World/Bound.antt =====
-- What binding the Ledger approver takes, and what it gives.
use ethonline.Common.{ℕ, ◌+◌, ◌<◌, ◌≡◌, refl, sym, ap, ◌∙◌, true, false, some, arith, inl, inr, leb}
use ethonline.Common.Text.{Text, to_lower}
use ethonline.Common.Dict.{Dict, lookup, lookup-insert_self}
use ethonline.Common.Results.{err_ne_ok, some_injective, ok}
use ethonline.X402.Ethers.{Ethers}
use ethonline.World.Bindings.{
  Binding, binding_ttl, insert_binding, binding_of, assert_verified_for_approval,
}
use ethonline.World.Sessions.{Session, is_over, is_verified, bind_message_of}
use ethonline.World.Approver.{
  WorldConfig, Approvers, ApproverStatus, bind_session, bind_ledger_approver,
}
use ethonline.World.Steps.{Reach, bind_ledger_approver-cases, binding_details-ready}
use ethonline.World.Machine.{message_of, Reach-IsTimely}
use ethonline.World.Nullifiers.{check_binding-ok}

abbrev pub new_binding : Text → Text → ℕ → Binding
new_binding approver nullifier now = record {
  signer_address = approver;
  nullifier_hash = nullifier;
  bound_at = now;
  expires_at = now + binding_ttl;
}

module _ (ethers : Ethers) (hash_signal : Text → Text) (config : WorldConfig) where
  approves_within :
      (approver address : Text) (b : Binding) (v : ℕ) (d : Dict Binding)
      → ethers.get_address address ≡ some approver
      → binding_of approver d ≡ some b
      → v < b.expires_at
      → (assert_verified_for_approval ethers address true v d).0 ≡ ok tt
  unfolding assert_verified_for_approval
  approves_within approver address b v d h1 h2 early =
      let open_ : leb b.expires_at v ≡ false = ground arith in
      rw (assert_verified_for_approval, h1, h2, open_) refl

  bind_session-binding :
      (id approver nullifier : Text) (now : ℕ) (x : Session) (s : Approvers)
      → binding_of approver (bind_session id approver nullifier now x s).bindings
        ≡ some (new_binding approver nullifier now)
  unfolding bind_session insert_binding binding_of
  bind_session-binding id approver nullifier now x s =
      lookup-insert_self (to_lower approver) _ s.bindings

  -- A binding succeeds only for the user of a verified session that is not over, with a signature
  -- of the approver on the message of the session's nullifier. It then stands for 90 days, in
  -- which an approval with the Ledger passes the check of the human.
  pub bind_ledger_approver-approves :
      (t u v : ℕ) (user id signature : Text) (s : Approvers) (status : ApproverStatus)
      → Reach ethers hash_signal t s
      → (bind_ledger_approver ethers config user id signature u s).0 ≡ ok status
      → v < u + binding_ttl
      → (x : Session) × (nullifier approver signer : Text) × (lookup id s.sessions ≡ some x)
        × (x.user_id ≡ user)
        × (is_verified x.status ≡ true)
        × (is_over u x ≡ false)
        × (x.nullifier ≡ some nullifier)
        × (ethers.verify_message (bind_message_of nullifier) signature ≡ some signer)
        × (ethers.get_address signer ≡ some approver)
        × (ethers.get_address config.ledger_approver_address ≡ some approver)
        × (binding_of approver (bind_ledger_approver ethers config user id signature u s).1.bindings
            ≡ some (new_binding approver nullifier u))
        × ((assert_verified_for_approval ethers config.ledger_approver_address true v
              (bind_ledger_approver ethers config user id signature u s).1.bindings).0
            ≡ ok tt)
  bind_ledger_approver-approves t u v user id signature s status r done early =
      elim (bind_ledger_approver-cases ethers config user id signature u s) [
        | inl (_, (e, failed)) ↦ absurd (err_ne_ok e status (sym failed ∙ done))
        | inr b ↦
            let (h1, (signer, h2, h3), _) =
              check_binding-ok ethers config b.nullifier b.message signature s.bindings b.approver
                b.checked in
            let (in_time, verified, held, message) =
              binding_details-ready u b.session b.nullifier b.message b.details in
            let named : b.message ≡ bind_message_of b.nullifier = some_injective _ _ (
              sym message
              ∙ (Reach-IsTimely ethers hash_signal t s r id b.session b.found).named
              ∙ ap message_of held) in
            let row =
              ap (λ (z : Approvers). binding_of b.approver z.bindings) b.written
              ∙ bind_session-binding id b.approver b.nullifier u b.session s in
            (
              b.session,
              b.nullifier,
              b.approver,
              signer,
              b.found,
              b.own,
              verified,
              in_time,
              held,
              ap (λ m. ethers.verify_message m signature) (sym named) ∙ h2,
              h3,
              h1,
              row,
              approves_within b.approver config.ledger_approver_address
                  (new_binding b.approver b.nullifier u) v _ h1 row early,
            )
      ]
