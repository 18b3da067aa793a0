-- ===== src/World/Nullifiers.antt =====
-- The table human_bindings in every reachable state.
use ethonline.Common.{
  ℕ, ◌+◌, ◌≡◌, refl, ap, ◌∙◌, Bool, false, some, arith, Bool-cases, Option-cases, inl, inr, leb,
}
use mathlib.Core.Path.{subst}
use ethonline.Common.Text.{Text, text_eq, text_eq_iff, to_lower}
use ethonline.Common.Dict.{Dict, lookup}
use ethonline.Common.Results.{ok_injective, ok}
use ethonline.X402.Ethers.{Ethers}
use ethonline.World.Bindings.{
  Binding, binding_ttl, insert_binding, binding_of, update_binding, assert_verified_for_approval,
}
use ethonline.World.Sessions.{is_bound_elsewhere}
use ethonline.World.Approver.{
  WorldConfig, Approvers, bind_session, check_binding, get_orb_verification, start_orb_verification,
  on_tick, on_poll, on_verify, update_session,
}
use ethonline.World.Steps.{
  Step, Reach, booted, later, restarted, starts, fires, polled, answered, reads, binds, approves,
  Bound, bind_ledger_approver-cases,
}
use ethonline.World.Unique.{
  IsOneToOne-lookup, IsOneToOne, AreRows, insert-IsOneToOne, lookup-IsFree, insert-AreRows,
  lookup-Row, elsewhere-IsFree,
}

-- What `check_binding` has checked when it succeeds.
pub check_binding-ok :
    (ethers : Ethers) (config : WorldConfig) (n message signature : Text) (d : Dict Binding)
    (approver : Text)
    → check_binding ethers config n message signature d ≡ ok approver
    → (ethers.get_address config.ledger_approver_address ≡ some approver)
      × ((signer : Text) × (ethers.verify_message message signature ≡ some signer)
          × (ethers.get_address signer ≡ some approver))
      × (is_bound_elsewhere ethers approver n d ≡ some false)
unfolding check_binding
check_binding-ok ethers config n message signature d approver e =
    elim (Option-cases (ethers.get_address config.ledger_approver_address)) [
      | inl bad ↦ absurd (ground arith)
      | inr (a, h1) ↦ elim (Option-cases (ethers.verify_message message signature)) [
        | inl bad ↦ absurd (ground arith)
        | inr (signer, h2) ↦ elim (Option-cases (ethers.get_address signer)) [
          | inl bad ↦ absurd (ground arith)
          | inr (recovered, h3) ↦ elim (Bool-cases (text_eq recovered a)) [
            | inr differs ↦ absurd (ground arith)
            | inl agrees ↦ elim (Option-cases (is_bound_elsewhere ethers a n d)) [
              | inl bad ↦ absurd (ground arith)
              | inr (elsewhere, h4) ↦ elim (Bool-cases elsewhere) [
                | inl bad ↦ absurd (ground arith)
                | inr free ↦
                    let same : a ≡ approver =
                      ok_injective a approver
                        (rw (check_binding, h1, h2, h3, agrees, h4, free) at e) in
                    let own : recovered ≡ approver = (text_eq_iff recovered a).0 agrees ∙ same in
                    (
                      h1 ∙ ap some same,
                      (signer, h2, h3 ∙ ap some own),
                      subst (λ x. is_bound_elsewhere ethers x n d ≡ some false) same
                          (h4 ∙ ap some free),
                    )
              ]
            ]
          ]
        ]
      ]
    ]

module _ (ethers : Ethers) (hash_signal : Text → Text)
    (stable : (a b : Text) → ethers.get_address a ≡ some b → ethers.get_address b ≡ some b) where
  pub record IsTable (d : Dict Binding) : Type 0 where
    pub one : IsOneToOne d
    pub rows : AreRows ethers d

  Bound-IsTable :
      (config : WorldConfig) (user id signature : Text) (now : ℕ) (s s' : Approvers)
      → Bound ethers config user id signature now s s'
      → IsTable s.bindings
      → IsTable s'.bindings
  unfolding bind_session insert_binding
  Bound-IsTable config user id signature now s s' b h =
      let (named, _, free) =
        check_binding-ok ethers config b.nullifier b.message signature s.bindings b.approver
          b.checked in
      let alone = elsewhere-IsFree ethers b.approver b.nullifier s.bindings h.one h.rows free in
      rw b.written (record {
        one = insert-IsOneToOne _ _ s.bindings alone h.one;
        rows = insert-AreRows ethers _ _ s.bindings refl (stable _ b.approver named) h.rows;
      })

  update-IsTable :
      (expires : ℕ) (signer : Text) (d : Dict Binding)
      → IsTable d
      → IsTable (update_binding expires signer d)
  unfolding update_binding
  update-IsTable expires signer d h = elim (Option-cases (lookup (to_lower signer) d)) [
    | inl missing ↦ rw (update_binding, missing) h
    | inr (b, there) ↦
        let (key, sum) = lookup-Row ethers (to_lower signer) b d h.rows there in
        rw (update_binding, there)
          (record {
            one = insert-IsOneToOne _ _ d (lookup-IsFree (to_lower signer) b d h.one there) h.one;
            rows = insert-AreRows ethers _ _ d key sum h.rows;
          })
  ]

  assert-IsTable :
      (address : Text) (required : Bool) (now : ℕ) (d : Dict Binding)
      → IsTable d
      → IsTable (assert_verified_for_approval ethers address required now d).1
  unfolding assert_verified_for_approval
  assert-IsTable address required now d h = elim (Bool-cases required) [
    | inr off ↦ rw (assert_verified_for_approval, off) h
    | inl on ↦ elim (Option-cases (ethers.get_address address)) [
      | inl bad ↦ rw (assert_verified_for_approval, on, bad) h
      | inr (approver, h1) ↦ elim (Option-cases (binding_of approver d)) [
        | inl missing ↦ rw (assert_verified_for_approval, on, h1, missing) h
        | inr (b, h2) ↦ elim (Bool-cases (leb b.expires_at now)) [
          | inl late ↦ rw (assert_verified_for_approval, on, h1, h2, late) h
          | inr early ↦
              rw (assert_verified_for_approval, on, h1, h2, early)
                (update-IsTable (now + binding_ttl) approver d h)
        ]
      ]
    ]
  ]

  update_session-bindings :
      (id : Text) (f : _) (s : Approvers) → (update_session id f s).bindings ≡ s.bindings
  unfolding update_session
  update_session-bindings id f s = ground arith

  start-bindings :
      (config : WorldConfig) (user id url : Text) (now : ℕ) (s : Approvers)
      → (start_orb_verification ethers config user (some (id, url)) now s).1.bindings ≡ s.bindings
  unfolding start_orb_verification
  start-bindings config user id url now s = ground arith

  read-bindings :
      (user id : Text) (now : ℕ) (s : Approvers)
      → (get_orb_verification user id now s).1.bindings ≡ s.bindings
  unfolding get_orb_verification
  read-bindings user id now s = ground arith

  Step-IsTable :
      (now : ℕ) (s s' : Approvers)
      → Step ethers hash_signal now s s'
      → IsTable s.bindings
      → IsTable s'.bindings
  unfolding on_tick on_poll on_verify start_orb_verification get_orb_verification
  Step-IsTable now s _ (starts config user id url fresh) h =
      rw (start-bindings config user id url now s) h
  Step-IsTable now s _ (fires id) h = rw (update_session-bindings id _ s) h
  Step-IsTable now s _ (polled id r) h = rw (update_session-bindings id _ s) h
  Step-IsTable now s _ (answered config approver id response) h =
      rw (update_session-bindings id _ s) h
  Step-IsTable now s _ (reads user id) h = rw (read-bindings user id now s) h
  Step-IsTable now s _ (binds config user id signature) h =
      elim (bind_ledger_approver-cases ethers config user id signature now s) [
        | inl (same, _) ↦ rw same h
        | inr b ↦ Bound-IsTable config user id signature now s _ b h
      ]
  Step-IsTable now s _ (approves address required) h =
      assert-IsTable address required now s.bindings h

  Reach-IsTable : (t : ℕ) (s : Approvers) → Reach ethers hash_signal t s → IsTable s.bindings
  Reach-IsTable _ _ booted = record { one = tt; rows = tt }
  Reach-IsTable _ _ (restarted r) = Reach-IsTable _ _ r
  Reach-IsTable _ s (later {t} {s = old} u r le step) =
      Step-IsTable u old s step (Reach-IsTable t old r)

  -- No human stands behind two signers: in every state that the service of the approver reaches,
  -- restarts and changes of the configured approver included, two rows that it wrote to
  -- human_bindings with one nullifier are the same row, if the checksummed form of a checksummed
  -- address is itself.
  pub Reach-nullifier :
      (t : ℕ) (s : Approvers) (j k : Text) (b c : Binding)
      → Reach ethers hash_signal t s
      → lookup j s.bindings ≡ some b
      → lookup k s.bindings ≡ some c
      → b.nullifier_hash ≡ c.nullifier_hash
      → j ≡ k
  Reach-nullifier t s j k b c r first second same =
      IsOneToOne-lookup j k b c s.bindings (Reach-IsTable t s r).one first second same
