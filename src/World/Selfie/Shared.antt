-- ===== src/World/Selfie/Shared.antt =====
-- What a binding by a selfie gives its signer, also where the other service asks for an Orb verification.
use ethonline.Common.{
  ℕ, ◌+◌, ◌≡◌, refl, sym, ap, ◌∙◌, true, ◌⊎◌, inl, inr, some, ltb, leb, arith, Bool-cases,
  Option-cases, if◌then◌else◌,
}
use ethonline.Common.Text.{Text, to_lower}
use ethonline.Common.Dict.{Dict, lookup, lookup-insert_self}
use ethonline.Common.Results.{HttpError, ok, err, err_ne_ok, ok_injective}
use ethonline.X402.Ethers.{Ethers}
use ethonline.World.Bindings.{Binding, binding_of, insert_binding, assert_verified_for_approval}
use ethonline.World.Selfie.{
  Mode, SelfieProof, CloudAnswer, Verified, SelfieError, inactivity_window, verify_selfie_proof,
}
use ethonline.World.Selfie.Registry.{
  HumanBinding, Humans, new_human_binding, add_binding, fetch_binding, check_activity, is_taken,
  is_human_signer_verified, bind_human_signer,
}

-- The row of the table that a binding writes.
abbrev pub row_of : HumanBinding → Binding
row_of b = record {
  signer_address = b.signer_address;
  nullifier_hash = b.nullifier_hash;
  bound_at = b.bound_at;
  expires_at = b.expires_at;
}

add_binding-lookup :
    (b : HumanBinding) (s : Humans)
    → (lookup b.signer_address (add_binding b s).bindings ≡ some b)
      × (binding_of b.signer_address (add_binding b s).table ≡ some (row_of b))
unfolding add_binding insert_binding binding_of
add_binding-lookup b s = (
  lookup-insert_self b.signer_address b s.bindings,
  lookup-insert_self (to_lower b.signer_address) (row_of b) s.table,
)

verified-cases :
    (r : Verified ⊎ SelfieError)
    → ((v : Verified) × (r ≡ inl v)) ⊎ ((e : SelfieError) × (r ≡ inr e))
verified-cases (inl v) = inl (v, refl)
verified-cases (inr e) = inr (e, refl)

-- The check of an active binding in the map is the check of its time.
check_activity-held :
    (signer : Text) (v until : ℕ) (b : HumanBinding) (s : Humans)
    → lookup signer s.bindings ≡ some b
    → b.active ≡ true
    → b.expires_at ≡ until
    → (check_activity signer v (fetch_binding signer v s)).0 ≡ leb v until
unfolding check_activity fetch_binding
check_activity-held signer v until b s held active time =
    rw (fetch_binding, held, check_activity, held, active, time)
      (elim (Bool-cases (ltb until v)) [
        | inl over ↦ rw over (ground arith)
        | inr early ↦ rw early (ground arith)
      ])

is_human_signer_verified-held :
    (ethers : Ethers) (address signer : Text) (v until : ℕ) (b : HumanBinding) (s : Humans)
    → ethers.get_address address ≡ some signer
    → lookup signer s.bindings ≡ some b
    → b.active ≡ true
    → b.expires_at ≡ until
    → (is_human_signer_verified ethers address v s).0 ≡ ok (leb v until)
unfolding is_human_signer_verified
is_human_signer_verified-held ethers address signer v until b s named held active time =
    rw (is_human_signer_verified, named)
      (ap ok (check_activity-held signer v until b s held active time))

-- The check of the approver reads the time of the row only.
assert_verified_for_approval-row :
    (ethers : Ethers) (ledger signer : Text) (v : ℕ) (row : Binding) (d : Dict Binding)
    → ethers.get_address ledger ≡ some signer
    → binding_of signer d ≡ some row
    → (assert_verified_for_approval ethers ledger true v d).0
      ≡ (if leb row.expires_at v then err HttpError.forbidden else ok tt)
unfolding assert_verified_for_approval
assert_verified_for_approval-row ethers ledger signer v row d named there =
    elim (Bool-cases (leb row.expires_at v)) [
      | inl over ↦ rw (assert_verified_for_approval, named, there, over) refl
      | inr early ↦ rw (assert_verified_for_approval, named, there, early) refl
    ]

module _ (ethers : Ethers) (mode : Mode) (action : Text) where
  bind_human_signer-cases :
      (answer : CloudAnswer) (address : Text) (p : SelfieProof) (now : ℕ) (s : Humans)
      (b : HumanBinding)
      → (bind_human_signer ethers mode action answer address p now s).0 ≡ ok b
      → (signer : Text) × (ethers.get_address address ≡ some signer)
        × ((v : Verified) × (verify_selfie_proof ethers mode action answer p (some signer) now
              ≡ inl v))
        × (b ≡ new_human_binding signer p now)
        × ((bind_human_signer ethers mode action answer address p now s).1 ≡ add_binding b s)
  unfolding bind_human_signer
  bind_human_signer-cases answer address p now s b done =
      elim (Option-cases (ethers.get_address address)) [
        | inl bad ↦ absurd (err_ne_ok HttpError.internal b (rw (bind_human_signer, bad) at done))
        | inr (signer, named) ↦
            elim (verified-cases
              (verify_selfie_proof ethers mode action answer p (some signer) now)) [
                | inr (e, bad) ↦
                    absurd (
                      err_ne_ok HttpError.bad_request b
                        (rw (bind_human_signer, named, bad) at done))
                | inl (v, good) ↦ elim (Bool-cases (is_taken ethers signer p.nullifier_hash s)) [
                  | inl taken ↦ absurd (
                      err_ne_ok HttpError.bad_request b
                        (rw (bind_human_signer, named, good, taken) at done))
                  | inr free ↦ (
                    signer,
                    named,
                    (v, good),
                    sym (ok_injective _ b (rw (bind_human_signer, named, good, free) at done)),
                    rw (bind_human_signer, named, good, free)
                        (ap (λ x. add_binding x s)
                          (ok_injective _ b (rw (bind_human_signer, named, good, free) at done))),
                  )
                ]
              ]
      ]

  -- A binding that succeeds, by a selfie or an Orb, makes its signer verified for 90 days and no
  -- longer. Where the signer is the Ledger approver, an approval that asks for an Orb
  -- verification of the approver takes it too, for the same 90 days, since both services share
  -- the table.
  pub bind_human_signer-approves :
      (answer : CloudAnswer) (address ledger : Text) (p : SelfieProof) (now v : ℕ) (s : Humans)
      (b : HumanBinding)
      → (bind_human_signer ethers mode action answer address p now s).0 ≡ ok b
      → ethers.get_address ledger ≡ ethers.get_address address
      → ((is_human_signer_verified ethers address v
            (bind_human_signer ethers mode action answer address p now s).1).0
          ≡ ok (leb v (now + inactivity_window)))
        × ((assert_verified_for_approval ethers ledger true v
              (bind_human_signer ethers mode action answer address p now s).1.table).0
            ≡ (if leb (now + inactivity_window) v then err HttpError.forbidden else ok tt))
  bind_human_signer-approves answer address ledger p now v s b done same =
      let (signer, named, _, made, after) = bind_human_signer-cases answer address p now s b done in
      let (held, row) = add_binding-lookup b s in
      let own : b.signer_address ≡ signer = ap (λ (x : HumanBinding). x.signer_address) made in
      let until : b.expires_at ≡ now + inactivity_window =
        ap (λ (x : HumanBinding). x.expires_at) made in
      (
        rw after (
            is_human_signer_verified-held ethers address signer v (now + inactivity_window) b
              (add_binding b s) named
              (ap (λ k. lookup k (add_binding b s).bindings) (sym own) ∙ held)
              (ap (λ (x : HumanBinding). x.active) made) until),
        rw after (
            assert_verified_for_approval-row ethers ledger signer v (row_of b)
              (add_binding b s).table (same ∙ named)
              (ap (λ k. binding_of k (add_binding b s).table) (sym own) ∙ row)
            ∙ ap (λ t. if leb t v then err HttpError.forbidden else ok tt) until),
      )
