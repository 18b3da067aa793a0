-- ===== src/World/Selfie/Registry.antt =====
-- backend/src/world/world-selfie.service.ts: the bindings of signers to humans, in the two maps of the
-- service and in the table human_bindings, with bindHumanSigner and revokeBinding of
-- backend/src/world/world.controller.ts. The in-memory table never throws.
use ethonline.Common.{
  ℕ, ◌+◌, Bool, true, false, not, inl, inr, Option, none, some, List, [], ◌∷◌, ltb, if◌then◌else◌,
}
use ethonline.Common.Text.{Text, text_eq, to_lower, truthy}
use ethonline.Common.Dict.{Dict, lookup, insert, values, erase}
use ethonline.Common.Results.{HttpError, Result, ok, err}
use ethonline.X402.Ethers.{Ethers}
use ethonline.World.Bindings.{Binding, binding_of, binding_with, insert_binding, update_binding}
use ethonline.World.Selfie.{
  Mode, Credential, SelfieProof, CloudAnswer, inactivity_window, verify_selfie_proof,
}

-- `HumanBinding`
pub record HumanBinding : Type 0 where
  pub signer_address : Text
  pub nullifier_hash : Text
  pub credential_type : Credential
  pub bound_at : ℕ
  pub last_active_at : ℕ
  pub expires_at : ℕ
  pub active : Bool

-- `humanBindings`, `nullifierToSigner` and the table.
pub record Humans : Type 0 where
  pub bindings : Dict HumanBinding
  pub signers : Dict Text
  pub table : Dict Binding

-- A binding that is read from the table counts as one by a selfie.
abbrev pub binding_of_row : Text → ℕ → Binding → HumanBinding
binding_of_row signer now row = record {
  signer_address = signer;
  nullifier_hash = row.nullifier_hash;
  credential_type = Credential.eleven;
  bound_at = row.bound_at;
  last_active_at = row.bound_at;
  expires_at = row.expires_at;
  active = ltb now row.expires_at;
}

abbrev pub credential_of : Credential → Credential
credential_of Credential.orb = Credential.orb
credential_of _ = Credential.eleven

abbrev pub new_human_binding : Text → SelfieProof → ℕ → HumanBinding
new_human_binding signer p now = record {
  signer_address = signer;
  nullifier_hash = p.nullifier_hash;
  credential_type = credential_of p.credential_type;
  bound_at = now;
  last_active_at = now;
  expires_at = now + inactivity_window;
  active = true;
}

-- The writes of `bindHumanSigner`.
unfoldable pub add_binding : HumanBinding → Humans → Humans
add_binding b s = record {
  bindings = insert b.signer_address b s.bindings;
  signers = insert b.nullifier_hash b.signer_address s.signers;
  table =
      insert_binding
        (record {
          signer_address = b.signer_address;
          nullifier_hash = b.nullifier_hash;
          bound_at = b.bound_at;
          expires_at = b.expires_at;
        })
        s.table;
}

-- The binding of a signer, which is looked up in the table where the map has none.
unfoldable pub fetch_binding : Text → ℕ → Humans → Humans
fetch_binding signer now s = elim (lookup signer s.bindings) [
  | some b ↦ s
  | none ↦ elim (binding_of signer s.table) [
    | none ↦ s
    | some row ↦ record s {
      bindings = insert signer (binding_of_row signer now row) s.bindings;
      signers = insert row.nullifier_hash signer s.signers;
    }
  ]
]

-- The inactivity window of the binding that is in the map.
unfoldable pub check_activity : Text → ℕ → Humans → Bool × Humans
check_activity signer now s = elim (lookup signer s.bindings) [
  | none ↦ (false, s)
  | some b ↦
      if b.active
      then if ltb b.expires_at now
        then (false, record s { bindings = insert signer (record b { active = false }) s.bindings })
        else (true, s)
      else (false, s)
]

-- The writes of `touchActivity`.
unfoldable pub refresh : Text → ℕ → Humans → Humans
refresh signer now s = elim (lookup signer s.bindings) [
  | none ↦ s
  | some b ↦
      if b.active
      then record s {
        bindings =
            insert signer (record b { last_active_at = now; expires_at = now + inactivity_window })
              s.bindings;
        table = update_binding (now + inactivity_window) signer s.table;
      }
      else s
]

-- `getAllBindings`
unfoldable pub get_all_bindings : Humans → List HumanBinding
get_all_bindings s = values s.bindings

module _ (ethers : Ethers) where
  -- The signer that a nullifier is bound to; an address that is no address counts as none.
  unfoldable pub existing_signer : Text → Humans → Option Text
  existing_signer nullifier s = elim (truthy (lookup nullifier s.signers)) [
    | some signer ↦ some signer
    | none ↦ elim (binding_with nullifier s.table) [
      | none ↦ none
      | some row ↦ truthy (ethers.get_address row.signer_address)
    ]
  ]

  -- The rows of the table after a start, up to one whose address is no address.
  unfoldable pub load_bindings : ℕ → List Binding → Humans → Humans
  load_bindings now [] s = s
  load_bindings now (row ∷ rows) s = elim (ethers.get_address row.signer_address) [
    | none ↦ s
    | some signer ↦ load_bindings now rows (record s {
      bindings = insert signer (binding_of_row signer now row) s.bindings;
      signers = insert row.nullifier_hash signer s.signers;
    })
  ]

  -- `loadFromDatabase`
  unfoldable pub load_from_database : ℕ → Dict Binding → Humans
  load_from_database now table =
      load_bindings now (values table) (record { bindings = []; signers = []; table = table })

  -- `isHumanSignerVerified`
  unfoldable pub is_human_signer_verified : Text → ℕ → Humans → Result Bool × Humans
  is_human_signer_verified address now s = elim (ethers.get_address address) [
    | none ↦ (err HttpError.internal, s)
    | some signer ↦
        let (verified, s') = check_activity signer now (fetch_binding signer now s) in
        (ok verified, s')
  ]

  -- `touchActivity`
  unfoldable pub touch_activity : Text → ℕ → Humans → Result (Unit {0}) × Humans
  touch_activity address now s = elim (ethers.get_address address) [
    | none ↦ (err HttpError.internal, s)
    | some signer ↦ (ok tt, refresh signer now s)
  ]

  -- `getHumanBinding`
  unfoldable pub get_human_binding : Text → ℕ → Humans → Result (Option HumanBinding) × Humans
  get_human_binding address now s = elim (ethers.get_address address) [
    | none ↦ (err HttpError.internal, s)
    | some signer ↦ elim (lookup signer s.bindings) [
      | some b ↦ (ok (some b), s)
      | none ↦ elim (binding_of signer s.table) [
        | none ↦ (ok none, s)
        | some row ↦
            let b = binding_of_row signer now row in
            (ok (some b), record s { bindings = insert signer b s.bindings })
      ]
    ]
  ]

  -- `revokeHumanBinding`
  unfoldable pub revoke_human_binding : Text → Humans → Result (Unit {0}) × Humans
  revoke_human_binding address s = elim (ethers.get_address address) [
    | none ↦ (err HttpError.internal, s)
    | some signer ↦
        let table = erase (to_lower signer) s.table in
        elim (lookup signer s.bindings) [
          | none ↦ (ok tt, record s { table = table })
          | some b ↦ (
            ok tt,
            record {
              bindings = erase signer s.bindings;
              signers = erase b.nullifier_hash s.signers;
              table = table;
            },
          )
        ]
  ]

  -- `existingSigner && existingSigner !== normalizedSigner`
  abbrev pub is_taken : Text → Text → Humans → Bool
  is_taken signer nullifier s = elim (existing_signer nullifier s) [
    | none ↦ false
    | some other ↦ not (text_eq other signer)
  ]

  module _ (mode : Mode) (action : Text) where
    -- `bindHumanSigner` of the service
    unfoldable pub bind_human_signer :
        CloudAnswer → Text → SelfieProof → ℕ → Humans → Result HumanBinding × Humans
    bind_human_signer answer address p now s = elim (ethers.get_address address) [
      | none ↦ (err HttpError.internal, s)
      | some signer ↦ elim (verify_selfie_proof ethers mode action answer p (some signer) now) [
        | inr e ↦ (err HttpError.bad_request, s)
        | inl v ↦
            let b = new_human_binding signer p now in
            if is_taken signer p.nullifier_hash s
            then (err HttpError.bad_request, s)
            else (ok b, add_binding b s)
      ]
    ]

    -- `bindHumanSigner` of the controller; `wallet` is the one of the authenticated user.
    unfoldable pub bind_wallet :
        CloudAnswer → Option Text → Text → SelfieProof → ℕ → Humans → Result HumanBinding × Humans
    bind_wallet answer wallet address p now s = elim (truthy wallet) [
      | none ↦ (err HttpError.forbidden, s)
      | some w ↦ elim (ethers.get_address w) [
        | none ↦ (err HttpError.bad_request, s)
        | some caller ↦ elim (ethers.get_address address) [
          | none ↦ (err HttpError.bad_request, s)
          | some signer ↦
              let bound = bind_human_signer answer caller p now s in
              if text_eq signer caller then bound else (err HttpError.forbidden, s)
        ]
      ]
    ]

  -- The revocation of a binding that was looked up.
  abbrev pub revoke_found :
      Text → Result (Option HumanBinding) × Humans → Result (Unit {0}) × Humans
  revoke_found signer (found, s) = elim found [
    | err e ↦ (err e, s)
    | ok none ↦ (err HttpError.not_found, s)
    | ok (some b) ↦ revoke_human_binding signer s
  ]

  -- `revokeBinding` of the controller
  unfoldable pub revoke_binding : Option Text → Text → ℕ → Humans → Result (Unit {0}) × Humans
  revoke_binding wallet address now s = elim (truthy wallet) [
    | none ↦ (err HttpError.forbidden, s)
    | some w ↦ elim (ethers.get_address w) [
      | none ↦ (err HttpError.bad_request, s)
      | some caller ↦ elim (ethers.get_address address) [
        | none ↦ (err HttpError.bad_request, s)
        | some signer ↦
            if text_eq signer caller
            then revoke_found signer (get_human_binding signer now s)
            else (err HttpError.forbidden, s)
      ]
    ]
  ]
