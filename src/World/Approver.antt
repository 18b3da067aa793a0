-- ===== src/World/Approver.antt =====
-- backend/src/world/world-id-approver.service.ts: the sessions, the binding of the Ledger approver and
-- its status, over the table human_bindings.
use ethonline.Common.{ℕ, ◌+◌, Bool, true, false, not, ◌||◌, Option, none, some, leb, if◌then◌else◌}
use ethonline.Common.Text.{Text, text_eq, truthy}
use ethonline.Common.Dict.{Dict, lookup, insert}
use ethonline.Common.Results.{HttpError, Result, ok, err}
use ethonline.X402.Ethers.{Ethers}
use ethonline.World.Bindings.{Binding, binding_ttl, binding_of, insert_binding}
use ethonline.World.Sessions.{
  OrbStatus, Phase, Session, OrbVerification, PollResult, VerifyResponse, is_over, is_verified,
  tick, poll_returns, verify_returns, is_bound_elsewhere, expire, stop_polling, to_response,
}

-- `WorldIdConfig`, as far as the service reads it, with ledgerApproverAddress of `X402Config`
pub record WorldConfig : Type 0 where
  pub is_world_id_required : Bool
  pub is_world_id_configured : Bool
  pub action : Option Text
  pub environment : Option Text
  pub ledger_approver_address : Text

-- The map `sessions`, and the table.
pub record Approvers : Type 0 where
  pub sessions : Dict Session
  pub bindings : Dict Binding

-- `ApproverStatus`
pub record ApproverStatus : Type 0 where
  pub approver_address : Text
  pub is_world_id_required : Bool
  pub is_world_id_configured : Bool
  pub environment : Option Text
  pub is_verified : Bool
  pub bound_at : Option ℕ
  pub expires_at : Option ℕ

-- A session expires after 15 minutes.
abbrev pub session_ttl : ℕ
session_ttl = 900000

abbrev pub new_session : Text → Text → Text → ℕ → Session
new_session user id connector_url expires = record {
  request_id = id;
  user_id = user;
  status = OrbStatus.waiting_for_world_app;
  connector_url = some connector_url;
  expires_at = expires;
  bind_message = none;
  error_message = none;
  nullifier = none;
  has_timer = true;
  phase = Phase.resting;
}

-- `sessions.get(id)`, for the user that started it
unfoldable pub session_of : Text → Text → Approvers → Result Session
session_of user id s = elim (lookup id s.sessions) [
  | none ↦ err HttpError.not_found
  | some x ↦ if text_eq x.user_id user then ok x else err HttpError.not_found
]

abbrev pub set_session : Text → Session → Approvers → Approvers
set_session id x s = record s { sessions = insert id x s.sessions }

-- What a callback of the loop does to its session.
unfoldable pub update_session : Text → (Session → Session) → Approvers → Approvers
update_session id f s = elim (lookup id s.sessions) [ none ↦ s | some x ↦ set_session id (f x) s ]

-- The callbacks of the loop of the session `id`: the timer and the bridge.
unfoldable pub on_tick : Text → ℕ → Approvers → Approvers
on_tick id now s = update_session id (tick now) s

unfoldable pub on_poll : Text → PollResult → Approvers → Approvers
on_poll id r s = update_session id (poll_returns r) s

-- `getOrbVerification`
unfoldable pub get_orb_verification :
    Text → Text → ℕ → Approvers → Result OrbVerification × Approvers
get_orb_verification user id now s = elim (session_of user id s) [
  | err e ↦ (err e, s)
  | ok x ↦ (ok (to_response (expire now x)), set_session id (expire now x) s)
]

-- The nullifier of a session that can be bound, with the message to be signed.
unfoldable pub binding_details : ℕ → Session → Result (Text × Text)
binding_details now x =
    if is_over now x || not (is_verified x.status)
    then err HttpError.conflict
    else elim (truthy x.bind_message) [
      | none ↦ err HttpError.conflict
      | some message ↦ elim (truthy x.nullifier) [
        | none ↦ err HttpError.conflict
        | some nullifier ↦ ok (nullifier, message)
      ]
    ]

-- The writes of `bindLedgerApprover`.
unfoldable pub bind_session : Text → Text → Text → ℕ → Session → Approvers → Approvers
bind_session id approver nullifier now x s = record {
  sessions = insert id (stop_polling (record x { status = OrbStatus.bound })) s.sessions;
  bindings =
      insert_binding
        (record {
          signer_address = approver;
          nullifier_hash = nullifier;
          bound_at = now;
          expires_at = now + binding_ttl;
        })
        s.bindings;
}

module _ (ethers : Ethers) (config : WorldConfig) where
  -- `startOrbVerification`; the request of the bridge is `none` when it throws.
  unfoldable pub start_orb_verification :
      Text → Option (Text × Text) → ℕ → Approvers → Result OrbVerification × Approvers
  start_orb_verification user request now s =
      if config.is_world_id_configured
      then elim (ethers.get_address config.ledger_approver_address) [
        | none ↦ (err HttpError.internal, s)
        | some approver ↦ elim request [
          | none ↦ (err HttpError.internal, s)
          | some (id, connector_url) ↦
              let x = new_session user id connector_url (now + session_ttl) in
              (ok (to_response x), set_session id x s)
        ]
      ]
      else (err HttpError.unavailable, s)

  abbrev status_with : Text → Bool → Option ℕ → Option ℕ → ApproverStatus
  status_with approver verified from until = record {
    approver_address = approver;
    is_world_id_required = config.is_world_id_required;
    is_world_id_configured = config.is_world_id_configured;
    environment = if config.is_world_id_configured then config.environment else none;
    is_verified = verified;
    bound_at = from;
    expires_at = until;
  }

  -- `getApproverStatus`
  unfoldable pub get_approver_status : ℕ → Approvers → Result ApproverStatus
  get_approver_status now s = elim (ethers.get_address config.ledger_approver_address) [
    | none ↦ err HttpError.internal
    | some approver ↦ elim (binding_of approver s.bindings) [
      | none ↦ ok (status_with approver false none none)
      | some b ↦
          if leb b.expires_at now
          then ok (status_with approver false none none)
          else ok (status_with approver true (some b.bound_at) (some b.expires_at))
    ]
  ]

  -- The signature is the one of the approver, and the nullifier is not bound to another signer.
  unfoldable pub check_binding : Text → Text → Text → Dict Binding → Result Text
  check_binding nullifier message signature d =
      elim (ethers.get_address config.ledger_approver_address) [
        | none ↦ err HttpError.internal
        | some approver ↦ elim (ethers.verify_message message signature) [
          | none ↦ err HttpError.bad_request
          | some signer ↦ elim (ethers.get_address signer) [
            | none ↦ err HttpError.internal
            | some recovered ↦
                if text_eq recovered approver
                then elim (is_bound_elsewhere ethers approver nullifier d) [
                  | none ↦ err HttpError.internal
                  | some true ↦ err HttpError.conflict
                  | some false ↦ ok approver
                ]
                else err HttpError.unauthorized
          ]
        ]
      ]

  -- `bindLedgerApprover`
  unfoldable pub bind_ledger_approver :
      Text → Text → Text → ℕ → Approvers → Result ApproverStatus × Approvers
  bind_ledger_approver user id signature now s = elim (session_of user id s) [
    | err e ↦ (err e, s)
    | ok x ↦ elim (binding_details now x) [
      | err e ↦ (err e, s)
      | ok (nullifier, message) ↦ elim (check_binding nullifier message signature s.bindings) [
        | err e ↦ (err e, s)
        | ok approver ↦
            let s' = bind_session id approver nullifier now x s in (get_approver_status now s', s')
      ]
    ]
  ]

  -- The callback of the portal.
  unfoldable pub on_verify :
      (Text → Text) → Text → Text → Option (Option VerifyResponse) → Approvers → Approvers
  on_verify hash_signal approver id response s =
      update_session id
        (verify_returns ethers hash_signal config.action approver response s.bindings) s
