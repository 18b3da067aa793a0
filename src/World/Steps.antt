-- ===== src/World/Steps.antt =====
-- The calls and callbacks of the service as steps, in any order, with restarts that lose the sessions.
use ethonline.Common.{
  ℕ, ◌≤◌, ◌≡◌, refl, sym, ap, ◌∙◌, ◌≢◌, ◌⊎◌, inl, inr, Bool, true, false, not, Option, none, some,
  [], ◌||◌, arith, Bool-cases, Option-cases,
}
use mathlib.Core.Path.{subst}
use ethonline.Common.Text.{truthy, truthy-some, Text, text_eq, text_eq_iff}
use ethonline.Common.Dict.{Dict, lookup, insert, lookup-insert, lookup-insert_ne}
use ethonline.Common.Results.{
  none_ne_some, HttpError, ok_injective, some_injective, ok, err, Result-cases,
}
use ethonline.X402.Ethers.{Ethers}
use ethonline.World.Bindings.{Binding, assert_verified_for_approval}
use ethonline.World.Sessions.{
  OrbStatus, Session, PollResult, VerifyResponse, tick, poll_returns, verify_returns, expire,
  is_over, is_verified, stop_polling,
}
use ethonline.World.Approver.{
  WorldConfig, Approvers, session_of, update_session, get_orb_verification, start_orb_verification,
  binding_details, check_binding, bind_session, bind_ledger_approver, on_tick, on_poll, on_verify,
}

-- The session that a call names.
pub session_of-found :
    (user id : Text) (s : Approvers) (y : Session)
    → session_of user id s ≡ ok y
    → (lookup id s.sessions ≡ some y) × (y.user_id ≡ user)
unfolding session_of
session_of-found user id s y e = elim (Option-cases (lookup id s.sessions)) [
  | inl missing ↦ absurd (ground arith)
  | inr (z, found) ↦ elim (Bool-cases (text_eq z.user_id user)) [
    | inr other ↦ absurd (ground arith)
    | inl own ↦
        let same : z ≡ y = ok_injective z y (rw (session_of, found, own) at e) in
        (found ∙ ap some same, ap (λ w. w.user_id) (sym same) ∙ (text_eq_iff z.user_id user).0 own)
  ]
]

-- A session that can be bound.
pub binding_details-ready :
    (now : ℕ) (x : Session) (nullifier message : Text)
    → binding_details now x ≡ ok (nullifier, message)
    → (is_over now x ≡ false)
      × (is_verified x.status ≡ true)
      × (x.nullifier ≡ some nullifier)
      × (x.bind_message ≡ some message)
unfolding binding_details
binding_details-ready now x n m e =
    elim (Bool-cases (is_over now x || not (is_verified x.status))) [
      | inl closed ↦ absurd (ground arith)
      | inr ready ↦ elim (Option-cases (truthy x.bind_message)) [
        | inl missing ↦ absurd (ground arith)
        | inr (message, h1) ↦ elim (Option-cases (truthy x.nullifier)) [
          | inl missing ↦ absurd (ground arith)
          | inr (nullifier, h2) ↦
              let same : (nullifier, message) ≡ (n, m) =
                ok_injective _ _ (rw (binding_details, ready, h1, h2) at e) in
              (
                ground arith,
                ground arith,
                truthy-some x.nullifier nullifier h2 ∙ ap (λ p. some p.0) same,
                truthy-some x.bind_message message h1 ∙ ap (λ p. some p.1) same,
              )
        ]
      ]
    ]

module _ (ethers : Ethers) (config : WorldConfig) where
  -- A binding that succeeds: the session, and what was checked.
  pub record Bound (user id signature : Text) (now : ℕ) (s s' : Approvers) : Type 0 where
    pub session : Session
    pub approver : Text
    pub nullifier : Text
    pub message : Text
    pub found : lookup id s.sessions ≡ some session
    pub own : session.user_id ≡ user
    pub details : binding_details now session ≡ ok (nullifier, message)
    pub checked : check_binding ethers config nullifier message signature s.bindings ≡ ok approver
    pub written : s' ≡ bind_session id approver nullifier now session s

  pub bind_ledger_approver-cases :
      (user id signature : Text) (now : ℕ) (s : Approvers)
      → (((bind_ledger_approver ethers config user id signature now s).1 ≡ s)
          × ((e : HttpError) × ((bind_ledger_approver ethers config user id signature now s).0
                ≡ err e)))
        ⊎ Bound user id signature now s
            (bind_ledger_approver ethers config user id signature now s).1
  unfolding bind_ledger_approver
  bind_ledger_approver-cases user id signature now s = elim (Result-cases (session_of user id s)) [
    | inr (e, bad) ↦
        inl (rw (bind_ledger_approver, bad) refl, (e, rw (bind_ledger_approver, bad) refl))
    | inl (x, named) ↦
        let (found, own) = session_of-found user id s x named in
        elim (Result-cases (binding_details now x)) [
          | inr (e, bad) ↦ inl (
            rw (bind_ledger_approver, named, bad) refl,
            (e, rw (bind_ledger_approver, named, bad) refl),
          )
          | inl ((nullifier, message), details) ↦
              elim (Result-cases
                (check_binding ethers config nullifier message signature s.bindings)) [
                  | inr (e, bad) ↦ inl (
                    rw (bind_ledger_approver, named, details, bad) refl,
                    (e, rw (bind_ledger_approver, named, details, bad) refl),
                  )
                  | inl (approver, checked) ↦ inr (record {
                    session = x;
                    approver = approver;
                    nullifier = nullifier;
                    message = message;
                    found = found;
                    own = own;
                    details = details;
                    checked = checked;
                    written = rw (bind_ledger_approver, named, details, checked) refl;
                  })
                ]
        ]
  ]

module _ (ethers : Ethers) (hash_signal : Text → Text) where
  -- What happens at the time `now`. The bridge gives each request a new id; the configuration may
  -- change between two steps.
  pub data Step (now : ℕ) (s : Approvers) : Approvers → Type 0 where
    starts :
        (config : WorldConfig) (user id connector_url : Text)
        → lookup id s.sessions ≡ none
        → Step now s (start_orb_verification ethers config user (some (id, connector_url)) now s).1
    fires : (id : Text) → Step now s (on_tick id now s)
    polled : (id : Text) (r : PollResult) → Step now s (on_poll id r s)
    answered :
        (config : WorldConfig) (approver id : Text) (response : Option (Option VerifyResponse))
        → Step now s (on_verify ethers config hash_signal approver id response s)
    reads : (user id : Text) → Step now s (get_orb_verification user id now s).1
    binds :
        (config : WorldConfig) (user id signature : Text)
        → Step now s (bind_ledger_approver ethers config user id signature now s).1
    approves :
        (address : Text) (required : Bool)
        → Step now s (record s {
          bindings = (assert_verified_for_approval ethers address required now s.bindings).1;
        })

  -- The states that the service is in at a time.
  pub data Reach : ℕ → Approvers → Type 0 where
    booted : Reach 0 (record { sessions = []; bindings = [] })
    later : {t : ℕ} {s s' : Approvers} (u : ℕ) → Reach t s → t ≤ u → Step u s s' → Reach u s'
    restarted :
        {t : ℕ} {s : Approvers}
        → Reach t s
        → Reach t (record { sessions = []; bindings = s.bindings })

  -- What a step at the time `now` does to one session.
  pub data Change (now : ℕ) (x : Session) : Session → Type 0 where
    kept : Change now x x
    ticked : Change now x (tick now x)
    poll_done : (r : PollResult) → Change now x (poll_returns r x)
    verify_done :
        (action : Option Text) (approver : Text) (response : Option (Option VerifyResponse))
        (d : Dict Binding)
        → Change now x (verify_returns ethers hash_signal action approver response d x)
    expiry : Change now x (expire now x)
    binding :
        is_over now x ≡ false
        → is_verified x.status ≡ true
        → Change now x (stop_polling (record x { status = OrbStatus.bound }))

  abbrev pub Changes : ℕ → Text → Session → Dict Session → Type 0
  Changes now k x d = (x' : Session) × (lookup k d ≡ some x') × Change now x x'

  insert-Changes :
      (now : ℕ) (id k : Text) (y y' x : Session) (d : Dict Session)
      → lookup id d ≡ some y
      → Change now y y'
      → lookup k d ≡ some x
      → Changes now k x (insert id y' d)
  insert-Changes now id k y y' x d found change there = elim (Bool-cases (text_eq k id)) [
    | inr other ↦ (x, rw (lookup-insert id k y' d, other) there, kept)
    | inl same ↦
        let named : k ≡ id = (text_eq_iff k id).0 same in
        let one = some_injective y x (sym found ∙ ap (λ j. lookup j d) (sym named) ∙ there) in
        (y', rw (lookup-insert id k y' d, same) refl, subst (λ z. Change now z y') one change)
  ]

  update-Changes :
      (now : ℕ) (id k : Text) (f : Session → Session) (x : Session) (s : Approvers)
      → ((y : Session) → Change now y (f y))
      → lookup k s.sessions ≡ some x
      → Changes now k x (update_session id f s).sessions
  unfolding update_session
  update-Changes now id k f x s change there = elim (Option-cases (lookup id s.sessions)) [
    | inl missing ↦ rw (update_session, missing) (x, there, kept)
    | inr (y, found) ↦
        rw (update_session, found)
          (insert-Changes now id k y (f y) x s.sessions found (change y) there)
  ]

  start-Changes :
      (config : WorldConfig) (user id url : Text) (now : ℕ) (k : Text) (x : Session) (s : Approvers)
      → lookup id s.sessions ≡ none
      → lookup k s.sessions ≡ some x
      → Changes now k x
          (start_orb_verification ethers config user (some (id, url)) now s).1.sessions
  unfolding start_orb_verification
  start-Changes config user id url now k x s fresh there =
      let other : k ≢ id =
        λ same. none_ne_some x (sym fresh ∙ ap (λ j. lookup j s.sessions) (sym same) ∙ there) in
      elim (Bool-cases config.is_world_id_configured) [
        | inr off ↦ rw (start_orb_verification, off) (x, there, kept)
        | inl on ↦ elim (Option-cases (ethers.get_address config.ledger_approver_address)) [
          | inl bad ↦ rw (start_orb_verification, on, bad) (x, there, kept)
          | inr (approver, h) ↦
              rw (start_orb_verification, on, h)
                (x, lookup-insert_ne id k _ s.sessions other ∙ there, kept)
        ]
      ]

  bind-Changes :
      (config : WorldConfig) (user id signature : Text) (now : ℕ) (k : Text) (x : Session)
      (s : Approvers)
      → lookup k s.sessions ≡ some x
      → Changes now k x (bind_ledger_approver ethers config user id signature now s).1.sessions
  unfolding bind_session
  bind-Changes config user id signature now k x s there =
      elim (bind_ledger_approver-cases ethers config user id signature now s) [
        | inl (same, _) ↦ rw same (x, there, kept)
        | inr b ↦
            let (open_, verified, _, _) =
              binding_details-ready now b.session b.nullifier b.message b.details in
            rw b.written (
              insert-Changes now id k b.session _ x s.sessions b.found (binding open_ verified)
                there)
      ]

  -- A step leaves every session in the map, and does one change at most to it.
  pub Step-Changes :
      (now : ℕ) (k : Text) (x : Session) (s s' : Approvers)
      → Step now s s'
      → lookup k s.sessions ≡ some x
      → Changes now k x s'.sessions
  unfolding on_tick on_poll on_verify get_orb_verification start_orb_verification
  Step-Changes now k x s _ (starts config user id url fresh) there =
      start-Changes config user id url now k x s fresh there
  Step-Changes now k x s _ (fires id) there = update-Changes now id k _ x s (λ y. ticked) there
  Step-Changes now k x s _ (polled id r) there =
      update-Changes now id k _ x s (λ y. poll_done r) there
  Step-Changes now k x s _ (answered config approver id response) there =
      update-Changes now id k _ x s (λ y. verify_done config.action approver response s.bindings)
        there
  Step-Changes now k x s _ (reads user id) there = elim (Result-cases (session_of user id s)) [
    | inr (e, bad) ↦ rw (get_orb_verification, bad) (x, there, kept)
    | inl (y, named) ↦
        rw (get_orb_verification, named)
          (insert-Changes now id k y (expire now y) x s.sessions
            (session_of-found user id s y named).0 expiry there)
  ]
  Step-Changes now k x s _ (binds config user id signature) there =
      bind-Changes config user id signature now k x s there
  Step-Changes now k x s _ (approves address required) there = (x, there, kept)
