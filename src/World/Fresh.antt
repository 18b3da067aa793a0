-- ===== src/World/Fresh.antt =====
-- A session that a step brings into the map is a new one.
use ethonline.Common.{
  ℕ, ◌+◌, ◌≡◌, refl, sym, ap, ◌∙◌, ◌≢◌, inl, inr, none, some, Bool-cases, Option-cases,
}
use mathlib.Core.Path.{subst}
use ethonline.Common.Text.{Text, text_eq}
use ethonline.Common.Dict.{Dict, lookup, insert, lookup-insert, lookup-insert_ne}
use ethonline.Common.Results.{none_ne_some, some_injective, Result-cases}
use ethonline.X402.Ethers.{Ethers}
use ethonline.World.Sessions.{OrbStatus, Phase, Session}
use ethonline.World.Approver.{
  WorldConfig, session_ttl, Approvers, session_of, new_session, update_session,
  get_orb_verification, start_orb_verification, bind_session, bind_ledger_approver, on_tick,
  on_poll, on_verify,
}
use ethonline.World.Steps.{
  session_of-found, bind_ledger_approver-cases, Step, starts, fires, polled, answered, reads, binds,
  approves,
}

module _ (ethers : Ethers) (hash_signal : Text → Text) where
  insert-absent :
      (id k : Text) (y y' : Session) (d : Dict Session)
      → lookup id d ≡ some y
      → lookup k d ≡ none
      → lookup k (insert id y' d) ≡ none
  insert-absent id k y y' d found absent =
      let other : k ≢ id =
        λ same. none_ne_some y (sym absent ∙ ap (λ j. lookup j d) same ∙ found) in
      lookup-insert_ne id k y' d other ∙ absent

  update-absent :
      (id k : Text) (f : Session → Session) (s : Approvers)
      → lookup k s.sessions ≡ none
      → lookup k (update_session id f s).sessions ≡ none
  unfolding update_session
  update-absent id k f s absent = elim (Option-cases (lookup id s.sessions)) [
    | inl missing ↦ rw (update_session, missing) absent
    | inr (y, found) ↦
        rw (update_session, found) (insert-absent id k y (f y) s.sessions found absent)
  ]

  abbrev pub IsFresh : Session → Type 0
  IsFresh x =
      (x.status ≡ OrbStatus.waiting_for_world_app)
      × (x.phase ≡ Phase.resting)
      × (x.nullifier ≡ none)
      × (x.bind_message ≡ none)

  start-IsFresh :
      (config : WorldConfig) (user id url : Text) (now : ℕ) (k : Text) (x : Session) (s : Approvers)
      → lookup k s.sessions ≡ none
      → lookup k (start_orb_verification ethers config user (some (id, url)) now s).1.sessions
        ≡ some x
      → IsFresh x
  unfolding start_orb_verification
  start-IsFresh config user id url now k x s absent there =
      elim (Bool-cases config.is_world_id_configured) [
        | inr off ↦ absurd (none_ne_some x (sym absent ∙ rw (start_orb_verification, off) at there))
        | inl on ↦ elim (Option-cases (ethers.get_address config.ledger_approver_address)) [
          | inl bad ↦
              absurd (none_ne_some x (sym absent ∙ rw (start_orb_verification, on, bad) at there))
          | inr (approver, h) ↦
              let new = new_session user id url (now + session_ttl) in
              let seen : lookup k (insert id new s.sessions) ≡ some x =
                rw (start_orb_verification, on, h) at there in
              elim (Bool-cases (text_eq k id)) [
                | inr other ↦ absurd (
                    none_ne_some x
                      (sym absent ∙ (rw (lookup-insert id k new s.sessions, other) at seen)))
                | inl same ↦
                    let one : new ≡ x =
                      some_injective new x (rw (lookup-insert id k new s.sessions, same) at seen) in
                    subst IsFresh one (refl, refl, refl, refl)
              ]
        ]
      ]

  bind-absent :
      (config : WorldConfig) (user id signature : Text) (now : ℕ) (k : Text) (s : Approvers)
      → lookup k s.sessions ≡ none
      → lookup k (bind_ledger_approver ethers config user id signature now s).1.sessions ≡ none
  unfolding bind_session
  bind-absent config user id signature now k s absent =
      elim (bind_ledger_approver-cases ethers config user id signature now s) [
        | inl (same, _) ↦ rw same absent
        | inr b ↦ rw b.written (insert-absent id k b.session _ s.sessions b.found absent)
      ]

  read-absent :
      (user id : Text) (now : ℕ) (k : Text) (s : Approvers)
      → lookup k s.sessions ≡ none
      → lookup k (get_orb_verification user id now s).1.sessions ≡ none
  unfolding get_orb_verification
  read-absent user id now k s absent = elim (Result-cases (session_of user id s)) [
    | inr (e, bad) ↦ rw (get_orb_verification, bad) absent
    | inl (y, named) ↦
        rw (get_orb_verification, named)
          (insert-absent id k y _ s.sessions (session_of-found user id s y named).0 absent)
  ]

  -- A session that was not there before a step is a new one.
  pub Step-IsFresh :
      (now : ℕ) (k : Text) (x : Session) (s s' : Approvers)
      → Step ethers hash_signal now s s'
      → lookup k s.sessions ≡ none
      → lookup k s'.sessions ≡ some x
      → IsFresh x
  unfolding on_tick on_poll on_verify
  Step-IsFresh now k x s _ (starts config user id url fresh) absent there =
      start-IsFresh config user id url now k x s absent there
  Step-IsFresh now k x s _ (fires id) absent there =
      absurd (none_ne_some x (sym (update-absent id k _ s absent) ∙ there))
  Step-IsFresh now k x s _ (polled id r) absent there =
      absurd (none_ne_some x (sym (update-absent id k _ s absent) ∙ there))
  Step-IsFresh now k x s _ (answered config approver id response) absent there =
      absurd (none_ne_some x (sym (update-absent id k _ s absent) ∙ there))
  Step-IsFresh now k x s _ (reads user id) absent there =
      absurd (none_ne_some x (sym (read-absent user id now k s absent) ∙ there))
  Step-IsFresh now k x s _ (binds config user id signature) absent there =
      absurd (none_ne_some x (sym (bind-absent config user id signature now k s absent) ∙ there))
  Step-IsFresh now k x s _ (approves address required) absent there =
      absurd (none_ne_some x (sym absent ∙ there))
