-- ===== src/Actions/Approve.antt =====
-- What an approval and a rejection require and change.
use ethonline.Common.{
  ℕ, ◌/◌, ◌≡◌, ◌≢◌, ◌∙◌, sym, ap, true, none, some, arith, Option-cases, inl, inr,
}
use ethonline.Common.Text.{Text, text_eq, text_eq_iff}
use ethonline.Common.Dict.{lookup, lookup-insert_self}
use ethonline.Common.Results.{HttpError, Result, ok, err, Result-cases}
use ethonline.Domain.{ActionStatus, TreasuryAction, TreasuryMandate}
use ethonline.ActionStore.{get_action, with_status}
use ethonline.ActionStore.Mirror.{IsMirrored, get_action_lem, update_status-some}
use ethonline.Reservations.{commit_reservation}
use ethonline.Reservations.Commit.{commit_reservation-ok}
use ethonline.Actions.{
  Event, emit, mark, Treasury, Chain, approval_params, check_approval, approve_action,
}

abbrev pub mandate_of : Treasury → TreasuryMandate
mandate_of s = s.reservations.policy.mandate

-- What makes an approval of an action legitimate.
pub record IsAuthorized (chain : Chain) (s : Treasury) (a : TreasuryAction)
    (signer signature normalized : Text) : Type 0 where
  pub pending : a.status ≡ ActionStatus.pending
  pub address : chain.get_address signer ≡ some normalized
  pub human : chain.guard_human_signer ≡ some normalized
  pub signed :
      chain.verify_signature (approval_params chain a (mandate_of s)) signature normalized ≡ true

module _ (chain : Chain) (s : Treasury) (signer signature : Text) where
  check_approval_sound :
      (a : TreasuryAction) (normalized : Text)
      → check_approval chain a (mandate_of s) signer signature ≡ ok normalized
      → IsAuthorized chain s a signer signature normalized
  unfolding check_approval
  check_approval_sound a normalized h = elim (Option-cases (chain.get_address signer)) [
    | inl bad ↦ absurd (ground arith)
    | inr (n, good) ↦ elim (Option-cases chain.guard_human_signer) [
      | inl unread ↦ absurd (ground arith)
      | inr (g, read) ↦
          let same : n ≡ normalized = ground arith in
          let own : text_eq n g ≡ true = ground arith in
          record {
            pending = ground arith;
            address = good ∙ ap some same;
            human = read ∙ ap some (sym ((text_eq_iff n g).0 own) ∙ same);
            signed = ground arith;
          }
    ]
  ]

  -- The state after a granted approval of the action under this id.
  abbrev approved_state : Text → ℕ → Treasury
  approved_state id now = emit (Event.action_approved id) (
      mark id ActionStatus.approved (record { signature = some signature; tx_hash = none }) now
        (record s { reservations = (commit_reservation id (now / 1000) s.reservations).1 }))

  approve_action-refused :
      (id : Text) (now : ℕ) (a : TreasuryAction) (e : HttpError)
      → get_action id s.store ≡ (some a, s.store)
      → check_approval chain a (mandate_of s) signer signature ≡ err e
      → approve_action chain id signer signature now s ≡ (err e, s)
  unfolding approve_action
  approve_action-refused id now a e found refused = ground arith

  approve_action-granted :
      (id : Text) (now : ℕ) (a : TreasuryAction) (n : Text)
      → get_action id s.store ≡ (some a, s.store)
      → a.id ≡ id
      → check_approval chain a (mandate_of s) signer signature ≡ ok n
      → approve_action chain id signer signature now s ≡ (ok n, approved_state id now)
  unfolding approve_action
  approve_action-granted id now a n found own granted =
      let (b, committed) = commit_reservation-ok id (now / 1000) s.reservations in ground arith

  ok-ne-err : {e : HttpError} {n : Text} → ¬ (◌≡◌ {A = Result Text} (err e) (ok n))
  ok-ne-err h = cc

  missing_action :
      (id : Text) (now : ℕ) (n : Text)
      → IsMirrored s.store
      → lookup id s.store.actions ≡ none
      → (approve_action chain id signer signature now s).0 ≢ ok n
  unfolding approve_action
  missing_action id now n h missing done = ground (arith, get_action_lem id s.store h)

  -- An approval succeeds only for an action that is pending, with a signature of exactly this
  -- action under the current mandate by the human signer that the guard contract names. Then the
  -- action is approved and carries the signature.
  pub approve_action-IsAuthorized :
      (id : Text) (now : ℕ) (normalized : Text)
      → IsMirrored s.store
      → (approve_action chain id signer signature now s).0 ≡ ok normalized
      → (a : TreasuryAction) × (lookup id s.store.actions ≡ some a)
        × IsAuthorized chain s a signer signature normalized
        × (lookup id (approve_action chain id signer signature now s).1.store.actions
            ≡ some (
                with_status ActionStatus.approved
                  (record { signature = some signature; tx_hash = none })
                  now
                  a))
  approve_action-IsAuthorized id now normalized h done =
      elim (Option-cases (lookup id s.store.actions)) [
        | inl missing ↦ absurd (missing_action id now normalized h missing done)
        | inr (a, listed) ↦
            let found = get_action_lem id s.store h ∙ rw listed in
            let own = (h.listed id a listed).own_id in
            elim (Result-cases (check_approval chain a (mandate_of s) signer signature)) [
              | inr (e, refused) ↦
                  absurd (ok-ne-err (rw (approve_action-refused id now a e found refused) at done))
              | inl (n, granted) ↦
                  let result = approve_action-granted id now a n found own granted in
                  let same : n ≡ normalized = ground arith in
                  (
                    a,
                    listed,
                    check_approval_sound a normalized (granted ∙ ap ok same),
                    rw
                        (
                          result,
                          update_status-some id ActionStatus.approved
                              (record { signature = some signature; tx_hash = none }) now s.store a
                              h listed,
                        )
                        (lookup-insert_self id _ s.store.actions),
                  )
            ]
      ]
