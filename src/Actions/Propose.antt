-- ===== src/Actions/Propose.antt =====
-- The daily limit over everything that the controller does.
use ethonline.Common.{ℕ, ◌/◌, ◌≡◌, ◌⊎◌, none, some, arith, Bool-cases, Option-cases, inl, inr}
use ethonline.Common.Int.{ℤ, pos, ◌≤ℤ◌}
use ethonline.Common.Text.{Text}
use ethonline.Common.Dict.{lookup}
use ethonline.Common.BigInt.{parse_big_int}
use ethonline.Common.Results.{Result-cases}
use ethonline.Domain.{Decision, ActionStatus, same_status, TreasuryAction, ProposeActionDto}
use ethonline.ActionStore.{create_action, get_action, new_action, set_risk}
use ethonline.Policy.{Policy, day_id, get_daily_spent, evaluate_deterministic_rules}
use ethonline.Policy.Ledger.{get_daily_spent-caches, get_daily_spent-mandate}
use ethonline.Reservations.{
  Reservations, reserved, refused, acquire_reservation, commit_reservation, release_reservation,
}
use ethonline.Reservations.Budget.{limit_of}
use ethonline.Reservations.Steps.{
  IsWithin, Step-IsWithin as reserve-IsWithin, release, acquire-IsWithin, commit-IsWithin,
}
use ethonline.Guardian.Decide.{FloatPoints, evaluate_action}
use ethonline.Actions.{
  Treasury, Chain, default_ttl, apply_decision, evaluate_proposal, propose_action, check_approval,
  approve_action, reject_action,
}
use ethonline.Actions.Approve.{mandate_of}

-- Evaluating an action at most reads the total of the day.
evaluate_action-policy :
    (floats : FloatPoints) (a : TreasuryAction) (t : ℕ) (p : Policy)
    → ((evaluate_action floats a t p).1 ≡ p)
      ⊎ ((evaluate_action floats a t p).1 ≡ (get_daily_spent t p).1)
unfolding evaluate_action evaluate_deterministic_rules
evaluate_action-policy floats a t p = ground arith

module _ (t : ℕ) where
  read-IsWithin :
      (now : ℕ) (s : Reservations)
      → IsWithin t s
      → IsWithin t (record s { policy = (get_daily_spent now s.policy).1 })
  read-IsWithin now s h = record {
    nonnegative = h.nonnegative;
    within =
        rw (get_daily_spent-caches now t s.policy, limit_of, get_daily_spent-mandate now s.policy)
          h.within;
  }

  evaluated-IsWithin :
      (floats : FloatPoints) (a : TreasuryAction) (now : ℕ) (s : Reservations)
      → IsWithin t s
      → IsWithin t (record s { policy = (evaluate_action floats a now s.policy).1 })
  evaluated-IsWithin floats a now s h = elim (evaluate_action-policy floats a now s.policy) [
    | inl same ↦ rw same h
    | inr read ↦ rw read (read-IsWithin now s h)
  ]

  release-IsWithin :
      (id : Text) (s : Reservations) → IsWithin t s → IsWithin t (release_reservation id s).1
  release-IsWithin id s h = reserve-IsWithin (release id s) h

  apply_decision-IsWithin :
      (d : Decision) (id : Text) (now : ℕ) (s : Treasury)
      → day_id t ≡ day_id (now / 1000)
      → IsWithin t s.reservations
      → IsWithin t (apply_decision d id now s).1.reservations
  unfolding apply_decision
  apply_decision-IsWithin Decision.block id now s same h = release-IsWithin id s.reservations h
  apply_decision-IsWithin Decision.escalate id now s same h = h
  apply_decision-IsWithin Decision.allow id now s same h =
      let after = commit-IsWithin t (now / 1000) same id s.reservations h in
      elim (Result-cases (commit_reservation id (now / 1000) s.reservations).0) [
        | inl (b, done) ↦ rw (apply_decision, done) after
        | inr (e, bad) ↦ rw (apply_decision, bad) after
      ]

  module _ (floats : FloatPoints) where
    evaluate_proposal-IsWithin :
        (a : TreasuryAction) (now : ℕ) (s : Treasury)
        → day_id t ≡ day_id (now / 1000)
        → IsWithin t s.reservations
        → IsWithin t (evaluate_proposal floats a now s).1.reservations
    unfolding evaluate_proposal
    evaluate_proposal-IsWithin a now s same h =
        let after = evaluated-IsWithin floats a (now / 1000) s.reservations h in
        elim (Result-cases (evaluate_action floats a (now / 1000) s.reservations.policy).0) [
          | inr (e, bad) ↦ rw (evaluate_proposal, bad) after
          | inl (d, good) ↦
              let scored : Treasury = record {
                store = set_risk a.id d.risk_score d.requires_human_approval s.store;
                reservations = record s.reservations {
                  policy = (evaluate_action floats a (now / 1000) s.reservations.policy).1;
                };
                events = s.events;
              } in
              let applied = apply_decision-IsWithin d.decision a.id now scored same after in
              elim (Result-cases (apply_decision d.decision a.id now scored).0) [
                | inr (e, bad) ↦ rw (evaluate_proposal, good, bad) applied
                | inl (u, done) ↦ rw (evaluate_proposal, good, done) applied
              ]
        ]

    propose_action-IsWithin :
        (dto : ProposeActionDto) (id : Text) (now : ℕ) (n : ℤ) (s : Treasury)
        → day_id t ≡ day_id (now / 1000)
        → parse_big_int dto.amount ≡ some n
        → pos 0 ≤ℤ n
        → lookup id s.reservations.active ≡ none
        → IsWithin t s.reservations
        → IsWithin t (propose_action floats dto id now s).1.reservations
    unfolding propose_action create_action new_action
    propose_action-IsWithin dto id now n s same amount p free h =
        let after =
          acquire-IsWithin t (now / 1000) same id dto.amount default_ttl n s.reservations amount p
            free h in
        elim (Result-cases
          (acquire_reservation id dto.amount default_ttl (now / 1000) s.reservations).0) [
            | inr (e, bad) ↦ rw (propose_action, bad) after
            | inl (refused reason, denied) ↦ rw (propose_action, denied) after
            | inl (reserved r, granted) ↦
                rw (propose_action, granted) (evaluate_proposal-IsWithin _ now _ same after)
          ]

  approve_action-IsWithin :
      (chain : Chain) (id signer signature : Text) (now : ℕ) (s : Treasury)
      → day_id t ≡ day_id (now / 1000)
      → IsWithin t s.reservations
      → IsWithin t (approve_action chain id signer signature now s).1.reservations
  unfolding approve_action
  approve_action-IsWithin chain id signer signature now s same h =
      elim (Option-cases (get_action id s.store).0) [
        | inl missing ↦ rw (approve_action, missing) h
        | inr (a, found) ↦
            elim (Result-cases (check_approval chain a (mandate_of s) signer signature)) [
              | inr (e, bad) ↦ rw (approve_action, found, bad) h
              | inl (n, granted) ↦
                  let after = commit-IsWithin t (now / 1000) same a.id s.reservations h in
                  elim (Result-cases (commit_reservation a.id (now / 1000) s.reservations).0) [
                    | inr (e, bad) ↦ rw (approve_action, found, granted, bad) after
                    | inl (b, done) ↦ rw (approve_action, found, granted, done) after
                  ]
            ]
      ]

  reject_action-IsWithin :
      (id : Text) (now : ℕ) (s : Treasury)
      → IsWithin t s.reservations
      → IsWithin t (reject_action id now s).1.reservations
  unfolding reject_action
  reject_action-IsWithin id now s h = elim (Option-cases (get_action id s.store).0) [
    | inl missing ↦ rw (reject_action, missing) h
    | inr (a, found) ↦ elim (Bool-cases (same_status a.status ActionStatus.pending)) [
      | inr late ↦ rw (reject_action, found, late) h
      | inl waits ↦ rw (reject_action, found, waits) (release-IsWithin a.id s.reservations h)
    ]
  ]

-- What the controller does on the day of `t`.
pub data Step (t : ℕ) (floats : FloatPoints) (chain : Chain) : Treasury → Treasury → Type 0 where
  proposes :
      (dto : ProposeActionDto) (id : Text) (now : ℕ) (n : ℤ) (s : Treasury)
      → day_id t ≡ day_id (now / 1000)
      → parse_big_int dto.amount ≡ some n
      → pos 0 ≤ℤ n
      → lookup id s.reservations.active ≡ none
      → Step t floats chain s (propose_action floats dto id now s).1
  approves :
      (id signer signature : Text) (now : ℕ) (s : Treasury)
      → day_id t ≡ day_id (now / 1000)
      → Step t floats chain s (approve_action chain id signer signature now s).1
  rejects : (id : Text) (now : ℕ) (s : Treasury) → Step t floats chain s (reject_action id now s).1

pub data Reach (t : ℕ) (floats : FloatPoints) (chain : Chain) (s : Treasury)
    : Treasury → Type 0 where
  here : Reach t floats chain s s
  next :
      {u v : Treasury}
      → Reach t floats chain s u
      → Step t floats chain u v
      → Reach t floats chain s v

Step-IsWithin :
    {t : ℕ} {floats : FloatPoints} {chain : Chain} {s s' : Treasury}
    → Step t floats chain s s'
    → IsWithin t s.reservations
    → IsWithin t s'.reservations
Step-IsWithin {t} {floats} (proposes dto id now n s same amount p free) h =
    propose_action-IsWithin t floats dto id now n s same amount p free h
Step-IsWithin {t} {floats} {chain} (approves id signer signature now s same) h =
    approve_action-IsWithin t chain id signer signature now s same h
Step-IsWithin {t} (rejects id now s) h = reject_action-IsWithin t id now s h

-- However the proposals, approvals and rejections of one day follow each other, what is spent and
-- reserved on this day stays within the daily limit of the mandate, if it is to begin with, no
-- proposed amount is negative, and every proposal has an id without a reservation.
pub controller-IsWithin :
    (t : ℕ) (floats : FloatPoints) (chain : Chain) (s s' : Treasury)
    → IsWithin t s.reservations
    → Reach t floats chain s s'
    → IsWithin t s'.reservations
controller-IsWithin t floats chain s s' h here = h
controller-IsWithin t floats chain s s' h (next before st) =
    Step-IsWithin st (controller-IsWithin t floats chain s _ h before)
