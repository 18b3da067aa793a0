-- ===== src/Tests/Treasury.antt =====
-- Runs of the store, the policy, the reservations and the controller.
use mathlib.Core.Option
use ethonline.Common.{
  ◌≡◌, refl, ◌≢◌, ◌↔◌, ◌⊎◌, true, false, none, some, [], ◌∷◌, ◌==◌, if◌then◌else◌, arith,
}
use ethonline.Common.Int.{pos, negsuc, ◌+ℤ◌, ◌≤ℤ◌, ◌<ℤ◌}
use ethonline.Common.Text.{Text, codes, text_eq}
use ethonline.Common.Dict.{lookup, insert}
use ethonline.Common.NatDict.{lookup as day_lookup}
use ethonline.Common.BigInt.{parse_big_int}
use ethonline.Common.Results.{ok}
use ethonline.Domain.{Decision, ActionStatus, TreasuryAction}
use ethonline.ActionStore.{
  Store, clear, get_action, create_action, new_action, load_from_database, with_status,
  update_status, no_metadata,
}
use ethonline.ActionStore.Mirror.{
  IsMirrored, create_action-IsMirrored, clear-IsMirrored, forget_risk,
}
use ethonline.ActionStore.Restart.{restart-forget_risk}
use ethonline.Policy.{
  day_id, get_daily_spent, record_autonomous_spend, lists_address, update_mandate,
  load_from_database as load_policy,
}
use ethonline.ActionStore.Reached.{started, created, updated, Reach-IsMirrored}
use ethonline.Policy.Ledger.{spent_on, IsBacked}
use ethonline.Policy.Reload.{reloaded, restart-record_autonomous_spend}
use ethonline.Policy.Rules.{
  IsListed, verdict_of, evaluate_deterministic_rules_iff, restart-update_mandate,
}
use ethonline.Reservations.{
  Reservations, reserved, total, acquire_reservation, commit_reservation, drop_expired,
}
use ethonline.Reservations.Budget.{new_reservation, held_at, limit_of, acquire_reservation-IsWithin}
use ethonline.Reservations.Commit.{commit_reservation-conserves, negative_amount-lowers}
use ethonline.Reservations.Steps.{IsWithin, Reach-IsWithin, acquire, commit}
use ethonline.Reservations.Steps
use ethonline.Actions.{Treasury, propose_action, approve_action, check_approval}
use ethonline.Actions.Approve.{IsAuthorized, approve_action-IsAuthorized}
use ethonline.Actions.Propose.{proposes, here, next, controller-IsWithin}
use ethonline.Tests.Data.{
  human, mandate, policy, reservations, treasury, purchase, floats, chain, store,
}

abbrev id : Text
id = codes "act-1"

abbrev sixty : Text
sixty = codes "60"

sixty_lem : parse_big_int sixty ≡ some (pos 60)
unfolding parse_big_int
sixty_lem = refl

start-IsWithin : IsWithin 5 reservations
start-IsWithin = record {
  nonnegative = tt;
  within = unfold total get_daily_spent day_lookup ◌+ℤ◌ in omega arith;
}

-- A proposal of 60 on a fresh day.
controller-IsWithin_example :
    IsWithin 5 (propose_action floats (purchase sixty) id 5000 treasury).1.reservations
controller-IsWithin_example =
    controller-IsWithin 5 floats chain treasury
      (propose_action floats (purchase sixty) id 5000 treasury).1 start-IsWithin
      (next here (
        proposes (purchase sixty) id 5000 (pos 60) treasury refl sixty_lem (omega arith)
          (unfold lookup in refl)))

pub store-IsMirrored : IsMirrored store
unfolding clear
store-IsMirrored = clear-IsMirrored store

-- The store with one pending action.
abbrev waiting : Store
waiting = (create_action (purchase sixty) id 5000 store).1

waiting-IsMirrored : IsMirrored waiting
waiting-IsMirrored = create_action-IsMirrored (purchase sixty) id 5000 store store-IsMirrored

abbrev pending : Treasury
pending = record { store = waiting; reservations = reservations; events = [] }

approved_by_human : (approve_action chain id human (codes "signed") 6000 pending).0 ≡ ok human
approved_by_human =
    unfold approve_action check_approval get_action create_action new_action commit_reservation
      lookup insert text_eq in
    refl

approve_action-IsAuthorized_example :
    (a : TreasuryAction) × (lookup id waiting.actions ≡ some a)
    × IsAuthorized chain pending a human (codes "signed") human
    × (lookup id (approve_action chain id human (codes "signed") 6000 pending).1.store.actions
        ≡ some (
            with_status ActionStatus.approved
              (record { signature = some (codes "signed"); tx_hash = none })
              6000
              a))
approve_action-IsAuthorized_example =
    approve_action-IsAuthorized chain pending human (codes "signed") id 6000 human
      waiting-IsMirrored approved_by_human

Reach-IsMirrored_example :
    IsMirrored (update_status id ActionStatus.rejected no_metadata 7000 waiting).1
Reach-IsMirrored_example =
    Reach-IsMirrored (update_status id ActionStatus.rejected no_metadata 7000 waiting).1
      (updated id ActionStatus.rejected no_metadata 7000 (created (purchase sixty) id 5000 started))

restart-forget_risk_example :
    lookup id (load_from_database waiting.rows).actions
    ≡ Option.map forget_risk (lookup id waiting.actions)
restart-forget_risk_example = restart-forget_risk waiting id waiting-IsMirrored

-- The reservation service alone: a reservation, then its commit.
Reach-IsWithin_example :
    IsWithin 5 (commit_reservation id 6 (acquire_reservation id sixty 300 5 reservations).1).1
Reach-IsWithin_example =
    Reach-IsWithin 5 reservations
      (commit_reservation id 6 (acquire_reservation id sixty 300 5 reservations).1).1 start-IsWithin
      (Steps.next
        (Steps.next Steps.here (
          acquire id sixty 300 5 (pos 60) reservations refl sixty_lem (omega arith)
            (unfold lookup in refl)))
        (commit id 6 (acquire_reservation id sixty 300 5 reservations).1 refl))

acquire_reservation-IsWithin_example :
    let (result, s') = acquire_reservation id sixty 300 5 reservations in
    ((result ≡ ok (reserved (new_reservation id (pos 60) 305)))
      ↔ (spent_on 5 policy +ℤ held_at 5 reservations +ℤ pos 60 ≤ℤ pos 500))
    × ((result ≡ ok (reserved (new_reservation id (pos 60) 305)))
        → (lookup id s'.active ≡ some (new_reservation id (pos 60) 305))
          × (spent_on 5 s'.policy +ℤ total s'.active ≤ℤ limit_of s'))
acquire_reservation-IsWithin_example =
    acquire_reservation-IsWithin id sixty 300 5 (pos 60) reservations sixty_lem
      (unfold lookup in refl)

abbrev held : Reservations
held = record { policy = policy; active = (id, new_reservation id (pos 60) 305) ∷ [] }

commit_reservation-conserves_example :
    let (result, s') = commit_reservation id 6 held in
    (result ≡ ok true)
    × (spent_on 6 s'.policy ≡ spent_on 6 policy +ℤ pos 60)
    × (total s'.active +ℤ pos 60 ≡ total held.active)
    × (spent_on 6 s'.policy +ℤ total s'.active ≡ spent_on 6 policy +ℤ total held.active)
    × (limit_of s' ≡ limit_of held)
    × ((j : Text) → j ≢ id → lookup j s'.active ≡ lookup j held.active)
commit_reservation-conserves_example =
    commit_reservation-conserves id 6 held (new_reservation id (pos 60) 305)
      (unfold lookup text_eq in refl)

negative_amount-lowers_example :
    let after =
      (commit_reservation id 5
        (acquire_reservation id (codes "-7") 300 5 reservations).1).1.policy in
    (spent_on 5 after ≡ spent_on 5 policy +ℤ negsuc 6) × (spent_on 5 after <ℤ spent_on 5 policy)
negative_amount-lowers_example =
    negative_amount-lowers id (codes "-7") 300 5 (negsuc 6) reservations
      (unfold parse_big_int in refl) (omega arith)
      (unfold total drop_expired get_daily_spent day_lookup ◌+ℤ◌ in omega arith)

policy-IsBacked : IsBacked policy
policy-IsBacked d z e = absurd (unfold day_lookup in cc)

restart-record_autonomous_spend_example :
    spent_on 7 (reloaded mandate (record_autonomous_spend sixty 5 policy).1)
    ≡ (if day_id 7 == day_id 5 then spent_on 5 policy +ℤ pos 60 else spent_on 7 policy)
restart-record_autonomous_spend_example =
    restart-record_autonomous_spend sixty (pos 60) 5 7 mandate policy sixty_lem policy-IsBacked tt

restart-update_mandate_example :
    (load_policy
      (record policy { mandate_rows = (update_mandate mandate policy).mandate_rows })).mandate
    ≡ mandate
restart-update_mandate_example =
    restart-update_mandate mandate policy
      (record policy { mandate_rows = (update_mandate mandate policy).mandate_rows }) refl refl refl

abbrev bought : TreasuryAction
bought = new_action (purchase sixty) id 5000 1

evaluate_deterministic_rules_iff_example :
    ((verdict_of bought 5 policy ≡ some Decision.allow)
      ↔ (IsListed bought 5 policy × (pos 60 ≤ℤ pos 100) × (spent_on 5 policy +ℤ pos 60 ≤ℤ pos 500)))
    × ((verdict_of bought 5 policy ≡ some Decision.escalate) ↔ (
        IsListed bought 5 policy
        × ((pos 100 <ℤ pos 60) ⊎ (pos 500 <ℤ spent_on 5 policy +ℤ pos 60))))
    × ((verdict_of bought 5 policy ≡ some Decision.block) ↔ (
        (lists_address mandate.approved_recipients bought.recipient ≡ false)
        ⊎ (lists_address mandate.approved_tokens bought.token ≡ false)))
evaluate_deterministic_rules_iff_example =
    evaluate_deterministic_rules_iff bought 5 policy (pos 60) (unfold new_action in sixty_lem)
