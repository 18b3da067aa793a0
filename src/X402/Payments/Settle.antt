-- ===== src/X402/Payments/Settle.antt =====
-- `settle`: what the chain must show, and what it does not rule out.
use ethonline.Common.{
  ℕ, ◌≡◌, refl, ◌≢◌, ◌∙◌, sym, ap, true, Option, none, some, arith, Option-cases, inl, inr,
}
use ethonline.Common.Int.{ℤ, ◌≤ℤ◌}
use ethonline.Common.Text.{Text, text_eq, text_eq_iff, to_lower}
use ethonline.Common.Dict.{lookup, lookup-insert_self, lookup-insert_ne}
use ethonline.Common.BigInt.{parse_big_int}
use ethonline.Common.Results.{some_injective, ok, Result-cases}
use ethonline.Domain.{ActionStatus, same_status, TreasuryAction}
use ethonline.ActionStore.{Metadata, update_status, with_status}
use ethonline.ActionStore.Mirror.{
  IsMirrored, update_status-IsMirrored, update_status-some, get_action_lem,
}
use ethonline.X402.Ethers.{Ethers}
use ethonline.X402.Spending.{Config}
use ethonline.X402.Transfers.{Receipt, verified, unverified, verify_token_transfer}
use ethonline.X402.Payments.{Payments, get_owned_action, settle}
use ethonline.X402.Payments.Escalations.{get_owned_action_lem, get_owned_action-ok}
use ethonline.X402.Payments.Signed.{mark_and_emit-store}
use ethonline.X402.Payments.Receipts.{
  IsTransfer, IsChecked, IsChecked-IsTransfer, IsChecked-verified, verify_token_transfer-verified,
}

module _ (ethers : Ethers) where
  module _ (config : Config) (receipts : Text → Option Receipt) (agent hash : Text) where
    abbrev settled_with : Metadata
    settled_with = record { signature = none; tx_hash = some hash }

    settle-checks :
        (id : Text) (now : ℕ) (s : Payments) (answer : Text)
        → IsMirrored s.store
        → (settle ethers receipts agent id hash now s).0 ≡ ok answer
        → (a : TreasuryAction) × (r : Receipt) × (n : ℤ) × (lookup id s.store.actions ≡ some a)
          × (to_lower a.agent_address ≡ to_lower agent)
          × (a.status ≡ ActionStatus.approved)
          × (parse_big_int a.amount ≡ some n)
          × (receipts hash ≡ some r)
          × IsChecked ethers r a.token a.recipient n
          × (answer ≡ to_lower hash)
          × ((settle ethers receipts agent id hash now s).1.store
              ≡ (update_status id ActionStatus.executed settled_with now s.store).1)
    unfolding settle
    settle-checks id now s answer h done =
        elim (Result-cases (get_owned_action ethers agent id s).0) [
          | inr (e, bad) ↦ absurd (ground arith)
          | inl (a, good) ↦ elim (Option-cases (parse_big_int a.amount)) [
            | inl bad ↦ absurd (ground arith)
            | inr (n, amount) ↦
                elim (Result-cases
                  (verify_token_transfer ethers (receipts hash) a.token a.recipient n)) [
                    | inr (e, bad) ↦ absurd (ground arith)
                    | inl (unverified, missing) ↦ absurd (ground arith)
                    | inl (verified v, there) ↦
                        let ready : same_status a.status ActionStatus.approved ≡ true =
                          ground arith in
                        let (listed, own) = get_owned_action-ok ethers config agent id s a h good in
                        let (r, mined, transfer) =
                          verify_token_transfer-verified ethers (receipts hash) a.token a.recipient
                            n v there in
                        let back =
                          ap (λ x. x.store) (get_owned_action_lem ethers config agent id s h) in
                        (
                          a,
                          r,
                          n,
                          listed,
                          own,
                          ground arith,
                          amount,
                          mined,
                          transfer,
                          ground arith,
                          rw (settle, good, ready, amount, there)
                              (mark_and_emit-store ethers config id ActionStatus.executed _ _ now
                                  (get_owned_action ethers agent id s).1
                                ∙ ap
                                    (λ x.
                                      (update_status id ActionStatus.executed settled_with now x).1)
                                    back),
                        )
                  ]
          ]
        ]

    -- A settlement succeeds only for an approved action of the agent, when logs of the receipt of
    -- the successful transaction are transfers of its token to its recipient that move at least its
    -- amount. The action is then executed and carries the transaction hash. The table of actions is
    -- taken to mirror the map, as it does in every reachable state.
    pub settle-IsTransfer :
        (id : Text) (now : ℕ) (s : Payments) (answer : Text)
        → IsMirrored s.store
        → (settle ethers receipts agent id hash now s).0 ≡ ok answer
        → (a : TreasuryAction) × (r : Receipt) × (n : ℤ) × (lookup id s.store.actions ≡ some a)
          × (to_lower a.agent_address ≡ to_lower agent)
          × (a.status ≡ ActionStatus.approved)
          × (parse_big_int a.amount ≡ some n)
          × (receipts hash ≡ some r)
          × IsTransfer ethers r a.token a.recipient n
          × (answer ≡ to_lower hash)
          × (lookup id (settle ethers receipts agent id hash now s).1.store.actions
              ≡ some (with_status ActionStatus.executed settled_with now a))
    settle-IsTransfer id now s answer h done =
        let (a, r, n, listed, own, ready, amount, mined, transfer, lower, after) =
          settle-checks id now s answer h done in
        (
          a,
          r,
          n,
          listed,
          own,
          ready,
          amount,
          mined,
          IsChecked-IsTransfer ethers r a.token a.recipient n transfer,
          lower,
          rw
              (
                after,
                update_status-some id ActionStatus.executed settled_with now s.store a h listed,
              )
              (lookup-insert_self id _ s.store.actions),
        )

    owned-again :
        (id : Text) (s : Payments) (b : TreasuryAction)
        → IsMirrored s.store
        → lookup id s.store.actions ≡ some b
        → to_lower b.agent_address ≡ to_lower agent
        → get_owned_action ethers agent id s ≡ (ok b, s)
    unfolding get_owned_action
    owned-again id s b h listed own =
        let same : text_eq (to_lower b.agent_address) (to_lower agent) ≡ true =
          (text_eq_iff (to_lower b.agent_address) (to_lower agent)).1 own in
        rw (get_owned_action, get_action_lem id s.store h, listed, same) refl

    settle-again :
        (id : Text) (now : ℕ) (s : Payments) (b : TreasuryAction) (r : Receipt) (m : ℤ)
        → IsMirrored s.store
        → lookup id s.store.actions ≡ some b
        → to_lower b.agent_address ≡ to_lower agent
        → b.status ≡ ActionStatus.approved
        → parse_big_int b.amount ≡ some m
        → receipts hash ≡ some r
        → IsChecked ethers r b.token b.recipient m
        → (settle ethers receipts agent id hash now s).0 ≡ ok (to_lower hash)
    unfolding settle
    settle-again id now s b r m h listed own ready amount mined transfer =
        rw
          (
            settle,
            owned-again id s b h listed own,
            ready,
            amount,
            mined,
            IsChecked-verified ethers r b.token b.recipient m transfer,
          )
          refl

    -- One transaction settles two actions: after it settled one, it also settles another approved
    -- action of the agent with the same token and recipient and an amount that is not larger.
    pub settle-twice :
        (id k : Text) (now later : ℕ) (s : Payments) (answer : Text) (a b : TreasuryAction)
        (n m : ℤ)
        → IsMirrored s.store
        → (settle ethers receipts agent id hash now s).0 ≡ ok answer
        → k ≢ id
        → lookup id s.store.actions ≡ some a
        → parse_big_int a.amount ≡ some n
        → lookup k s.store.actions ≡ some b
        → to_lower b.agent_address ≡ to_lower agent
        → b.status ≡ ActionStatus.approved
        → b.token ≡ a.token
        → b.recipient ≡ a.recipient
        → parse_big_int b.amount ≡ some m
        → m ≤ℤ n
        → (settle ethers receipts agent k hash later
            (settle ethers receipts agent id hash now s).1).0
          ≡ ok (to_lower hash)
    settle-twice id k now later s answer a b n m h done other found value listed own ready token
          recipient amount less =
        let (c, r, v, there, _, _, parsed, mined, transfer, _, after) =
          settle-checks id now s answer h done in
        let same : c ≡ a = some_injective c a (sym there ∙ found) in
        let least : v ≡ n =
          some_injective v n (sym parsed ∙ ap (λ x. parse_big_int x.amount) same ∙ value) in
        let next = (settle ethers receipts agent id hash now s).1 in
        let kept : lookup k next.store.actions ≡ some b =
          rw (after, update_status-some id ActionStatus.executed settled_with now s.store a h found)
            (lookup-insert_ne id k _ s.store.actions other ∙ listed) in
        settle-again k later next b r m
          (rw after (update_status-IsMirrored id ActionStatus.executed settled_with now s.store h))
          kept own ready amount mined
          (record {
            checked_token = transfer.checked_token;
            checked_recipient = transfer.checked_recipient;
            amount = transfer.amount;
            mined = transfer.mined;
            of_token =
                ap ethers.get_address (token ∙ ap (λ x. x.token) (sym same)) ∙ transfer.of_token;
            to_recipient =
                ap ethers.get_address (recipient ∙ ap (λ x. x.recipient) (sym same))
                ∙ transfer.to_recipient;
            summed = transfer.summed;
            enough =
                let low : v ≤ℤ transfer.amount = transfer.enough in
                omega (arith, rw least at low, less);
          })
