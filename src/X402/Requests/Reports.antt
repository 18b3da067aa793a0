-- ===== src/X402/Requests/Reports.antt =====
-- What the reports of a worker are accepted for.
use ethonline.Common.{
  ℕ, ◌≡◌, refl, ap, sym, ◌∙◌, ◌||◌, true, false, Option, none, some, arith, Option-cases, inl, inr,
}
use ethonline.Common.Text.{Text, text_eq, text_eq_iff, truthy, to_lower}
use ethonline.Common.Dict.{lookup, insert, lookup-insert_self}
use ethonline.Common.Results.{ok, Result-cases}
use ethonline.Domain.{ActionStatus, TreasuryAction}
use ethonline.ActionStore.{Store, get_action}
use ethonline.X402.Ethers.{Ethers, is_same_address_or_text}
use ethonline.X402.Requests.{
  PurchaseStatus, ResultStatus, Row, Desk, ProgressDto, ResultDto, is_terminal, is_processing,
  is_authorized, authorizes, is_executed_by, assert_paid, assert_result, resolve, report_progress,
  report_result, resolved_row, serialize_response, action_authorizes_resource, or_else, status_of,
}

module _ (ethers : Ethers) (agent : Text) where
  -- What an accepted result was based on: the row, and the checks of its status.
  report_result-ok :
      (id : Text) (dto : ResultDto) (now : ℕ) (s : Desk) (updated : Row)
      → (report_result ethers agent id dto now s).0 ≡ ok updated
      → (r : Row) × (lookup id s.requests ≡ some r)
        × (is_same_address_or_text ethers r.agent_address agent ≡ true)
        × (is_processing r.status || is_authorized r.status ≡ true)
        × ((assert_result ethers agent dto s.store).0 ≡ ok tt)
        × ((response : Option Text) × (updated ≡ resolved_row ethers agent dto response now r)
            × (lookup id (report_result ethers agent id dto now s).1.requests ≡ some updated))
  unfolding report_result resolve
  report_result-ok id dto now s updated done = elim (Option-cases (lookup id s.requests)) [
    | inl missing ↦ absurd (ground arith)
    | inr (r, found) ↦ elim (Result-cases (assert_result ethers agent dto s.store).0) [
      | inr (e, bad) ↦ absurd (ground arith)
      | inl (u, good) ↦ elim (Result-cases (serialize_response dto.response)) [
        | inr (e, bad) ↦ absurd (ground arith)
        | inl (response, fits) ↦
            let own : is_same_address_or_text ethers r.agent_address agent ≡ true = ground arith in
            let live : is_terminal r.status ≡ false = ground arith in
            let ready : is_processing r.status || is_authorized r.status ≡ true = ground arith in
            let row = resolved_row ethers agent dto response now r in
            let all : report_result ethers agent id dto now s ≡ (
              ok row,
              record {
                requests = insert id row s.requests;
                store = (assert_result ethers agent dto s.store).1;
              },
            ) =
              rw (report_result, found, own, live, ready, resolve, good, fits) refl in
            let same : updated ≡ row = ground (arith, all) in
            (
              r,
              found,
              own,
              ready,
              good,
              (response, same, rw (all, same) (lookup-insert_self id row s.requests)),
            )
      ]
    ]
  ]

  -- The evidence that the service asks for a paid result.
  pub record IsPaid (store : Store) (action_id hash : Text) (a : TreasuryAction) : Type 0 where
    pub read : (get_action action_id store).0 ≡ some a
    pub own : is_same_address_or_text ethers a.agent_address agent ≡ true
    pub executed : a.status ≡ ActionStatus.executed
    pub settled : (h : Text) × (a.tx_hash ≡ some h) × (to_lower h ≡ to_lower hash)

  truthy-some : (o : Option Text) (s : Text) → truthy o ≡ some s → o ≡ some s
  truthy-some o s e = ground arith

  settled_with :
      (o : Option Text) (hash : Text)
      → elim (truthy o) [ none ↦ false | some h ↦ text_eq (to_lower h) (to_lower hash) ] ≡ true
      → (h : Text) × (o ≡ some h) × (to_lower h ≡ to_lower hash)
  settled_with o hash e = elim (Option-cases (truthy o)) [
    | inl missing ↦ absurd (ground arith)
    | inr (h, there) ↦
        (h, truthy-some o h there, (text_eq_iff (to_lower h) (to_lower hash)).0 (ground arith))
  ]

  assert_paid-ok :
      (dto : ResultDto) (store : Store)
      → (assert_paid ethers agent dto store).0 ≡ ok tt
      → (action_id : Text) × (hash : Text) × (a : TreasuryAction) × (truthy dto.action_id
          ≡ some action_id)
        × (truthy dto.transaction_hash ≡ some hash)
        × IsPaid store action_id hash a
  unfolding assert_paid
  assert_paid-ok dto store e = elim (Option-cases (truthy dto.action_id)) [
    | inl missing ↦ absurd (ground arith)
    | inr (action_id, named) ↦ elim (Option-cases (truthy dto.transaction_hash)) [
      | inl missing ↦ absurd (ground arith)
      | inr (hash, given) ↦ elim (Option-cases (get_action action_id store).0) [
        | inl unknown ↦ absurd (ground arith)
        | inr (a, read) ↦
            let all : is_executed_by ethers agent hash (some a) ≡ true = ground arith in
            (
              action_id,
              hash,
              a,
              named,
              given,
              record {
                read = read;
                own = ground arith;
                executed = ground arith;
                settled = settled_with a.tx_hash hash (ground arith);
              },
            )
      ]
    ]
  ]

  assert_result-paid :
      (dto : ResultDto) (store : Store)
      → dto.status ≡ ResultStatus.paid
      → (assert_result ethers agent dto store).0 ≡ ok tt
      → (assert_paid ethers agent dto store).0 ≡ ok tt
  unfolding assert_result
  assert_result-paid dto store paid e = ground (arith, paid, e)

  truthy-or_else :
      (o p : Option Text) (s : Text) → truthy o ≡ some s → truthy (or_else o p) ≡ some s
  truthy-or_else o p s e = ground arith

  resolved_row-paid :
      (dto : ResultDto) (response : Option Text) (now : ℕ) (r : Row) (action_id hash : Text)
      → dto.status ≡ ResultStatus.paid
      → truthy dto.action_id ≡ some action_id
      → truthy dto.transaction_hash ≡ some hash
      → let u = resolved_row ethers agent dto response now r in
        (u.status ≡ PurchaseStatus.paid)
        × (u.action_id ≡ some action_id)
        × (u.transaction_hash ≡ some (to_lower hash))
        × (u.agent_address ≡ r.agent_address)
  unfolding resolved_row
  resolved_row-paid dto response now r action_id hash paid named given = (
    ap status_of paid,
    truthy-or_else dto.action_id r.action_id action_id named,
    ground arith,
    refl,
  )

  status_of-paid :
      (status : ResultStatus) → status_of status ≡ PurchaseStatus.paid → status ≡ ResultStatus.paid
  status_of-paid ResultStatus.paid e = refl
  status_of-paid ResultStatus.blocked e = cc
  status_of-paid ResultStatus.rejected e = cc
  status_of-paid ResultStatus.expired e = cc
  status_of-paid ResultStatus.failed e = cc

  reported-paid :
      (dto : ResultDto) (response : Option Text) (now : ℕ) (r updated : Row)
      → updated ≡ resolved_row ethers agent dto response now r
      → updated.status ≡ PurchaseStatus.paid
      → dto.status ≡ ResultStatus.paid
  unfolding resolved_row
  reported-paid dto response now r updated is paid =
      status_of-paid dto.status (ap (λ u. u.status) (sym is) ∙ paid)

  -- Whatever status a report names, it leaves a request paid only if it is a report of the request's
  -- own agent that names an action of this agent that is executed under the reported transaction
  -- hash; the hash is then on the request.
  pub report_result-IsPaid :
      (id : Text) (dto : ResultDto) (now : ℕ) (s : Desk) (updated : Row)
      → (report_result ethers agent id dto now s).0 ≡ ok updated
      → updated.status ≡ PurchaseStatus.paid
      → (action_id : Text) × (hash : Text) × (a : TreasuryAction) × IsPaid s.store action_id hash a
        × (truthy dto.action_id ≡ some action_id)
        × (truthy dto.transaction_hash ≡ some hash)
        × (lookup id (report_result ethers agent id dto now s).1.requests ≡ some updated)
        × (updated.action_id ≡ some action_id)
        × (updated.transaction_hash ≡ some (to_lower hash))
        × (is_same_address_or_text ethers updated.agent_address agent ≡ true)
  report_result-IsPaid id dto now s updated done is_paid =
      let (r, found, own, ready, asserted, (response, is, there)) =
        report_result-ok id dto now s updated done in
      let paid = reported-paid dto response now r updated is is_paid in
      let checked = assert_result-paid dto s.store paid asserted in
      let (action_id, hash, a, named, given, evidence) = assert_paid-ok dto s.store checked in
      let (status, action, transaction, keeper) =
        resolved_row-paid dto response now r action_id hash paid named given in
      (
        action_id,
        hash,
        a,
        evidence,
        named,
        given,
        there,
        ap (λ u. u.action_id) is ∙ action,
        ap (λ u. u.transaction_hash) is ∙ transaction,
        ap (λ x. is_same_address_or_text ethers x agent) (ap (λ u. u.agent_address) is ∙ keeper)
            ∙ own,
      )

  -- A request is authorized only from processing, on a report of its own agent about an action of
  -- this agent whose justification names the resource of the request.
  report_progress-authorized :
      (id : Text) (dto : ProgressDto) (now : ℕ) (s : Desk) (updated : Row)
      → (report_progress ethers agent id dto now s).0 ≡ ok updated
      → (r : Row) × (a : TreasuryAction) × (lookup id s.requests ≡ some r)
        × (r.status ≡ PurchaseStatus.processing)
        × (is_same_address_or_text ethers r.agent_address agent ≡ true)
        × ((get_action dto.action_id s.store).0 ≡ some a)
        × (is_same_address_or_text ethers a.agent_address agent ≡ true)
        × (action_authorizes_resource a.justification r.resource_url ≡ true)
        × (lookup id (report_progress ethers agent id dto now s).1.requests ≡ some updated)
        × (updated.status ≡ PurchaseStatus.authorized)
  unfolding report_progress
  report_progress-authorized id dto now s updated done =
      elim (Option-cases (lookup id s.requests)) [
        | inl missing ↦ absurd (ground arith)
        | inr (r, found) ↦ elim (Option-cases (get_action dto.action_id s.store).0) [
          | inl unknown ↦ absurd (ground arith)
          | inr (a, read) ↦
              let own : is_same_address_or_text ethers r.agent_address agent ≡ true =
                ground arith in
              let working : is_processing r.status ≡ true = ground arith in
              let right : authorizes ethers agent r (some a) ≡ true = ground arith in
              let row = record r {
                status = PurchaseStatus.authorized;
                action_id = truthy (some dto.action_id);
                decision = some dto.decision;
                reasons = dto.reasons;
                updated_at = now;
              } in
              let all : report_progress ethers agent id dto now s ≡ (
                ok row,
                record {
                  requests = insert id row s.requests;
                  store = (get_action dto.action_id s.store).1;
                },
              ) =
                rw (report_progress, found, own, working, read, right) refl in
              let same : updated ≡ row = ground (arith, all) in
              (
                r,
                a,
                found,
                ground arith,
                own,
                read,
                ground arith,
                ground arith,
                rw (all, same) (lookup-insert_self id row s.requests),
                ap (λ u. u.status) same,
              )
        ]
      ]
