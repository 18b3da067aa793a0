-- ===== src/Scripts/Paid.antt =====
-- What a payment of the script signs is what the Guardian authorized.
use ethonline.Common.{
  ◌≡◌, ◌≢◌, refl, sym, ap, ◌∙◌, Bool, true, false, ◌&&◌, ◌==◌, ◌⊎◌, some, List, [], ◌∷◌, ◌++◌, find,
  arith, Bool-cases, Option-cases, inl, inr,
}
use ethonline.Common.Text.{Text, codes, text_eq, text_eq_iff, to_lower}
use ethonline.Common.Results.{Result, ok, err, Result-cases, some_injective}
use ethonline.Domain.{Decision}
use ethonline.X402.Spending.{Requirements}
use ethonline.X402.Payments.{AuthorizeDto}
use ethonline.Scripts.{
  AuthorizePaymentResponse, Signer, agent_signer, ledger_signer, PaymentClient, Services,
  PayResourceDeps, Call, authorizes, waits, creates_payload, retries, settles, is_accepted,
  authorize_payment, settle_payment, resolve_payment_signer, or_first,
  create_guardian_capped_payment_client, settled_transaction, report_settlement, retry,
  sign_and_pay, pay_by_outcome, pay_authorized, pay_selected, pay_required, pay_x402_resource,
}

-- The clients that a run signs with, in order.
abbrev pub payloads : List Call → List PaymentClient
payloads [] = []
payloads (creates_payload client ∷ calls) = client ∷ payloads calls
payloads (authorizes dto ∷ calls) = payloads calls
payloads (waits ∷ calls) = payloads calls
payloads (retries header ∷ calls) = payloads calls
payloads (settles action_id hash ∷ calls) = payloads calls

-- The signer that a decision calls for: the Ledger for ESCALATE, and the agent's own wallet for every
-- other decision but BLOCK.
abbrev pub IsSigner : AuthorizePaymentResponse → Signer → Type 0
IsSigner a signer =
    ((a.decision ≡ codes "ESCALATE") × (signer ≡ ledger_signer a.action_id))
    ⊎ ((a.decision ≢ codes "BLOCK") × (a.decision ≢ codes "ESCALATE") × (signer ≡ agent_signer))

not-equal : (s t : Text) → text_eq s t ≡ false → s ≢ t
not-equal s t differs same = let e : text_eq s t ≡ true = (text_eq_iff s t).1 same in cc

find-holds : {A : Type 0} (p : A → Bool) (xs : List A) (x : A) → find p xs ≡ some x → p x ≡ true
find-holds p [] x h = cc
find-holds p (y ∷ ys) x h = elim (Bool-cases (p y)) [
  | inl holds ↦
      let same : y ≡ x = some_injective y x (rw (find, holds) at h) in ap p (sym same) ∙ holds
  | inr fails ↦ find-holds p ys x (rw (find, fails) at h)
]

module _ (network usdc : Text) (accepts : List Requirements) (accept : Requirements)
    (found : find (is_accepted network usdc) accepts ≡ some accept) where
  found-is_accepted : is_accepted network usdc accept ≡ true
  found-is_accepted = find-holds (is_accepted network usdc) accepts accept found

  same_search : is_accepted accept.network accept.asset ≡ is_accepted network usdc
  same_search =
      let here = found-is_accepted in
      let n : text_eq accept.network network ≡ true = ground arith in
      let a : text_eq (to_lower accept.asset) (to_lower usdc) ≡ true = ground arith in
      ap (λ m x. text_eq x.network m && text_eq (to_lower x.asset) (to_lower accept.asset))
        ((text_eq_iff accept.network network).0 n)
      ∙ ap (λ m x. text_eq x.network network && text_eq (to_lower x.asset) m)
          ((text_eq_iff (to_lower accept.asset) (to_lower usdc)).0 a)

  selector-found :
      (signer : Signer)
      → (create_guardian_capped_payment_client accept signer network).selector accepts ≡ some accept
  selector-found signer =
      ap (λ o. or_first o accepts) (ap (λ p. find p accepts) same_search ∙ found)

module _ (s : Services) where
  report_settlement-payloads :
      (action_id : Text) (decision : Decision) (r : Result (Text × Text))
      → payloads (report_settlement s action_id decision r).1 ≡ []
  unfolding report_settlement
  report_settlement-payloads action_id decision (err e) = refl
  report_settlement-payloads action_id decision (ok (hash, body)) =
      elim (Result-cases (settle_payment s action_id hash)) [
        | inl (answer, h) ↦ rw h refl
        | inr (e, h) ↦ rw h refl
      ]

  retry-payloads :
      (url action_id : Text) (decision : Decision) (r : Result Text)
      → payloads (retry s url action_id decision r).1 ≡ []
  unfolding retry
  retry-payloads url action_id decision (err e) = refl
  retry-payloads url action_id decision (ok header) =
      elim (Result-cases (s.fetch_paid url header)) [
        | inl (response, h) ↦
            rw h (report_settlement-payloads action_id decision (settled_transaction response))
        | inr (e, h) ↦ rw h refl
      ]

  signed-payloads :
      (url : Text) (accepts : List Requirements) (client : PaymentClient) (action_id : Text)
      (decision : Decision)
      → payloads (sign_and_pay s url accepts client action_id decision).1 ≡ client ∷ []
  unfolding sign_and_pay
  signed-payloads url accepts client action_id decision =
      ap (λ calls. client ∷ calls)
        (retry-payloads url action_id decision (s.create_payment_payload client accepts))

  module _ (network url : Text) (accepts : List Requirements) (accept : Requirements) where
    abbrev SignsOnce : AuthorizePaymentResponse → List Call → Type 0
    SignsOnce a calls =
        (signer : Signer) × IsSigner a signer
        × (payloads calls ≡ create_guardian_capped_payment_client accept signer network ∷ [])

    outcome-SignsOnce :
        (a : AuthorizePaymentResponse)
        → (payloads (pay_by_outcome s network url accepts accept (resolve_payment_signer a)).1 ≡ [])
          ⊎ SignsOnce a (pay_by_outcome s network url accepts accept (resolve_payment_signer a)).1
    unfolding pay_by_outcome resolve_payment_signer
    outcome-SignsOnce a =
        let client : Signer → PaymentClient =
          λ signer. create_guardian_capped_payment_client accept signer network in
        elim (Bool-cases (text_eq a.decision (codes "BLOCK"))) [
          | inl stops ↦ inl (rw (resolve_payment_signer, stops, pay_by_outcome) refl)
          | inr goes ↦ elim (Bool-cases (text_eq a.decision (codes "ESCALATE"))) [
            | inl asks ↦ inr (
              ledger_signer a.action_id,
              inl ((text_eq_iff a.decision (codes "ESCALATE")).0 asks, refl),
              rw (resolve_payment_signer, goes, asks, pay_by_outcome)
                  (signed-payloads url accepts (client (ledger_signer a.action_id)) a.action_id
                    Decision.escalate),
            )
            | inr alone ↦ inr (
              agent_signer,
              inr (not-equal a.decision _ goes, not-equal a.decision _ alone, refl),
              rw (resolve_payment_signer, goes, alone, pay_by_outcome)
                  (signed-payloads url accepts (client agent_signer) a.action_id Decision.allow),
            )
          ]
        ]

    authorized-SignsOnce :
        (a : AuthorizePaymentResponse)
        → (payloads (pay_authorized s network url accepts accept (ok a)).1 ≡ [])
          ⊎ SignsOnce a (pay_authorized s network url accepts accept (ok a)).1
    unfolding pay_authorized
    authorized-SignsOnce a = elim (Result-cases (s.on_authorized a)) [
      | inr (e, h) ↦ inl (rw (pay_authorized, h) refl)
      | inl (done, h) ↦ rw (pay_authorized, h) (outcome-SignsOnce a)
    ]

-- What a client pays, and the answer to it: `accept` is the accept of the 402 answer on the configured
-- network and asset, `a` is the answer of the Guardian to exactly this accept, and the client signs
-- by what `a` decides, selects `accept`, and is capped at its amount.
pub record IsAuthorized (s : Services) (d : PayResourceDeps) (client : PaymentClient)
    (accepts : List Requirements) (accept : Requirements) (a : AuthorizePaymentResponse)
    : Type 0 where
  pub offered : s.get_payment_required (d.base_url ++ d.resource_path) ≡ ok accepts
  pub matches : is_accepted d.network d.usdc_address accept ≡ true
  pub granted :
      authorize_payment s (record {
        resource_url = d.base_url ++ d.resource_path;
        requirements = accept;
        justification = d.justification;
      })
      ≡ ok a
  pub signer : IsSigner a client.signer
  pub selects : client.selector accepts ≡ some accept
  pub capped : client.max_amount_per_payment ≡ accept.amount

module _ (s : Services) (d : PayResourceDeps) where
  -- The calls of a run sign nothing, or exactly once, as the Guardian authorized.
  abbrev pub SignsAuthorized : List Call → Type 0
  SignsAuthorized calls =
      (payloads calls ≡ [])
      ⊎ ((client : PaymentClient) × (accepts : List Requirements) × (accept : Requirements)
          × (a : AuthorizePaymentResponse) × (payloads calls ≡ client ∷ [])
          × IsAuthorized s d client accepts accept a)

  selected-SignsAuthorized :
      (accepts : List Requirements)
      → s.get_payment_required (d.base_url ++ d.resource_path) ≡ ok accepts
      → SignsAuthorized (pay_required s d (ok accepts)).1
  unfolding pay_required pay_selected pay_authorized
  selected-SignsAuthorized accepts offered =
      let url = d.base_url ++ d.resource_path in
      elim (Option-cases (find (is_accepted d.network d.usdc_address) accepts)) [
        | inl missing ↦ inl (rw (pay_required, missing) refl)
        | inr (accept, found) ↦
            let dto : AuthorizeDto = record {
              resource_url = url;
              requirements = accept;
              justification = d.justification;
            } in
            elim (Result-cases (authorize_payment s dto)) [
              | inr (e, refused) ↦
                  inl (rw (pay_required, found, pay_selected, refused, pay_authorized) refl)
              | inl (a, granted) ↦ elim (authorized-SignsOnce s d.network url accepts accept a) [
                | inl nothing ↦ inl (rw (pay_required, found, pay_selected, granted) nothing)
                | inr (signer, is_signer, once) ↦ inr (
                  create_guardian_capped_payment_client accept signer d.network,
                  accepts,
                  accept,
                  a,
                  rw (pay_required, found, pay_selected, granted) once,
                  record {
                    offered = offered;
                    matches = found-is_accepted d.network d.usdc_address accepts accept found;
                    granted = granted;
                    signer = is_signer;
                    selects = selector-found d.network d.usdc_address accepts accept found signer;
                    capped = refl;
                  },
                )
              ]
            ]
      ]

  -- However the network, the SDK and the Guardian answer, a run of the script signs no payment, or
  -- exactly one, with a client that pays the accept of the 402 answer on the configured network and
  -- asset on which the Guardian answered, and that is capped at the amount of that accept. It signs
  -- with the Ledger, for this action, if the decision of the answer is the text ESCALATE, and with the
  -- agent's own wallet for every other text but BLOCK, also one that is no decision.
  pub pay_x402_resource-SignsAuthorized : SignsAuthorized (pay_x402_resource s d).1
  unfolding pay_x402_resource pay_required
  pay_x402_resource-SignsAuthorized =
      let url = d.base_url ++ d.resource_path in
      elim (Result-cases (s.fetch_status url)) [
        | inr (e, failed) ↦ inl (rw (pay_x402_resource, failed) refl)
        | inl (status, answered) ↦ elim (Bool-cases (status == 402)) [
          | inr other ↦ inl (rw (pay_x402_resource, answered, other) refl)
          | inl required ↦ elim (Result-cases (s.get_payment_required url)) [
            | inr (e, bad) ↦
                inl (rw (pay_x402_resource, answered, required, bad, pay_required) refl)
            | inl (accepts, offered) ↦
                rw (pay_x402_resource, answered, required, offered)
                  (selected-SignsAuthorized accepts offered)
          ]
        ]
      ]
