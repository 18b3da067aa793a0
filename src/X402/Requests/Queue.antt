-- ===== src/X402/Requests/Queue.antt =====
-- No request waits for ever: the claims of an agent empty its queue.
use ethonline.Common.{
  ℕ, ◌+◌, ◌≤◌, ◌≡◌, refl, sym, ap, ◌∙◌, Bool, true, false, ◌&&◌, ◌||◌, ltb, some, List, [], ◌∷◌,
  find, All, length, arith, Bool-cases, Option-cases, inl, inr, ◌⊎◌, if◌then◌else◌,
}
use mathlib.Core.Path.{subst}
use ethonline.Common.Text.{Text, text_eq, text_eq_refl, to_lower, is_empty, trim}
use ethonline.Common.Dict.{Dict, lookup, insert, values, lookup-insert_self}
use ethonline.Common.Results.{
  Result, none_ne_some, some_injective, ok_injective, Result-cases, err_ne_ok, ok,
}
use ethonline.Agents.{Agent, assert_agent_ownership}
use ethonline.Agents.Written.{find_holds}
use ethonline.X402.Ethers.{Ethers}
use ethonline.X402.Requests.{
  PurchaseStatus, Row, Desk, is_queued, claim_row, claim_oldest_queued, claim, rows_of_agent,
}
use ethonline.X402.Requests.Lifecycle.{
  IsKeyed, insert-IsKeyed, claims, Reach, here, next, Reach-Advances, Step-IsKeyed,
}
use ethonline.X402.Requests.Claims.{
  All-find, All-insert_by_age, All-rows_of_agent, rows_of_agent-All, find-none, values-lookup,
  queued_row,
}
use ethonline.X402.Requests.Create.{
  max_justification_length, validate_query_params, CreateDto, CatalogEntry, check_request,
  create_request, queued_request,
}

abbrev pub is_owned : Text → Row → Bool
is_owned address r = text_eq (to_lower r.agent_address) (to_lower address)

abbrev pub waits : Text → Row → Bool
waits address r = is_queued r.status && is_owned address r

-- How many requests of the agent are queued.
unfoldable pub queue_length : Text → Dict Row → ℕ
queue_length address [] = 0
queue_length address ((k, r) ∷ d) = (if waits address r then 1 else 0) + queue_length address d

-- The claims of one agent, at the given times.
pub run_claims : Ethers → Text → List ℕ → Desk → Desk
run_claims ethers agent [] s = s
run_claims ethers agent (t ∷ ts) s = run_claims ethers agent ts (claim ethers agent t s).1

queue_length-insert :
    (address k : Text) (q r : Row) (d : Dict Row)
    → lookup k d ≡ some q
    → waits address q ≡ true
    → waits address r ≡ false
    → queue_length address (insert k r d) + 1 ≡ queue_length address d
unfolding queue_length insert lookup
queue_length-insert address k q r [] there was is = absurd (none_ne_some q there)
queue_length-insert address k q r ((j, p) ∷ d) there was is =
    ground (arith, queue_length-insert address k q r d)

queue_length-zero :
    (address k : Text) (r : Row) (d : Dict Row)
    → queue_length address d ≡ 0
    → lookup k d ≡ some r
    → waits address r ≡ false
unfolding queue_length lookup
queue_length-zero address k r [] empty there = absurd (none_ne_some r there)
queue_length-zero address k r ((j, p) ∷ d) empty there =
    ground (arith, queue_length-zero address k r d)

rows_of_agent-owned :
    (address : Text) (rs : List Row)
    → All (λ r. is_owned address r ≡ true) (rows_of_agent address rs)
unfolding rows_of_agent
rows_of_agent-owned address [] = tt
rows_of_agent-owned address (r ∷ rs) = elim (Bool-cases (is_owned address r)) [
  | inl own ↦
      rw (rows_of_agent, own)
        (All-insert_by_age (λ q. is_owned address q ≡ true) r (rows_of_agent address rs) own
          (rows_of_agent-owned address rs))
  | inr foreign ↦ rw (rows_of_agent, foreign) (rows_of_agent-owned address rs)
]

quiet-zero :
    (address : Text) (d : Dict Row)
    → All
        (λ r. text_eq (to_lower r.agent_address) (to_lower address) ≡ true → queued_row r ≡ false)
        (values d)
    → queue_length address d ≡ 0
unfolding queue_length values
quiet-zero address [] h = refl
quiet-zero address ((k, r) ∷ d) h = ground (arith, h.0, quiet-zero address d h.1)

-- One claim: nothing is queued, or the queue is one shorter.
claim-queue_length :
    (ethers : Ethers) (agent address : Text) (now : ℕ) (s : Desk)
    → IsKeyed s.requests
    → ethers.get_address agent ≡ some address
    → ((queue_length address s.requests ≡ 0) × ((claim ethers agent now s).1.requests ≡ s.requests))
      ⊎ (queue_length address (claim ethers agent now s).1.requests + 1
          ≡ queue_length address s.requests)
unfolding claim claim_oldest_queued claim_row
claim-queue_length ethers agent address now s keyed good =
    elim (Option-cases (find queued_row (rows_of_agent address (values s.requests)))) [
      | inl idle ↦
          let all =
            rows_of_agent-All (λ q. queued_row q ≡ false) address (values s.requests)
              (find-none (rows_of_agent address (values s.requests)) idle) in
          inl (quiet-zero address s.requests all, rw (claim, good, claim_oldest_queued, idle) refl)
      | inr (o, first) ↦
          let rows = rows_of_agent address (values s.requests) in
          let found : lookup o.id s.requests ≡ some o =
            All-find (λ q. lookup q.id s.requests ≡ some q) queued_row o rows
              (All-rows_of_agent (λ q. lookup q.id s.requests ≡ some q) address (values s.requests)
                (values-lookup s.requests keyed))
              first in
          let own : is_owned address o ≡ true =
            All-find (λ q. is_owned address q ≡ true) queued_row o rows
              (rows_of_agent-owned address (values s.requests)) first in
          let free : queued_row o ≡ true = find_holds queued_row rows o first in
          let taken : Row = record o { status = PurchaseStatus.processing; updated_at = now } in
          let shorter =
            queue_length-insert address o.id o taken s.requests found (rw (free, own) refl) refl in
          inr (rw (claim, good, claim_oldest_queued, first, claim_row, found, free) shorter)
    ]

run_claims-Reach :
    (ethers : Ethers) (agent : Text) (ts : List ℕ) (s u : Desk)
    → Reach ethers s u
    → Reach ethers s (run_claims ethers agent ts u)
unfolding run_claims
run_claims-Reach ethers agent [] s u r = r
run_claims-Reach ethers agent (t ∷ ts) s u r =
    run_claims-Reach ethers agent ts s (claim ethers agent t u).1 (next r (claims agent t u))

-- As many claims as there are queued requests leave none of them.
run_claims-empty :
    (ethers : Ethers) (agent address : Text) (ts : List ℕ) (s : Desk)
    → IsKeyed s.requests
    → ethers.get_address agent ≡ some address
    → queue_length address s.requests ≤ length ts
    → queue_length address (run_claims ethers agent ts s).requests ≡ 0
unfolding run_claims
run_claims-empty ethers agent address [] s keyed good short = omega arith
run_claims-empty ethers agent address (t ∷ ts) s keyed good short =
    let s' : Desk = (claim ethers agent t s).1 in
    let keyed' = Step-IsKeyed (claims agent t s) keyed in
    run_claims-empty ethers agent address ts s' keyed' good
      (elim (claim-queue_length ethers agent address t s keyed good) [
        | inl (empty, same) ↦ omega (arith, ap (queue_length address) same)
        | inr shorter ↦ omega arith
      ])

-- A request of the agent is not queued any more.
queued-claimed :
    (ethers : Ethers) (agent address k : Text) (ts : List ℕ) (s : Desk) (q : Row)
    → IsKeyed s.requests
    → ethers.get_address agent ≡ some address
    → queue_length address s.requests ≤ length ts
    → lookup k s.requests ≡ some q
    → is_owned address q ≡ true
    → (r : Row) × (lookup k (run_claims ethers agent ts s).requests ≡ some r)
      × (is_queued r.status ≡ false)
queued-claimed ethers agent address k ts s q keyed good short there own =
    let (r, after, on) = Reach-Advances (run_claims-Reach ethers agent ts s s here) k q there in
    let empty = run_claims-empty ethers agent address ts s keyed good short in
    let quiet = queue_length-zero address k r (run_claims ethers agent ts s).requests empty after in
    (
      r,
      after,
      elim on [
        | inl same ↦
            let still : is_owned address r ≡ true =
              subst (λ x. is_owned address x ≡ true) same own in
            ground arith
        | inr moved ↦ ground arith
      ],
    )

check_request-named :
    (ethers : Ethers) (agents : Dict Agent) (catalog : List CatalogEntry) (user : Text)
    (dto : CreateDto) (address : Text) (entry : CatalogEntry) (params : Dict Text)
    → check_request ethers agents catalog user dto ≡ ok (address, entry, params)
    → ethers.get_address dto.agent_address ≡ some address
unfolding check_request
check_request-named ethers agents catalog user dto address entry params passed =
    elim (Result-cases (assert_agent_ownership ethers user dto.agent_address agents)) [
      | inr (e, bad) ↦ absurd (ground arith)
      | inl (u, own) ↦ elim (Option-cases (ethers.get_address dto.agent_address)) [
        | inl bad ↦ absurd (ground arith)
        | inr (a, named) ↦
            elim (Option-cases
              (find (λ (c : CatalogEntry). text_eq c.resource dto.resource_url) catalog)) [
                | inl unknown ↦ absurd (ground arith)
                | inr (c, listed) ↦
                    elim (Result-cases (validate_query_params c.query_params dto.query_params [])) [
                      | inr (e, bad) ↦ absurd (ground arith)
                      | inl (p, valid) ↦
                          elim (Bool-cases (
                            is_empty (trim dto.justification)
                            || ltb max_justification_length (length dto.justification))) [
                              | inl bad ↦ absurd (ground arith)
                              | inr fine ↦
                                  let same : (a, c, p) ≡ (address, entry, params) =
                                    ok_injective _ _ (
                                      rw (check_request, own, named, listed, valid, fine) at
                                        passed) in
                                  named ∙ ap (λ x. some x.0) same
                            ]
                    ]
              ]
      ]
    ]

-- A request that is created is claimed: once its agent has made as many claims as it has queued
-- requests, the request is in the table and is no longer queued, if the ids of the requests are
-- distinct.
pub create_request-claimed :
    (ethers : Ethers) (agents : Dict Agent) (catalog : List CatalogEntry)
    (user id agent address : Text) (dto : CreateDto) (now : ℕ) (ts : List ℕ) (s : Desk) (r : Row)
    → IsKeyed s.requests
    → (create_request ethers agents catalog user id dto now s).0 ≡ ok r
    → ethers.get_address dto.agent_address ≡ some address
    → ethers.get_address agent ≡ some address
    → queue_length address (create_request ethers agents catalog user id dto now s).1.requests
      ≤ length ts
    → (r.status ≡ PurchaseStatus.queued)
      × ((r' : Row) × (lookup id
              (run_claims ethers agent ts
                (create_request ethers agents catalog user id dto now s).1).requests
            ≡ some r')
          × (is_queued r'.status ≡ false))
unfolding create_request
create_request-claimed ethers agents catalog user id agent address dto now ts s r keyed done named
      good short =
    elim (Result-cases (check_request ethers agents catalog user dto)) [
      | inr (e, bad) ↦ absurd (err_ne_ok e r (rw (create_request, bad) at done))
      | inl ((a, entry, params), passed) ↦
          let row = queued_request id user a entry params dto now in
          let after : Desk = record s { requests = insert id row s.requests } in
          let made : create_request ethers agents catalog user id dto now s ≡ (ok row, after) =
            rw (create_request, passed) refl in
          let same : a ≡ address = some_injective a address (
            sym (check_request-named ethers agents catalog user dto a entry params passed)
            ∙ named) in
          let one : row ≡ r = ok_injective row r (sym (ap (λ x. x.0) made) ∙ done) in
          let owned : is_owned address row ≡ true = rw same (text_eq_refl (to_lower address)) in
          (
            ap (λ (x : Row). x.status) (sym one),
            rw made (
                queued-claimed ethers agent address id ts after row
                  (insert-IsKeyed id row s.requests refl keyed) good
                  (subst (λ (x : Result Row × Desk). queue_length address x.1.requests ≤ length ts)
                    made short)
                  (lookup-insert_self id row s.requests) owned),
          )
    ]
