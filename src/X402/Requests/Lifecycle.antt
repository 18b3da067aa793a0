-- ===== src/X402/Requests/Lifecycle.antt =====
-- How the requests change: every write of the service moves one request forward.
use ethonline.Common.{
  ℕ, ◌<◌, ◌≡◌, refl, ◌⊎◌, ◌∙◌, true, false, ◌||◌, none, some, find, arith, Bool-cases, Option-cases,
  inl, inr,
}
use ethonline.Common.Keyed
use ethonline.Common.Text.{Text, text_eq, text_eq_iff}
use ethonline.Common.Dict.{Dict, lookup, insert, values, lookup-insert}
use ethonline.Common.Results.{Result-cases}
use ethonline.ActionStore.{Store, get_action}
use ethonline.X402.Ethers.{Ethers, is_same_address_or_text}
use ethonline.X402.Requests.{
  PurchaseStatus, Row, Desk, ProgressDto, ResultDto, is_terminal, is_queued, is_processing,
  is_authorized, status_of, claim_row, claim_oldest_queued, claim, report_progress, assert_result,
  resolved_row, resolve, report_result, serialize_response, rows_of_agent, authorizes,
}

-- How far a status is: queued, processing, authorized, terminal.
abbrev pub rank : PurchaseStatus → ℕ
rank PurchaseStatus.queued = 0
rank PurchaseStatus.processing = 1
rank PurchaseStatus.authorized = 2
rank _ = 3

-- What one operation does to the table: nothing, a new request, or one request moved forward.
pub data Write (d : Dict Row) : Dict Row → Type 0 where
  same : Write d d
  add : (r : Row) → lookup r.id d ≡ none → Write d (insert r.id r d)
  move :
      (id : Text) (r r' : Row)
      → lookup id d ≡ some r
      → r'.id ≡ r.id
      → rank r.status < rank r'.status
      → Write d (insert id r' d)

-- Every row stands under its own id, and no id stands twice.
abbrev pub IsKeyed : Dict Row → Type 0
IsKeyed = Keyed.IsKeyed (λ (r : Row). r.id)

pub insert-IsKeyed :
    (k : Text) (r : Row) (d : Dict Row) → r.id ≡ k → IsKeyed d → IsKeyed (insert k r d)
insert-IsKeyed = Keyed.insert-IsKeyed (λ (r : Row). r.id)

pub IsKeyed-lookup :
    (k : Text) (r : Row) (d : Dict Row) → IsKeyed d → lookup k d ≡ some r → r.id ≡ k
IsKeyed-lookup = Keyed.IsKeyed-lookup (λ (r : Row). r.id)

Write-IsKeyed : {d d' : Dict Row} → Write d d' → IsKeyed d → IsKeyed d'
Write-IsKeyed same h = h
Write-IsKeyed {d} (add new fresh) h = insert-IsKeyed new.id new d refl h
Write-IsKeyed {d} (move k old new found kept up) h =
    insert-IsKeyed k new d (kept ∙ IsKeyed-lookup k old d h found) h

-- Every request of `d` is in `d'`, unchanged or further on.
abbrev pub Advances : Dict Row → Dict Row → Type 0
Advances d d' =
    (id : Text) (r : Row)
    → lookup id d ≡ some r
    → (r' : Row) × (lookup id d' ≡ some r') × ((r ≡ r') ⊎ (rank r.status < rank r'.status))

Write-Advances : {d d' : Dict Row} → Write d d' → Advances d d'
Write-Advances same id r e = (r, e, inl refl)
Write-Advances {d} (add new fresh) id r e =
    (r, ground (arith, lookup-insert {V = Row} new.id id new d, text_eq_iff id new.id), inl refl)
Write-Advances {d} (move k old new found kept up) id r e = elim (Bool-cases (text_eq id k)) [
  | inl this ↦ (
    new,
    ground (arith, lookup-insert {V = Row} k id new d),
    inr (ground (arith, text_eq_iff id k)),
  )
  | inr other ↦ (r, ground (arith, lookup-insert {V = Row} k id new d), inl refl)
]

claim_row-Write : (id : Text) (now : ℕ) (d : Dict Row) → Write d (claim_row id now d).1
unfolding claim_row
claim_row-Write id now d = elim (Option-cases (lookup id d)) [
  | inl missing ↦ rw (claim_row, missing) same
  | inr (r, found) ↦ elim (Bool-cases (is_queued r.status)) [
    | inl free ↦ rw (claim_row, found, free) (move id r _ found refl (ground arith))
    | inr taken ↦ rw (claim_row, found, taken) same
  ]
]

claim-Write :
    (ethers : Ethers) (agent : Text) (now : ℕ) (s : Desk)
    → Write s.requests (claim ethers agent now s).1.requests
unfolding claim claim_oldest_queued
claim-Write ethers agent now s = elim (Option-cases (ethers.get_address agent)) [
  | inl bad ↦ rw (claim, bad) same
  | inr (address, good) ↦
      elim (Option-cases
        (find (λ r. is_queued r.status) (rows_of_agent address (values s.requests)))) [
          | inl idle ↦ rw (claim, good, claim_oldest_queued, idle) same
          | inr (oldest, first) ↦
              rw (claim, good, claim_oldest_queued, first)
                (claim_row-Write oldest.id now s.requests)
        ]
]

report_progress-Write :
    (ethers : Ethers) (agent id : Text) (dto : ProgressDto) (now : ℕ) (s : Desk)
    → Write s.requests (report_progress ethers agent id dto now s).1.requests
unfolding report_progress
report_progress-Write ethers agent id dto now s = elim (Option-cases (lookup id s.requests)) [
  | inl missing ↦ rw (report_progress, missing) same
  | inr (r, found) ↦ elim (Bool-cases (is_same_address_or_text ethers r.agent_address agent)) [
    | inr foreign ↦ rw (report_progress, found, foreign) same
    | inl own ↦ elim (Bool-cases (is_processing r.status)) [
      | inr late ↦ rw (report_progress, found, own, late) same
      | inl working ↦
          elim (Bool-cases (authorizes ethers agent r (get_action dto.action_id s.store).0)) [
            | inr wrong ↦ rw (report_progress, found, own, working, wrong) same
            | inl right ↦
                rw (report_progress, found, own, working, right)
                  (move id r _ found refl (ground arith))
          ]
    ]
  ]
]

resolve-Write :
    (ethers : Ethers) (agent id : Text) (dto : ResultDto) (now : ℕ) (r : Row) (s : Desk)
    → lookup id s.requests ≡ some r
    → is_terminal r.status ≡ false
    → Write s.requests (resolve ethers agent id dto now r s).1.requests
unfolding resolve
resolve-Write ethers agent id dto now r s found live =
    let terminal_last : rank r.status < rank (status_of dto.status) = ground arith in
    elim (Result-cases (assert_result ethers agent dto s.store).0) [
      | inr (e, bad) ↦ rw (resolve, bad) same
      | inl (u, good) ↦ elim (Result-cases (serialize_response dto.response)) [
        | inr (e, bad) ↦ rw (resolve, good, bad) same
        | inl (response, fits) ↦
            rw (resolve, good, fits)
              (move id r (resolved_row ethers agent dto response now r) found
                (unfold resolved_row in refl) (unfold resolved_row in terminal_last))
      ]
    ]

report_result-Write :
    (ethers : Ethers) (agent id : Text) (dto : ResultDto) (now : ℕ) (s : Desk)
    → Write s.requests (report_result ethers agent id dto now s).1.requests
unfolding report_result
report_result-Write ethers agent id dto now s = elim (Option-cases (lookup id s.requests)) [
  | inl missing ↦ rw (report_result, missing) same
  | inr (r, found) ↦ elim (Bool-cases (is_same_address_or_text ethers r.agent_address agent)) [
    | inr foreign ↦ rw (report_result, found, foreign) same
    | inl own ↦ elim (Bool-cases (is_terminal r.status)) [
      | inl done ↦ rw (report_result, found, own, done) same
      | inr live ↦ elim (Bool-cases (is_processing r.status || is_authorized r.status)) [
        | inr early ↦ rw (report_result, found, own, live, early) same
        | inl ready ↦
            rw (report_result, found, own, live, ready)
              (resolve-Write ethers agent id dto now r s found live)
      ]
    ]
  ]
]

-- The operations on the desk. A creation inserts a queued request under a new id; the other
-- services change the store of actions between them.
pub data Step (ethers : Ethers) : Desk → Desk → Type 0 where
  create :
      (s : Desk) (r : Row)
      → r.status ≡ PurchaseStatus.queued
      → lookup r.id s.requests ≡ none
      → Step ethers s (record s { requests = insert r.id r s.requests })
  claims : (agent : Text) (now : ℕ) (s : Desk) → Step ethers s (claim ethers agent now s).1
  progress :
      (agent id : Text) (dto : ProgressDto) (now : ℕ) (s : Desk)
      → Step ethers s (report_progress ethers agent id dto now s).1
  result :
      (agent id : Text) (dto : ResultDto) (now : ℕ) (s : Desk)
      → Step ethers s (report_result ethers agent id dto now s).1
  others : (s : Desk) (store : Store) → Step ethers s (record s { store = store })

pub data Reach (ethers : Ethers) (s : Desk) : Desk → Type 0 where
  here : Reach ethers s s
  next : {u v : Desk} → Reach ethers s u → Step ethers u v → Reach ethers s v

Step-Write : {ethers : Ethers} {s s' : Desk} → Step ethers s s' → Write s.requests s'.requests
Step-Write (create s r new fresh) = add r fresh
Step-Write {ethers} (claims agent now s) = claim-Write ethers agent now s
Step-Write {ethers} (progress agent id dto now s) = report_progress-Write ethers agent id dto now s
Step-Write {ethers} (result agent id dto now s) = report_result-Write ethers agent id dto now s
Step-Write (others s store) = same

pub Step-IsKeyed :
    {ethers : Ethers} {s s' : Desk} → Step ethers s s' → IsKeyed s.requests → IsKeyed s'.requests
Step-IsKeyed st = Write-IsKeyed (Step-Write st)

further :
    (r q p : Row)
    → (r ≡ q) ⊎ (rank r.status < rank q.status)
    → (q ≡ p) ⊎ (rank q.status < rank p.status)
    → (r ≡ p) ⊎ (rank r.status < rank p.status)
further r q p (inl e) (inl f) = inl (e ∙ f)
further r q p (inl e) (inr f) = inr (rw e f)
further r q p (inr e) (inl f) = inr (rw (← f) e)
further r q p (inr e) (inr f) = inr (omega arith)

Advances-trans : (a b c : Dict Row) → Advances a b → Advances b c → Advances a c
Advances-trans a b c f g id r e =
    let (q, there, on) = f id r e in
    let (p, then, on') = g id q there in (p, then, further r q p on on')

pub Reach-Advances :
    {ethers : Ethers} {s s' : Desk} → Reach ethers s s' → Advances s.requests s'.requests
Reach-Advances here id r e = (r, e, inl refl)
Reach-Advances (next before st) id r e =
    Advances-trans _ _ _ (Reach-Advances before) (Write-Advances (Step-Write st)) id r e

pub Reach-IsKeyed :
    {ethers : Ethers} {s s' : Desk} → Reach ethers s s' → IsKeyed s.requests → IsKeyed s'.requests
Reach-IsKeyed here h = h
Reach-IsKeyed (next before st) h = Write-IsKeyed (Step-Write st) (Reach-IsKeyed before h)

-- A request that was paid, blocked, rejected, expired or failed is never changed again.
pub Reach-terminal :
    (ethers : Ethers) (s s' : Desk) (id : Text) (r : Row)
    → Reach ethers s s'
    → lookup id s.requests ≡ some r
    → is_terminal r.status ≡ true
    → lookup id s'.requests ≡ some r
Reach-terminal ethers s s' id r reached found done =
    let (q, there, on) = Reach-Advances reached id r found in ground arith
