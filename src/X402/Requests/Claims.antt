-- ===== src/X402/Requests/Claims.antt =====
-- `claim`: which request a worker gets, and that no other worker gets it.
use ethonline.Common.{
  ℕ, ◌≤◌, ◌≡◌, refl, ◌≢◌, ◌∙◌, ap, Bool, true, false, none, some, List, [], ◌∷◌, find, All, All-map,
  leb, arith, Bool-cases, Option-cases, inl, inr,
}
use ethonline.Common.Keyed
use ethonline.Common.Text.{Text, text_eq, text_eq_iff, to_lower}
use ethonline.Common.Dict.{Dict, lookup, insert, values, lookup-insert_self}
use ethonline.Common.Results.{ok}
use ethonline.X402.Ethers.{Ethers}
use ethonline.X402.Requests.{
  PurchaseStatus, Row, Desk, is_queued, claim_row, claim_oldest_queued, claim, insert_by_age,
  rows_of_agent,
}
use ethonline.X402.Requests.Lifecycle.{
  rank, IsKeyed, claims, Reach, Reach-Advances, Reach-IsKeyed, Step-IsKeyed,
}

abbrev IsSorted : List Row → Type 0
IsSorted [] = Unit
IsSorted (r ∷ rs) = All (λ q. r.created_at ≤ q.created_at) rs × IsSorted rs

All-older :
    (m n : ℕ) (rs : List Row)
    → m ≤ n
    → All (λ q. n ≤ q.created_at) rs
    → All (λ q. m ≤ q.created_at) rs
All-older m n [] le h = tt
All-older m n (r ∷ rs) le (h, hs) = (omega arith, All-older m n rs le hs)

module _ (P : Row → Type 0) where
  pub All-insert_by_age : (r : Row) (qs : List Row) → P r → All P qs → All P (insert_by_age r qs)
  unfolding insert_by_age
  All-insert_by_age r [] p h = (p, tt)
  All-insert_by_age r (q ∷ qs) p (h, hs) = elim (Bool-cases (leb r.created_at q.created_at)) [
    | inl le ↦ rw le (p, (h, hs))
    | inr gt ↦ rw gt (h, All-insert_by_age r qs p hs)
  ]

  insert_by_age-All : (r : Row) (qs : List Row) → All P (insert_by_age r qs) → P r × All P qs
  unfolding insert_by_age
  insert_by_age-All r [] h = h
  insert_by_age-All r (q ∷ qs) h = elim (Bool-cases (leb r.created_at q.created_at)) [
    | inl le ↦ rw le at h
    | inr gt ↦
        let k : P q × All P (insert_by_age r qs) = rw gt at h in
        let (p, hs) = insert_by_age-All r qs k.1 in (p, (k.0, hs))
  ]

  pub rows_of_agent-All :
      (agent : Text) (rs : List Row)
      → All P (rows_of_agent agent rs)
      → All (λ r. text_eq (to_lower r.agent_address) (to_lower agent) ≡ true → P r) rs
  unfolding rows_of_agent
  rows_of_agent-All agent [] h = tt
  rows_of_agent-All agent (r ∷ rs) h =
      elim (Bool-cases (text_eq (to_lower r.agent_address) (to_lower agent))) [
        | inl own ↦
            let k = insert_by_age-All r (rows_of_agent agent rs) (rw own at h) in
            (λ e. k.0, rows_of_agent-All agent rs k.1)
        | inr foreign ↦ (λ e. absurd (ground arith), rows_of_agent-All agent rs (rw foreign at h))
      ]

  pub All-rows_of_agent : (agent : Text) (rs : List Row) → All P rs → All P (rows_of_agent agent rs)
  unfolding rows_of_agent
  All-rows_of_agent agent [] h = tt
  All-rows_of_agent agent (r ∷ rs) (h, hs) =
      let ih = All-rows_of_agent agent rs hs in
      elim (Bool-cases (text_eq (to_lower r.agent_address) (to_lower agent))) [
        | inl own ↦ rw own (All-insert_by_age r (rows_of_agent agent rs) h ih)
        | inr foreign ↦ rw foreign ih
      ]

  pub All-find : (p : Row → Bool) (o : Row) (rs : List Row) → All P rs → find p rs ≡ some o → P o
  All-find p o [] h e = absurd (cc)
  All-find p o (r ∷ rs) (h, hs) e = elim (Bool-cases (p r)) [
    | inl here ↦ let this : r ≡ o = ground arith in rw (← this) h
    | inr later ↦ All-find p o rs hs (ground arith)
  ]

  All-lookup : (k : Text) (q : Row) (d : Dict Row) → All P (values d) → lookup k d ≡ some q → P q
  unfolding lookup values
  All-lookup k q [] h e = absurd (cc)
  All-lookup k q ((j, r) ∷ d) (h, hs) e = elim (Bool-cases (text_eq k j)) [
    | inl here ↦ let this : r ≡ q = ground arith in rw (← this) h
    | inr further ↦ All-lookup k q d hs (ground arith)
  ]

own_rows :
    (agent : Text) (rs : List Row)
    → All (λ r. text_eq (to_lower r.agent_address) (to_lower agent) ≡ true) (rows_of_agent agent rs)
unfolding rows_of_agent
own_rows agent [] = tt
own_rows agent (r ∷ rs) =
    let ih = own_rows agent rs in
    elim (Bool-cases (text_eq (to_lower r.agent_address) (to_lower agent))) [
      | inl own ↦ rw own (All-insert_by_age _ r (rows_of_agent agent rs) own ih)
      | inr foreign ↦ rw foreign ih
    ]

insert_by_age-IsSorted : (r : Row) (qs : List Row) → IsSorted qs → IsSorted (insert_by_age r qs)
unfolding insert_by_age
insert_by_age-IsSorted r [] h = (tt, tt)
insert_by_age-IsSorted r (q ∷ qs) (h, hs) = elim (Bool-cases (leb r.created_at q.created_at)) [
  | inl le ↦
      rw le ((ground arith, All-older r.created_at q.created_at qs (ground arith) h), (h, hs))
  | inr gt ↦ rw gt (
    All-insert_by_age (λ p. q.created_at ≤ p.created_at) r qs (ground arith) h,
    insert_by_age-IsSorted r qs hs,
  )
]

rows_of_agent-IsSorted : (agent : Text) (rs : List Row) → IsSorted (rows_of_agent agent rs)
unfolding rows_of_agent
rows_of_agent-IsSorted agent [] = tt
rows_of_agent-IsSorted agent (r ∷ rs) =
    let ih = rows_of_agent-IsSorted agent rs in
    elim (Bool-cases (text_eq (to_lower r.agent_address) (to_lower agent))) [
      | inl own ↦ rw own (insert_by_age-IsSorted r (rows_of_agent agent rs) ih)
      | inr foreign ↦ rw foreign ih
    ]

abbrev pub queued_row : Row → Bool
queued_row r = is_queued r.status

pub find-none : (rs : List Row) → find queued_row rs ≡ none → All (λ q. queued_row q ≡ false) rs
find-none [] e = tt
find-none (r ∷ rs) e = (ground arith, find-none rs (ground arith))

find-oldest :
    (o : Row) (rs : List Row)
    → IsSorted rs
    → find queued_row rs ≡ some o
    → All (λ q. queued_row q ≡ true → o.created_at ≤ q.created_at) rs
find-oldest o [] h e = tt
find-oldest o (r ∷ rs) (h, hs) e = elim (Bool-cases (queued_row r)) [
  | inl first ↦
      let this : r ≡ o = ground arith in
      (
        λ q. rw this (omega arith),
        All-map (λ q. r.created_at ≤ q.created_at)
            (λ q. queued_row q ≡ true → o.created_at ≤ q.created_at) rs (λ q le e'. rw (← this) le)
            h,
      )
  | inr later ↦ (λ q. absurd (ground arith), find-oldest o rs hs (ground arith))
]

-- What a successful claim has changed.
pub claim_row-some :
    (id : Text) (now : ℕ) (d : Dict Row) (r : Row)
    → (claim_row id now d).0 ≡ some r
    → (q : Row) × (lookup id d ≡ some q)
      × (q.status ≡ PurchaseStatus.queued)
      × (r ≡ record q { status = PurchaseStatus.processing; updated_at = now })
      × ((claim_row id now d).1 ≡ insert id r d)
unfolding claim_row
claim_row-some id now d r e = elim (Option-cases (lookup id d)) [
  | inl missing ↦ absurd (ground arith)
  | inr (q, found) ↦ (q, found, ground arith, ground arith, ground arith)
]

module _ (agent : Text) (now : ℕ) (d : Dict Row) where
  -- The claimed row is one of the list, and no queued row of the agent is older.
  first_queued :
      (o : Row)
      → find queued_row (rows_of_agent agent (values d)) ≡ some o
      → (k : Text) (q : Row) → lookup k d ≡ some q
      → text_eq (to_lower q.agent_address) (to_lower agent) ≡ true
      → q.status ≡ PurchaseStatus.queued
      → o.created_at ≤ q.created_at
  first_queued o first k q found own free =
      let oldest =
        find-oldest o (rows_of_agent agent (values d)) (rows_of_agent-IsSorted agent (values d))
          first in
      let P : Row → Type 0 = λ r. queued_row r ≡ true → o.created_at ≤ r.created_at in
      let all = rows_of_agent-All P agent (values d) oldest in
      All-lookup _ k q d all found own (ground arith)

pub values-lookup : (d : Dict Row) → IsKeyed d → All (λ q. lookup q.id d ≡ some q) (values d)
values-lookup = Keyed.values-lookup (λ (r : Row). r.id)

-- A claim gives a worker a request that stands under the address of its agent and was queued, marks
-- it as processing, and passes over no queued request of the agent that is older, if every row of
-- the table stands under its own id.
pub claim-oldest :
    (ethers : Ethers) (agent address : Text) (now : ℕ) (s : Desk) (r : Row)
    → IsKeyed s.requests
    → ethers.get_address agent ≡ some address
    → (claim ethers agent now s).0 ≡ ok (some r)
    → (r.status ≡ PurchaseStatus.processing)
      × (to_lower r.agent_address ≡ to_lower address)
      × (lookup r.id (claim ethers agent now s).1.requests ≡ some r)
      × ((q : Row) × (lookup r.id s.requests ≡ some q)
          × (r ≡ record q { status = PurchaseStatus.processing; updated_at = now })
          × (q.status ≡ PurchaseStatus.queued))
      × ((k : Text) (q : Row)
          → lookup k s.requests ≡ some q
          → text_eq (to_lower q.agent_address) (to_lower address) ≡ true
          → q.status ≡ PurchaseStatus.queued
          → r.created_at ≤ q.created_at)
unfolding claim claim_oldest_queued
claim-oldest ethers agent address now s r keyed good done =
    elim (Option-cases (find queued_row (rows_of_agent address (values s.requests)))) [
      | inl idle ↦ absurd (ground arith)
      | inr (o, first) ↦
          let claimed : (claim_row o.id now s.requests).0 ≡ some r = ground arith in
          let own : lookup o.id s.requests ≡ some o =
            All-find _ queued_row o _
              (All-rows_of_agent _ address _ (values-lookup s.requests keyed)) first in
          let (q, found, free, is, after) = claim_row-some o.id now s.requests r claimed in
          let same : q ≡ o = ground arith in
          let id : r.id ≡ o.id = rw (is, same) refl in
          let at_old : lookup o.id (claim ethers agent now s).1.requests ≡ some r =
            rw (claim, good, claim_oldest_queued, first, after)
              (lookup-insert_self o.id r s.requests) in
          let mine : text_eq (to_lower o.agent_address) (to_lower address) ≡ true =
            All-find _ queued_row o _ (own_rows address (values s.requests)) first in
          let keeper : r.agent_address ≡ o.agent_address = rw (is, same) refl in
          (
            rw is refl,
            rw keeper ((text_eq_iff (to_lower o.agent_address) (to_lower address)).0 mine),
            ap (λ k. lookup k (claim ethers agent now s).1.requests) id ∙ at_old,
            (q, rw id found, is, free),
            λ k p there owned queued.
                rw (is, same) (first_queued address now s.requests o first k p there owned queued),
          )
    ]

-- A request that one worker has claimed is never claimed again, whatever happens in between.
pub claim-once :
    (ethers : Ethers) (a b ca cb : Text) (t u : ℕ) (s s' : Desk) (r q : Row)
    → IsKeyed s.requests
    → ethers.get_address a ≡ some ca
    → ethers.get_address b ≡ some cb
    → (claim ethers a t s).0 ≡ ok (some r)
    → Reach ethers (claim ethers a t s).1 s'
    → (claim ethers b u s').0 ≡ ok (some q)
    → r.id ≢ q.id
claim-once ethers a b ca cb t u s s' r q keyed ga gb first between second same =
    let (taken, mine, there, before, oldest) = claim-oldest ethers a ca t s r keyed ga first in
    let k = Step-IsKeyed (claims a t s) keyed in
    let (_, _, _, (p, listed, _, free), _) =
      claim-oldest ethers b cb u s' q (Reach-IsKeyed between k) gb second in
    let (r', then, on) = Reach-Advances between r.id r there in
    let this : r' ≡ p = ground arith in
    let waits : rank r'.status ≡ 0 = rw (this, free) refl in
    elim on [ inl stayed ↦ ground arith | inr moved ↦ omega (arith, waits, moved) ]
