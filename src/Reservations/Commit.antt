-- ===== src/Reservations/Commit.antt =====
-- What a commit does: the amount moves from the reservations to the day's total.
use ethonline.Common.{
  ℕ, ◌+◌, ◌≡◌, refl, ◌≢◌, ◌∙◌, ap, Bool, true, false, Option-cases, inl, inr, none, some, arith,
}
use ethonline.Common.Int.{ℤ, pos, ◌+ℤ◌, ◌≤ℤ◌, ◌<ℤ◌, int_laws}
use ethonline.Common.Text.{Text}
use ethonline.Common.Dict.{lookup, insert, erase, lookup-erase_ne, lookup-insert_self}
use ethonline.Common.BigInt.{parse_big_int, print_big_int}
use ethonline.Common.BigInt.RoundTrip.{parse_big_int-print_big_int}
use ethonline.Common.Results.{ok}
use ethonline.Domain.{TreasuryMandate}
use ethonline.Policy.{Policy, day_id, record_autonomous_spend}
use ethonline.Policy.Ledger.{
  spent_on, get_daily_spent-caches, get_daily_spent-mandate, record_autonomous_spend-spent_on,
  record_autonomous_spend_lem,
}
use ethonline.Reservations.{
  Reservation, Reservations, total, acquire_reservation, commit_reservation,
}
use ethonline.Reservations.Budget.{
  total-erase, limit_of, new_reservation, asked, pruned, acquire-granted,
}

record_autonomous_spend-mandate :
    (amount : Text) (a : ℤ) (t : ℕ) (p : Policy)
    → parse_big_int amount ≡ some a
    → (record_autonomous_spend amount t p).1.mandate ≡ p.mandate
record_autonomous_spend-mandate amount a t p e =
    rw (record_autonomous_spend_lem amount a t p e) (get_daily_spent-mandate t p)

-- An action with no reservation, or whose reservation was pruned, commits nothing.
pub commit_reservation-none :
    (id : Text) (now : ℕ) (s : Reservations)
    → lookup id s.active ≡ none
    → commit_reservation id now s ≡ (ok false, s)
unfolding commit_reservation
commit_reservation-none id now s e = ground arith

module _ (id : Text) (now : ℕ) (s : Reservations) (r : Reservation)
    (held : lookup id s.active ≡ some r) where
  abbrev committed : Reservations
  committed = record {
    policy = (record_autonomous_spend (print_big_int r.amount) now s.policy).1;
    active = erase id s.active;
  }

  pub commit_reservation_lem : commit_reservation id now s ≡ (ok true, committed)
  unfolding commit_reservation
  commit_reservation_lem = ground (
    arith,
    record_autonomous_spend-spent_on (print_big_int r.amount) r.amount now now s.policy
        (parse_big_int-print_big_int r.amount),
  )

  pub commit-spent_on :
      (u : ℕ)
      → day_id u ≡ day_id now
      → spent_on u (commit_reservation id now s).1.policy ≡ spent_on now s.policy +ℤ r.amount
  commit-spent_on u same = rw commit_reservation_lem (
      (record_autonomous_spend-spent_on (print_big_int r.amount) r.amount now u s.policy
        (parse_big_int-print_big_int r.amount)).1
      ∙ ground arith)

  -- Committing a reservation succeeds and moves its amount: the day's total grows by it, the sum of
  -- the reservations shrinks by it, their sum with the total and the daily limit stay, and no other
  -- action's reservation changes.
  pub commit_reservation-conserves :
      let (result, s') = commit_reservation id now s in
      (result ≡ ok true)
      × (spent_on now s'.policy ≡ spent_on now s.policy +ℤ r.amount)
      × (total s'.active +ℤ r.amount ≡ total s.active)
      × (spent_on now s'.policy +ℤ total s'.active ≡ spent_on now s.policy +ℤ total s.active)
      × (limit_of s' ≡ limit_of s)
      × ((j : Text) → j ≢ id → lookup j s'.active ≡ lookup j s.active)
  commit_reservation-conserves =
      let spent = commit-spent_on now refl in
      let rest = total-erase id r s.active held in
      (
        rw commit_reservation_lem,
        spent,
        rw commit_reservation_lem rest,
        rw spent (rw (commit_reservation_lem, ← rest) (omega int_laws)),
        rw commit_reservation_lem (
            ap (λ (m : TreasuryMandate). m.daily_autonomous_limit)
              (record_autonomous_spend-mandate (print_big_int r.amount) r.amount now s.policy
                (parse_big_int-print_big_int r.amount))),
        (λ j other. rw commit_reservation_lem (lookup-erase_ne id j s.active other)),
      )

-- A negative amount that passes the check of the budget is reserved and committed like any other,
-- and the day's total changes by exactly this amount, so it falls: the request frees budget.
pub negative_amount-lowers :
    (id amount : Text) (ttl now : ℕ) (a : ℤ) (s : Reservations)
    → parse_big_int amount ≡ some a
    → a <ℤ pos 0
    → asked now a s ≤ℤ limit_of s
    → let after =
        (commit_reservation id now (acquire_reservation id amount ttl now s).1).1.policy in
      (spent_on now after ≡ spent_on now s.policy +ℤ a)
      × (spent_on now after <ℤ spent_on now s.policy)
negative_amount-lowers id amount ttl now a s e neg fits =
    let r = new_reservation id a (now + ttl) in
    let s' : Reservations = record (pruned now s) { active = insert id r (pruned now s).active } in
    let held : lookup id s'.active ≡ some r = lookup-insert_self id r (pruned now s).active in
    rw (acquire-granted id amount ttl now a s e fits) (
      rw (commit-spent_on id now s' r held now refl)
        (rw (get_daily_spent-caches now now s.policy) (refl, omega int_laws)))

-- A commit never throws: what it records is a printed bigint.
pub commit_reservation-ok :
    (id : Text) (now : ℕ) (s : Reservations) → (b : Bool) × ((commit_reservation id now s).0 ≡ ok b)
commit_reservation-ok id now s = elim (Option-cases (lookup id s.active)) [
  | inl missing ↦ (false, rw (commit_reservation-none id now s missing))
  | inr (r, held) ↦ (true, (commit_reservation-conserves id now s r held).0)
]
