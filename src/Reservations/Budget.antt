-- ===== src/Reservations/Budget.antt =====
-- What one operation does to the day's total and to the sum of the reservations.
use ethonline.Common.{
  ℕ, ◌+◌, ◌++◌, ◌↔◌, ◌≡◌, refl, true, false, none, some, [], ◌∷◌, ◌∙◌, arith, if◌then◌else◌, All,
  Bool-cases, inl, inr,
}
use ethonline.Common.Int.{ℤ, pos, ◌+ℤ◌, ◌≤ℤ◌, ◌<ℤ◌, ltb_ℤ, ≤ℤ-or-<ℤ, int_laws}
use ethonline.Common.Text.{Text, codes, text_eq}
use ethonline.Common.Dict.{Dict, lookup, insert, erase, lookup-insert_self}
use ethonline.Common.BigInt.{parse_big_int}
use ethonline.Common.Results.{Result, ok}
use ethonline.Domain.{Reason}
use ethonline.Policy.{get_daily_spent}
use ethonline.Policy.Ledger.{spent_on, get_daily_spent-caches, get_daily_spent-mandate}
use ethonline.Reservations.{
  Reservation, Reservations, Acquired, reserved, refused, drop_expired, prune_expired, total_from,
  total, get_total_reserved_amount, acquire_reservation,
}

pub lookup-drop_expired :
    (now : ℕ) (k : Text) (d : Dict Reservation)
    → lookup k d ≡ none
    → lookup k (drop_expired now d) ≡ none
unfolding lookup drop_expired
lookup-drop_expired now k [] h = refl
lookup-drop_expired now k ((j, r) ∷ d) h = ground (arith, lookup-drop_expired now k d)

drop_expired-drop_expired :
    (now : ℕ) (d : Dict Reservation) → drop_expired now (drop_expired now d) ≡ drop_expired now d
unfolding drop_expired
drop_expired-drop_expired now [] = refl
drop_expired-drop_expired now ((j, r) ∷ d) = ground (arith, drop_expired-drop_expired now d)

total_from_lem : (sum : ℤ) (d : Dict Reservation) → total_from sum d ≡ sum +ℤ total d
unfolding total
total_from_lem sum [] = omega int_laws
total_from_lem sum ((k, r) ∷ d) =
    rw (total_from_lem (sum +ℤ r.amount) d, total_from_lem (pos 0 +ℤ r.amount) d) (omega int_laws)

pub total-nil : total [] ≡ pos 0
unfolding total
total-nil = refl

pub total-cons :
    (k : Text) (r : Reservation) (d : Dict Reservation) → total ((k, r) ∷ d) ≡ r.amount +ℤ total d
unfolding total
total-cons k r d = rw (total_from_lem (pos 0 +ℤ r.amount) d) (omega int_laws)

pub total-insert_new :
    (k : Text) (r : Reservation) (d : Dict Reservation)
    → lookup k d ≡ none
    → total (insert k r d) ≡ total d +ℤ r.amount
unfolding lookup insert
total-insert_new k r [] h = rw (total-cons k r [], total-nil) (omega int_laws)
total-insert_new k r ((j, q) ∷ d) h = elim (Bool-cases (text_eq k j)) [
  | inl same ↦ absurd (ground arith)
  | inr other ↦
      let ih = total-insert_new k r d (ground arith) in
      rw (other, insert)
        (total-cons j q (insert k r d) ∙ rw (ih, total-cons j q d) (omega int_laws))
]

pub total-erase :
    (k : Text) (r : Reservation) (d : Dict Reservation)
    → lookup k d ≡ some r
    → total (erase k d) +ℤ r.amount ≡ total d
unfolding lookup erase
total-erase k r [] h = cc
total-erase k r ((j, q) ∷ d) h = elim (Bool-cases (text_eq k j)) [
  | inl same ↦
      let found : q ≡ r = ground arith in
      rw (same, erase) (rw found (rw total-cons (omega int_laws)))
  | inr other ↦
      let ih = total-erase k r d (ground arith) in
      rw (other, erase) (rw (total-cons j q (erase k d), total-cons j q d, ← ih) (omega int_laws))
]

-- Every reservation in the map has an amount of zero or more.
abbrev pub IsNonnegative : Dict Reservation → Type 0
IsNonnegative = All (λ e. pos 0 ≤ℤ e.1.amount)

-- The sum that `getTotalReservedAmount` returns at a time.
abbrev pub held_at : ℕ → Reservations → ℤ
held_at now s = total (drop_expired now s.active)

abbrev pub limit_of : Reservations → ℤ
limit_of s = s.policy.mandate.daily_autonomous_limit

-- The reservation that an acquisition makes.
abbrev pub new_reservation : Text → ℤ → ℕ → Reservation
new_reservation id a expires = record {
  id = codes "res-" ++ id;
  action_id = id;
  amount = a;
  expires_at = expires;
}

pub acquire_reservation_lem :
    (id amount : Text) (ttl now : ℕ) (a : ℤ) (s : Reservations)
    → parse_big_int amount ≡ some a
    → let spent = spent_on now s.policy in
      let held = held_at now s in
      let r = new_reservation id a (now + ttl) in
      let s' : Reservations = record {
        policy = (get_daily_spent now s.policy).1;
        active = drop_expired now s.active;
      } in
      acquire_reservation id amount ttl now s ≡ (
        if ltb_ℤ (limit_of s) (spent +ℤ held +ℤ a)
        then (ok (refused (Reason.insufficient_budget spent held amount)), s')
        else (ok (reserved r), record s' { active = insert id r s'.active }))
unfolding acquire_reservation get_total_reserved_amount prune_expired
acquire_reservation_lem id amount ttl now a s e =
    ground (arith, drop_expired-drop_expired now s.active, get_daily_spent-mandate now s.policy)

-- What the limit is compared with.
abbrev pub asked : ℕ → ℤ → Reservations → ℤ
asked now a s = spent_on now s.policy +ℤ held_at now s +ℤ a

abbrev pub pruned : ℕ → Reservations → Reservations
pruned now s = record {
  policy = (get_daily_spent now s.policy).1;
  active = drop_expired now s.active;
}

module _ (id amount : Text) (ttl now : ℕ) (a : ℤ) (s : Reservations)
    (e : parse_big_int amount ≡ some a) where
  abbrev new : Reservation
  new = new_reservation id a (now + ttl)

  pub acquire-granted :
      asked now a s ≤ℤ limit_of s
      → acquire_reservation id amount ttl now s ≡ (
        ok (reserved new),
        record (pruned now s) { active = insert id new (pruned now s).active },
      )
  acquire-granted h =
      let fits : ltb_ℤ (limit_of s) (asked now a s) ≡ false = ground arith in
      acquire_reservation_lem id amount ttl now a s e ∙ rw fits

  pub acquire-refused :
      limit_of s <ℤ asked now a s
      → acquire_reservation id amount ttl now s ≡ (
        ok (refused (Reason.insufficient_budget (spent_on now s.policy) (held_at now s) amount)),
        pruned now s,
      )
  acquire-refused h =
      let over : ltb_ℤ (limit_of s) (asked now a s) ≡ true = ground arith in
      acquire_reservation_lem id amount ttl now a s e ∙ rw over

  -- After a granted request the total and the reservations are within the limit.
  pub granted-within :
      lookup id s.active ≡ none
      → asked now a s ≤ℤ limit_of s
      → (spent_on now (get_daily_spent now s.policy).1
            +ℤ total (insert id new (drop_expired now s.active))
          ≤ℤ (get_daily_spent now s.policy).1.mandate.daily_autonomous_limit)
  granted-within free h =
      rw
        (
          get_daily_spent-caches now now s.policy,
          get_daily_spent-mandate now s.policy,
          total-insert_new id new (drop_expired now s.active)
              (lookup-drop_expired now id s.active free),
        )
        (omega int_laws)

  not-refused-reserved :
      (r : Reason) → ¬ (◌≡◌ {A = Result Acquired} (ok (refused r)) (ok (reserved new)))
  not-refused-reserved r h = cc

-- An action with no reservation acquires one exactly when the day's total, the reservations that
-- are not expired and the amount together are within the daily limit; then the total and all
-- reservations, the new one included, are within the limit afterwards.
pub acquire_reservation-IsWithin :
    (id amount : Text) (ttl now : ℕ) (a : ℤ) (s : Reservations)
    → parse_big_int amount ≡ some a
    → lookup id s.active ≡ none
    → let (result, s') = acquire_reservation id amount ttl now s in
      ((result ≡ ok (reserved (new_reservation id a (now + ttl))))
        ↔ (spent_on now s.policy +ℤ held_at now s +ℤ a ≤ℤ limit_of s))
      × ((result ≡ ok (reserved (new_reservation id a (now + ttl))))
          → (lookup id s'.active ≡ some (new_reservation id a (now + ttl)))
            × (spent_on now s'.policy +ℤ total s'.active ≤ℤ limit_of s'))
acquire_reservation-IsWithin id amount ttl now a s e free =
    elim (≤ℤ-or-<ℤ (asked now a s) (limit_of s)) [
      | inl fits ↦ rw (acquire-granted id amount ttl now a s e fits) (
        ((λ _. fits), (λ _. refl)),
        (λ _. (
          lookup-insert_self id _ (drop_expired now s.active),
          granted-within id amount ttl now a s e free fits,
        )),
      )
      | inr over ↦
          let no_grant = not-refused-reserved id amount ttl now a s e _ in
          rw (acquire-refused id amount ttl now a s e over)
            (((λ h. absurd (no_grant h)), (λ h. absurd (omega arith))), (λ h. absurd (no_grant h)))
    ]
