-- ===== src/Reservations/Steps.antt =====
-- Every sequence of the service's operations on one day keeps the day within its limit.
use ethonline.Common.{
  ℕ, ◌≡◌, if◌then◌else◌, none, some, [], ◌∷◌, arith, All, Bool-cases, Option-cases, inl, inr,
}
use ethonline.Common.Int.{ℤ, pos, ◌+ℤ◌, ◌≤ℤ◌, ≤ℤ-or-<ℤ, int_laws}
use ethonline.Common.Text.{Text}
use ethonline.Common.Dict.{Dict, lookup, insert, erase, erase-none}
use ethonline.Common.BigInt.{parse_big_int}
use ethonline.Policy.{day_id, get_daily_spent}
use ethonline.Policy.Ledger.{
  spent_on, get_daily_spent-caches, get_daily_spent-mandate, spent_on-day,
}
use ethonline.Reservations.{
  Reservation, Reservations, total, drop_expired, acquire_reservation, commit_reservation,
  prune_expired, release_reservation, is_expired,
}
use ethonline.Reservations.Budget.{
  total-cons, total-nil, total-erase, limit_of, asked, acquire-granted, acquire-refused,
  granted-within,
}
use ethonline.Reservations.Commit.{
  commit_reservation_lem, commit_reservation-conserves, commit_reservation-none,
}

-- No reservation has a negative amount.
abbrev pub IsNonnegative : Dict Reservation → Type 0
IsNonnegative = All (λ e. pos 0 ≤ℤ e.1.amount)

total_nonneg : (d : Dict Reservation) → IsNonnegative d → pos 0 ≤ℤ total d
total_nonneg [] h = rw total-nil (omega arith)
total_nonneg ((k, r) ∷ d) h = rw (total-cons k r d) (omega (int_laws, total_nonneg d h.1))

drop_expired-IsNonnegative :
    (now : ℕ) (d : Dict Reservation) → IsNonnegative d → IsNonnegative (drop_expired now d)
unfolding drop_expired
drop_expired-IsNonnegative now [] h = tt
drop_expired-IsNonnegative now ((k, r) ∷ d) h = ground (arith, drop_expired-IsNonnegative now d h.1)

drop_expired-cons :
    (now : ℕ) (k : Text) (r : Reservation) (d : Dict Reservation)
    → drop_expired now ((k, r) ∷ d)
      ≡ (if is_expired now r then drop_expired now d else (k, r) ∷ drop_expired now d)
unfolding drop_expired
drop_expired-cons now k r d = ground arith

total-drop_expired :
    (now : ℕ) (d : Dict Reservation) → IsNonnegative d → total (drop_expired now d) ≤ℤ total d
total-drop_expired now [] h = unfold drop_expired in omega arith
total-drop_expired now ((k, r) ∷ d) h =
    let ih = total-drop_expired now d h.1 in
    rw (drop_expired-cons now k r d, total-cons k r d)
      (elim (Bool-cases (is_expired now r)) [
        | inl gone ↦ rw gone (omega (int_laws, ih))
        | inr stays ↦ rw (stays, total-cons k r (drop_expired now d)) (omega (int_laws, ih))
      ])

insert-IsNonnegative :
    (k : Text) (r : Reservation) (d : Dict Reservation)
    → pos 0 ≤ℤ r.amount
    → IsNonnegative d
    → IsNonnegative (insert k r d)
unfolding insert
insert-IsNonnegative k r [] p h = (p, tt)
insert-IsNonnegative k r ((j, q) ∷ d) p h = ground (arith, insert-IsNonnegative k r d p h.1)

erase-IsNonnegative :
    (k : Text) (d : Dict Reservation) → IsNonnegative d → IsNonnegative (erase k d)
unfolding erase
erase-IsNonnegative k [] h = tt
erase-IsNonnegative k ((j, q) ∷ d) h = ground (arith, erase-IsNonnegative k d h.1)

lookup-IsNonnegative :
    (k : Text) (r : Reservation) (d : Dict Reservation)
    → IsNonnegative d
    → lookup k d ≡ some r
    → pos 0 ≤ℤ r.amount
unfolding lookup
lookup-IsNonnegative k r [] h e = absurd (cc)
lookup-IsNonnegative k r ((j, q) ∷ d) h e = ground (arith, lookup-IsNonnegative k r d h.1)

-- The operations that the clients call on the day of `t`, each with the state that it leaves.
pub data Step (t : ℕ) : Reservations → Reservations → Type 0 where
  acquire :
      (id amount : Text) (ttl now : ℕ) (a : ℤ) (s : Reservations)
      → day_id t ≡ day_id now
      → parse_big_int amount ≡ some a
      → pos 0 ≤ℤ a
      → lookup id s.active ≡ none
      → Step t s (acquire_reservation id amount ttl now s).1
  commit :
      (id : Text) (now : ℕ) (s : Reservations)
      → day_id t ≡ day_id now
      → Step t s (commit_reservation id now s).1
  release : (id : Text) (s : Reservations) → Step t s (release_reservation id s).1
  prune : (now : ℕ) (s : Reservations) → Step t s (prune_expired now s).1

pub data Reach (t : ℕ) (s : Reservations) : Reservations → Type 0 where
  here : Reach t s s
  next : {u v : Reservations} → Reach t s u → Step t u v → Reach t s v

-- What is spent on the day, with all that is reserved, is within the limit.
pub record IsWithin (t : ℕ) (s : Reservations) : Type 0 where
  pub nonnegative : IsNonnegative s.active
  pub within : spent_on t s.policy +ℤ total s.active ≤ℤ limit_of s

-- Reading the day's total and pruning keep what is within the limit there.
pruned-within :
    (now : ℕ) (s : Reservations)
    → IsNonnegative s.active
    → spent_on now s.policy +ℤ total s.active ≤ℤ limit_of s
    → spent_on now (get_daily_spent now s.policy).1 +ℤ total (drop_expired now s.active)
      ≤ℤ (get_daily_spent now s.policy).1.mandate.daily_autonomous_limit
pruned-within now s p h =
    rw (get_daily_spent-caches now now s.policy, get_daily_spent-mandate now s.policy)
      (omega (int_laws, total-drop_expired now s.active p))

module _ (t now : ℕ) (same : day_id t ≡ day_id now) where
  -- The day of `t` and the day of `now` have one total.
  at_now :
      (s : Reservations)
      → IsNonnegative s.active
      → spent_on now s.policy +ℤ total s.active ≤ℤ limit_of s
      → IsWithin t s
  at_now s p h = record { nonnegative = p; within = rw (spent_on-day t now s.policy same) h }

  within_now :
      (s : Reservations) → IsWithin t s → spent_on now s.policy +ℤ total s.active ≤ℤ limit_of s
  within_now s h = rw (← spent_on-day t now s.policy same) h.within

  pub acquire-IsWithin :
      (id amount : Text) (ttl : ℕ) (a : ℤ) (s : Reservations)
      → parse_big_int amount ≡ some a
      → pos 0 ≤ℤ a
      → lookup id s.active ≡ none
      → IsWithin t s
      → IsWithin t (acquire_reservation id amount ttl now s).1
  acquire-IsWithin id amount ttl a s e p free h =
      let kept = drop_expired-IsNonnegative now s.active h.nonnegative in
      elim (≤ℤ-or-<ℤ (asked now a s) (limit_of s)) [
        | inl fits ↦ rw (acquire-granted id amount ttl now a s e fits) (
            at_now _ (insert-IsNonnegative id _ _ p kept)
              (granted-within id amount ttl now a s e free fits))
        | inr over ↦
            rw (acquire-refused id amount ttl now a s e over)
              (at_now _ kept (pruned-within now s h.nonnegative (within_now s h)))
      ]

  pub commit-IsWithin :
      (id : Text) (s : Reservations) → IsWithin t s → IsWithin t (commit_reservation id now s).1
  commit-IsWithin id s h = elim (Option-cases (lookup id s.active)) [
    | inl missing ↦ rw (commit_reservation-none id now s missing) h
    | inr (r, held) ↦
        let c = commit_reservation-conserves id now s r held in
        at_now _
          (rw (commit_reservation_lem id now s r held)
            (erase-IsNonnegative id s.active h.nonnegative))
          (rw (c.3, c.4) (within_now s h))
  ]

total-erase-le :
    (id : Text) (d : Dict Reservation) → IsNonnegative d → total (erase id d) ≤ℤ total d
total-erase-le id d p = elim (Option-cases (lookup id d)) [
  | inl missing ↦ rw (erase-none id d missing) (omega arith)
  | inr (r, held) ↦
      rw (← total-erase id r d held) (omega (int_laws, lookup-IsNonnegative id r d p held))
]

pub Step-IsWithin : {t : ℕ} {s s' : Reservations} → Step t s s' → IsWithin t s → IsWithin t s'
Step-IsWithin {t} (acquire id amount ttl now a s same e p free) h =
    acquire-IsWithin t now same id amount ttl a s e p free h
Step-IsWithin {t} (commit id now s same) h = commit-IsWithin t now same id s h
Step-IsWithin {t} (release id s) h = record {
  nonnegative = unfold release_reservation in erase-IsNonnegative id s.active h.nonnegative;
  within =
      unfold release_reservation in
      omega (int_laws, h.within, total-erase-le id s.active h.nonnegative);
}
Step-IsWithin {t} (prune now s) h = record {
  nonnegative = unfold prune_expired in drop_expired-IsNonnegative now s.active h.nonnegative;
  within =
      unfold prune_expired in
      omega (int_laws, h.within, total-drop_expired now s.active h.nonnegative);
}

-- However the requests, commits, releases and prunings of one day follow each other, the day's
-- total and the reservations stay within the daily limit together, if they are to begin with,
-- no amount is negative, and no action asks while it has a reservation.
pub Reach-IsWithin : (t : ℕ) (s s' : Reservations) → IsWithin t s → Reach t s s' → IsWithin t s'
Reach-IsWithin t s s' h here = h
Reach-IsWithin t s s' h (next r st) = Step-IsWithin st (Reach-IsWithin t s _ h r)
