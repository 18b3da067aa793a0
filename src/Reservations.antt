-- ===== src/Reservations.antt =====
-- backend/src/reservations/balance-reservation.service.ts: the budget that pending actions hold.
pub mod Budget
pub mod Commit
pub mod Steps
use ethonline.Common.{
  ℕ, suc, ◌+◌, Bool, true, false, Option, none, some, List, [], ◌∷◌, ◌++◌, leb, if◌then◌else◌,
}
use ethonline.Common.Int.{ℤ, pos, ◌+ℤ◌, ltb_ℤ}
use ethonline.Common.Text.{Text, codes}
use ethonline.Common.Dict.{Dict, lookup, insert, erase, has}
use ethonline.Common.BigInt.{parse_big_int, print_big_int}
use ethonline.Common.Results.{HttpError, Result, ok, err}
use ethonline.Domain.{Reason, TreasuryMandate}
use ethonline.Policy.{Policy, get_daily_spent, record_autonomous_spend}

-- `BalanceReservation`
pub record Reservation : Type 0 where
  pub id : Text
  pub action_id : Text
  pub amount : ℤ
  pub expires_at : ℕ

-- The service's map, and the policy engine that it holds.
pub record Reservations : Type 0 where
  pub policy : Policy
  pub active : Dict Reservation

-- The result of `acquireReservation`.
pub data Acquired : Type 0 where
  reserved : Reservation → Acquired
  refused : Reason → Acquired

-- `res.expiresAt <= currentTimestamp`
abbrev pub is_expired : ℕ → Reservation → Bool
is_expired now r = leb r.expires_at now

-- The loop of `pruneExpired` on the map, and the number that it returns.
unfoldable pub drop_expired : ℕ → Dict Reservation → Dict Reservation
drop_expired now [] = []
drop_expired now ((k, r) ∷ d) = elim (is_expired now r) [
  | true ↦ drop_expired now d
  | false ↦ (k, r) ∷ drop_expired now d
]

unfoldable pub count_expired : ℕ → Dict Reservation → ℕ
count_expired now [] = 0
count_expired now ((k, r) ∷ d) = (if is_expired now r then 1 else 0) + count_expired now d

-- `pruneExpired`
unfoldable pub prune_expired : ℕ → Reservations → ℕ × Reservations
prune_expired now s = (count_expired now s.active, record s { active = drop_expired now s.active })

-- The loop of `getTotalReservedAmount`.
unfoldable pub total_from : ℤ → Dict Reservation → ℤ
total_from sum [] = sum
total_from sum ((k, r) ∷ d) = total_from (sum +ℤ r.amount) d

unfoldable pub total : Dict Reservation → ℤ
unfolding total_from
total d = total_from (pos 0) d

-- `getTotalReservedAmount`
unfoldable pub get_total_reserved_amount : ℕ → Reservations → ℤ × Reservations
unfolding prune_expired
get_total_reserved_amount now s = let s' = (prune_expired now s).1 in (total s'.active, s')

-- `acquireReservation`
unfoldable pub acquire_reservation :
    Text → Text → ℕ → ℕ → Reservations → Result Acquired × Reservations
acquire_reservation action_id amount ttl now s =
    let pruned = (prune_expired now s).1 in
    elim (parse_big_int amount) [
      | none ↦ (err HttpError.internal, pruned)
      | some a ↦
          let (spent, policy) = get_daily_spent now pruned.policy in
          let (held, s') = get_total_reserved_amount now (record pruned { policy = policy }) in
          let r : Reservation = record {
            id = codes "res-" ++ action_id;
            action_id = action_id;
            amount = a;
            expires_at = now + ttl;
          } in
          if ltb_ℤ s'.policy.mandate.daily_autonomous_limit (spent +ℤ held +ℤ a)
          then (ok (Acquired.refused (Reason.insufficient_budget spent held amount)), s')
          else (ok (Acquired.reserved r), record s' { active = insert action_id r s'.active })
    ]

-- `commitReservation`; the amount goes through its decimal text.
unfoldable pub commit_reservation : Text → ℕ → Reservations → Result Bool × Reservations
commit_reservation action_id now s = elim (lookup action_id s.active) [
  | none ↦ (ok false, s)
  | some r ↦
      let (done, policy) = record_autonomous_spend (print_big_int r.amount) now s.policy in
      elim done [
        | err e ↦ (err e, record s { policy = policy })
        | ok _ ↦ (ok true, record { policy = policy; active = erase action_id s.active })
      ]
]

-- `releaseReservation`
unfoldable pub release_reservation : Text → Reservations → Bool × Reservations
release_reservation action_id s =
    (has action_id s.active, record s { active = erase action_id s.active })

-- `getReservation`
unfoldable pub get_reservation : Text → Reservations → Option Reservation
get_reservation action_id s = lookup action_id s.active
