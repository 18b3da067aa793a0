-- ===== src/Policy/Ledger.antt =====
-- The daily ledger: what a recorded spend changes, and that the table follows the map.
use ethonline.Common.{
  ℕ, ◌≡◌, refl, Option, none, some, ◌∙◌, arith, ◌==◌, if◌then◌else◌, Option-cases, Bool-cases, inl,
  inr,
}
use ethonline.Common.Int.{ℤ, ◌+ℤ◌}
use ethonline.Common.Text.{Text}
use ethonline.Common.NatDict.{lookup, insert, lookup-insert}
use ethonline.Common.BigInt.{parse_big_int, print_big_int}
use ethonline.Common.BigInt.RoundTrip.{parse_big_int-print_big_int}
use ethonline.Common.Results.{ok}
use ethonline.Policy.{Policy, day_id, get_daily_spent, record_autonomous_spend}

-- What is spent on the day of `t`.
abbrev pub spent_on : ℕ → Policy → ℤ
spent_on t p = (get_daily_spent t p).0

-- A reading caches a value, and no reading after it changes.
pub get_daily_spent-caches :
    (t u : ℕ) (p : Policy) → spent_on u (get_daily_spent t p).1 ≡ spent_on u p
unfolding get_daily_spent
get_daily_spent-caches t u p = elim (Option-cases (lookup (day_id t) p.daily_spent)) [
  | inr (z, hit) ↦ ground arith
  | inl miss ↦ elim (Option-cases (lookup (day_id t) p.spent_rows)) [
    | inl empty ↦ ground arith
    | inr (text, row) ↦ elim (Option-cases (parse_big_int text)) [
      | inl bad ↦ ground arith
      | inr (z, good) ↦ ground (arith, lookup-insert {V = ℤ} (day_id t) (day_id u) z p.daily_spent)
    ]
  ]
]

-- Only the day of a time counts.
pub spent_on-day : (t u : ℕ) (p : Policy) → day_id t ≡ day_id u → spent_on t p ≡ spent_on u p
unfolding get_daily_spent
spent_on-day t u p e = ground arith

pub get_daily_spent-mandate : (t : ℕ) (p : Policy) → (get_daily_spent t p).1.mandate ≡ p.mandate
unfolding get_daily_spent
get_daily_spent-mandate t p = ground arith

-- The part of a recording after the reading.
record_spend-lookup :
    (t u : ℕ) (z : ℤ) (text : Text) (p : Policy)
    → spent_on u (record p {
      daily_spent = insert (day_id t) z p.daily_spent;
      spent_rows = insert (day_id t) text p.spent_rows;
    })
      ≡ (if day_id u == day_id t then z else spent_on u p)
unfolding get_daily_spent
record_spend-lookup t u z text p = elim (Bool-cases (day_id u == day_id t)) [
  | inl same ↦ ground (arith, lookup-insert {V = ℤ} (day_id t) (day_id u) z p.daily_spent)
  | inr other ↦ ground (
    arith,
    lookup-insert {V = ℤ} (day_id t) (day_id u) z p.daily_spent,
    lookup-insert {V = Text} (day_id t) (day_id u) text p.spent_rows,
  )
]

pub record_autonomous_spend_lem :
    (amount : Text) (a : ℤ) (t : ℕ) (p : Policy)
    → parse_big_int amount ≡ some a
    → let z = spent_on t p +ℤ a in
      record_autonomous_spend amount t p ≡ (
        ok tt,
        record (get_daily_spent t p).1 {
          daily_spent = insert (day_id t) z (get_daily_spent t p).1.daily_spent;
          spent_rows = insert (day_id t) (print_big_int z) (get_daily_spent t p).1.spent_rows;
        },
      )
unfolding record_autonomous_spend
record_autonomous_spend_lem amount a t p e = ground arith

-- Recording a spend succeeds for every amount that is a bigint, adds it to the total of its day,
-- and leaves the totals of the other days alone.
pub record_autonomous_spend-spent_on :
    (amount : Text) (a : ℤ) (t u : ℕ) (p : Policy)
    → parse_big_int amount ≡ some a
    → ((record_autonomous_spend amount t p).0 ≡ ok tt)
      × (spent_on u (record_autonomous_spend amount t p).1
          ≡ (if day_id u == day_id t then spent_on t p +ℤ a else spent_on u p))
record_autonomous_spend-spent_on amount a t u p e =
    let z = spent_on t p +ℤ a in
    rw (record_autonomous_spend_lem amount a t p e) (
      refl,
      record_spend-lookup t u z (print_big_int z) (get_daily_spent t p).1
          ∙ rw (get_daily_spent-caches t u p),
    )

-- What the table says of a day.
abbrev pub stored : ℕ → Policy → Option ℤ
stored d p = elim (lookup d p.spent_rows) [ none ↦ none | some text ↦ parse_big_int text ]

-- The table holds what the map holds.
abbrev pub IsBacked : Policy → Type 0
IsBacked p = (d : ℕ) (z : ℤ) → lookup d p.daily_spent ≡ some z → stored d p ≡ some z

get_daily_spent-IsBacked : (t : ℕ) (p : Policy) → IsBacked p → IsBacked (get_daily_spent t p).1
unfolding get_daily_spent
get_daily_spent-IsBacked t p h d z e = elim (Option-cases (lookup (day_id t) p.daily_spent)) [
  | inr (w, hit) ↦ ground (arith, h d z)
  | inl miss ↦ elim (Option-cases (lookup (day_id t) p.spent_rows)) [
    | inl empty ↦ ground (arith, h d z)
    | inr (text, row) ↦ elim (Option-cases (parse_big_int text)) [
      | inl bad ↦ ground (arith, h d z)
      | inr (w, good) ↦ ground (arith, h d z, lookup-insert {V = ℤ} (day_id t) d w p.daily_spent)
    ]
  ]
]

insert-IsBacked :
    (d : ℕ) (z : ℤ) (p : Policy)
    → IsBacked p
    → IsBacked (record p {
      daily_spent = insert d z p.daily_spent;
      spent_rows = insert d (print_big_int z) p.spent_rows;
    })
insert-IsBacked d z p h k w e = ground (
  arith,
  lookup-insert {V = ℤ} d k z p.daily_spent,
  lookup-insert {V = Text} d k (print_big_int z) p.spent_rows,
  h k w,
  parse_big_int-print_big_int z,
)

-- Recording keeps the table in step with the map.
pub record_autonomous_spend-IsBacked :
    (amount : Text) (a : ℤ) (t : ℕ) (p : Policy)
    → parse_big_int amount ≡ some a
    → IsBacked p
    → IsBacked (record_autonomous_spend amount t p).1
record_autonomous_spend-IsBacked amount a t p e h =
    rw (record_autonomous_spend_lem amount a t p e) (
      insert-IsBacked (day_id t) (spent_on t p +ℤ a) (get_daily_spent t p).1
        (get_daily_spent-IsBacked t p h))
