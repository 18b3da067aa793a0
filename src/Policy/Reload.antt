-- ===== src/Policy/Reload.antt =====
-- The daily ledger after a restart: what `loadFromDatabase` makes of the table.
use ethonline.Common.{
  ℕ, ◌≡◌, refl, sym, ap, ◌∙◌, ◌⊎◌, true, Option, none, some, [], ◌∷◌, arith, ◌==◌, if◌then◌else◌,
  Option-cases, Bool-cases, inl, inr,
}
use ethonline.Common.Dict
use ethonline.Common.Int.{ℤ, pos, ◌+ℤ◌}
use ethonline.Common.Text.{Text}
use ethonline.Common.NatDict.{NatDict, lookup, insert, lookup-insert}
use ethonline.Common.BigInt.{parse_big_int}
use ethonline.Common.Results.{none_ne_some}
use ethonline.Domain.{TreasuryMandate}
use ethonline.Policy.{
  Policy, day_id, get_daily_spent, record_autonomous_spend, load_spent, load_from_database,
  persist_mandate, mandate_key, mandate_of_row,
}
use ethonline.Policy.Ledger.{
  spent_on, IsBacked, record_autonomous_spend_lem, record_autonomous_spend-IsBacked,
  record_autonomous_spend-spent_on,
}

-- No day has two rows in the table, whose key is the day.
abbrev pub IsUnique {ℓ} : {V : Type ℓ} → NatDict V → Type ℓ
IsUnique [] = Unit
IsUnique ((d, v) ∷ rows) = (lookup d rows ≡ none) × IsUnique rows

insert-IsUnique :
    (k : ℕ) (v : Text) (rows : NatDict Text) → IsUnique rows → IsUnique (insert k v rows)
unfolding lookup insert
insert-IsUnique k v [] h = (refl, tt)
insert-IsUnique k v ((d, t) ∷ rows) h = elim (Bool-cases (k == d)) [
  | inl same ↦ rw (insert, same) h
  | inr other ↦
      rw (insert, other)
        (ground (arith, lookup-insert {V = Text} k d v rows, h.0), insert-IsUnique k v rows h.1)
]

load_spent-rows : (rows : NatDict Text) (p : Policy) → (load_spent rows p).spent_rows ≡ p.spent_rows
unfolding load_spent
load_spent-rows [] p = refl
load_spent-rows ((d, t) ∷ rows) p = elim (Option-cases (parse_big_int t)) [
  | inl bad ↦ rw (load_spent, bad) refl
  | inr (z, good) ↦ rw (load_spent, good) (load_spent-rows rows _)
]

-- The total that the rows say of a day.
abbrev row_total : ℕ → NatDict Text → Option ℤ
row_total d rows = elim (lookup d rows) [ none ↦ none | some text ↦ parse_big_int text ]

row_total-here :
    (d : ℕ) (t : Text) (rows : NatDict Text) → row_total d ((d, t) ∷ rows) ≡ parse_big_int t
unfolding lookup
row_total-here d t rows = let same : d == d ≡ true = ground arith in rw (row_total, same) refl

row_total-later :
    (d k : ℕ) (t : Text) (rows : NatDict Text) (z : ℤ)
    → lookup k rows ≡ none
    → row_total d rows ≡ some z
    → row_total d ((k, t) ∷ rows) ≡ some z
unfolding lookup
row_total-later d k t rows z free there = elim (Bool-cases (d == k)) [
  | inl same ↦
      let is : k ≡ d = ground arith in
      let gone : lookup d rows ≡ none = ap (λ x. lookup x rows) (sym is) ∙ free in
      absurd (none_ne_some z (rw (row_total, gone) at there))
  | inr other ↦ rw (row_total, other) there
]

-- What is in the map after the loop was there before or is in the rows.
load_spent-some :
    (rows : NatDict Text) (p : Policy) (d : ℕ) (z : ℤ)
    → IsUnique rows
    → lookup d (load_spent rows p).daily_spent ≡ some z
    → (lookup d p.daily_spent ≡ some z) ⊎ (row_total d rows ≡ some z)
unfolding load_spent
load_spent-some [] p d z h e = inl e
load_spent-some ((k, t) ∷ rows) p d z h e = elim (Option-cases (parse_big_int t)) [
  | inl bad ↦ inl (rw (load_spent, bad) at e)
  | inr (y, good) ↦
      let p' = record p { daily_spent = insert k y p.daily_spent } in
      elim (load_spent-some rows p' d z h.1 (rw (load_spent, good) at e)) [
        | inr later ↦ inr (row_total-later d k t rows z h.0 later)
        | inl before ↦ elim (Bool-cases (d == k)) [
          | inr other ↦
              inl (sym (lookup-insert {V = ℤ} k d y p.daily_spent ∙ rw other refl) ∙ before)
          | inl same ↦
              let is : k ≡ d = ground arith in
              let new : some y ≡ some z =
                sym (lookup-insert {V = ℤ} k d y p.daily_spent ∙ rw same refl) ∙ before in
              inr (rw (← is) (row_total-here k t rows ∙ good ∙ new))
        ]
      ]
]

-- What a service with an empty map reads from the table is what the running service reads.
from_rows :
    (t : ℕ) (p : Policy)
    → IsBacked p
    → spent_on t p ≡ elim (row_total (day_id t) p.spent_rows) [ none ↦ pos 0 | some z ↦ z ]
unfolding get_daily_spent
from_rows t p h = elim (Option-cases (lookup (day_id t) p.daily_spent)) [
  | inr (z, hit) ↦ rw (spent_on, get_daily_spent, row_total, hit, h (day_id t) z hit) refl
  | inl miss ↦ elim (Option-cases (lookup (day_id t) p.spent_rows)) [
    | inl empty ↦ rw (spent_on, get_daily_spent, row_total, miss, empty) refl
    | inr (text, row) ↦ elim (Option-cases (parse_big_int text)) [
      | inl bad ↦ rw (spent_on, get_daily_spent, row_total, miss, row, bad) refl
      | inr (z, good) ↦ rw (spent_on, get_daily_spent, row_total, miss, row, good) refl
    ]
  ]
]

-- The service that starts over the tables of `p`, with the mandate of its configuration.
abbrev pub reloaded : TreasuryMandate → Policy → Policy
reloaded m p = load_from_database (record p { mandate = m; daily_spent = [] })

load_spent-IsBacked :
    (p : Policy) → p.daily_spent ≡ [] → IsUnique p.spent_rows → IsBacked (load_spent p.spent_rows p)
unfolding lookup
load_spent-IsBacked p empty h d z e = elim (load_spent-some p.spent_rows p d z h e) [
  | inl there ↦ absurd (none_ne_some z (sym (ap (lookup d) empty) ∙ there))
  | inr row ↦ rw (load_spent-rows p.spent_rows p) row
]

-- The map after a start is in step with the table, which the start leaves alone.
reloaded-IsBacked :
    (m : TreasuryMandate) (p : Policy)
    → IsUnique p.spent_rows
    → IsBacked (reloaded m p) × ((reloaded m p).spent_rows ≡ p.spent_rows)
unfolding load_from_database persist_mandate lookup
reloaded-IsBacked m p h =
    elim (Option-cases (Dict.lookup (mandate_key m.chain_id m.safe_address) p.mandate_rows)) [
      | inl new ↦
          rw (load_from_database, new)
            (load_spent-IsBacked _ refl h, load_spent-rows p.spent_rows _)
      | inr (r, found) ↦ elim (Option-cases (mandate_of_row r)) [
        | inl bad ↦ rw (load_from_database, found, bad) ((λ d z e. absurd (none_ne_some z e)), refl)
        | inr (n, good) ↦
            rw (load_from_database, found, good)
              (load_spent-IsBacked _ refl h, load_spent-rows p.spent_rows _)
      ]
    ]

reloaded-spent_on :
    (m : TreasuryMandate) (t : ℕ) (p : Policy)
    → IsBacked p
    → IsUnique p.spent_rows
    → spent_on t (reloaded m p) ≡ spent_on t p
reloaded-spent_on m t p h u =
    let (backed, rows) = reloaded-IsBacked m p u in
    from_rows t (reloaded m p) backed
    ∙ ap (λ r. elim (row_total (day_id t) r) [ none ↦ pos 0 | some z ↦ z ]) rows
    ∙ sym (from_rows t p h)

get_daily_spent-rows : (t : ℕ) (p : Policy) → (get_daily_spent t p).1.spent_rows ≡ p.spent_rows
unfolding get_daily_spent
get_daily_spent-rows t p = ground arith

recorded-IsUnique :
    (amount : Text) (a : ℤ) (t : ℕ) (p : Policy)
    → parse_big_int amount ≡ some a
    → IsUnique p.spent_rows
    → IsUnique (record_autonomous_spend amount t p).1.spent_rows
recorded-IsUnique amount a t p e h =
    rw (record_autonomous_spend_lem amount a t p e, get_daily_spent-rows t p)
      (insert-IsUnique (day_id t) _ p.spent_rows h)

-- A spend that was recorded is still counted after a restart: the service that loads the tables
-- reads the total of every day as the running service does, whatever mandate it is configured with,
-- if before the spend the table held what the map held and had one row for a day.
pub restart-record_autonomous_spend :
    (amount : Text) (a : ℤ) (t u : ℕ) (m : TreasuryMandate) (p : Policy)
    → parse_big_int amount ≡ some a
    → IsBacked p
    → IsUnique p.spent_rows
    → spent_on u (reloaded m (record_autonomous_spend amount t p).1)
      ≡ (if day_id u == day_id t then spent_on t p +ℤ a else spent_on u p)
restart-record_autonomous_spend amount a t u m p e h unique =
    reloaded-spent_on m u (record_autonomous_spend amount t p).1
      (record_autonomous_spend-IsBacked amount a t p e h) (recorded-IsUnique amount a t p e unique)
    ∙ (record_autonomous_spend-spent_on amount a t u p e).1
