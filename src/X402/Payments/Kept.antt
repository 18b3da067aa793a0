-- ===== src/X402/Payments/Kept.antt =====
-- What the payments service leaves of an action that is in the store.
use ethonline.Common.Results.{some_injective}
use ethonline.Common.{
  ℕ, ◌≡◌, refl, ◌∙◌, sym, ap, Bool, none, some, Bool-cases, Option-cases, inl, inr,
}
use ethonline.Common.Int.{ℤ}
use ethonline.Common.Text.{Text, text_eq, text_eq_iff}
use ethonline.Common.Dict.{Dict, lookup, insert, lookup-insert}
use ethonline.Domain.{ActionStatus, TreasuryAction, ProposeActionDto}
use ethonline.ActionStore.{
  Store, Metadata, new_action, create_action, update_status, set_risk, with_risk, with_status,
  load_from_database,
}
use ethonline.ActionStore.Mirror.{
  IsMirrored, forget_risk, set_risk-some, set_risk-none, update_status-some, update_status-none,
}
use ethonline.ActionStore.Restart.{restart-forget_risk}

-- Two actions that pay the same amount to the same recipient.
abbrev pub IsSamePayment : TreasuryAction → TreasuryAction → Type 0
IsSamePayment a b = (a.recipient ≡ b.recipient) × (a.amount ≡ b.amount)

-- Every action of `s` is in `t` and pays the same.
abbrev pub Keeps : Store → Store → Type 0
Keeps s t =
    (id : Text) (a : TreasuryAction)
    → lookup id s.actions ≡ some a
    → (b : TreasuryAction) × (lookup id t.actions ≡ some b) × IsSamePayment a b

pub Keeps-trans : (s t u : Store) → Keeps s t → Keeps t u → Keeps s u
Keeps-trans s t u f g id a e =
    let (b, there, same) = f id a e in
    let (c, then, again) = g id b there in (c, then, (same.0 ∙ again.0, same.1 ∙ again.1))

-- Writing an action in the place of one that pays the same, or in a free place.
insert-Keeps :
    (k : Text) (new : TreasuryAction) (d : Dict TreasuryAction)
    → ((old : TreasuryAction) → lookup k d ≡ some old → IsSamePayment old new)
    → (id : Text) (a : TreasuryAction) → lookup id d ≡ some a
    → (b : TreasuryAction) × (lookup id (insert k new d) ≡ some b) × IsSamePayment a b
insert-Keeps k new d same id a e = elim (Bool-cases (text_eq id k)) [
  | inl here ↦ (
    new,
    lookup-insert k id new d ∙ rw here refl,
    same a (ap (λ x. lookup x d) (sym ((text_eq_iff id k).0 here)) ∙ e),
  )
  | inr there ↦ (a, lookup-insert k id new d ∙ rw there e, (refl, refl))
]

pub create_action-Keeps :
    (dto : ProposeActionDto) (id : Text) (now : ℕ) (s : Store)
    → lookup id s.actions ≡ none
    → Keeps s (create_action dto id now s).1
unfolding create_action
create_action-Keeps dto id now s fresh =
    insert-Keeps id (new_action dto id now s.current_nonce) s.actions
      (λ old e. absurd (some_ne_none old (sym e ∙ fresh)))
  where
    some_ne_none : (a : TreasuryAction) → ¬ (some a ≡ none)
    some_ne_none a e = cc

pub set_risk-Keeps :
    (id : Text) (score : ℤ) (human : Bool) (s : Store) → Keeps s (set_risk id score human s)
set_risk-Keeps id score human s = elim (Option-cases (lookup id s.actions)) [
  | inl missing ↦ rw (set_risk-none id score human s missing) (λ k a e. (a, e, (refl, refl)))
  | inr (a, found) ↦ rw (set_risk-some id score human s a found) (
      insert-Keeps id (with_risk score human a) s.actions (λ old e.
        let same : old ≡ a = some_injective old a (sym e ∙ found) in
        (ap (λ x. x.recipient) same, ap (λ x. x.amount) same)))
]

pub update_status-Keeps :
    (id : Text) (status : ActionStatus) (m : Metadata) (now : ℕ) (s : Store)
    → IsMirrored s
    → Keeps s (update_status id status m now s).1
update_status-Keeps id status m now s h = elim (Option-cases (lookup id s.actions)) [
  | inl missing ↦
      rw (update_status-none id status m now s h missing) (λ k a e. (a, e, (refl, refl)))
  | inr (a, found) ↦ rw (update_status-some id status m now s a h found) (
      insert-Keeps id (with_status status m now a) s.actions (λ old e.
        let same : old ≡ a = some_injective old a (sym e ∙ found) in
        unfold with_status in (ap (λ x. x.recipient) same, ap (λ x. x.amount) same)))
]

-- A start over the table keeps what every action pays.
pub load_from_database-Keeps : (s : Store) → IsMirrored s → Keeps s (load_from_database s.rows)
load_from_database-Keeps s h id a e =
    (forget_risk a, restart-forget_risk s id h ∙ rw e refl, (refl, refl))
