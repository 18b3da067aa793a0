-- ===== src/ActionStore/Mirror.antt =====
-- The table of actions follows the map of the service, but for the risk fields.
use mathlib.Core.Option
use ethonline.Common.{
  ℕ, ◌+◌, ◌≤◌, ◌<◌, ◌≡◌, refl, Bool, false, Option, none, some, arith, Bool-cases, Option-cases,
  inl, inr,
}
use ethonline.Common.Int.{ℤ, pos}
use ethonline.Common.Keyed
use ethonline.Common.Text.{Text, text_eq, text_eq_iff, truthy}
use ethonline.Common.Dict.{Dict, lookup, insert, lookup-insert}
use ethonline.Domain.{ActionStatus, TreasuryAction, ProposeActionDto}
use ethonline.ActionStore.{
  ActionRow, Store, Metadata, set_truthy, update_row, row_of_action, create_action, get_action,
  update_status, with_status, with_risk, new_action, set_risk, clear,
}

-- What is left of an action when its risk fields are at their first values.
abbrev pub forget_risk : TreasuryAction → TreasuryAction
forget_risk a = record a { risk_score = pos 0; requires_human_approval = false }

abbrev pub stored_row : TreasuryAction → ActionRow
stored_row a = row_of_action (forget_risk a)

-- Every row stands under its own id, and no id stands twice.
abbrev pub IsKeyed : Dict ActionRow → Type 0
IsKeyed = Keyed.IsKeyed (λ (r : ActionRow). r.id)

-- What holds of every action in the map, below the next nonce.
pub record IsListed (next : ℕ) (id : Text) (a : TreasuryAction) : Type 0 where
  pub own_id : a.id ≡ id
  pub signature : truthy a.signature ≡ a.signature
  pub tx_hash : truthy a.tx_hash ≡ a.tx_hash
  pub nonce : a.nonce < next

pub record IsMirrored (s : Store) : Type 0 where
  pub mirrored : (id : Text) → lookup id s.rows ≡ Option.map stored_row (lookup id s.actions)
  pub listed :
      (id : Text) (a : TreasuryAction)
      → lookup id s.actions ≡ some a
      → IsListed s.current_nonce id a
  pub keyed : IsKeyed s.rows

insert-IsKeyed :
    (k : Text) (r : ActionRow) (d : Dict ActionRow) → r.id ≡ k → IsKeyed d → IsKeyed (insert k r d)
insert-IsKeyed = Keyed.insert-IsKeyed (λ (r : ActionRow). r.id)

IsListed-mono :
    {m n : ℕ} {id : Text} {a : TreasuryAction} → m ≤ n → IsListed m id a → IsListed n id a
IsListed-mono le l = record {
  own_id = l.own_id;
  signature = l.signature;
  tx_hash = l.tx_hash;
  nonce = omega arith;
}

module _ (id : Text) (a : TreasuryAction) (n : ℕ) (s : Store) (h : IsMirrored s) where
  put-listed :
      IsListed n id a
      → s.current_nonce ≤ n
      → (k : Text) (b : TreasuryAction) → lookup k (insert id a s.actions) ≡ some b
      → IsListed n k b
  put-listed new le k b e = elim (Bool-cases (text_eq k id)) [
    | inl same ↦
        let is_new : a ≡ b = ground (arith, lookup-insert {V = TreasuryAction} id k a s.actions) in
        rw ((text_eq_iff k id).0 same, ← is_new) new
    | inr other ↦
        IsListed-mono le
          (h.listed k b (ground (arith, lookup-insert {V = TreasuryAction} id k a s.actions)))
  ]

  -- Writing one action in the map and its row in the table.
  put-IsMirrored :
      IsListed n id a
      → s.current_nonce ≤ n
      → IsMirrored (record {
        actions = insert id a s.actions;
        current_nonce = n;
        rows = insert id (stored_row a) s.rows;
      })
  put-IsMirrored new le = record {
    mirrored = λ k. ground (
      arith,
      lookup-insert {V = TreasuryAction} id k a s.actions,
      lookup-insert {V = ActionRow} id k (stored_row a) s.rows,
      h.mirrored k,
    );
    listed = put-listed new le;
    keyed = insert-IsKeyed id (stored_row a) s.rows (unfold row_of_action in new.own_id) h.keyed;
  }

-- A new action is written to both, and takes the nonce that the counter shows.
pub create_action-IsMirrored :
    (dto : ProposeActionDto) (id : Text) (now : ℕ) (s : Store)
    → IsMirrored s
    → IsMirrored (create_action dto id now s).1
unfolding create_action
create_action-IsMirrored dto id now s h =
    put-IsMirrored id (new_action dto id now s.current_nonce) (s.current_nonce + 1) s h
      (record { own_id = refl; signature = refl; tx_hash = refl; nonce = omega arith })
      (omega arith)

-- The table is read only for an action that the map lacks, and then the table lacks it too.
pub get_action_lem :
    (id : Text) (s : Store) → IsMirrored s → get_action id s ≡ (lookup id s.actions, s)
unfolding get_action
get_action_lem id s h = ground (arith, h.mirrored id)

truthy-set_truthy : (o p : Option Text) → truthy p ≡ p → truthy (set_truthy o p) ≡ set_truthy o p
truthy-set_truthy o p h = ground arith

update_row_lem :
    (id : Text) (status : ActionStatus) (m : Metadata) (now : ℕ) (a : TreasuryAction)
    (d : Dict ActionRow)
    → truthy a.signature ≡ a.signature
    → truthy a.tx_hash ≡ a.tx_hash
    → lookup id d ≡ some (stored_row a)
    → let b = with_status status m now a in
      update_row b.status (truthy b.signature) (truthy b.tx_hash) now id d
      ≡ insert id (stored_row b) d
unfolding update_row with_status row_of_action
update_row_lem id status m now a d hs ht e = ground arith

pub update_status-none :
    (id : Text) (status : ActionStatus) (m : Metadata) (now : ℕ) (s : Store)
    → IsMirrored s
    → lookup id s.actions ≡ none
    → update_status id status m now s ≡ (none, s)
unfolding update_status get_action
update_status-none id status m now s h e = ground (arith, h.mirrored id)

pub update_status-some :
    (id : Text) (status : ActionStatus) (m : Metadata) (now : ℕ) (s : Store) (a : TreasuryAction)
    → IsMirrored s
    → lookup id s.actions ≡ some a
    → let b = with_status status m now a in
      update_status id status m now s ≡ (
        some b,
        record s { actions = insert id b s.actions; rows = insert id (stored_row b) s.rows },
      )
unfolding update_status
update_status-some id status m now s a h e =
    let l = h.listed id a e in
    let row : lookup id s.rows ≡ some (stored_row a) = rw (h.mirrored id, e) in
    ground (
      arith,
      get_action_lem id s h,
      update_row_lem id status m now a s.rows l.signature l.tx_hash row,
    )

with_status-IsListed :
    (n : ℕ) (id : Text) (status : ActionStatus) (m : Metadata) (now : ℕ) (a : TreasuryAction)
    → IsListed n id a
    → IsListed n id (with_status status m now a)
unfolding with_status
with_status-IsListed n id status m now a l = record {
  own_id = l.own_id;
  signature = truthy-set_truthy m.signature a.signature l.signature;
  tx_hash = truthy-set_truthy m.tx_hash a.tx_hash l.tx_hash;
  nonce = l.nonce;
}

-- A status update writes the action and its row alike.
pub update_status-IsMirrored :
    (id : Text) (status : ActionStatus) (m : Metadata) (now : ℕ) (s : Store)
    → IsMirrored s
    → IsMirrored (update_status id status m now s).1
update_status-IsMirrored id status m now s h = elim (Option-cases (lookup id s.actions)) [
  | inl missing ↦ rw (update_status-none id status m now s h missing) h
  | inr (a, found) ↦ rw (update_status-some id status m now s a h found) (
      put-IsMirrored id (with_status status m now a) s.current_nonce s h
        (with_status-IsListed _ id status m now a (h.listed id a found)) (omega arith))
]

pub set_risk-some :
    (id : Text) (score : ℤ) (human : Bool) (s : Store) (a : TreasuryAction)
    → lookup id s.actions ≡ some a
    → set_risk id score human s
      ≡ record s { actions = insert id (with_risk score human a) s.actions }
unfolding set_risk
set_risk-some id score human s a e = ground arith

pub set_risk-none :
    (id : Text) (score : ℤ) (human : Bool) (s : Store)
    → lookup id s.actions ≡ none
    → set_risk id score human s ≡ s
unfolding set_risk
set_risk-none id score human s e = ground arith

set_risk-mirrored :
    (id : Text) (score : ℤ) (human : Bool) (s : Store) (a : TreasuryAction)
    → IsMirrored s
    → lookup id s.actions ≡ some a
    → (k : Text)
    → lookup k s.rows
      ≡ Option.map stored_row (lookup k (insert id (with_risk score human a) s.actions))
set_risk-mirrored id score human s a h e k = ground (
  arith,
  lookup-insert {V = TreasuryAction} id k (with_risk score human a) s.actions,
  h.mirrored k,
  text_eq_iff k id,
)

-- The risk fields are written to the map alone.
pub set_risk-IsMirrored :
    (id : Text) (score : ℤ) (human : Bool) (s : Store)
    → IsMirrored s
    → IsMirrored (set_risk id score human s)
set_risk-IsMirrored id score human s h = elim (Option-cases (lookup id s.actions)) [
  | inl missing ↦ rw (set_risk-none id score human s missing) h
  | inr (a, found) ↦
      let l = h.listed id a found in
      rw (set_risk-some id score human s a found) (record {
        mirrored = set_risk-mirrored id score human s a h found;
        listed =
            put-listed id (with_risk score human a) s.current_nonce s h
              (record {
                own_id = l.own_id;
                signature = l.signature;
                tx_hash = l.tx_hash;
                nonce = l.nonce;
              })
              (omega arith);
        keyed = h.keyed;
      })
]

pub clear-IsMirrored : (s : Store) → IsMirrored (clear s)
unfolding clear
clear-IsMirrored s = record {
  mirrored = λ k. unfold lookup in refl;
  listed = λ k a e. absurd (unfold lookup in cc);
  keyed = tt;
}
