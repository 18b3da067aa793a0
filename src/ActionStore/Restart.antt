-- ===== src/ActionStore/Restart.antt =====
-- A service that starts over the table has every action again, without its risk fields.
use mathlib.Core.Option
use ethonline.Common.{
  ℕ, ◌≡◌, refl, ◌⊎◌, Bool, true, ◌||◌, none, some, List, [], ◌∷◌, ◌∙◌, ap, arith, leb, any, All,
  Bool-cases, Option-cases, inl, inr, if◌then◌else◌,
}
use ethonline.Common.Text.{Text, text_eq, text_eq_iff}
use ethonline.Common.Dict.{Dict, lookup, values, lookup-insert}
use ethonline.Domain.{TreasuryAction}
use ethonline.ActionStore.{
  ActionRow, Store, row_of_action, map_row_to_action, load_row, insert_by_nonce, sort_by_nonce,
  load_rows, load_from_database,
}
use ethonline.ActionStore.Mirror.{forget_risk, stored_row, IsKeyed, IsMirrored, IsListed}

-- Some row of the list has this id.
abbrev Occurs : Text → List ActionRow → Type 0
Occurs id rs = any (λ q. text_eq q.id id) rs ≡ true

-- Every row of the list with this id is `r`.
abbrev OnlyRow : Text → ActionRow → List ActionRow → Type 0
OnlyRow id r = All (λ q. q.id ≡ id → q ≡ r)

abbrev NoRow : Text → List ActionRow → Type 0
NoRow id = All (λ q. ¬ (q.id ≡ id))

module _ (P : ActionRow → Type 0) where
  All-insert_by_nonce :
      (r : ActionRow) (qs : List ActionRow) → P r → All P qs → All P (insert_by_nonce r qs)
  unfolding insert_by_nonce
  All-insert_by_nonce r [] p h = (p, tt)
  All-insert_by_nonce r (q ∷ qs) p (here, later) = elim (Bool-cases (leb r.nonce q.nonce)) [
    | inl first ↦ rw (first, insert_by_nonce) (p, (here, later))
    | inr after ↦ rw (after, insert_by_nonce) (here, All-insert_by_nonce r qs p later)
  ]

  All-sort_by_nonce : (rs : List ActionRow) → All P rs → All P (sort_by_nonce rs)
  unfolding sort_by_nonce
  All-sort_by_nonce [] h = tt
  All-sort_by_nonce (r ∷ rs) h = All-insert_by_nonce r _ h.0 (All-sort_by_nonce rs h.1)

module _ (p : ActionRow → Bool) where
  any-insert_by_nonce :
      (r : ActionRow) (qs : List ActionRow) → any p (insert_by_nonce r qs) ≡ (p r || any p qs)
  unfolding insert_by_nonce
  any-insert_by_nonce r [] = refl
  any-insert_by_nonce r (q ∷ qs) = ground (arith, any-insert_by_nonce r qs)

  any-sort_by_nonce : (rs : List ActionRow) → any p (sort_by_nonce rs) ≡ any p rs
  unfolding sort_by_nonce
  any-sort_by_nonce [] = refl
  any-sort_by_nonce (r ∷ rs) =
      ground (arith, any-insert_by_nonce r (sort_by_nonce rs), any-sort_by_nonce rs)

pub lookup-load_row :
    (id : Text) (q : ActionRow) (s : Store)
    → lookup id (load_row q s).actions
      ≡ (if text_eq id q.id then some (map_row_to_action q) else lookup id s.actions)
unfolding load_row
lookup-load_row id q s = lookup-insert q.id id (map_row_to_action q) s.actions

load_rows-NoRow :
    (id : Text) (rs : List ActionRow) (s : Store)
    → NoRow id rs
    → lookup id (load_rows rs s).actions ≡ lookup id s.actions
unfolding load_rows
load_rows-NoRow id [] s h = refl
load_rows-NoRow id (q ∷ qs) s h =
    load_rows-NoRow id qs (load_row q s) h.1
    ∙ ground (arith, lookup-load_row id q s, text_eq_iff id q.id)

load_rows-OnlyRow :
    (id : Text) (r : ActionRow) (rs : List ActionRow) (s : Store)
    → OnlyRow id r rs
    → (lookup id s.actions ≡ some (map_row_to_action r)) ⊎ Occurs id rs
    → lookup id (load_rows rs s).actions ≡ some (map_row_to_action r)
unfolding load_rows
load_rows-OnlyRow id r [] s h o = ground arith
load_rows-OnlyRow id r (q ∷ qs) s h o =
    load_rows-OnlyRow id r qs (load_row q s) h.1
      (ground (arith, lookup-load_row id q s, text_eq_iff id q.id, text_eq_iff q.id id))

values-NoRow :
    (id : Text) (d : Dict ActionRow) → IsKeyed d → lookup id d ≡ none → NoRow id (values d)
unfolding lookup values
values-NoRow id [] h e = tt
values-NoRow id ((k, q) ∷ d) h e =
    ((λ same. ground (arith, text_eq_iff id k)), values-NoRow id d h.2 (ground arith))

module _ (id : Text) (r : ActionRow) where
  OnlyRow-NoRow : (rs : List ActionRow) → NoRow id rs → OnlyRow id r rs
  OnlyRow-NoRow [] h = tt
  OnlyRow-NoRow (q ∷ qs) h = ((λ e. absurd (h.0 e)), OnlyRow-NoRow qs h.1)

  values-OnlyRow : (d : Dict ActionRow) → IsKeyed d → lookup id d ≡ some r → OnlyRow id r (values d)
  unfolding lookup values
  values-OnlyRow [] h e = tt
  values-OnlyRow ((k, q) ∷ d) h e = elim (Bool-cases (text_eq id k)) [
    | inl same ↦
        let unique : lookup id d ≡ none = rw ((text_eq_iff id k).0 same) h.1 in
        ((λ _. ground arith), OnlyRow-NoRow (values d) (values-NoRow id d h.2 unique))
    | inr other ↦ ((λ own. ground (arith, text_eq_iff id k)), values-OnlyRow d h.2 (ground arith))
  ]

  values-Occurs : (d : Dict ActionRow) → IsKeyed d → lookup id d ≡ some r → Occurs id (values d)
  unfolding lookup values
  values-Occurs [] h e = cc
  values-Occurs ((k, q) ∷ d) h e =
      ground (arith, text_eq_iff id k, text_eq_iff q.id id, values-Occurs d h.2)

lookup-load_from_database :
    (id : Text) (d : Dict ActionRow)
    → IsKeyed d
    → lookup id (load_from_database d).actions ≡ Option.map map_row_to_action (lookup id d)
unfolding load_from_database lookup
lookup-load_from_database id d h = elim (Option-cases (lookup id d)) [
  | inl missing ↦ rw missing (
      load_rows-NoRow id (sort_by_nonce (values d)) _
        (All-sort_by_nonce (λ q. ¬ (q.id ≡ id)) (values d) (values-NoRow id d h missing)))
  | inr (r, found) ↦ rw found (
      load_rows-OnlyRow id r (sort_by_nonce (values d)) _
        (All-sort_by_nonce (λ q. q.id ≡ id → q ≡ r) (values d) (values-OnlyRow id r d h found))
        (inr (any-sort_by_nonce (λ q. text_eq q.id id) (values d) ∙ values-Occurs id r d h found)))
]

map_row-stored_row :
    (n : ℕ) (id : Text) (a : TreasuryAction)
    → IsListed n id a
    → map_row_to_action (stored_row a) ≡ forget_risk a
unfolding map_row_to_action row_of_action
map_row-stored_row n id a l = ground arith

-- A restart finds exactly the actions that were there, with their status, signature and
-- transaction hash, and with the risk score and the approval flag set back to 0 and false.
pub restart-forget_risk :
    (s : Store) (id : Text)
    → IsMirrored s
    → lookup id (load_from_database s.rows).actions ≡ Option.map forget_risk (lookup id s.actions)
restart-forget_risk s id h =
    lookup-load_from_database id s.rows h.keyed
    ∙ rw (h.mirrored id) (elim (Option-cases (lookup id s.actions)) [
      | inl missing ↦ rw missing
      | inr (a, found) ↦
          rw found (ap some (map_row-stored_row s.current_nonce id a (h.listed id a found)))
    ])
