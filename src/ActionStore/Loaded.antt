-- ===== src/ActionStore/Loaded.antt =====
-- A service that starts over the table is again one whose table mirrors its map.
use mathlib.Core.Option
use ethonline.Common.{
  ◌≤◌, ◌<◌, ◌≡◌, ◌⊎◌, refl, ◌∙◌, sym, ap, none, some, List, [], ◌∷◌, arith, leb, Bool-cases,
  Option-cases, inl, inr,
}
use ethonline.Common.Text.{Text, text_eq}
use ethonline.Common.Dict.{lookup, values}
use ethonline.Common.Results.{none_ne_some, some_injective}
use ethonline.Domain.{TreasuryAction}
use ethonline.ActionStore.{
  ActionRow, Store, map_row_to_action, load_row, load_rows, sort_by_nonce, load_from_database,
}
use ethonline.ActionStore.Mirror.{forget_risk, stored_row, IsMirrored}
use ethonline.ActionStore.Restart.{lookup-load_row, restart-forget_risk}

-- Every nonce is below the counter.
abbrev IsBelow : Store → Type 0
IsBelow s =
    (id : Text) (a : TreasuryAction) → lookup id s.actions ≡ some a → a.nonce < s.current_nonce

load_row-counter :
    (r : ActionRow) (s : Store)
    → (s.current_nonce ≤ (load_row r s).current_nonce) × (r.nonce < (load_row r s).current_nonce)
unfolding load_row
load_row-counter r s = elim (Bool-cases (leb s.current_nonce r.nonce)) [
  | inl above ↦ rw above (ground arith, omega arith)
  | inr below ↦ rw below (omega arith, ground arith)
]

map_row-nonce : (r : ActionRow) → (map_row_to_action r).nonce ≡ r.nonce
unfolding map_row_to_action
map_row-nonce r = refl

load_row-actions :
    (r : ActionRow) (s : Store) (id : Text) (a : TreasuryAction)
    → lookup id (load_row r s).actions ≡ some a
    → (a.nonce ≡ r.nonce) ⊎ (lookup id s.actions ≡ some a)
load_row-actions r s id a there = elim (Bool-cases (text_eq id r.id)) [
  | inl same ↦
      let here : lookup id (load_row r s).actions ≡ some (map_row_to_action r) =
        lookup-load_row id r s ∙ rw same refl in
      let is : map_row_to_action r ≡ a = some_injective _ a (sym here ∙ there) in
      inl (ap (λ x. x.nonce) (sym is) ∙ map_row-nonce r)
  | inr other ↦
      let kept : lookup id (load_row r s).actions ≡ lookup id s.actions =
        lookup-load_row id r s ∙ rw other refl in
      inr (sym kept ∙ there)
]

load_row-IsBelow : (r : ActionRow) (s : Store) → IsBelow s → IsBelow (load_row r s)
load_row-IsBelow r s h id a there =
    let (more, above) = load_row-counter r s in
    elim (load_row-actions r s id a there) [
      | inl new ↦ omega (arith, new, above)
      | inr old ↦ omega (arith, more, h id a old)
    ]

load_rows-IsBelow : (rs : List ActionRow) (s : Store) → IsBelow s → IsBelow (load_rows rs s)
unfolding load_rows
load_rows-IsBelow [] s h = h
load_rows-IsBelow (r ∷ rs) s h = load_rows-IsBelow rs (load_row r s) (load_row-IsBelow r s h)

load_rows-rows : (rs : List ActionRow) (s : Store) → (load_rows rs s).rows ≡ s.rows
unfolding load_rows load_row
load_rows-rows [] s = refl
load_rows-rows (r ∷ rs) s = load_rows-rows rs (load_row r s)

stored_again : (a : TreasuryAction) → stored_row (forget_risk a) ≡ stored_row a
stored_again a = refl

module _ (s : Store) (h : IsMirrored s) where
  abbrev loaded : Store
  loaded = load_from_database s.rows

  loaded-rows : loaded.rows ≡ s.rows
  unfolding load_from_database
  loaded-rows = load_rows-rows (sort_by_nonce (values s.rows)) _

  loaded-IsBelow : IsBelow loaded
  unfolding load_from_database lookup
  loaded-IsBelow =
      load_rows-IsBelow (sort_by_nonce (values s.rows)) _ (λ id a e. absurd (none_ne_some a e))

  -- What the service has after the start is an action of before, without its risk fields.
  pub loaded-some :
      (id : Text) (b : TreasuryAction)
      → lookup id loaded.actions ≡ some b
      → (a : TreasuryAction) × (lookup id s.actions ≡ some a) × (forget_risk a ≡ b)
  loaded-some id b there = elim (Option-cases (lookup id s.actions)) [
    | inl missing ↦
        let gone : lookup id loaded.actions ≡ none = restart-forget_risk s id h ∙ rw missing refl in
        absurd (none_ne_some b (sym gone ∙ there))
    | inr (a, found) ↦
        let kept : lookup id loaded.actions ≡ some (forget_risk a) =
          restart-forget_risk s id h ∙ rw found refl in
        (a, found, some_injective _ b (sym kept ∙ there))
  ]

  loaded-mirrored :
      (id : Text) → lookup id loaded.rows ≡ Option.map stored_row (lookup id loaded.actions)
  loaded-mirrored id =
      rw (loaded-rows, restart-forget_risk s id h, h.mirrored id)
        (elim (lookup id s.actions)
          as (λ o. Option.map stored_row o ≡ Option.map stored_row (Option.map forget_risk o)) [
            | none ↦ refl
            | some a ↦ ap some (sym (stored_again a))
          ])

  pub load_from_database-IsMirrored : IsMirrored loaded
  load_from_database-IsMirrored = record {
    mirrored = loaded-mirrored;
    listed = λ id b there.
        let (a, found, same) = loaded-some id b there in
        let l = h.listed id a found in
        record {
          own_id = ap (λ x. x.id) (sym same) ∙ l.own_id;
          signature = rw (sym same) l.signature;
          tx_hash = rw (sym same) l.tx_hash;
          nonce = loaded-IsBelow id b there;
        };
    keyed = rw loaded-rows h.keyed;
  }
