-- ===== src/World/Unique.antt =====
-- One human, one signer: no nullifier stands in two rows of the table human_bindings.
use ethonline.Common.{
  ◌≡◌, refl, sym, ap, ◌∙◌, ◌≢◌, true, false, none, some, [], ◌∷◌, arith, Bool-cases, Option-cases,
  inl, inr,
}
use mathlib.Core.Path.{subst}
use ethonline.Common.Text.{Text, text_eq, text_eq_iff, to_lower}
use ethonline.Common.Dict.{Dict, lookup, insert, lookup-insert_ne}
use ethonline.Common.Results.{none_ne_some, some_injective}
use ethonline.X402.Ethers.{Ethers}
use ethonline.World.Bindings.{Binding, binding_with}
use ethonline.World.Sessions.{is_bound_elsewhere}

-- No key and no nullifier stands twice.
abbrev pub IsOneToOne : Dict Binding → Type 0
IsOneToOne [] = Unit
IsOneToOne ((k, b) ∷ d) =
    (lookup k d ≡ none) × (binding_with b.nullifier_hash d ≡ none) × IsOneToOne d

-- The nullifier stands under the key `k` only.
abbrev pub IsFree : Text → Text → Dict Binding → Type 0
IsFree k n [] = Unit
IsFree k n ((j, b) ∷ d) = (text_eq b.nullifier_hash n ≡ true → j ≡ k) × IsFree k n d

binding_with-none :
    (k n : Text) (d : Dict Binding) → IsFree k n d → lookup k d ≡ none → binding_with n d ≡ none
unfolding binding_with lookup
binding_with-none k n [] free absent = refl
binding_with-none k n ((j, b) ∷ d) free absent =
    ground (arith, text_eq_iff k j, free.0, binding_with-none k n d free.1)

binding_with-insert :
    (k m : Text) (b : Binding) (d : Dict Binding)
    → text_eq b.nullifier_hash m ≡ false
    → binding_with m d ≡ none
    → binding_with m (insert k b d) ≡ none
unfolding binding_with insert
binding_with-insert k m b [] ne absent = ground arith
binding_with-insert k m b ((j, c) ∷ d) ne absent = ground (arith, binding_with-insert k m b d ne)

pub insert-IsOneToOne :
    (k : Text) (b : Binding) (d : Dict Binding)
    → IsFree k b.nullifier_hash d
    → IsOneToOne d
    → IsOneToOne (insert k b d)
unfolding insert
insert-IsOneToOne k b [] free h = (unfold lookup in refl, unfold binding_with in refl, tt)
insert-IsOneToOne k b ((j, c) ∷ d) free h = elim (Bool-cases (text_eq k j)) [
  | inl same ↦
      let named : j ≡ k = sym ((text_eq_iff k j).0 same) in
      let absent : lookup k d ≡ none = ap (λ i. lookup i d) (sym named) ∙ h.0 in
      rw same (h.0, binding_with-none k b.nullifier_hash d free.1 absent, h.2)
  | inr other ↦
      let apart : j ≢ k = λ e. ground (arith, text_eq_iff k j) in
      let differ : text_eq b.nullifier_hash c.nullifier_hash ≡ false = ground (
        arith,
        text_eq_iff b.nullifier_hash c.nullifier_hash,
        text_eq_iff c.nullifier_hash b.nullifier_hash,
        text_eq_iff k j,
        free.0,
      ) in
      rw other (
        lookup-insert_ne k j b d apart ∙ h.0,
        binding_with-insert k c.nullifier_hash b d differ h.1,
        insert-IsOneToOne k b d free.1 h.2,
      )
]

pub IsFree-none : (k n : Text) (d : Dict Binding) → binding_with n d ≡ none → IsFree k n d
unfolding binding_with
IsFree-none k n [] absent = tt
IsFree-none k n ((j, c) ∷ d) absent = elim (Bool-cases (text_eq c.nullifier_hash n)) [
  | inl same ↦ absurd (none_ne_some c (sym absent ∙ rw (binding_with, same) refl))
  | inr other ↦ (λ e. absurd (ground arith), IsFree-none k n d (rw (binding_with, other) at absent))
]

lookup-with :
    (k n : Text) (c : Binding) (d : Dict Binding)
    → lookup k d ≡ some c
    → text_eq c.nullifier_hash n ≡ true
    → binding_with n d ≡ none
    → ⊥
unfolding binding_with lookup
lookup-with k n c [] there same absent = none_ne_some c there
lookup-with k n c ((j, e) ∷ d) there same absent = ground (arith, lookup-with k n c d)

-- The nullifier of a row stands nowhere else.
pub lookup-IsFree :
    (k : Text) (c : Binding) (d : Dict Binding)
    → IsOneToOne d
    → lookup k d ≡ some c
    → IsFree k c.nullifier_hash d
unfolding lookup
lookup-IsFree k c [] h there = tt
lookup-IsFree k c ((j, e) ∷ d) h there = elim (Bool-cases (text_eq k j)) [
  | inl same ↦
      let one : e ≡ c = some_injective e c (rw (lookup, same) at there) in
      (
        λ _. sym ((text_eq_iff k j).0 same),
        IsFree-none k c.nullifier_hash d
            (ap (λ x. binding_with x.nullifier_hash d) (sym one) ∙ h.1),
      )
  | inr other ↦
      let below : lookup k d ≡ some c = rw (lookup, other) at there in
      (
        λ e_same. absurd (
            lookup-with k e.nullifier_hash c d below
              (ground (
                arith,
                text_eq_iff e.nullifier_hash c.nullifier_hash,
                text_eq_iff c.nullifier_hash e.nullifier_hash,
              ))
              h.1),
        lookup-IsFree k c d h.2 below,
      )
]

IsFree-lookup :
    (k i n : Text) (c : Binding) (d : Dict Binding)
    → IsFree k n d
    → lookup i d ≡ some c
    → text_eq c.nullifier_hash n ≡ true
    → i ≡ k
unfolding lookup
IsFree-lookup k i n c [] free there same = absurd (none_ne_some c there)
IsFree-lookup k i n c ((j, e) ∷ d) free there same = elim (Bool-cases (text_eq i j)) [
  | inl here ↦
      let one : e ≡ c = some_injective e c (rw (lookup, here) at there) in
      (text_eq_iff i j).0 here ∙ free.0 (ap (λ x. text_eq x.nullifier_hash n) one ∙ same)
  | inr other ↦ IsFree-lookup k i n c d free.1 (rw (lookup, other) at there) same
]

-- Two rows with one nullifier stand under one key.
pub IsOneToOne-lookup :
    (j k : Text) (b c : Binding) (d : Dict Binding)
    → IsOneToOne d
    → lookup j d ≡ some b
    → lookup k d ≡ some c
    → b.nullifier_hash ≡ c.nullifier_hash
    → j ≡ k
IsOneToOne-lookup j k b c d one first second same = sym (
    IsFree-lookup j k b.nullifier_hash c d (lookup-IsFree j b d one first) second
      ((text_eq_iff c.nullifier_hash b.nullifier_hash).1 (sym same)))

module _ (ethers : Ethers) where
  -- A row stands under the lower case of its signer, whose address is checksummed.
  abbrev pub AreRows : Dict Binding → Type 0
  AreRows [] = Unit
  AreRows ((k, b) ∷ d) =
      (k ≡ to_lower b.signer_address)
      × (ethers.get_address b.signer_address ≡ some b.signer_address)
      × AreRows d

  pub insert-AreRows :
      (k : Text) (b : Binding) (d : Dict Binding)
      → k ≡ to_lower b.signer_address
      → ethers.get_address b.signer_address ≡ some b.signer_address
      → AreRows d
      → AreRows (insert k b d)
  unfolding insert
  insert-AreRows k b [] key sum h = (key, sum, tt)
  insert-AreRows k b ((j, c) ∷ d) key sum h = elim (Bool-cases (text_eq k j)) [
    | inl same ↦ rw same (sym ((text_eq_iff k j).0 same) ∙ key, sum, h.2)
    | inr other ↦ rw other (h.0, h.1, insert-AreRows k b d key sum h.2)
  ]

  pub lookup-Row :
      (k : Text) (b : Binding) (d : Dict Binding)
      → AreRows d
      → lookup k d ≡ some b
      → (k ≡ to_lower b.signer_address)
        × (ethers.get_address b.signer_address ≡ some b.signer_address)
  unfolding lookup
  lookup-Row k b [] h there = absurd (none_ne_some b there)
  lookup-Row k b ((j, c) ∷ d) h there = elim (Bool-cases (text_eq k j)) [
    | inl same ↦
        let one : c ≡ b = some_injective c b (rw (lookup, same) at there) in
        (
          (text_eq_iff k j).0 same ∙ h.0 ∙ ap (λ x. to_lower x.signer_address) one,
          subst (λ x. ethers.get_address x.signer_address ≡ some x.signer_address) one h.1,
        )
    | inr other ↦ lookup-Row k b d h.2 (rw (lookup, other) at there)
  ]

  with-IsFree :
      (approver n : Text) (b : Binding) (d : Dict Binding)
      → IsOneToOne d
      → AreRows d
      → binding_with n d ≡ some b
      → ethers.get_address b.signer_address ≡ some approver
      → IsFree (to_lower approver) n d
  unfolding binding_with
  with-IsFree approver n b [] one rows there sum = tt
  with-IsFree approver n b ((j, c) ∷ d) one rows there sum =
      elim (Bool-cases (text_eq c.nullifier_hash n)) [
        | inl same ↦
            let first : c ≡ b = some_injective c b (rw (binding_with, same) at there) in
            let named : c.signer_address ≡ approver =
              some_injective _ _
                (sym rows.1 ∙ ap (λ x. ethers.get_address x.signer_address) first ∙ sum) in
            (
              λ _. rows.0 ∙ ap to_lower named,
              IsFree-none _ n d (
                  ap (λ m. binding_with m d) (sym ((text_eq_iff c.nullifier_hash n).0 same))
                  ∙ one.1),
            )
        | inr other ↦ (
          λ e. absurd (ground arith),
          with-IsFree approver n b d one.2 rows.2 (rw (binding_with, other) at there) sum,
        )
      ]

  pub elsewhere-IsFree :
      (approver n : Text) (d : Dict Binding)
      → IsOneToOne d
      → AreRows d
      → is_bound_elsewhere ethers approver n d ≡ some false
      → IsFree (to_lower approver) n d
  unfolding is_bound_elsewhere
  elsewhere-IsFree approver n d one rows free = elim (Option-cases (binding_with n d)) [
    | inl absent ↦ IsFree-none _ n d absent
    | inr (b, there) ↦ elim (Option-cases (ethers.get_address b.signer_address)) [
      | inl bad ↦ absurd (ground arith)
      | inr (signer, sum) ↦
          let named : signer ≡ approver = ground (arith, text_eq_iff signer approver) in
          with-IsFree approver n b d one rows there (sum ∙ ap some named)
    ]
  ]
