-- ===== src/Agents/Keyed.antt =====
-- The table of agents by id: a row that is found at an address stands under its own id.
use ethonline.Common.{
  ℕ, ◌≡◌, refl, sym, ap, ◌∙◌, Bool, true, none, some, List, [], ◌∷◌, arith, Bool-cases,
  Option-cases, inl, inr, keep, find,
}
use mathlib.Core.Path.{subst}
use ethonline.Common.Keyed
use ethonline.Common.Text.{Text, text_eq, text_eq_iff, to_lower}
use ethonline.Common.Dict.{Dict, lookup, insert, values}
use ethonline.Common.Results.{none_ne_some, some_injective}
use ethonline.Agents.{Agent, agents_at, first_of, deactivate, reusable}

-- Every row stands under its own id, once.
abbrev pub IsKeyed : Dict Agent → Type 0
IsKeyed = Keyed.IsKeyed (λ (r : Agent). r.id)

pub insert-IsKeyed :
    (k : Text) (a : Agent) (d : Dict Agent) → a.id ≡ k → IsKeyed d → IsKeyed (insert k a d)
insert-IsKeyed = Keyed.insert-IsKeyed (λ (r : Agent). r.id)

deactivate-none :
    (k user : Text) (now : ℕ) (d : Dict Agent)
    → lookup k d ≡ none
    → lookup k (deactivate user now d) ≡ none
unfolding deactivate lookup
deactivate-none k user now [] h = refl
deactivate-none k user now ((j, a) ∷ d) h = ground (arith, deactivate-none k user now d)

pub deactivate-IsKeyed :
    (user : Text) (now : ℕ) (d : Dict Agent) → IsKeyed d → IsKeyed (deactivate user now d)
unfolding deactivate
deactivate-IsKeyed user now [] h = tt
deactivate-IsKeyed user now ((k, a) ∷ d) h =
    (ground arith, deactivate-none k user now d h.1, deactivate-IsKeyed user now d h.2)

lookup-below :
    (i k : Text) (a r : Agent) (d : Dict Agent)
    → lookup k d ≡ none
    → lookup i d ≡ some r
    → lookup i ((k, a) ∷ d) ≡ some r
unfolding lookup
lookup-below i k a r d absent there = elim (Bool-cases (text_eq i k)) [
  | inr other ↦ rw other there
  | inl same ↦
      absurd (
        none_ne_some r (sym absent ∙ ap (λ j. lookup j d) (sym ((text_eq_iff i k).0 same)) ∙ there))
]

-- A row that is found at an address.
find-IsKeyed :
    (p : Agent → Bool) (address : Text) (r : Agent) (d : Dict Agent)
    → IsKeyed d
    → find p (agents_at address d) ≡ some r
    → (lookup r.id d ≡ some r) × (text_eq (to_lower r.agent_address) (to_lower address) ≡ true)
unfolding agents_at values lookup
find-IsKeyed p address r [] h there = absurd (none_ne_some r there)
find-IsKeyed p address r ((k, a) ∷ d) h there =
    elim (Bool-cases (text_eq (to_lower a.agent_address) (to_lower address))) [
      | inr far ↦
          let (below, at) = find-IsKeyed p address r d h.2 (rw (keep, find, far) at there) in
          (lookup-below r.id k a r d h.1 below, at)
      | inl near ↦ elim (Bool-cases (p a)) [
        | inl here ↦
            let one : a ≡ r = some_injective a r (rw (keep, find, near, here) at there) in
            let named = (text_eq_iff r.id k).1 (ap (λ x. x.id) (sym one) ∙ h.0) in
            (
              rw named (ap some one),
              subst (λ x. text_eq (to_lower x.agent_address) (to_lower address) ≡ true) one near,
            )
        | inr later ↦
            let (below, at) =
              find-IsKeyed p address r d h.2 (rw (keep, find, near, later) at there) in
            (lookup-below r.id k a r d h.1 below, at)
      ]
    ]

first_of-find : (xs : List Agent) → first_of xs ≡ find (λ _. true) xs
first_of-find [] = refl
first_of-find (x ∷ xs) = refl

pub reusable-IsKeyed :
    (user address : Text) (r : Agent) (d : Dict Agent)
    → IsKeyed d
    → reusable user (agents_at address d) ≡ some r
    → (lookup r.id d ≡ some r) × (text_eq (to_lower r.agent_address) (to_lower address) ≡ true)
unfolding reusable
reusable-IsKeyed user address r d h there =
    elim (Option-cases (find (λ (a : Agent). text_eq a.user_id user) (agents_at address d))) [
      | inr (a, own) ↦ find-IsKeyed _ address r d h (own ∙ rw (reusable, own) at there)
      | inl absent ↦
          find-IsKeyed (λ _. true) address r d h
            (sym (first_of-find (agents_at address d)) ∙ rw (reusable, absent) at there)
    ]
