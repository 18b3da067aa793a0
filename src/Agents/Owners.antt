-- ===== src/Agents/Owners.antt =====
-- One owner: the active agents at one address belong to one user.
use ethonline.Common.{
  ℕ, ◌≡◌, refl, sym, ap, ◌∙◌, Bool, true, ◌&&◌, none, some, [], ◌∷◌, arith, Bool-cases, inl, inr,
  keep, find,
}
use ethonline.Common.Text.{Text, text_eq, text_eq_iff, to_lower}
use ethonline.Common.Dict.{Dict, insert, values}
use ethonline.Common.Results.{none_ne_some, some_injective}
use ethonline.Agents.{Agent, is_active, agents_at, deactivate, is_active_elsewhere}

-- The row is active at the address, in lower case.
abbrev pub is_at : Text → Agent → Bool
is_at address a = is_active a && text_eq (to_lower a.agent_address) address

-- Every active row at the address is the user's.
abbrev pub AllOwned : Text → Text → Dict Agent → Type 0
AllOwned address user [] = Unit
AllOwned address user ((k, a) ∷ d) =
    (is_at address a ≡ true → a.user_id ≡ user) × AllOwned address user d

abbrev pub HaveOneOwner : Dict Agent → Type 0
HaveOneOwner [] = Unit
HaveOneOwner ((k, a) ∷ d) =
    (is_active a ≡ true → AllOwned (to_lower a.agent_address) a.user_id d) × HaveOneOwner d

pub insert-AllOwned :
    (address user k : Text) (a : Agent) (d : Dict Agent)
    → (is_at address a ≡ true → a.user_id ≡ user)
    → AllOwned address user d
    → AllOwned address user (insert k a d)
unfolding insert
insert-AllOwned address user k a [] own h = (own, tt)
insert-AllOwned address user k a ((j, c) ∷ d) own h = elim (Bool-cases (text_eq k j)) [
  | inl same ↦ rw same (own, h.1)
  | inr other ↦ rw other (h.0, insert-AllOwned address user k a d own h.1)
]

-- A row of the user, at an address where no other user has an active one.
pub insert-HaveOneOwner :
    (k : Text) (a : Agent) (d : Dict Agent)
    → AllOwned (to_lower a.agent_address) a.user_id d
    → HaveOneOwner d
    → HaveOneOwner (insert k a d)
unfolding insert
insert-HaveOneOwner k a [] owned h = ((λ _. tt), tt)
insert-HaveOneOwner k a ((j, c) ∷ d) owned h = elim (Bool-cases (text_eq k j)) [
  | inl same ↦ rw same ((λ _. owned.1), h.1)
  | inr other ↦ rw other (
    (λ active.
        insert-AllOwned _ _ k a d
          (λ at. sym (
            owned.0 (
              ground (
                arith,
                text_eq_iff (to_lower a.agent_address) (to_lower c.agent_address),
                text_eq_iff (to_lower c.agent_address) (to_lower a.agent_address),
              ))))
          (h.0 active)),
    insert-HaveOneOwner k a d owned.1 h.1,
  )
]

-- No active row elsewhere: the check of `bindAgent`.
pub find-AllOwned :
    (address user : Text) (d : Dict Agent)
    → find (is_active_elsewhere user) (agents_at address d) ≡ none
    → AllOwned (to_lower address) user d
unfolding agents_at values
find-AllOwned address user [] absent = tt
find-AllOwned address user ((k, a) ∷ d) absent =
    elim (Bool-cases (text_eq (to_lower a.agent_address) (to_lower address))) [
      | inr far ↦ (
        λ at. absurd (ground arith),
        find-AllOwned address user d (rw (agents_at, values, keep, find, far) at absent),
      )
      | inl near ↦ elim (Bool-cases (is_active_elsewhere user a)) [
        | inl elsewhere ↦
            absurd (
              none_ne_some a
                (sym absent ∙ rw (agents_at, values, keep, find, near, elsewhere) refl))
        | inr fine ↦ (
          λ at. ground (arith, text_eq_iff a.user_id user),
          find-AllOwned address user d (rw (agents_at, values, keep, find, near, fine) at absent),
        )
      ]
    ]

-- The active row that a look-up finds is the user's.
pub AllOwned-find :
    (address user : Text) (b : Agent) (d : Dict Agent)
    → AllOwned (to_lower address) user d
    → find is_active (agents_at address d) ≡ some b
    → b.user_id ≡ user
unfolding agents_at values
AllOwned-find address user b [] owned there = absurd (none_ne_some b there)
AllOwned-find address user b ((k, a) ∷ d) owned there =
    elim (Bool-cases (text_eq (to_lower a.agent_address) (to_lower address))) [
      | inr far ↦ AllOwned-find address user b d owned.1 (rw (keep, find, far) at there)
      | inl near ↦ elim (Bool-cases (is_active a)) [
        | inl active ↦
            let one : a ≡ b = some_injective a b (rw (keep, find, near, active) at there) in
            ap (λ x. x.user_id) (sym one) ∙ owned.0 (ground arith)
        | inr quiet ↦ AllOwned-find address user b d owned.1 (rw (keep, find, near, quiet) at there)
      ]
    ]

deactivate-AllOwned :
    (address owner user : Text) (now : ℕ) (d : Dict Agent)
    → AllOwned address owner d
    → AllOwned address owner (deactivate user now d)
unfolding deactivate
deactivate-AllOwned address owner user now [] h = tt
deactivate-AllOwned address owner user now ((k, a) ∷ d) h = (
  elim (Bool-cases (text_eq a.user_id user)) [
    | inl own ↦ rw own (λ at. h.0 (ground arith))
    | inr other ↦ rw other h.0
  ],
  deactivate-AllOwned address owner user now d h.1,
)

pub deactivate-HaveOneOwner :
    (user : Text) (now : ℕ) (d : Dict Agent) → HaveOneOwner d → HaveOneOwner (deactivate user now d)
unfolding deactivate
deactivate-HaveOneOwner user now [] h = tt
deactivate-HaveOneOwner user now ((k, a) ∷ d) h = (
  elim (Bool-cases (text_eq a.user_id user)) [
    | inl own ↦ rw own (λ active. absurd (ground arith))
    | inr other ↦ rw other (λ active. deactivate-AllOwned _ _ user now d (h.0 active))
  ],
  deactivate-HaveOneOwner user now d h.1,
)
