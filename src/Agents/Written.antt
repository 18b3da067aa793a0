-- ===== src/Agents/Written.antt =====
-- What the writes of `bindAgent` leave in the table, and which rows a look-up of it finds.
use ethonline.Common.{
  ℕ, ◌≡◌, refl, sym, ◌∙◌, ◌≢◌, Bool, true, none, some, List, [], ◌∷◌, arith, Bool-cases,
  Option-cases, inl, inr, keep, find,
}
use mathlib.Core.Path.{subst}
use ethonline.Common.Text.{Text, text_eq, text_eq_iff, to_lower}
use ethonline.Common.Dict.{Dict, lookup, insert, values}
use ethonline.Common.Results.{none_ne_some, some_injective, ok_injective, HttpError, ok, err}
use ethonline.Agents.{
  Agent, BindAgentDto, is_active, agents_at, reusable, rebound_row, bound_row, write_agent,
}
use ethonline.Agents.Keyed.{IsKeyed, reusable-IsKeyed}

-- A row that `write_agent` leaves: the user's, active, at the address and under its own id.
pub record Written (user address : Text) (row : Agent) : Type 0 where
  pub own : row.user_id ≡ user
  pub active : is_active row ≡ true
  pub at : to_lower row.agent_address ≡ to_lower address

pub write_agent-Written :
    (user id : Text) (dto : BindAgentDto) (address safe guard : Text) (now : ℕ) (d : Dict Agent)
    (a : Agent)
    → IsKeyed d
    → (write_agent user id dto address safe guard now d).0 ≡ ok a
    → (k : Text) × (a.id ≡ k)
      × ((write_agent user id dto address safe guard now d).1 ≡ insert k a d)
      × Written user address a
unfolding write_agent
write_agent-Written user id dto address safe guard now d a h done =
    elim (Option-cases (reusable user (agents_at address d))) [
      | inl new ↦
          let one : bound_row id user dto address safe guard now ≡ a =
            ok_injective _ _ (rw (write_agent, new) at done) in
          rw (write_agent, new)
            (subst
              (λ x.
                (k : Text) × (x.id ≡ k)
                × (insert id (bound_row id user dto address safe guard now) d ≡ insert k x d)
                × Written user address x)
              one (id, refl, refl, record { own = refl; active = refl; at = refl }))
      | inr (r, there) ↦
          let (found, near) = reusable-IsKeyed user address r d h there in
          let row = rebound_row user dto safe guard now r in
          let one : row ≡ a = ok_injective row a (rw (write_agent, there, found) at done) in
          rw (write_agent, there, found)
            (subst
              (λ x.
                (k : Text) × (x.id ≡ k)
                × (insert r.id row d ≡ insert k x d)
                × Written user address x)
              one
              (
                r.id,
                refl,
                refl,
                record {
                  own = refl;
                  active = refl;
                  at = (text_eq_iff (to_lower r.agent_address) (to_lower address)).0 near;
                },
              ))
    ]

pub write_agent-err :
    (user id : Text) (dto : BindAgentDto) (address safe guard : Text) (now : ℕ) (d : Dict Agent)
    (e : HttpError)
    → (write_agent user id dto address safe guard now d).0 ≡ err e
    → (write_agent user id dto address safe guard now d).1 ≡ d
unfolding write_agent
write_agent-err user id dto address safe guard now d e failed = ground arith

-- The row under a key is among those at its address.
pub lookup-find :
    (k address : Text) (a : Agent) (d : Dict Agent)
    → lookup k d ≡ some a
    → is_active a ≡ true
    → text_eq (to_lower a.agent_address) (to_lower address) ≡ true
    → find is_active (agents_at address d) ≢ none
unfolding lookup agents_at values
lookup-find k address a [] there active near = λ _. none_ne_some a there
lookup-find k address a ((j, c) ∷ d) there active near = λ absent.
    elim (Bool-cases (text_eq (to_lower c.agent_address) (to_lower address))) [
      | inr far ↦ elim (Bool-cases (text_eq k j)) [
        | inl same ↦
            let one : c ≡ a = some_injective c a (rw (lookup, same) at there) in
            absurd (ground arith)
        | inr other ↦
            lookup-find k address a d (rw (lookup, other) at there) active near
              (rw (keep, find, far) at absent)
      ]
      | inl close ↦ elim (Bool-cases (is_active c)) [
        | inl awake ↦ none_ne_some c (sym absent ∙ rw (keep, find, close, awake) refl)
        | inr quiet ↦ elim (Bool-cases (text_eq k j)) [
          | inl same ↦
              let one : c ≡ a = some_injective c a (rw (lookup, same) at there) in
              absurd (ground arith)
          | inr other ↦
              lookup-find k address a d (rw (lookup, other) at there) active near
                (rw (keep, find, close, quiet) at absent)
        ]
      ]
    ]

pub find_holds {ℓ} :
    {A : Type ℓ} (p : A → Bool) (xs : List A) (a : A) → find p xs ≡ some a → p a ≡ true
find_holds p [] a e = absurd (none_ne_some a e)
find_holds p (x ∷ xs) a e = elim (Bool-cases (p x)) [
  | inl here ↦ rw (← (some_injective x a (rw (find, here) at e))) here
  | inr later ↦ find_holds p xs a (rw (find, later) at e)
]
