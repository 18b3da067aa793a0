-- ===== src/Agents/Bind.antt =====
-- What binding an agent gives, and what it keeps.
use ethonline.Common.{
  ℕ, ◌≡◌, refl, sym, ◌∙◌, ◌≢◌, true, some, [], arith, Bool-cases, Option-cases, inl, inr, ◌⊎◌, find,
}
use ethonline.Common.Text.{Text, text_eq_iff, to_lower, is_empty}
use ethonline.Common.Dict.{Dict, insert, lookup-insert_self}
use ethonline.Common.Results.{err_ne_ok, Result-cases, HttpError, ok, err}
use ethonline.X402.Ethers.{Ethers}
use ethonline.Agents.{
  Agent, BindAgentDto, is_active, agents_at, deactivate, is_active_elsewhere, write_agent,
  bind_agent, get_agent_by_address, verify_agent_ownership, assert_agent_ownership,
}
use ethonline.Agents.Keyed.{IsKeyed, insert-IsKeyed, deactivate-IsKeyed}
use ethonline.Agents.Written.{
  Written, write_agent-Written, write_agent-err, lookup-find, find_holds,
}
use ethonline.Agents.Owners.{
  AllOwned, insert-AllOwned, HaveOneOwner, insert-HaveOneOwner, find-AllOwned, AllOwned-find,
  deactivate-HaveOneOwner,
}

module _ (ethers : Ethers) where
  -- The tables that bindings and deleted accounts make.
  pub data Reach : Dict Agent → Type 0 where
    empty : Reach []
    bound :
        {d : Dict Agent} (user id : Text) (dto : BindAgentDto) (now : ℕ)
        → Reach d
        → Reach (bind_agent ethers user id dto now d).1
    deactivated : {d : Dict Agent} (user : Text) (now : ℕ) → Reach d → Reach (deactivate user now d)

  -- A binding that succeeds writes a row, at an address that no other user has an active row at.
  record Bound (user : Text) (dto : BindAgentDto) (a : Agent) (d d' : Dict Agent) : Type 0 where
    address : Text
    key : Text
    named : ethers.get_address dto.agent_address ≡ some address
    owned : AllOwned (to_lower address) user d
    id_of : a.id ≡ key
    write : d' ≡ insert key a d
    written : Written user address a

  bind_agent-cases :
      (user id : Text) (dto : BindAgentDto) (now : ℕ) (d : Dict Agent)
      → IsKeyed d
      → (((e : HttpError) × ((bind_agent ethers user id dto now d).0 ≡ err e)
          × ((bind_agent ethers user id dto now d).1 ≡ d)))
        ⊎ ((a : Agent) × ((bind_agent ethers user id dto now d).0 ≡ ok a)
            × Bound user dto a d (bind_agent ethers user id dto now d).1)
  unfolding bind_agent
  bind_agent-cases user id dto now d h = elim (Bool-cases (is_empty user)) [
    | inl blank ↦ inl (HttpError.bad_request, rw blank refl, rw blank refl)
    | inr named_user ↦ elim (Option-cases (ethers.get_address dto.agent_address)) [
      | inl bad ↦ inl (
        HttpError.internal,
        rw (bind_agent, named_user, bad) refl,
        rw (bind_agent, named_user, bad) refl,
      )
      | inr (address, h1) ↦ elim (Option-cases (ethers.get_address dto.safe_address)) [
        | inl bad ↦ inl (
          HttpError.internal,
          rw (bind_agent, named_user, h1, bad) refl,
          rw (bind_agent, named_user, h1, bad) refl,
        )
        | inr (safe, h2) ↦ elim (Option-cases (ethers.get_address dto.guard_address)) [
          | inl bad ↦ inl (
            HttpError.internal,
            rw (bind_agent, named_user, h1, h2, bad) refl,
            rw (bind_agent, named_user, h1, h2, bad) refl,
          )
          | inr (guard, h3) ↦
              elim (Option-cases (find (is_active_elsewhere user) (agents_at address d))) [
                | inr (other, taken) ↦ inl (
                  HttpError.conflict,
                  rw (bind_agent, named_user, h1, h2, h3, taken) refl,
                  rw (bind_agent, named_user, h1, h2, h3, taken) refl,
                )
                | inl free ↦
                    elim (Result-cases (write_agent user id dto address safe guard now d).0) [
                      | inr (e, failed) ↦ inl (
                        e,
                        rw (bind_agent, named_user, h1, h2, h3, free) failed,
                        rw (bind_agent, named_user, h1, h2, h3, free)
                            (write_agent-err user id dto address safe guard now d e failed),
                      )
                      | inl (a, done) ↦
                          let (key, id_of, write, written) =
                            write_agent-Written user id dto address safe guard now d a h done in
                          inr (
                            a,
                            rw (bind_agent, named_user, h1, h2, h3, free) done,
                            rw (bind_agent, named_user, h1, h2, h3, free)
                                (record {
                                  address = address;
                                  key = key;
                                  named = h1;
                                  owned = find-AllOwned address user d free;
                                  id_of = id_of;
                                  write = write;
                                  written = written;
                                }),
                          )
                    ]
              ]
        ]
      ]
    ]
  ]

  record IsSound (d : Dict Agent) : Type 0 where
    keyed : IsKeyed d
    one_owner : HaveOneOwner d

  Bound-AllOwned :
      (user : Text) (dto : BindAgentDto) (a : Agent) (d d' : Dict Agent) (b : Bound user dto a d d')
      → AllOwned (to_lower a.agent_address) a.user_id d
  Bound-AllOwned user dto a d d' b = rw (b.written.at, b.written.own) b.owned

  Reach-IsSound : (d : Dict Agent) → Reach d → IsSound d
  Reach-IsSound _ empty = record { keyed = tt; one_owner = tt }
  Reach-IsSound _ (deactivated {d} user now r) =
      let h = Reach-IsSound d r in
      record {
        keyed = deactivate-IsKeyed user now d h.keyed;
        one_owner = deactivate-HaveOneOwner user now d h.one_owner;
      }
  Reach-IsSound _ (bound {d} user id dto now r) =
      let h = Reach-IsSound d r in
      elim (bind_agent-cases user id dto now d h.keyed) [
        | inl (e, failed, same) ↦ rw same h
        | inr (a, done, b) ↦ rw b.write (record {
          keyed = insert-IsKeyed b.key a d b.id_of h.keyed;
          one_owner = insert-HaveOneOwner b.key a d (Bound-AllOwned user dto a d _ b) h.one_owner;
        })
      ]

  get_agent_by_address-active :
      (address at : Text) (b : Agent) (d : Dict Agent)
      → ethers.get_address address ≡ some at
      → find is_active (agents_at at d) ≡ some b
      → get_agent_by_address ethers address d ≡ ok (some b)
  unfolding get_agent_by_address
  get_agent_by_address-active address at b d named there =
      rw (get_agent_by_address, named, there) refl

  owner_check :
      (user v : Text) (dto : BindAgentDto) (b : Agent) (d : Dict Agent)
      → get_agent_by_address ethers dto.agent_address d ≡ ok (some b)
      → b.user_id ≡ user
      → is_active b ≡ true
      → (assert_agent_ownership ethers user dto.agent_address d ≡ ok tt)
        × (v ≢ user → assert_agent_ownership ethers v dto.agent_address d ≡ err HttpError.forbidden)
  unfolding assert_agent_ownership verify_agent_ownership
  owner_check user v dto b d found own active =
      (ground (arith, text_eq_iff b.user_id user), λ other. ground (arith, text_eq_iff b.user_id v))

  -- After a binding that succeeds, in a table that bindings and deleted accounts made, the
  -- ownership check of the agent's address passes for the user, and it fails for every other
  -- user.
  pub bind_agent-IsOwner :
      (user v id : Text) (dto : BindAgentDto) (now : ℕ) (d : Dict Agent) (a : Agent)
      → Reach d
      → (bind_agent ethers user id dto now d).0 ≡ ok a
      → v ≢ user
      → (assert_agent_ownership ethers user dto.agent_address
            (bind_agent ethers user id dto now d).1
          ≡ ok tt)
        × (assert_agent_ownership ethers v dto.agent_address (bind_agent ethers user id dto now d).1
            ≡ err HttpError.forbidden)
  bind_agent-IsOwner user v id dto now d a r done other =
      let h = Reach-IsSound d r in
      elim (bind_agent-cases user id dto now d h.keyed) [
        | inl (e, failed, same) ↦ absurd (err_ne_ok e a (sym failed ∙ done))
        | inr (row, _, b) ↦
            let owned : AllOwned (to_lower b.address) user (insert b.key row d) =
              insert-AllOwned (to_lower b.address) user b.key row d (λ _. b.written.own) b.owned in
            let present =
              lookup-find b.key b.address row (insert b.key row d) (lookup-insert_self b.key row d)
                b.written.active ((text_eq_iff _ _).1 b.written.at) in
            elim (Option-cases (find is_active (agents_at b.address (insert b.key row d)))) [
              | inl absent ↦ absurd (present absent)
              | inr (c, there) ↦
                  let own = AllOwned-find b.address user c (insert b.key row d) owned there in
                  let active =
                    find_holds is_active (agents_at b.address (insert b.key row d)) c there in
                  let checked =
                    owner_check user v dto c (insert b.key row d)
                      (get_agent_by_address-active dto.agent_address b.address c _ b.named there)
                      own active in
                  rw b.write (checked.0, checked.1 other)
            ]
      ]
