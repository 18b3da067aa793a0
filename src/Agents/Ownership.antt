-- ===== src/Agents/Ownership.antt =====
-- What the ownership check of an agent establishes.
use ethonline.Common.{◌≡◌, ◌∙◌, ap, true, arith, Bool-cases, Option-cases, inl, inr}
use ethonline.Common.Text.{Text, text_eq, text_eq_iff}
use ethonline.Common.Dict.{Dict}
use ethonline.Common.Results.{ok, Result-cases}
use ethonline.X402.Ethers.{Ethers}
use ethonline.Agents.{
  Agent, is_active, get_agent_by_address, verify_agent_ownership, assert_agent_ownership,
}
use ethonline.Agents.Lookup.{IsAt, get_agent_by_address-IsAt}

module _ (ethers : Ethers) (user address : Text) (agents : Dict Agent) where
  assert_agent_ownership-verified :
      assert_agent_ownership ethers user address agents ≡ ok tt
      → verify_agent_ownership ethers user address agents ≡ ok true
  unfolding assert_agent_ownership
  assert_agent_ownership-verified done =
      elim (Result-cases (verify_agent_ownership ethers user address agents)) [
        | inr (e, failed) ↦ absurd (ground arith)
        | inl (owned, h) ↦ elim (Bool-cases owned) [
          | inl granted ↦ h ∙ ap ok granted
          | inr refused ↦ absurd (ground arith)
        ]
      ]

  -- The ownership check passes only for an active agent that is registered at the address and belongs
  -- to the user.
  assert_agent_ownership-IsOwned :
      assert_agent_ownership ethers user address agents ≡ ok tt
      → (a : Agent) × IsAt ethers address a × (a.user_id ≡ user) × (is_active a ≡ true)
  unfolding verify_agent_ownership
  assert_agent_ownership-IsOwned done =
      let verified = assert_agent_ownership-verified done in
      elim (Result-cases (get_agent_by_address ethers address agents)) [
        | inr (e, failed) ↦ absurd (ground arith)
        | inl (found, h) ↦ elim (Option-cases found) [
          | inl missing ↦ absurd (ground arith)
          | inr (a, there) ↦
              let at_address =
                get_agent_by_address-IsAt ethers address agents a (h ∙ ap ok there) in
              let owner : text_eq a.user_id user ≡ true = ground arith in
              let active : is_active a ≡ true = ground arith in
              (a, at_address, (text_eq_iff a.user_id user).0 owner, active)
        ]
      ]
