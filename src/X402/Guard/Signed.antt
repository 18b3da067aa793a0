-- ===== src/X402/Guard/Signed.antt =====
-- What an accepted request is known to have: a fresh timestamp and a signature of its agent.
use ethonline.Common.{
  ℕ, ◌/◌, ◌≡◌, refl, ◌∙◌, sym, ap, true, false, some, arith, Bool-cases, Option-cases, inl, inr,
}
use ethonline.Common.Int.{ℤ, pos, ◌+ℤ◌, ◌≤ℤ◌}
use ethonline.Common.Text.{Text, text_eq, text_eq_iff, truthy}
use ethonline.Common.Dict.{Dict, lookup, values}
use ethonline.Common.BigInt.{parse_big_int}
use ethonline.Common.Results.{err_ne_ok, ok_injective, ok, Result-cases}
use ethonline.X402.Ethers.{Ethers}
use ethonline.Agents.{Agent, is_active, get_agent_by_address}
use ethonline.Agents.Lookup.{IsAt, get_agent_by_address-IsAt, get_agent_by_address-Memᴰ}
use mathlib.Core.List.{Memᴰ}
use ethonline.X402.Guard.{
  Request, prune_used_signatures, is_stale, signed_message, authenticate, activate_fresh,
  can_activate,
}

-- At most 60 seconds away, in whole seconds.
abbrev pub IsFresh : ℤ → ℕ → Type 0
IsFresh timestamp now = (pos now ≤ℤ timestamp +ℤ pos 60) × (timestamp ≤ℤ pos now +ℤ pos 60)

pub not_stale :
    (timestamp : ℤ) (now : ℕ) → is_stale timestamp now ≡ false → IsFresh timestamp (now / 1000)
not_stale timestamp now e = (ground arith, ground arith)

module _ (ethers : Ethers) (sha256 : Text → Text) (agents : Dict Agent) where
  -- The signature is over this request and timestamp by the address, and the agent is an active one
  -- of the table, registered at this address.
  abbrev pub IsSignedBy : Request → Text → Text → ℤ → Agent → Type 0
  IsSignedBy r address signature timestamp a =
      (signer expected : Text) × (ethers.verify_message (signed_message sha256 r timestamp)
          signature
        ≡ some signer)
      × (ethers.get_address signer ≡ some expected)
      × (ethers.get_address address ≡ some expected)
      × Memᴰ a (values agents)
      × IsAt ethers expected a
      × (is_active a ≡ true)

  authenticate-IsSignedBy :
      (r : Request) (address signature : Text) (timestamp : ℤ) (a : Agent)
      → authenticate ethers sha256 agents r address signature timestamp ≡ ok a
      → IsSignedBy r address signature timestamp a
  unfolding authenticate
  authenticate-IsSignedBy r address signature timestamp a done =
      elim (Option-cases (ethers.get_address address)) [
        | inl bad ↦ absurd (ground arith)
        | inr (expected, h1) ↦
            let message = signed_message sha256 r timestamp in
            elim (Option-cases (ethers.verify_message message signature)) [
              | inl bad ↦ absurd (ground arith)
              | inr (signer, h2) ↦ elim (Option-cases (ethers.get_address signer)) [
                | inl bad ↦ absurd (ground arith)
                | inr (recovered, h3) ↦ elim (Bool-cases (text_eq recovered expected)) [
                  | inr differs ↦ absurd (ground arith)
                  | inl agrees ↦
                      let same : recovered ≡ expected = (text_eq_iff recovered expected).0 agrees in
                      elim (Result-cases (get_agent_by_address ethers expected agents)) [
                        | inr (x, failed) ↦ absurd (ground arith)
                        | inl (found, h4) ↦ elim (Option-cases found) [
                          | inl missing ↦ absurd (ground arith)
                          | inr (b, h5) ↦ elim (Bool-cases (is_active b)) [
                            | inr inactive ↦ absurd (ground arith)
                            | inl active ↦
                                let there = h4 ∙ ap ok h5 in
                                let same_agent : b ≡ a =
                                  ok_injective b a (
                                    rw (authenticate, h1, h2, h3, agrees, there, active) at done) in
                                (
                                  signer,
                                  expected,
                                  h2,
                                  h3 ∙ ap some same,
                                  h1,
                                  get_agent_by_address-Memᴰ ethers expected agents a
                                      (there ∙ ap (λ x. ok (some x)) same_agent),
                                  get_agent_by_address-IsAt ethers expected agents a
                                      (there ∙ ap (λ x. ok (some x)) same_agent),
                                  rw (← same_agent) active,
                                )
                          ]
                        ]
                      ]
                ]
              ]
            ]
      ]

  activate_fresh-IsSignedBy :
      (r : Request) (address signature : Text) (timestamp : ℤ) (now : ℕ) (used : Dict ℕ) (a : Agent)
      → (activate_fresh ethers sha256 agents r address signature timestamp now used).0 ≡ ok a
      → IsSignedBy r address signature timestamp a
  unfolding activate_fresh
  activate_fresh-IsSignedBy r address signature timestamp now used a done =
      elim (Option-cases (lookup signature (prune_used_signatures now used))) [
        | inr (x, known) ↦ absurd (ground arith)
        | inl new ↦
            elim (Result-cases (authenticate ethers sha256 agents r address signature timestamp)) [
              | inr (x, bad) ↦ absurd (ground arith)
              | inl (b, good) ↦
                  let same : b ≡ a = ok_injective b a (rw (activate_fresh, new, good) at done) in
                  authenticate-IsSignedBy r address signature timestamp a (good ∙ ap ok same)
            ]
      ]

  -- An accepted request has its three headers and a fresh timestamp, and passes on to the rest.
  pub can_activate-fresh :
      (r : Request) (now : ℕ) (used : Dict ℕ) (a : Agent)
      → (can_activate ethers sha256 agents r now used).0 ≡ ok a
      → (address signature header : Text) × (timestamp : ℤ) × (truthy r.agent_address
          ≡ some address)
        × (truthy r.signature ≡ some signature)
        × (truthy r.timestamp ≡ some header)
        × (parse_big_int header ≡ some timestamp)
        × (is_stale timestamp now ≡ false)
        × (can_activate ethers sha256 agents r now used
            ≡ activate_fresh ethers sha256 agents r address signature timestamp now used)
  unfolding can_activate
  can_activate-fresh r now used a done = elim (Option-cases (truthy r.agent_address)) [
    | inl missing ↦ absurd (ground arith)
    | inr (address, h1) ↦ elim (Option-cases (truthy r.timestamp)) [
      | inl missing ↦ absurd (ground arith)
      | inr (header, h2) ↦ elim (Option-cases (truthy r.signature)) [
        | inl missing ↦ absurd (ground arith)
        | inr (signature, h3) ↦ elim (Option-cases (parse_big_int header)) [
          | inl bad ↦ absurd (ground arith)
          | inr (timestamp, h4) ↦ elim (Bool-cases (is_stale timestamp now)) [
            | inl stale ↦ absurd (err_ne_ok _ a (rw (can_activate, h1, h2, h3, h4, stale) at done))
            | inr fresh ↦ (
              address,
              signature,
              header,
              timestamp,
              h1,
              h3,
              h2,
              h4,
              fresh,
              rw (can_activate, h1, h2, h3, h4, fresh) refl,
            )
          ]
        ]
      ]
    ]
  ]

  -- A request whose timestamp, if it is a number, is a whole one passes the guard only with its three
  -- headers and a timestamp at most 60 seconds away, when its signature is over this request and
  -- timestamp by the address that it names and one of the agents of the table is active and registered
  -- at this address; this agent is the one that the request carries on. The fractional timestamps that
  -- the code accepts too are not covered.
  pub can_activate-IsSignedBy :
      (r : Request) (now : ℕ) (used : Dict ℕ) (a : Agent)
      → (can_activate ethers sha256 agents r now used).0 ≡ ok a
      → (address signature header : Text) × (timestamp : ℤ) × (truthy r.agent_address
          ≡ some address)
        × (truthy r.signature ≡ some signature)
        × (truthy r.timestamp ≡ some header)
        × (parse_big_int header ≡ some timestamp)
        × IsFresh timestamp (now / 1000)
        × IsSignedBy r address signature timestamp a
  can_activate-IsSignedBy r now used a done =
      let (address, signature, header, timestamp, h1, h2, h3, h4, fresh, same) =
        can_activate-fresh r now used a done in
      let passed = sym (ap (λ x. x.0) same) ∙ done in
      (
        address,
        signature,
        header,
        timestamp,
        h1,
        h2,
        h3,
        h4,
        not_stale timestamp now fresh,
        activate_fresh-IsSignedBy r address signature timestamp now used a passed,
      )
