-- ===== src/X402/Guard.antt =====
-- backend/src/x402/guards/agent-signature.guard.ts: the authentication of an agent's request.
pub mod Signed
pub mod Replay
use ethonline.Common.{
  ℕ, ◌+◌, ◌-◌, ◌/◌, Bool, true, false, ◌&&◌, ◌||◌, Option, none, some, List, [], ◌∷◌, ◌++◌, leb,
  if◌then◌else◌,
}
use ethonline.Common.Int.{ℤ, pos, ◌+ℤ◌, ltb_ℤ}
use ethonline.Common.Text.{Text, codes, text_eq, truthy}
use ethonline.Common.Dict.{Dict, lookup, insert}
use ethonline.Common.BigInt.{parse_big_int, print_big_int}
use ethonline.Common.Results.{HttpError, Result, ok, err}
use ethonline.X402.Ethers.{Ethers}
use ethonline.Agents.{Agent, is_active, get_agent_by_address}

-- What the guard reads of a request: three headers, the method, the path with its query, the body.
pub record Request : Type 0 where
  pub agent_address : Option Text
  pub timestamp : Option Text
  pub signature : Option Text
  pub method : Text
  pub path : Text
  pub body : Text

abbrev pub signature_ttl : ℕ
signature_ttl = 120000

abbrev pub timestamp_tolerance : ℤ
timestamp_tolerance = pos 60

-- `s.toUpperCase()` on the ASCII letters
unfoldable pub to_upper : Text → Text
to_upper [] = []
to_upper (c ∷ s) = (if leb b'a' c && leb c b'z' then c - 32 else c) ∷ to_upper s

-- `pruneUsedSignatures`; the map holds when a signature is forgotten, in milliseconds.
unfoldable pub prune_used_signatures : ℕ → Dict ℕ → Dict ℕ
prune_used_signatures now [] = []
prune_used_signatures now ((signature, expires) ∷ used) =
    let rest = prune_used_signatures now used in
    if leb expires now then rest else (signature, expires) ∷ rest

-- `Math.abs(nowSeconds - timestamp) > TIMESTAMP_TOLERANCE_SECONDS`
abbrev pub is_stale : ℤ → ℕ → Bool
is_stale timestamp now =
    ltb_ℤ (timestamp +ℤ timestamp_tolerance) (pos (now / 1000))
    || ltb_ℤ (pos (now / 1000) +ℤ timestamp_tolerance) timestamp

-- The message that the agent signs; `sha256` is the hex digest of node's crypto module.
unfoldable pub signed_message : (Text → Text) → Request → ℤ → Text
signed_message sha256 r timestamp =
    codes "chapter2-agent-request\n"
    ++ (to_upper r.method
        ++ (codes "\n"
            ++ (r.path
                ++ (codes "\n" ++ (print_big_int timestamp ++ (codes "\n" ++ sha256 r.body))))))

module _ (ethers : Ethers) (sha256 : Text → Text) (agents : Dict Agent) where
  -- The checks after the one for a used signature.
  unfoldable pub authenticate : Request → Text → Text → ℤ → Result Agent
  authenticate r address signature timestamp = elim (ethers.get_address address) [
    | none ↦ err HttpError.unauthorized
    | some expected ↦ elim (ethers.verify_message (signed_message sha256 r timestamp) signature) [
      | none ↦ err HttpError.unauthorized
      | some signer ↦ elim (ethers.get_address signer) [
        | none ↦ err HttpError.unauthorized
        | some recovered ↦
            if text_eq recovered expected
            then elim (get_agent_by_address ethers expected agents) [
              | err e ↦ err e
              | ok none ↦ err HttpError.unauthorized
              | ok (some a) ↦ if is_active a then ok a else err HttpError.unauthorized
            ]
            else err HttpError.unauthorized
      ]
    ]
  ]

  -- The part of `canActivate` after the timestamp is found fresh.
  unfoldable pub activate_fresh : Request → Text → Text → ℤ → ℕ → Dict ℕ → Result Agent × Dict ℕ
  activate_fresh r address signature timestamp now used =
      let kept = prune_used_signatures now used in
      elim (lookup signature kept) [
        | some expires ↦ (err HttpError.unauthorized, kept)
        | none ↦ elim (authenticate r address signature timestamp) [
          | err e ↦ (err e, kept)
          | ok a ↦ (ok a, insert signature (now + signature_ttl) kept)
        ]
      ]

  -- `canActivate`; a timestamp is a whole number of seconds, where the code accepts any finite number,
  -- and the agent is the one that the request carries on.
  unfoldable pub can_activate : Request → ℕ → Dict ℕ → Result Agent × Dict ℕ
  can_activate r now used = elim (truthy r.agent_address) [
    | none ↦ (err HttpError.unauthorized, used)
    | some address ↦ elim (truthy r.timestamp) [
      | none ↦ (err HttpError.unauthorized, used)
      | some header ↦ elim (truthy r.signature) [
        | none ↦ (err HttpError.unauthorized, used)
        | some signature ↦ elim (parse_big_int header) [
          | none ↦ (err HttpError.unauthorized, used)
          | some timestamp ↦
              if is_stale timestamp now
              then (err HttpError.unauthorized, used)
              else activate_fresh r address signature timestamp now used
        ]
      ]
    ]
  ]
