-- ===== src/X402/Guard/Replay.antt =====
-- Whether a request can pass the guard twice.
use ethonline.Common.{
  ℕ, ◌+◌, ◌/◌, ◌≤◌, ◌<◌, ◌≡◌, ◌∙◌, sym, ap, false, none, some, [], ◌∷◌, leb, arith, Bool-cases,
  Option-cases, inl, inr,
}
use ethonline.Common.Int.{ℤ, pos, negsuc, int_laws}
use ethonline.Common.Text.{Text, text_eq, text_eq_iff, truthy}
use ethonline.Common.Dict.{Dict, lookup, lookup-insert, lookup-insert_self}
use ethonline.Common.BigInt.{parse_big_int}
use ethonline.Common.Results.{some_injective, ok, Result-cases}
use ethonline.X402.Ethers.{Ethers}
use ethonline.Agents.{Agent}
use ethonline.X402.Guard.Signed.{IsFresh, not_stale, can_activate-fresh}
use ethonline.X402.Guard.{
  Request, signature_ttl, prune_used_signatures, is_stale, authenticate, activate_fresh,
  can_activate,
}

prune_used_signatures-keeps :
    (now e : ℕ) (k : Text) (used : Dict ℕ)
    → now < e
    → lookup k used ≡ some e
    → lookup k (prune_used_signatures now used) ≡ some e
unfolding prune_used_signatures lookup
prune_used_signatures-keeps now e k [] later there = there
prune_used_signatures-keeps now e k ((j, f) ∷ used) later there =
    ground (arith, prune_used_signatures-keeps now e k used later)

-- Two whole seconds, 120 apart, in which one timestamp is fresh.
only_boundary :
    (timestamp : ℤ) (t u : ℕ)
    → t + 120 ≤ u
    → IsFresh timestamp t
    → IsFresh timestamp u
    → (u ≡ t + 120) × (timestamp ≡ pos (t + 60))
only_boundary (pos n) t u late first second =
    (omega (int_laws, late, first.1, second.0), ap pos (omega (int_laws, late, first.1, second.0)))
only_boundary (negsuc n) t u late first second = absurd (omega (int_laws, late, first.1, second.0))

module _ (ethers : Ethers) (sha256 : Text → Text) (agents : Dict Agent) where
  -- A signature in the map stays there until it is forgotten.
  activate_fresh-keeps :
      (r : Request) (address signature : Text) (timestamp : ℤ) (now e : ℕ) (k : Text)
      (used : Dict ℕ)
      → now < e
      → lookup k used ≡ some e
      → lookup k (activate_fresh ethers sha256 agents r address signature timestamp now used).1
        ≡ some e
  unfolding activate_fresh
  activate_fresh-keeps r address signature timestamp now e k used later there =
      let kept = prune_used_signatures now used in
      let stays = prune_used_signatures-keeps now e k used later there in
      elim (Option-cases (lookup signature kept)) [
        | inr (x, known) ↦ rw (activate_fresh, known) stays
        | inl new ↦
            elim (Result-cases (authenticate ethers sha256 agents r address signature timestamp)) [
              | inr (x, bad) ↦ rw (activate_fresh, new, bad) stays
              | inl (a, good) ↦
                  let other : text_eq k signature ≡ false =
                    ground (arith, text_eq_iff k signature, stays) in
                  rw
                    (
                      activate_fresh,
                      new,
                      good,
                      lookup-insert signature k (now + signature_ttl) kept,
                      other,
                    )
                    stays
            ]
      ]

  can_activate-keeps :
      (r : Request) (now e : ℕ) (k : Text) (used : Dict ℕ)
      → now < e
      → lookup k used ≡ some e
      → lookup k (can_activate ethers sha256 agents r now used).1 ≡ some e
  unfolding can_activate
  can_activate-keeps r now e k used later there = elim (Option-cases (truthy r.agent_address)) [
    | inl missing ↦ rw (can_activate, missing) there
    | inr (address, h1) ↦ elim (Option-cases (truthy r.timestamp)) [
      | inl missing ↦ rw (can_activate, h1, missing) there
      | inr (header, h2) ↦ elim (Option-cases (truthy r.signature)) [
        | inl missing ↦ rw (can_activate, h1, h2, missing) there
        | inr (signature, h3) ↦ elim (Option-cases (parse_big_int header)) [
          | inl bad ↦ rw (can_activate, h1, h2, h3, bad) there
          | inr (timestamp, h4) ↦ elim (Bool-cases (is_stale timestamp now)) [
            | inl stale ↦ rw (can_activate, h1, h2, h3, h4, stale) there
            | inr fresh ↦
                rw (can_activate, h1, h2, h3, h4, fresh)
                  (activate_fresh-keeps r address signature timestamp now e k used later there)
          ]
        ]
      ]
    ]
  ]

  activate_fresh-ok :
      (r : Request) (address signature : Text) (timestamp : ℤ) (now : ℕ) (used : Dict ℕ) (a : Agent)
      → (activate_fresh ethers sha256 agents r address signature timestamp now used).0 ≡ ok a
      → (lookup signature (prune_used_signatures now used) ≡ none)
        × (lookup signature
              (activate_fresh ethers sha256 agents r address signature timestamp now used).1
            ≡ some (now + signature_ttl))
  unfolding activate_fresh
  activate_fresh-ok r address signature timestamp now used a done =
      let kept = prune_used_signatures now used in
      elim (Option-cases (lookup signature kept)) [
        | inr (x, known) ↦ absurd (ground arith)
        | inl new ↦
            elim (Result-cases (authenticate ethers sha256 agents r address signature timestamp)) [
              | inr (x, bad) ↦ absurd (ground arith)
              | inl (b, good) ↦
                  (new, rw (activate_fresh, new, good) (lookup-insert_self signature _ kept))
            ]
      ]

  -- What an accepted request has, and leaves in the map.
  can_activate-ok :
      (r : Request) (now : ℕ) (used : Dict ℕ) (a : Agent)
      → (can_activate ethers sha256 agents r now used).0 ≡ ok a
      → (signature header : Text) × (timestamp : ℤ) × (truthy r.signature ≡ some signature)
        × (truthy r.timestamp ≡ some header)
        × (parse_big_int header ≡ some timestamp)
        × (is_stale timestamp now ≡ false)
        × (lookup signature (prune_used_signatures now used) ≡ none)
        × (lookup signature (can_activate ethers sha256 agents r now used).1
            ≡ some (now + signature_ttl))
  can_activate-ok r now used a done =
      let (address, signature, header, timestamp, _, h2, h3, h4, fresh, same) =
        can_activate-fresh ethers sha256 agents r now used a done in
      let passed = sym (ap (λ x. x.0) same) ∙ done in
      let (new, stored) = activate_fresh-ok r address signature timestamp now used a passed in
      (
        signature,
        header,
        timestamp,
        h2,
        h3,
        h4,
        fresh,
        new,
        ap (λ x. lookup signature x.1) same ∙ stored,
      )

  -- The requests that reach the guard until a time.
  pub data Until (t : ℕ) (used : Dict ℕ) : Dict ℕ → Type 0 where
    none_yet : Until t used used
    then_one :
        {before : Dict ℕ} (r : Request) (now : ℕ)
        → now ≤ t
        → Until t used before
        → Until t used (can_activate ethers sha256 agents r now before).1

  Until-keeps :
      (t e : ℕ) (k : Text) (used after : Dict ℕ)
      → t < e
      → lookup k used ≡ some e
      → Until t used after
      → lookup k after ≡ some e
  Until-keeps t e k used after later there none_yet = there
  Until-keeps t e k used after later there (then_one r now le before) =
      can_activate-keeps r now e k _ (omega arith) (Until-keeps t e k used _ later there before)

  -- A request that has passed is refused as long as its signature is remembered.
  accepted_within :
      (r : Request) (t u : ℕ) (used after : Dict ℕ) (a b : Agent)
      → (can_activate ethers sha256 agents r t used).0 ≡ ok a
      → Until u (can_activate ethers sha256 agents r t used).1 after
      → (can_activate ethers sha256 agents r u after).0 ≡ ok b
      → t + signature_ttl ≤ u
  accepted_within r t u used after a b first between second =
      let (s1, _, _, named, _, _, _, _, stored) = can_activate-ok r t used a first in
      let (s2, _, _, again, _, _, _, gone, _) = can_activate-ok r u after b second in
      let same : s1 ≡ s2 = some_injective s1 s2 (sym named ∙ again) in
      elim (Bool-cases (leb (t + signature_ttl) u)) [
        | inl late ↦ ground arith
        | inr early ↦
            let left : u < t + signature_ttl = ground arith in
            let kept =
              prune_used_signatures-keeps u (t + signature_ttl) s1 after left
                (Until-keeps u (t + signature_ttl) s1 _ after left stored between) in
            let absent : lookup s1 (prune_used_signatures u after) ≡ none = rw same gone in
            absurd (ground (arith, kept, absent))
      ]

  -- Of requests that run one after the other, one with a whole timestamp passes the guard a second
  -- time only if its timestamp is exactly 60 seconds ahead at the first time, and only in the whole
  -- second 120 seconds later, after the signature is forgotten.
  pub can_activate-twice :
      (r : Request) (t u : ℕ) (used after : Dict ℕ) (a b : Agent)
      → (can_activate ethers sha256 agents r t used).0 ≡ ok a
      → Until u (can_activate ethers sha256 agents r t used).1 after
      → (can_activate ethers sha256 agents r u after).0 ≡ ok b
      → (t + signature_ttl ≤ u)
        × (u / 1000 ≡ t / 1000 + 120)
        × ((header : Text) × (truthy r.timestamp ≡ some header)
            × (parse_big_int header ≡ some (pos (t / 1000 + 60))))
  can_activate-twice r t u used after a b first between second =
      let late = accepted_within r t u used after a b first between second in
      let (_, h1, ts1, _, at1, n1, fresh1, _, _) = can_activate-ok r t used a first in
      let (_, h2, ts2, _, at2, n2, fresh2, _, _) = can_activate-ok r u after b second in
      let header : h1 ≡ h2 = some_injective h1 h2 (sym at1 ∙ at2) in
      let same : ts2 ≡ ts1 = some_injective ts2 ts1 (sym n2 ∙ ap parse_big_int (sym header) ∙ n1) in
      let again : is_stale ts1 u ≡ false = rw (← same) fresh2 in
      let (exact, ahead) =
        only_boundary ts1 (t / 1000) (u / 1000) (omega (arith, late)) (not_stale ts1 t fresh1)
          (not_stale ts1 u again) in
      (late, exact, (h1, at1, n1 ∙ ap some ahead))
