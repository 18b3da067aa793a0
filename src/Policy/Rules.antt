-- ===== src/Policy/Rules.antt =====
-- When the deterministic rules allow, escalate and block, and that the mandate survives a restart.
use ethonline.Common.{
  ℕ, ◌≡◌, refl, ◌⊎◌, ◌↔◌, inl, inr, true, false, Option, none, some, [], ◌∷◌, arith, Option-cases,
}
use ethonline.Common.Int.{ℤ, ◌+ℤ◌, ◌≤ℤ◌, ◌<ℤ◌}
use ethonline.Common.Text.{Text}
use ethonline.Common.Dict
use ethonline.Common.NatDict
use ethonline.Common.NatDict.{NatDict}
use ethonline.Common.BigInt.{parse_big_int, print_big_int}
use ethonline.Common.BigInt.RoundTrip.{parse_big_int-print_big_int}
use ethonline.Common.Results.{Result, ok, err}
use ethonline.Domain.{Decision, TreasuryAction, TreasuryMandate}
use ethonline.Policy.{
  Policy, PolicyResult, MandateRow, lists_address, evaluate_amount, evaluate_deterministic_rules,
  mandate_key, persist_mandate, mandate_of_row, load_spent, load_from_database, update_mandate,
}
use ethonline.Policy.Ledger.{spent_on}

-- The decision that an evaluation returns.
abbrev pub decided : Result PolicyResult → Option Decision
decided (ok r) = some r.decision
decided (err e) = none

module _ (a : TreasuryAction) (t : ℕ) (p : Policy) where
  abbrev pub IsListed : Type 0
  IsListed =
      (lists_address p.mandate.approved_recipients a.recipient ≡ true)
      × (lists_address p.mandate.approved_tokens a.token ≡ true)

  abbrev pub verdict_of : Option Decision
  verdict_of = decided (evaluate_deterministic_rules a t p).0

  -- An action whose amount is a bigint is allowed exactly when its recipient and its token are
  -- approved, the amount is within the single limit, and the day's total with it within the daily
  -- limit. It is escalated exactly when both addresses are approved and a limit is passed, and
  -- blocked exactly when an address is not approved.
  pub evaluate_deterministic_rules_iff :
      (amount : ℤ)
      → parse_big_int a.amount ≡ some amount
      → ((verdict_of ≡ some Decision.allow) ↔ (
          IsListed
          × (amount ≤ℤ p.mandate.max_autonomous_amount)
          × (spent_on t p +ℤ amount ≤ℤ p.mandate.daily_autonomous_limit)))
        × ((verdict_of ≡ some Decision.escalate) ↔ (
            IsListed
            × ((p.mandate.max_autonomous_amount <ℤ amount)
                ⊎ (p.mandate.daily_autonomous_limit <ℤ spent_on t p +ℤ amount))))
        × ((verdict_of ≡ some Decision.block) ↔ (
            (lists_address p.mandate.approved_recipients a.recipient ≡ false)
            ⊎ (lists_address p.mandate.approved_tokens a.token ≡ false)))
  unfolding evaluate_deterministic_rules evaluate_amount
  evaluate_deterministic_rules_iff amount e = (
    ((λ h. ground arith), (λ h. ground arith)),
    ((λ h. ground arith), (λ h. ground arith)),
    ((λ h. ground arith), (λ h. ground arith)),
  )

load_spent-mandate : (rows : NatDict Text) (p : Policy) → (load_spent rows p).mandate ≡ p.mandate
unfolding load_spent
load_spent-mandate [] p = refl
load_spent-mandate ((d, text) ∷ rows) p = elim (Option-cases (parse_big_int text)) [
  | inl bad ↦ ground arith
  | inr (z, good) ↦
      ground (
        arith,
        load_spent-mandate rows (record p { daily_spent = NatDict.insert d z p.daily_spent }),
      )
]

abbrev row_of : TreasuryMandate → MandateRow
row_of m = record {
  chain_id = m.chain_id;
  safe_address = m.safe_address;
  guard_address = m.guard_address;
  autonomous_agent = m.autonomous_agent;
  human_signer = m.human_signer;
  max_autonomous_amount = print_big_int m.max_autonomous_amount;
  daily_autonomous_limit = print_big_int m.daily_autonomous_limit;
  approved_recipients = m.approved_recipients;
  approved_tokens = m.approved_tokens;
}

mandate_of_row-row_of : (m : TreasuryMandate) → mandate_of_row (row_of m) ≡ some m
unfolding mandate_of_row
mandate_of_row-row_of m = ground (
  arith,
  parse_big_int-print_big_int m.max_autonomous_amount,
  parse_big_int-print_big_int m.daily_autonomous_limit,
)

update_mandate-lookup :
    (m : TreasuryMandate) (p : Policy)
    → Dict.lookup (mandate_key m.chain_id m.safe_address) (update_mandate m p).mandate_rows
      ≡ some (row_of m)
unfolding update_mandate persist_mandate
update_mandate-lookup m p = Dict.lookup-insert_self _ _ _

-- An updated mandate survives a restart: a service that starts over the table with any mandate of
-- the same chain and Safe has the updated one after loading.
pub restart-update_mandate :
    (m : TreasuryMandate) (p fresh : Policy)
    → fresh.mandate.chain_id ≡ m.chain_id
    → fresh.mandate.safe_address ≡ m.safe_address
    → fresh.mandate_rows ≡ (update_mandate m p).mandate_rows
    → (load_from_database fresh).mandate ≡ m
unfolding load_from_database
restart-update_mandate m p fresh c s rows =
    let found : Dict.lookup (mandate_key fresh.mandate.chain_id fresh.mandate.safe_address)
          fresh.mandate_rows
        ≡ some (row_of m) =
      rw (c, s, rows) (update_mandate-lookup m p) in
    ground (
      arith,
      mandate_of_row-row_of m,
      load_spent-mandate fresh.spent_rows (record fresh { mandate = m }),
    )
