-- ===== src/X402/Configuration/Partner.antt =====
-- What a configuration that loads guarantees, and what the spending policy does under it.
use ethonline.Common.{
  ℕ, ◌≡◌, refl, sym, Bool, true, false, not, some, Bool-cases, Option-cases, inl, inr, arith,
}
use ethonline.Common.Int.{ℤ, pos, ◌<ℤ◌, ltb_ℤ_iff}
use ethonline.Common.Text.{Text, codes, text_eq, text_eq_iff, contains}
use ethonline.Common.Results.{ok}
use ethonline.Common.Loading.{
  loaded, Env, >>=-loaded, check-loaded, or_refuse-loaded, loaded_injective,
}
use ethonline.Domain.{Reason}
use ethonline.ActionStore.{Store}
use ethonline.X402.Ethers.{Ethers}
use ethonline.X402.Spending.{
  Config, Requirements, blocked, evaluate_payee, evaluate_asset, evaluate,
}
use ethonline.X402.Configuration.{require_positive_big_int, require_address, load_x402_config}

require_positive_big_int-lt :
    (env : Env) (name : Text) (n : ℤ) → require_positive_big_int env name ≡ loaded n → pos 0 <ℤ n
unfolding require_positive_big_int
require_positive_big_int-lt env name n e =
    let (value, _, e1) = >>=-loaded _ _ n e in
    let (parsed, _, e2) = >>=-loaded _ _ n e1 in
    let (u, positive, e3) = >>=-loaded _ _ n e2 in
    let same = loaded_injective parsed n e3 in
    rw (sym same) ((ltb_ℤ_iff (pos 0) parsed).0 (check-loaded _ _ u positive))

module _ (ethers : Ethers) (is_url : Text → Bool) (env : Env) where
  require_address-named :
      (name address : Text)
      → require_address ethers is_url env name ≡ loaded address
      → (value : Text) × (ethers.get_address value ≡ some address)
  unfolding require_address
  require_address-named name address e =
      let (value, _, e1) = >>=-loaded _ _ address e in (value, or_refuse-loaded _ _ address e1)

  -- What the loader checks.
  pub record IsSafe (c : Config) : Type 0 where
    pub network : c.network ≡ codes "eip155:84532"
    pub paid : contains c.approved_pay_to c.pay_to_address ≡ true
    pub partner : contains c.approved_pay_to c.partner_pay_to_address ≡ false
    pub usdc : (value : Text) × (ethers.get_address value ≡ some c.usdc_address)
    pub autonomous : pos 0 <ℤ c.autonomous_limit
    pub daily : pos 0 <ℤ c.daily_limit

  pub load_x402_config-IsSafe :
      (c : Config) → load_x402_config ethers is_url env ≡ loaded c → IsSafe c
  unfolding load_x402_config
  load_x402_config-IsSafe c e =
      let (network, _, e1) = >>=-loaded _ _ c e in
      let (u1, on, e2) = >>=-loaded _ _ c e1 in
      let (_, _, e3) = >>=-loaded _ _ c e2 in
      let (_, _, e4) = >>=-loaded _ _ c e3 in
      let (_, _, e5) = >>=-loaded _ _ c e4 in
      let (_, _, e6) = >>=-loaded _ _ c e5 in
      let (pay_to, _, e7) = >>=-loaded _ _ c e6 in
      let (partner, _, e8) = >>=-loaded _ _ c e7 in
      let (approved, _, e9) = >>=-loaded _ _ c e8 in
      let (u2, listed, e10) = >>=-loaded _ _ c e9 in
      let (u3, unlisted, e11) = >>=-loaded _ _ c e10 in
      let (usdc, named, e12) = >>=-loaded _ _ c e11 in
      let (autonomous, positive, e13) = >>=-loaded _ _ c e12 in
      let (daily, positive', e14) = >>=-loaded _ _ c e13 in
      let (approver, _, e15) = >>=-loaded _ _ c e14 in
      let same = loaded_injective _ c e15 in
      let not_listed : not (contains approved partner) ≡ true = check-loaded _ _ u3 unlisted in
      rw (sym same) (record {
        network = (text_eq_iff network (codes "eip155:84532")).0 (check-loaded _ _ u1 on);
        paid = check-loaded _ _ u2 listed;
        partner = ground arith;
        usdc = require_address-named _ usdc named;
        autonomous = require_positive_big_int-lt env _ autonomous positive;
        daily = require_positive_big_int-lt env _ daily positive';
      })

  -- Under a configuration that loads, both limits are positive, the own payee is approved, and
  -- the spending policy blocks every payment to the partner's address, at any amount and with any
  -- justification, without asking a human, if the checksummed form of a checksummed address is
  -- itself.
  pub load_x402_config-partner :
      (c : Config) (agent justification : Text) (now : ℕ) (s : Store) (r : Requirements)
      → ((a b : Text) → ethers.get_address a ≡ some b → ethers.get_address b ≡ some b)
      → load_x402_config ethers is_url env ≡ loaded c
      → ethers.get_address r.pay_to ≡ some c.partner_pay_to_address
      → IsSafe c
        × ((reason : Reason) × (evaluate c agent justification now s ethers r
              ≡ ok (blocked reason)))
  unfolding evaluate evaluate_asset evaluate_payee
  load_x402_config-partner c agent justification now s r checksum done to =
      let safe = load_x402_config-IsSafe c done in
      let (value, named) = safe.usdc in
      let usdc = checksum value c.usdc_address named in
      (
        safe,
        elim (Bool-cases (text_eq r.network c.network)) [
          | inr elsewhere ↦
              (Reason.network_not_approved r.network c.network, rw (evaluate, elsewhere) refl)
          | inl here ↦ elim (Option-cases (ethers.get_address r.asset)) [
            | inl bad ↦ (Reason.malformed_address, rw (evaluate, here, bad) refl)
            | inr (asset, good) ↦ elim (Bool-cases (text_eq asset c.usdc_address)) [
              | inr other ↦ (
                Reason.asset_not_approved asset,
                rw (evaluate, here, good, to, evaluate_asset, usdc, other) refl,
              )
              | inl same ↦ (
                Reason.payee_not_approved c.partner_pay_to_address,
                rw
                    (
                      evaluate, here, good, to, evaluate_asset, usdc, same, evaluate_payee,
                      safe.partner,
                    )
                    refl,
              )
            ]
          ]
        ],
      )
