-- ===== src/Tests/Setup.antt =====
-- A run of the loader of the x402 configuration, and a payment to the partner under what it loads.
use ethonline.Common.{◌≡◌, refl, Bool, true, some, [], ◌∷◌}
use ethonline.Common.Int.{pos}
use ethonline.Common.Text.{Text, codes, text_eq, trim, split, contains}
use ethonline.Common.Dict.{Dict, lookup}
use ethonline.Common.BigInt.{parse_big_int}
use ethonline.Common.Results.{ok}
use ethonline.Common.Loading.{loaded, Env, ◌>>=◌}
use ethonline.Domain.{Reason}
use ethonline.X402.Ethers.{Ethers}
use ethonline.X402.Spending.{Config, Requirements, blocked, evaluate}
use ethonline.X402.Configuration.{
  require_env, require_positive_big_int, drop_slashes, require_address, checksummed,
  require_address_list, load_x402_config,
}
use ethonline.X402.Configuration.Partner.{IsSafe, load_x402_config-partner}
use ethonline.Tests.Data.{agent, store}

abbrev ethers : Ethers
ethers = record { get_address = some; verify_message = λ message signature. some signature }

abbrev is_url : Text → Bool
is_url t = true

abbrev variables : Dict Text
variables =
    (codes "X402_NETWORK", codes "eip155:84532")
    ∷ (codes "X402_FACILITATOR_URL", codes "https://facilitator")
    ∷ (codes "PUBLIC_BASE_URL", codes "https://shop//")
    ∷ (codes "X402_PAY_TO_ADDRESS", codes "0xPay")
    ∷ (codes "X402_PARTNER_PAY_TO_ADDRESS", codes "0xPartner")
    ∷ (codes "X402_APPROVED_PAY_TO", codes " 0xPay, ,0xFriend")
    ∷ (codes "USDC_ADDRESS", codes "0xUsdc")
    ∷ (codes "X402_AUTONOMOUS_LIMIT", codes "50")
    ∷ (codes "X402_DAILY_LIMIT", codes "200")
    ∷ (codes "LEDGER_APPROVER_ADDRESS", codes "0xLedger")
    ∷ []

abbrev env : Env
env name = lookup name variables

abbrev config : Config
config = record {
  network = codes "eip155:84532";
  facilitator_url = codes "https://facilitator";
  usdc_address = codes "0xUsdc";
  pay_to_address = codes "0xPay";
  partner_pay_to_address = codes "0xPartner";
  public_base_url = codes "https://shop";
  approved_pay_to = codes "0xPay" ∷ codes "0xFriend" ∷ [];
  autonomous_limit = pos 50;
  daily_limit = pos 200;
  ledger_approver_address = codes "0xLedger";
}

abbrev requirements : Requirements
requirements = record {
  network = codes "eip155:84532";
  asset = codes "0xUsdc";
  pay_to = codes "0xPartner";
  amount = codes "1";
}

config_lem : load_x402_config ethers is_url env ≡ loaded config
unfolding load_x402_config ◌>>=◌ require_env require_positive_big_int drop_slashes require_address
    checksummed require_address_list lookup text_eq trim split contains parse_big_int
config_lem = refl

load_x402_config-partner_example :
    IsSafe ethers is_url env config
    × ((reason : Reason) × (evaluate config agent (codes "x402: x") 1000 store ethers requirements
          ≡ ok (blocked reason)))
load_x402_config-partner_example =
    load_x402_config-partner ethers is_url env config agent (codes "x402: x") 1000 store
      requirements (λ a b e. refl) config_lem refl
