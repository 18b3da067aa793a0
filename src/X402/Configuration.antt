-- ===== src/X402/Configuration.antt =====
-- backend/src/x402/x402.config.ts: loadX402Config.
pub mod Partner
use ethonline.Common.{
  Bool, true, false, not, none, some, List, [], ◌∷◌, keep, map, ◌==◌, if◌then◌else◌,
}
use mathlib.Core.List.{reverse}
use ethonline.Common.Int.{ℤ, pos, ltb_ℤ}
use ethonline.Common.Text.{Text, codes, text_eq, contains, trim, is_empty, truthy, split}
use ethonline.Common.BigInt.{parse_big_int}
use ethonline.Common.Loading.{
  ConfigError, Loaded, loaded, refused, ◌>>=◌, ◌>>◌, check, or_refuse, Env,
}
use ethonline.X402.Ethers.{Ethers}
use ethonline.X402.Spending.{Config}

-- `requireEnv`
unfoldable pub require_env : Env → Text → Loaded Text
require_env env name = elim (truthy (env name)) [
  | none ↦ refused (ConfigError.missing name)
  | some value ↦
      if is_empty (trim value) then refused (ConfigError.missing name) else loaded (trim value)
]

-- `requirePositiveBigInt`
unfoldable pub require_positive_big_int : Env → Text → Loaded ℤ
require_positive_big_int env name = do
  value ← require_env env name
  parsed ← or_refuse (parse_big_int value) (ConfigError.malformed name)
  check (ltb_ℤ (pos 0) parsed) (ConfigError.not_positive name)
  loaded parsed

-- `publicBaseUrl.replace(/\/+$/, '')`
unfoldable pub drop_slashes : Text → Text
drop_slashes [] = []
drop_slashes (c ∷ s) = let rest = drop_slashes s in if c == b'/' then rest else c ∷ s

abbrev pub without_slashes : Text → Text
without_slashes s = reverse (drop_slashes (reverse s))

-- `is_url` says whether `new URL` takes a text.
module _ (ethers : Ethers) (is_url : Text → Bool) (env : Env) where
  -- `requireAddress`
  unfoldable pub require_address : Text → Loaded Text
  require_address name = do
    value ← require_env env name
    or_refuse (ethers.get_address value) (ConfigError.malformed name)

  -- `entries.map` of `requireAddressList`
  unfoldable pub checksummed : Text → List Text → Loaded (List Text)
  checksummed name [] = loaded []
  checksummed name (entry ∷ entries) = do
    address ← or_refuse (ethers.get_address entry) (ConfigError.malformed name)
    rest ← checksummed name entries
    loaded (address ∷ rest)

  abbrev pub entries_of : Text → List Text
  entries_of raw = keep (λ t. not (is_empty t)) (map trim (split b',' raw))

  abbrev pub is_nil : List Text → Bool
  is_nil [] = true
  is_nil (t ∷ ts) = false

  -- `requireAddressList`
  unfoldable pub require_address_list : Text → Loaded (List Text)
  require_address_list name = do
    raw ← require_env env name
    check (not (is_nil (entries_of raw))) (ConfigError.missing name)
    checksummed name (entries_of raw)

  -- `loadX402Config`
  unfoldable pub load_x402_config : Loaded Config
  load_x402_config = do
    network ← require_env env (codes "X402_NETWORK")
    check (text_eq network (codes "eip155:84532")) (ConfigError.malformed (codes "X402_NETWORK"))
    facilitator_url ← require_env env (codes "X402_FACILITATOR_URL")
    check (is_url facilitator_url) (ConfigError.malformed (codes "X402_FACILITATOR_URL"))
    public_base_url ← require_env env (codes "PUBLIC_BASE_URL")
    check (is_url public_base_url) (ConfigError.malformed (codes "PUBLIC_BASE_URL"))
    pay_to ← require_address (codes "X402_PAY_TO_ADDRESS")
    partner ← require_address (codes "X402_PARTNER_PAY_TO_ADDRESS")
    approved ← require_address_list (codes "X402_APPROVED_PAY_TO")
    check (contains approved pay_to) ConfigError.pay_to_not_approved
    check (not (contains approved partner)) ConfigError.partner_approved
    usdc ← require_address (codes "USDC_ADDRESS")
    autonomous ← require_positive_big_int env (codes "X402_AUTONOMOUS_LIMIT")
    daily ← require_positive_big_int env (codes "X402_DAILY_LIMIT")
    approver ← require_address (codes "LEDGER_APPROVER_ADDRESS")
    loaded (record {
      network = network;
      facilitator_url = facilitator_url;
      usdc_address = usdc;
      pay_to_address = pay_to;
      partner_pay_to_address = partner;
      public_base_url = without_slashes public_base_url;
      approved_pay_to = approved;
      autonomous_limit = autonomous;
      daily_limit = daily;
      ledger_approver_address = approver;
    })
