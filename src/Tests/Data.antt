-- ===== src/Tests/Data.antt =====
-- The inputs of the runs: a mandate, an agent, a vendor, and the states at the start.
use ethonline.Common.{◌*◌, ◌/◌, refl, some, [], ◌∷◌}
use ethonline.Common.Int.{ℤ, pos, negsuc}
use ethonline.Common.Text.{Text, codes, text_eq}
use ethonline.Domain.{TreasuryMandate, ProposeActionDto}
use ethonline.ActionStore.{Store}
use ethonline.Policy.{Policy}
use ethonline.Reservations.{Reservations}
use ethonline.Guardian.Decide.{FloatPoints}
use ethonline.Actions.{Treasury, Chain}

abbrev pub usdc : Text
usdc = codes "0xusdc"

abbrev pub vendor : Text
vendor = codes "0xvendor"

abbrev pub agent : Text
agent = codes "0xagent"

abbrev pub human : Text
human = codes "0xhuman"

abbrev pub mandate : TreasuryMandate
mandate = record {
  chain_id = 84532;
  safe_address = codes "0xSafe";
  guard_address = codes "0xGuard";
  autonomous_agent = agent;
  human_signer = human;
  max_autonomous_amount = pos 100;
  daily_autonomous_limit = pos 500;
  approved_recipients = vendor ∷ [];
  approved_tokens = usdc ∷ [];
}

abbrev pub policy : Policy
policy = record { mandate = mandate; daily_spent = []; mandate_rows = []; spent_rows = [] }

abbrev pub reservations : Reservations
reservations = record { policy = policy; active = [] }

abbrev pub store : Store
store = record { actions = []; current_nonce = 1; rows = [] }

abbrev pub treasury : Treasury
treasury = record { store = store; reservations = reservations; events = [] }

abbrev pub purchase : Text → ProposeActionDto
purchase amount = record {
  target = usdc;
  value = codes "0";
  call_data = codes "0x";
  token = usdc;
  recipient = vendor;
  amount = amount;
  agent_address = agent;
  justification = codes "weekly data feed";
}

abbrev points : ℤ → ℤ
points (pos q) = pos (q * 25 / 10000)
points (negsuc q) = pos 0

abbrev pub floats : FloatPoints
floats = record { points = points; points_exact = λ q h. refl }

-- A signature is the word "signed"; every text is a checksummed address.
abbrev pub chain : Chain
chain = record {
  get_address = some;
  mandate_hash = λ m. m.guard_address;
  verify_signature = λ params signature signer. text_eq signature (codes "signed");
  guard_human_signer = some human;
}
