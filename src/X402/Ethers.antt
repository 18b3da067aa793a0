-- ===== src/X402/Ethers.antt =====
-- What the x402 services call of the `ethers` package, and how they compare addresses with it.
use ethonline.Common.{Bool, false, Option, none, some}
use ethonline.Common.Text.{Text, text_eq, to_lower}

-- `getAddress` gives the checksummed form, `verifyMessage` the address of the signer of a message;
-- `none` stands for an exception.
pub record Ethers : Type 0 where
  pub get_address : Text → Option Text
  pub verify_message : Text → Text → Option Text

module _ (ethers : Ethers) where
  -- `isSameAddress` of x402-payments.service.ts, on two strings
  unfoldable pub is_same_address : Text → Text → Bool
  is_same_address a b = elim (ethers.get_address a) [
    | none ↦ false
    | some x ↦ elim (ethers.get_address b) [ none ↦ false | some y ↦ text_eq x y ]
  ]

  -- `isSameAddress` of x402-purchase-requests.service.ts
  unfoldable pub is_same_address_or_text : Text → Text → Bool
  is_same_address_or_text a b = elim (ethers.get_address a) [
    | none ↦ text_eq (to_lower a) (to_lower b)
    | some x ↦ elim (ethers.get_address b) [
      | none ↦ text_eq (to_lower a) (to_lower b)
      | some y ↦ text_eq x y
    ]
  ]
