-- ===== src/X402/Transfers.antt =====
-- `verifyTokenTransfer` of backend/src/blockchain/on-chain-executor.service.ts.
use ethonline.Common.{ℕ, true, false, Option, none, some, List, [], ◌∷◌, ◌==◌, if◌then◌else◌}
use ethonline.Common.Int.{ℤ, pos, ◌+ℤ◌, ltb_ℤ}
use ethonline.Common.Text.{Text, text_eq}
use ethonline.Common.Results.{HttpError, Result, ok, err}
use ethonline.X402.Ethers.{Ethers}

-- What `parseLog` reads of a log of the ERC-20 event `Transfer`.
pub record Transfer : Type 0 where
  pub to : Text
  pub value : ℕ

-- A log of a receipt: the contract, and the transfer if it parses as one.
pub record Log : Type 0 where
  pub address : Text
  pub transfer : Option Transfer

-- `TransactionReceipt`
pub record Receipt : Type 0 where
  pub status : ℕ
  pub logs : List Log

-- Whether the receipt proves the transfer, with the amount; an error message is left out.
pub data Verification : Type 0 where
  verified : ℤ → Verification
  unverified : Verification

module _ (ethers : Ethers) where
  -- The loop over the logs; `none` when `getAddress` throws.
  unfoldable pub sum_transfers : Text → Text → ℤ → List Log → Option ℤ
  sum_transfers token recipient sum [] = some sum
  sum_transfers token recipient sum (log ∷ logs) = elim (ethers.get_address log.address) [
    | none ↦ none
    | some address ↦
        let skipped = sum_transfers token recipient sum logs in
        elim (text_eq address token) [
          | false ↦ skipped
          | true ↦ elim log.transfer [
            | none ↦ skipped
            | some t ↦ elim (ethers.get_address t.to) [
              | none ↦ none
              | some to ↦ elim (text_eq to recipient) [
                | false ↦ skipped
                | true ↦ sum_transfers token recipient (sum +ℤ pos t.value) logs
              ]
            ]
          ]
        ]
  ]

  -- The receipt is `none` when the provider has none or fails.
  unfoldable pub verify_token_transfer : Option Receipt → Text → Text → ℤ → Result Verification
  verify_token_transfer none token recipient minimum = ok unverified
  verify_token_transfer (some receipt) token recipient minimum =
      if receipt.status == 1
      then elim (ethers.get_address token) [
        | none ↦ err HttpError.internal
        | some expected_token ↦ elim (ethers.get_address recipient) [
          | none ↦ err HttpError.internal
          | some expected_recipient ↦
              elim (sum_transfers expected_token expected_recipient (pos 0) receipt.logs) [
                | none ↦ err HttpError.internal
                | some transferred ↦
                    if ltb_ℤ transferred minimum then ok unverified else ok (verified transferred)
              ]
        ]
      ]
      else ok unverified
