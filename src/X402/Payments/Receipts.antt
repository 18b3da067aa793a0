-- ===== src/X402/Payments/Receipts.antt =====
-- What `verifyTokenTransfer` establishes of a receipt.
use ethonline.Common.{
  ℕ, ◌+◌, ◌≡◌, refl, Bool-cases, List, [], ◌∷◌, ◌∙◌, sym, ap, true, false, ◌==◌, Option, none, some,
  arith, Option-cases, inl, inr,
}
use ethonline.Common.Int.{ℤ, pos, ◌≤ℤ◌, ◌+ℤ◌, ltb_ℤ}
use ethonline.Common.Text.{Text, text_eq, text_eq_iff}
use ethonline.Common.Results.{some_injective, none_ne_some, ok}
use ethonline.X402.Ethers.{Ethers}
use ethonline.X402.Transfers.{
  Receipt, Log, Transfer, verified, sum_transfers, verify_token_transfer,
}

add_pos : (m n : ℕ) → (pos m +ℤ pos n) ≡ pos (m + n)
unfolding ◌+ℤ◌
add_pos m n = ground arith

module _ (ethers : Ethers) where
  -- What the check of a receipt establishes, in terms of its own sum.
  pub record IsChecked (r : Receipt) (token recipient : Text) (minimum : ℤ) : Type 0 where
    pub checked_token : Text
    pub checked_recipient : Text
    pub amount : ℤ
    pub mined : r.status ≡ 1
    pub of_token : ethers.get_address token ≡ some checked_token
    pub to_recipient : ethers.get_address recipient ≡ some checked_recipient
    pub summed : sum_transfers ethers checked_token checked_recipient (pos 0) r.logs ≡ some amount
    pub enough : minimum ≤ℤ amount

  -- Some of the logs are transfers of the token to the recipient, and these move `amount`.
  pub data Pays (token recipient : Text) : List Log → ℕ → Type 0 where
    nothing : Pays token recipient [] 0
    skips :
        {logs : List Log} {n : ℕ} (log : Log)
        → Pays token recipient logs n
        → Pays token recipient (log ∷ logs) n
    counts :
        {logs : List Log} {n : ℕ} (log : Log) (t : Transfer)
        → ethers.get_address log.address ≡ some token
        → log.transfer ≡ some t
        → ethers.get_address t.to ≡ some recipient
        → Pays token recipient logs n
        → Pays token recipient (log ∷ logs) (n + t.value)

  -- The receipt of a successful transaction shows that at least `minimum` of the token went to the
  -- recipient.
  pub record IsTransfer (r : Receipt) (token recipient : Text) (minimum : ℤ) : Type 0 where
    pub checked_token : Text
    pub checked_recipient : Text
    pub amount : ℕ
    pub mined : r.status ≡ 1
    pub of_token : ethers.get_address token ≡ some checked_token
    pub to_recipient : ethers.get_address recipient ≡ some checked_recipient
    pub paid : Pays checked_token checked_recipient r.logs amount
    pub enough : minimum ≤ℤ pos amount

  sum_transfers-Pays :
      (token recipient : Text) (logs : List Log) (sum : ℕ) (total : ℤ)
      → sum_transfers ethers token recipient (pos sum) logs ≡ some total
      → (n : ℕ) × Pays token recipient logs n × (total ≡ pos (sum + n))
  unfolding sum_transfers
  sum_transfers-Pays token recipient [] sum total e =
      (0, nothing, sym (some_injective _ total e) ∙ ap pos (omega arith))
  sum_transfers-Pays token recipient (log ∷ logs) sum total e =
      let skipped : sum_transfers ethers token recipient (pos sum) logs ≡ some total
          → (n : ℕ) × Pays token recipient (log ∷ logs) n × (total ≡ pos (sum + n)) =
        λ rest.
          let (n, pays, is) = sum_transfers-Pays token recipient logs sum total rest in
          (n, skips log pays, is) in
      elim (Option-cases (ethers.get_address log.address)) [
        | inl bad ↦ absurd (none_ne_some total (rw (sum_transfers, bad) at e))
        | inr (address, h1) ↦ elim (Bool-cases (text_eq address token)) [
          | inr foreign ↦ skipped (rw (sum_transfers, h1, foreign) at e)
          | inl same ↦ elim (Option-cases log.transfer) [
            | inl none_there ↦ skipped (rw (sum_transfers, h1, same, none_there) at e)
            | inr (t, h2) ↦ elim (Option-cases (ethers.get_address t.to)) [
              | inl bad ↦ absurd (none_ne_some total (rw (sum_transfers, h1, same, h2, bad) at e))
              | inr (to, h3) ↦ elim (Bool-cases (text_eq to recipient)) [
                | inr elsewhere ↦ skipped (rw (sum_transfers, h1, same, h2, h3, elsewhere) at e)
                | inl here ↦
                    let rest : sum_transfers ethers token recipient (pos sum +ℤ pos t.value) logs
                        ≡ some total =
                      rw (sum_transfers, h1, same, h2, h3, here) at e in
                    let (n, pays, is) =
                      sum_transfers-Pays token recipient logs (sum + t.value) total (
                        ap (λ z. sum_transfers ethers token recipient z logs)
                          (sym (add_pos sum t.value))
                        ∙ rest) in
                    (
                      n + t.value,
                      counts log t (h1 ∙ ap some ((text_eq_iff address token).0 same)) h2
                          (h3 ∙ ap some ((text_eq_iff to recipient).0 here)) pays,
                      is ∙ ap pos (omega arith),
                    )
              ]
            ]
          ]
        ]
      ]

  pub IsChecked-IsTransfer :
      (r : Receipt) (token recipient : Text) (minimum : ℤ)
      → IsChecked r token recipient minimum
      → IsTransfer r token recipient minimum
  IsChecked-IsTransfer r token recipient minimum t =
      let (n, pays, is) =
        sum_transfers-Pays t.checked_token t.checked_recipient r.logs 0 t.amount t.summed in
      record {
        checked_token = t.checked_token;
        checked_recipient = t.checked_recipient;
        amount = n;
        mined = t.mined;
        of_token = t.of_token;
        to_recipient = t.to_recipient;
        paid = pays;
        enough =
            let enough = t.enough in
            let same : t.amount ≡ pos n = is ∙ ap pos (omega arith) in rw same at enough;
      }

  pub verify_token_transfer-verified :
      (receipt : Option Receipt) (token recipient : Text) (minimum v : ℤ)
      → verify_token_transfer ethers receipt token recipient minimum ≡ ok (verified v)
      → (r : Receipt) × (receipt ≡ some r) × IsChecked r token recipient minimum
  unfolding verify_token_transfer
  verify_token_transfer-verified none token recipient minimum v e = absurd cc
  verify_token_transfer-verified (some r) token recipient minimum v e =
      elim (Option-cases (ethers.get_address token)) [
        | inl bad ↦ absurd (ground arith)
        | inr (t, of_token) ↦ elim (Option-cases (ethers.get_address recipient)) [
          | inl bad ↦ absurd (ground arith)
          | inr (p, to_recipient) ↦ elim (Option-cases (sum_transfers ethers t p (pos 0) r.logs)) [
            | inl bad ↦ absurd (ground arith)
            | inr (sum, summed) ↦
                let mined : r.status == 1 ≡ true = ground arith in
                (
                  r,
                  refl,
                  record {
                    checked_token = t;
                    checked_recipient = p;
                    amount = sum;
                    mined = ground arith;
                    of_token = of_token;
                    to_recipient = to_recipient;
                    summed = summed;
                    enough = ground arith;
                  },
                )
          ]
        ]
      ]

  pub IsChecked-verified :
      (r : Receipt) (token recipient : Text) (minimum : ℤ)
      → (t : IsChecked r token recipient minimum)
      → verify_token_transfer ethers (some r) token recipient minimum ≡ ok (verified t.amount)
  unfolding verify_token_transfer
  IsChecked-verified r token recipient minimum t =
      let mined : r.status == 1 ≡ true = rw t.mined refl in
      let enough : ltb_ℤ t.amount minimum ≡ false = ground (arith, t.enough) in
      rw (verify_token_transfer, mined, t.of_token, t.to_recipient, t.summed, enough) refl
