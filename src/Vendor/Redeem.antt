-- ===== src/Vendor/Redeem.antt =====
-- A payment pays once.
use ethonline.Common.{
  ℕ, ◌≡◌, refl, sym, ap, ◌∙◌, ◌≢◌, true, false, not, ◌||◌, ◌==◌, some, arith, Bool-cases,
  Option-cases, inl, inr,
}
use ethonline.Common.Int.{ℤ}
use ethonline.Common.Text.{Text, to_lower}
use ethonline.Common.Dict.{Dict, lookup, has, lookup-insert_self, lookup-insert_ne}
use ethonline.Common.BigInt.{parse_big_int}
use ethonline.Common.Results.{ok_injective, err_ne_ok, HttpError, Result, ok, err}
use ethonline.X402.Transfers.{Verification, verified, unverified}
use ethonline.Vendor.{Requirements, PaymentReceipt, is_tx_hash, begin_redemption, finish_redemption}

-- The table of receipts after redemptions, in any order, of any transaction for any resource.
pub data Later (d : Dict PaymentReceipt) : Dict PaymentReceipt → Type 0 where
  here : Later d d
  redeemed :
      {e : Dict PaymentReceipt} (hash : Text) (answer : Result Verification) (resource : Text)
      (now : ℕ)
      → Later d e
      → Later d (finish_redemption hash answer resource now e).1

begin_redemption-key :
    (chain_id : ℕ) (hash : Text) (req : Requirements) (d : Dict PaymentReceipt) (key : Text)
    (least : ℤ)
    → begin_redemption chain_id hash req d ≡ ok (key, least)
    → key ≡ to_lower hash
unfolding begin_redemption
begin_redemption-key chain_id hash req d key least passed =
    elim (Bool-cases (not (is_tx_hash hash) || not (req.chain_id == chain_id))) [
      | inl bad ↦ absurd (ground arith)
      | inr fine ↦ elim (Bool-cases (has (to_lower hash) d)) [
        | inl used ↦ absurd (ground arith)
        | inr fresh ↦ elim (Option-cases (parse_big_int req.amount)) [
          | inl bad ↦ absurd (ground arith)
          | inr (m, good) ↦
              let same : (to_lower hash, m) ≡ (key, least) =
                ok_injective _ _ (rw (begin_redemption, fine, fresh, good) at passed) in
              ap (λ x. x.0) (sym same)
        ]
      ]
    ]

true_ne_false : ¬ (true ≡ false)
true_ne_false h = cc

has-some :
    (k : Text) (r : PaymentReceipt) (d : Dict PaymentReceipt) → lookup k d ≡ some r → has k d ≡ true
has-some k r d there = rw (has, there) refl

-- A redemption that succeeds: the answer, that the key was free, and the receipt that it leaves.
finish_redemption-ok :
    (hash : Text) (answer : Result Verification) (resource : Text) (now : ℕ)
    (d : Dict PaymentReceipt) (x : Text)
    → (finish_redemption hash answer resource now d).0 ≡ ok x
    → (has hash d ≡ false)
      × ((r : PaymentReceipt) × (lookup hash (finish_redemption hash answer resource now d).1
            ≡ some r))
unfolding finish_redemption
finish_redemption-ok hash (err e) resource now d x done = absurd (err_ne_ok e x done)
finish_redemption-ok hash (ok unverified) resource now d x done =
    absurd (err_ne_ok HttpError.bad_request x done)
finish_redemption-ok hash (ok (verified amount)) resource now d x done =
    elim (Bool-cases (has hash d)) [
      | inl used ↦ absurd (err_ne_ok HttpError.bad_request x (rw used at done))
      | inr fresh ↦ (fresh, rw fresh (_, lookup-insert_self hash _ d))
    ]

finish_redemption-keeps :
    (hash : Text) (answer : Result Verification) (resource : Text) (now : ℕ)
    (d : Dict PaymentReceipt) (k : Text) (r : PaymentReceipt)
    → lookup k d ≡ some r
    → lookup k (finish_redemption hash answer resource now d).1 ≡ some r
unfolding finish_redemption
finish_redemption-keeps hash (err e) resource now d k r there = there
finish_redemption-keeps hash (ok unverified) resource now d k r there = there
finish_redemption-keeps hash (ok (verified amount)) resource now d k r there =
    elim (Bool-cases (has hash d)) [
      | inl used ↦ rw used there
      | inr fresh ↦
          let other : k ≢ hash = λ same.
            true_ne_false
              (sym (has-some hash r d (ap (λ j. lookup j d) (sym same) ∙ there)) ∙ fresh) in
          rw fresh (lookup-insert_ne hash k _ d other ∙ there)
    ]

Later-keeps :
    (d e : Dict PaymentReceipt) (k : Text) (r : PaymentReceipt)
    → Later d e
    → lookup k d ≡ some r
    → lookup k e ≡ some r
Later-keeps d e k r here there = there
Later-keeps d _ k r (redeemed {e} hash answer resource now before) there =
    finish_redemption-keeps hash answer resource now e k r (Later-keeps d e k r before there)

-- A transaction is redeemed once, ever and across all resources: of two redemptions that succeed,
-- begun at any time and with any others in between, the hashes differ in more than their case.
pub redeem-once :
    (chain_id t u : ℕ) (hash hash' key key' resource resource' x y : Text) (req req' : Requirements)
    (least least' : ℤ) (answer answer' : Result Verification) (a b d e : Dict PaymentReceipt)
    → begin_redemption chain_id hash req a ≡ ok (key, least)
    → begin_redemption chain_id hash' req' b ≡ ok (key', least')
    → (finish_redemption key answer resource t d).0 ≡ ok x
    → Later (finish_redemption key answer resource t d).1 e
    → (finish_redemption key' answer' resource' u e).0 ≡ ok y
    → to_lower hash ≢ to_lower hash'
redeem-once chain_id t u hash hash' key key' resource resource' x y req req' least least' answer
      answer' a b d e began began' first between second same =
    let (_, (r, there)) = finish_redemption-ok key answer resource t d x first in
    let kept = Later-keeps _ e key r between there in
    let (free, _) = finish_redemption-ok key' answer' resource' u e y second in
    let one : key ≡ key' =
      begin_redemption-key chain_id hash req a key least began
      ∙ same
      ∙ sym (begin_redemption-key chain_id hash' req' b key' least' began') in
    let used : has key' e ≡ true = has-some key' r e (ap (λ k. lookup k e) (sym one) ∙ kept) in cc
