-- ===== src/X402/Spending/Total.antt =====
-- How the total of the day moves when the store writes an action.
use ethonline.Common.{
  ℕ, ◌≡◌, refl, ◌∙◌, sym, true, false, Option, none, some, List, [], ◌∷◌, keep, arith, Bool-cases,
  Option-cases, inl, inr,
}
use ethonline.Common.Int.{ℤ, ◌+ℤ◌, int_laws}
use ethonline.Common.Text.{Text, text_eq}
use ethonline.Common.Dict.{Dict, lookup, insert, values}
use ethonline.Common.BigInt.{parse_big_int}
use ethonline.Domain.{TreasuryAction}
use ethonline.X402.Spending.{is_counted, sum_amounts}

swap_sum : (z m n : ℤ) → z +ℤ n +ℤ m ≡ z +ℤ m +ℤ n
swap_sum z m n = omega int_laws

sum_amounts-cons :
    (z n : ℤ) (a : TreasuryAction) (rest : List TreasuryAction)
    → parse_big_int a.amount ≡ some n
    → sum_amounts z (a ∷ rest) ≡ sum_amounts (z +ℤ n) rest
unfolding sum_amounts
sum_amounts-cons z n a rest e = ground arith

sum_amounts-bad :
    (z : ℤ) (a : TreasuryAction) (rest : List TreasuryAction)
    → parse_big_int a.amount ≡ none
    → sum_amounts z (a ∷ rest) ≡ none
unfolding sum_amounts
sum_amounts-bad z a rest e = ground arith

sum_amounts-shift :
    (z w n : ℤ) (rest : List TreasuryAction)
    → sum_amounts z rest ≡ some w
    → sum_amounts (z +ℤ n) rest ≡ some (w +ℤ n)
sum_amounts-shift z w n [] e = unfold sum_amounts in ground arith
sum_amounts-shift z w n (a ∷ rest) e = elim (Option-cases (parse_big_int a.amount)) [
  | inl bad ↦ absurd (ground (arith, sum_amounts-bad z a rest bad))
  | inr (m, good) ↦
      let below =
        sum_amounts-shift (z +ℤ m) w n rest (sym (sum_amounts-cons z m a rest good) ∙ e) in
      sum_amounts-cons (z +ℤ n) m a rest good ∙ rw (swap_sum z m n) below
]

module _ (agent : Text) (start : ℕ) where
  abbrev pub sum_counted : ℤ → Dict TreasuryAction → Option ℤ
  sum_counted z d = sum_amounts z (keep (is_counted agent start) (values d))

  sum_counted-out :
      (k : Text) (c : TreasuryAction) (d : Dict TreasuryAction) (z : ℤ)
      → is_counted agent start c ≡ false
      → sum_counted z ((k, c) ∷ d) ≡ sum_counted z d
  unfolding values
  sum_counted-out k c d z out = ground arith

  sum_counted-in :
      (k : Text) (c : TreasuryAction) (d : Dict TreasuryAction) (z : ℤ)
      → is_counted agent start c ≡ true
      → sum_counted z ((k, c) ∷ d)
        ≡ elim (parse_big_int c.amount) [ none ↦ none | some n ↦ sum_counted (z +ℤ n) d ]
  unfolding values sum_amounts
  sum_counted-in k c d z in_ = ground arith

  insert-here :
      (id k : Text) (a c : TreasuryAction) (d : Dict TreasuryAction)
      → text_eq id k ≡ true
      → insert id a ((k, c) ∷ d) ≡ (k, a) ∷ d
  unfolding insert
  insert-here id k a c d e = rw e refl

  insert-there :
      (id k : Text) (a c : TreasuryAction) (d : Dict TreasuryAction)
      → text_eq id k ≡ false
      → insert id a ((k, c) ∷ d) ≡ (k, c) ∷ insert id a d
  unfolding insert
  insert-there id k a c d e = rw e refl

  -- Writing an action that does not count where none counted leaves the sum.
  pub sum_counted-insert_uncounted :
      (id : Text) (a : TreasuryAction) (d : Dict TreasuryAction) (z : ℤ)
      → is_counted agent start a ≡ false
      → ((b : TreasuryAction) → lookup id d ≡ some b → is_counted agent start b ≡ false)
      → sum_counted z (insert id a d) ≡ sum_counted z d
  unfolding lookup
  sum_counted-insert_uncounted id a [] z new old = unfold insert in sum_counted-out id a [] z new
  sum_counted-insert_uncounted id a ((k, c) ∷ d) z new old = elim (Bool-cases (text_eq id k)) [
    | inl here ↦
        let gone : is_counted agent start c ≡ false = old c (rw here refl) in
        rw (insert-here id k a c d here)
          (sum_counted-out k a d z new ∙ sym (sum_counted-out k c d z gone))
    | inr there ↦
        let rest : (y : ℤ) → sum_counted y (insert id a d) ≡ sum_counted y d =
          λ y. sum_counted-insert_uncounted id a d y new (λ b e. old b (rw there e)) in
        rw (insert-there id k a c d there) (elim (Bool-cases (is_counted agent start c)) [
          | inr out ↦
              sum_counted-out k c (insert id a d) z out ∙ rest z ∙ sym (sum_counted-out k c d z out)
          | inl in_ ↦
              rw (sum_counted-in k c (insert id a d) z in_, sum_counted-in k c d z in_)
                (elim (Option-cases (parse_big_int c.amount)) [
                  | inl bad ↦ rw bad refl
                  | inr (n, good) ↦ rw good (rest (z +ℤ n))
                ])
        ])
  ]

  -- An action that begins to count adds its amount.
  pub sum_counted-insert_counted :
      (id : Text) (a b : TreasuryAction) (d : Dict TreasuryAction) (z w n : ℤ)
      → is_counted agent start a ≡ true
      → parse_big_int a.amount ≡ some n
      → lookup id d ≡ some b
      → is_counted agent start b ≡ false
      → sum_counted z d ≡ some w
      → sum_counted z (insert id a d) ≡ some (w +ℤ n)
  unfolding lookup
  sum_counted-insert_counted id a b [] z w n new amount old uncounted e = absurd (cc)
  sum_counted-insert_counted id a b ((k, c) ∷ d) z w n new amount old uncounted e =
      elim (Bool-cases (text_eq id k)) [
        | inl here ↦
            let this : c ≡ b = ground arith in
            let out : is_counted agent start c ≡ false = rw this uncounted in
            let rest : sum_counted z d ≡ some w = sym (sum_counted-out k c d z out) ∙ e in
            rw (insert-here id k a c d here) (
              sum_counted-in k a d z new
              ∙ rw amount (sum_amounts-shift z w n (keep (is_counted agent start) (values d)) rest))
        | inr there ↦
            let later : lookup id d ≡ some b = rw there at old in
            rw (insert-there id k a c d there) (elim (Bool-cases (is_counted agent start c)) [
              | inr out ↦
                  sum_counted-out k c (insert id a d) z out
                  ∙ sum_counted-insert_counted id a b d z w n new amount later uncounted
                      (sym (sum_counted-out k c d z out) ∙ e)
              | inl in_ ↦ elim (Option-cases (parse_big_int c.amount)) [
                | inl bad ↦ absurd (ground (arith, sum_counted-in k c d z in_))
                | inr (m, good) ↦
                    sum_counted-in k c (insert id a d) z in_
                    ∙ rw good (
                        sum_counted-insert_counted id a b d (z +ℤ m) w n new amount later uncounted
                          (rw good at (sym (sum_counted-in k c d z in_) ∙ e)))
              ]
            ])
      ]
