-- ===== src/Agents/Lookup.antt =====
-- What a look-up of an agent by its address finds.
use ethonline.Common.{
  ◌≡◌, refl, ◌∙◌, sym, ap, Bool, true, false, some, List, [], ◌∷◌, arith, Bool-cases, Option-cases,
  inl, inr, keep, find,
}
use mathlib.Core.List.{Memᴰ}
use mathlib.Core.Path.{subst}
use ethonline.Common.Text.{Text, text_eq, to_lower}
use ethonline.Common.Dict.{Dict, values}
use ethonline.Common.Results.{none_ne_some, ok_injective, some_injective, ok}
use ethonline.X402.Ethers.{Ethers}
use ethonline.Agents.{Agent, is_active, agents_at, first_of, get_agent_by_address}

keep_skips {ℓ} :
    {A : Type ℓ} (q : A → Bool) (x : A) (xs : List A) → q x ≡ false → keep q (x ∷ xs) ≡ keep q xs
keep_skips q x xs left = rw (keep, left) refl

keep_takes {ℓ} :
    {A : Type ℓ} (q : A → Bool) (x : A) (xs : List A) → q x ≡ true → keep q (x ∷ xs) ≡ x ∷ keep q xs
keep_takes q x xs kept = rw (keep, kept) refl

find-keep {ℓ} :
    {A : Type ℓ} (p q : A → Bool) (xs : List A) (a : A) → find p (keep q xs) ≡ some a → q a ≡ true
find-keep p q [] a e = absurd (none_ne_some a e)
find-keep p q (x ∷ xs) a e = elim (Bool-cases (q x)) [
  | inr left ↦ find-keep p q xs a (sym (ap (find p) (keep_skips q x xs left)) ∙ e)
  | inl kept ↦
      let seen = sym (ap (find p) (keep_takes q x xs kept)) ∙ e in
      elim (Bool-cases (p x)) [
        | inl here ↦ rw (← (some_injective x a (rw (find, here) at seen))) kept
        | inr later ↦ find-keep p q xs a (rw (find, later) at seen)
      ]
]

first_of-keep :
    (q : Agent → Bool) (xs : List Agent) (a : Agent) → first_of (keep q xs) ≡ some a → q a ≡ true
first_of-keep q [] a e = absurd (none_ne_some a e)
first_of-keep q (x ∷ xs) a e = elim (Bool-cases (q x)) [
  | inr left ↦ first_of-keep q xs a (sym (ap first_of (keep_skips q x xs left)) ∙ e)
  | inl kept ↦
      let same = some_injective x a (sym (ap first_of (keep_takes q x xs kept)) ∙ e) in
      rw (← same) kept
]

find-Memᴰ {ℓ} : {A : Type ℓ} (p : A → Bool) (xs : List A) (a : A) → find p xs ≡ some a → Memᴰ a xs
find-Memᴰ p [] a e = absurd (none_ne_some a e)
find-Memᴰ p (x ∷ xs) a e = elim (Bool-cases (p x)) [
  | inl here ↦ Memᴰ.head (sym (some_injective x a (rw (find, here) at e)))
  | inr later ↦ Memᴰ.tail (find-Memᴰ p xs a (rw (find, later) at e))
]

keep-Memᴰ {ℓ} : {A : Type ℓ} (q : A → Bool) (xs : List A) (a : A) → Memᴰ a (keep q xs) → Memᴰ a xs
keep-Memᴰ q [] a m = m
keep-Memᴰ q (x ∷ xs) a m = elim (Bool-cases (q x)) [
  | inr left ↦ Memᴰ.tail (keep-Memᴰ q xs a (subst (Memᴰ a) (keep_skips q x xs left) m))
  | inl kept ↦ elim (subst (Memᴰ a) (keep_takes q x xs kept) m) [
    | Memᴰ.head same ↦ Memᴰ.head same
    | Memᴰ.tail later ↦ Memᴰ.tail (keep-Memᴰ q xs a later)
  ]
]

first_of-Memᴰ : (xs : List Agent) (a : Agent) → first_of xs ≡ some a → Memᴰ a xs
first_of-Memᴰ [] a e = absurd (none_ne_some a e)
first_of-Memᴰ (x ∷ xs) a e = Memᴰ.head (sym (some_injective x a e))

module _ (ethers : Ethers) where
  -- The agent found is registered under the checksummed form of the address, up to case.
  abbrev pub IsAt : Text → Agent → Type 0
  IsAt address a =
      (normalized : Text) × (ethers.get_address address ≡ some normalized)
      × (text_eq (to_lower a.agent_address) (to_lower normalized) ≡ true)

  pub get_agent_by_address-IsAt :
      (address : Text) (agents : Dict Agent) (a : Agent)
      → get_agent_by_address ethers address agents ≡ ok (some a)
      → IsAt address a
  unfolding get_agent_by_address agents_at
  get_agent_by_address-IsAt address agents a found =
      elim (Option-cases (ethers.get_address address)) [
        | inl bad ↦ absurd (ground arith)
        | inr (normalized, named) ↦
            elim (Option-cases (find is_active (agents_at normalized agents))) [
              | inr (b, active) ↦
                  let same : some b ≡ some a =
                    ok_injective _ _ (rw (get_agent_by_address, named, active) at found) in
                  (normalized, named, find-keep is_active _ (values agents) a (active ∙ same))
              | inl inactive ↦
                  let same : first_of (agents_at normalized agents) ≡ some a =
                    ok_injective _ _ (rw (get_agent_by_address, named, inactive) at found) in
                  (normalized, named, first_of-keep _ (values agents) a same)
            ]
      ]

  -- The agent found is one of the table.
  pub get_agent_by_address-Memᴰ :
      (address : Text) (agents : Dict Agent) (a : Agent)
      → get_agent_by_address ethers address agents ≡ ok (some a)
      → Memᴰ a (values agents)
  unfolding get_agent_by_address agents_at
  get_agent_by_address-Memᴰ address agents a found =
      elim (Option-cases (ethers.get_address address)) [
        | inl bad ↦ absurd (ground arith)
        | inr (normalized, named) ↦
            elim (Option-cases (find is_active (agents_at normalized agents))) [
              | inr (b, active) ↦
                  let same : some b ≡ some a =
                    ok_injective _ _ (rw (get_agent_by_address, named, active) at found) in
                  keep-Memᴰ _ (values agents) a
                    (find-Memᴰ is_active (agents_at normalized agents) a (active ∙ same))
              | inl inactive ↦
                  let same : first_of (agents_at normalized agents) ≡ some a =
                    ok_injective _ _ (rw (get_agent_by_address, named, inactive) at found) in
                  keep-Memᴰ _ (values agents) a (first_of-Memᴰ (agents_at normalized agents) a same)
            ]
      ]
