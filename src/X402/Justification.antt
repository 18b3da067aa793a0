-- ===== src/X402/Justification.antt =====
-- How x402-payments.service.ts writes the resource into the justification and reads it back.
use ethonline.Common.{
  ℕ, ◌≡◌, refl, ◌||◌, Bool, true, false, Option, none, some, [], ◌∷◌, ◌++◌, ◌==◌, if◌then◌else◌,
  All, arith, Bool-cases, inl, inr,
}
use ethonline.Common.Text.{Text, codes, starts_with, drop_prefix, drop_prefix-append, is_space}

abbrev pub full_justification : Text → Text → Text
full_justification url justification = codes "x402: " ++ (url ++ (codes " | " ++ justification))

-- The group of `/^x402: (.*?) \| /`, where the dot matches no line terminator.
abbrev pub is_line_terminator : ℕ → Bool
is_line_terminator c = c == 10 || c == 13 || c == 8232 || c == 8233

unfoldable pub before_bar : Text → Option Text
before_bar [] = none
before_bar (c ∷ s) =
    let rest = before_bar s in
    if starts_with (c ∷ s) (codes " | ")
    then some []
    else if is_line_terminator c
    then none
    else elim rest [ none ↦ none | some t ↦ some (c ∷ t) ]

-- `extractResourceUrl`, of the justification
unfoldable pub extract_resource_url : Text → Text
extract_resource_url justification = elim (drop_prefix (codes "x402: ") justification) [
  | none ↦ justification
  | some rest ↦ elim (before_bar rest) [ none ↦ justification | some url ↦ url ]
]

-- A visible character is no particular white space.
not_code : (c k : ℕ) → is_space k ≡ true → is_space c ≡ false → (c == k) ≡ false
not_code c k space visible = elim (Bool-cases (c == k)) [
  | inr other ↦ other
  | inl equal ↦ let same : c ≡ k = ground arith in absurd cc
]

visible-terminator : (c : ℕ) → is_space c ≡ false → is_line_terminator c ≡ false
visible-terminator c h =
    rw
      (
        not_code c 10 (unfold is_space in refl) h,
        not_code c 13 (unfold is_space in refl) h,
        not_code c 8232 (unfold is_space in refl) h,
        not_code c 8233 (unfold is_space in refl) h,
      )
      refl

visible-bar : (c : ℕ) (s : Text) → is_space c ≡ false → starts_with (c ∷ s) (codes " | ") ≡ false
unfolding starts_with
visible-bar c s h = rw (starts_with, not_code c 32 (unfold is_space in refl) h) refl

before_bar-cons :
    (c : ℕ) (s t : Text)
    → is_space c ≡ false
    → before_bar s ≡ some t
    → before_bar (c ∷ s) ≡ some (c ∷ t)
unfolding before_bar
before_bar-cons c s t h e = rw (before_bar, visible-bar c s h, visible-terminator c h, e) refl

-- The url comes back when it has no white space.
before_bar-url :
    (url s : Text)
    → All (λ c. is_space c ≡ false) url
    → before_bar (url ++ (codes " | " ++ s)) ≡ some url
before_bar-url [] s h = unfold before_bar starts_with in refl
before_bar-url (c ∷ url) s (p, h) =
    before_bar-cons c (url ++ (codes " | " ++ s)) url p (before_bar-url url s h)

-- The resource that an escalation shows the human is the one that the agent asked to pay for, if
-- its url has no white space.
pub extract_resource_url-full_justification :
    (url justification : Text)
    → All (λ c. is_space c ≡ false) url
    → extract_resource_url (full_justification url justification) ≡ url
unfolding extract_resource_url
extract_resource_url-full_justification url justification h =
    rw
      (
        extract_resource_url,
        drop_prefix-append (codes "x402: ") (url ++ (codes " | " ++ justification)),
        before_bar-url url justification h,
      )
      refl
