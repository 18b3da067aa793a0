-- ===== src/Common/Keyed.antt =====
-- Tables whose rows stand under a key of their own, once.
use ethonline.Common.{◌≡◌, refl, none, some, [], ◌∷◌, arith, All, All-map}
use ethonline.Common.Text.{Text, text_eq_iff, text_eq_refl}
use ethonline.Common.Dict.{Dict, lookup, insert, values, lookup-insert}

module _ {V : Type 0} (key : V → Text) where
  abbrev pub IsKeyed : Dict V → Type 0
  IsKeyed [] = Unit
  IsKeyed ((k, r) ∷ d) = (key r ≡ k) × (lookup k d ≡ none) × IsKeyed d

  pub insert-IsKeyed :
      (k : Text) (r : V) (d : Dict V) → key r ≡ k → IsKeyed d → IsKeyed (insert k r d)
  unfolding insert
  insert-IsKeyed k r [] e h = (e, unfold lookup in refl, tt)
  insert-IsKeyed k r ((j, q) ∷ d) e h = ground (
    arith,
    text_eq_iff k j,
    text_eq_iff j k,
    insert-IsKeyed k r d e h.2,
    lookup-insert {V = V} k j r d,
  )

  pub IsKeyed-lookup : (k : Text) (r : V) (d : Dict V) → IsKeyed d → lookup k d ≡ some r → key r ≡ k
  unfolding lookup
  IsKeyed-lookup k r [] h e = absurd (cc)
  IsKeyed-lookup k r ((j, q) ∷ d) h e = ground (arith, text_eq_iff k j, IsKeyed-lookup k r d h.2)

  pub values-lookup : (d : Dict V) → IsKeyed d → All (λ q. lookup (key q) d ≡ some q) (values d)
  unfolding values
  values-lookup [] h = tt
  values-lookup ((j, r) ∷ d) h = (
    unfold lookup in rw (h.0, text_eq_refl j) refl,
    All-map (λ q. lookup (key q) d ≡ some q) (λ q. lookup (key q) ((j, r) ∷ d) ≡ some q) (values d)
        (λ q e. unfold lookup in ground (arith, text_eq_iff (key q) j, h.1)) (values-lookup d h.2),
  )
