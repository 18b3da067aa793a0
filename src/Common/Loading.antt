-- ===== src/Common/Loading.antt =====
-- The exceptions with which a configuration refuses to load, and the environment that it reads.
use ethonline.Common.{◌≡◌, refl, Bool, true, false, Option, none, some}
use ethonline.Common.Text.{Text}

-- What is wrong with a variable, by its name.
pub data ConfigError : Type 0 where
  missing malformed not_positive : Text → ConfigError
  pay_to_not_approved partner_approved : ConfigError
  not_configured incomplete : ConfigError

pub data Loaded {ℓ} (A : Type ℓ) : Type ℓ where
  loaded : A → Loaded A
  refused : ConfigError → Loaded A

infixl 5 ◌>>=◌ ◌>>◌
unfoldable pub ◌>>=◌ {ℓ κ} : {A : Type ℓ} {B : Type κ} → Loaded A → (A → Loaded B) → Loaded B
loaded a >>= f = f a
refused e >>= f = refused e

abbrev pub ◌>>◌ {ℓ} : {B : Type ℓ} → Loaded (Unit {0}) → Loaded B → Loaded B
m >> k = m >>= λ _. k

abbrev pub check : Bool → ConfigError → Loaded (Unit {0})
check true e = loaded tt
check false e = refused e

abbrev pub or_refuse {ℓ} : {A : Type ℓ} → Option A → ConfigError → Loaded A
or_refuse none e = refused e
or_refuse (some a) e = loaded a

-- `process.env`
abbrev pub Env : Type 0
Env = Text → Option Text

pub >>=-loaded {ℓ κ} :
    {A : Type ℓ} {B : Type κ} (m : Loaded A) (f : A → Loaded B) (b : B)
    → (m >>= f) ≡ loaded b
    → (a : A) × (m ≡ loaded a) × (f a ≡ loaded b)
unfolding ◌>>=◌
>>=-loaded (loaded a) f b h = (a, refl, h)
>>=-loaded (refused e) f b h = cc

pub check-loaded : (c : Bool) (e : ConfigError) (u : Unit {0}) → check c e ≡ loaded u → c ≡ true
check-loaded true e u h = refl
check-loaded false e u h = cc

pub or_refuse-loaded {ℓ} :
    {A : Type ℓ} (o : Option A) (e : ConfigError) (a : A) → or_refuse o e ≡ loaded a → o ≡ some a
or_refuse-loaded none e a h = cc
or_refuse-loaded (some b) e a h = cc

pub loaded_injective {ℓ} : {A : Type ℓ} (x y : A) → loaded x ≡ loaded y → x ≡ y
loaded_injective x y e = cc
