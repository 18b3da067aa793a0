-- ===== src/World/Configuration.antt =====
-- backend/src/world/world-id.config.ts: loadWorldIdConfig.
use ethonline.Common.{
  ◌≡◌, refl, sym, ap, Bool-cases, inl, inr, Bool, true, false, not, ◌&&◌, ◌||◌, Option, none, some,
  List, [], ◌∷◌, any, length, ◌==◌, if◌then◌else◌,
}
use native.Mathlib.Omega.{arith}
use ethonline.Common.Text.{Text, codes, text_eq, starts_with, drop_prefix, trim, is_empty, all_hex}
use ethonline.Common.Loading.{
  ConfigError, Loaded, loaded, refused, ◌>>=◌, ◌>>◌, check, Env, >>=-loaded, check-loaded,
  loaded_injective,
}

-- What is there of a World ID application, when it is configured.
pub record Credentials : Type 0 where
  pub app_id : Text
  pub rp_id : Text
  pub signing_key_hex : Text
  pub action : Text
  pub environment : Text

-- `WorldIdConfig`; the credentials are there exactly when isWorldIdConfigured is true.
pub record WorldIdConfig : Type 0 where
  pub is_world_id_required : Bool
  pub credentials : Option Credentials

-- `WORLD_ID_VAR_NAMES`
abbrev pub world_id_var_names : List Text
world_id_var_names =
    codes "WORLD_ID_APP_ID"
    ∷ codes "WORLD_ID_RP_ID"
    ∷ codes "WORLD_ID_SIGNING_KEY"
    ∷ codes "WORLD_ID_ACTION"
    ∷ codes "WORLD_ID_ENVIRONMENT"
    ∷ []

abbrev pub is_set : Env → Text → Bool
is_set env name = elim (env name) [ none ↦ false | some value ↦ true ]

abbrev pub is_missing : Env → Text → Bool
is_missing env name = not (is_set env name)

-- `(process.env[name]?.trim().length ?? 0) > 0`
abbrev pub is_non_empty : Env → Text → Bool
is_non_empty env name = elim (env name) [ none ↦ false | some value ↦ not (is_empty (trim value)) ]

-- `process.env.NAME!.trim()` of a variable that is set
abbrev pub trimmed : Env → Text → Text
trimmed env name = elim (env name) [ none ↦ [] | some value ↦ trim value ]

-- The raw key without its prefix `0x` or `0X`.
unfoldable pub without_hex_prefix : Text → Text
without_hex_prefix key = elim (drop_prefix (codes "0x") key) [
  | some rest ↦ rest
  | none ↦ elim (drop_prefix (codes "0X") key) [ some rest ↦ rest | none ↦ key ]
]

-- `/^[0-9a-fA-F]{64}$/`
abbrev pub is_signing_key : Text → Bool
is_signing_key key = length key == 64 && all_hex key

abbrev pub is_environment : Text → Bool
is_environment e = text_eq e (codes "staging") || text_eq e (codes "production")

-- The end of `loadWorldIdConfig`, where every variable is set.
unfoldable pub load_credentials : Env → Loaded Credentials
load_credentials env = do
  let app_id = trimmed env (codes "WORLD_ID_APP_ID")
  check (starts_with app_id (codes "app_")) (ConfigError.malformed (codes "WORLD_ID_APP_ID"))
  let rp_id = trimmed env (codes "WORLD_ID_RP_ID")
  check (starts_with rp_id (codes "rp_")) (ConfigError.malformed (codes "WORLD_ID_RP_ID"))
  let key = without_hex_prefix (trimmed env (codes "WORLD_ID_SIGNING_KEY"))
  check (is_signing_key key) (ConfigError.malformed (codes "WORLD_ID_SIGNING_KEY"))
  let action = trimmed env (codes "WORLD_ID_ACTION")
  check (not (is_empty action)) (ConfigError.missing (codes "WORLD_ID_ACTION"))
  let environment = trimmed env (codes "WORLD_ID_ENVIRONMENT")
  check (is_environment environment) (ConfigError.malformed (codes "WORLD_ID_ENVIRONMENT"))
  loaded (record {
    app_id = app_id;
    rp_id = rp_id;
    signing_key_hex = key;
    action = action;
    environment = environment;
  })

-- `REQUIRE_WORLD_ID_FOR_ESCALATIONS`
unfoldable pub require_flag : Env → Loaded Bool
require_flag env =
    let raw = trimmed env (codes "REQUIRE_WORLD_ID_FOR_ESCALATIONS") in
    if text_eq raw (codes "true")
    then loaded true
    else if text_eq raw (codes "false")
    then loaded false
    else refused (ConfigError.malformed (codes "REQUIRE_WORLD_ID_FOR_ESCALATIONS"))

abbrev pub with_credentials : Bool → Credentials → Loaded WorldIdConfig
with_credentials required c =
    loaded (record { is_world_id_required = required; credentials = some c })

-- The rest of `loadWorldIdConfig`
unfoldable pub load_required : Env → Bool → Loaded WorldIdConfig
load_required env required =
    if not (any (is_set env) world_id_var_names) || not (any (is_non_empty env) world_id_var_names)
    then if required
      then refused ConfigError.not_configured
      else loaded (record { is_world_id_required = required; credentials = none })
    else if any (is_missing env) world_id_var_names
    then refused ConfigError.incomplete
    else load_credentials env >>= with_credentials required

-- `loadWorldIdConfig`
unfoldable pub load_world_id_config : Env → Loaded WorldIdConfig
load_world_id_config env = do required ← require_flag env; load_required env required

-- What the loader checks of credentials.
pub record AreComplete (c : Credentials) : Type 0 where
  pub app_id : starts_with c.app_id (codes "app_") ≡ true
  pub rp_id : starts_with c.rp_id (codes "rp_") ≡ true
  pub key : is_signing_key c.signing_key_hex ≡ true
  pub action : is_empty c.action ≡ false
  pub environment : is_environment c.environment ≡ true

not-true : (b : Bool) → not b ≡ true → b ≡ false
not-true true e = cc
not-true false e = refl

load_credentials-AreComplete :
    (env : Env) (c : Credentials) → load_credentials env ≡ loaded c → AreComplete c
unfolding load_credentials
load_credentials-AreComplete env c e =
    let (u1, h1, e1) = >>=-loaded _ _ c e in
    let (u2, h2, e2) = >>=-loaded _ _ c e1 in
    let (u3, h3, e3) = >>=-loaded _ _ c e2 in
    let (u4, h4, e4) = >>=-loaded _ _ c e3 in
    let (u5, h5, e5) = >>=-loaded _ _ c e4 in
    let same = loaded_injective _ c e5 in
    rw (sym same) (record {
      app_id = check-loaded _ _ u1 h1;
      rp_id = check-loaded _ _ u2 h2;
      key = check-loaded _ _ u3 h3;
      action = not-true _ (check-loaded _ _ u4 h4);
      environment = check-loaded _ _ u5 h5;
    })

load_required-some :
    (env : Env) (required : Bool) (c : WorldIdConfig)
    → load_required env required ≡ loaded c
    → c.is_world_id_required ≡ true
    → (k : Credentials) × (c.credentials ≡ some k) × (load_credentials env ≡ loaded k)
unfolding load_required
load_required-some env required c e on =
    elim (Bool-cases (
      not (any (is_set env) world_id_var_names)
      || not (any (is_non_empty env) world_id_var_names))) [
        | inl bare ↦ elim (Bool-cases required) [
          | inl asked ↦ absurd (ground arith)
          | inr unasked ↦ let same = loaded_injective _ c (rw (bare, unasked) at e) in cc
        ]
        | inr some_set ↦ elim (Bool-cases (any (is_missing env) world_id_var_names)) [
          | inl partial ↦ absurd (ground arith)
          | inr complete ↦
              let (k, named, e1) = >>=-loaded _ _ c (rw (some_set, complete) at e) in
              let same = loaded_injective _ c e1 in
              (k, ap (λ (x : WorldIdConfig). x.credentials) (sym same), named)
        ]
      ]

-- A configuration that requires World ID has complete credentials of an application.
pub load_world_id_config-AreComplete :
    (env : Env) (c : WorldIdConfig)
    → load_world_id_config env ≡ loaded c
    → c.is_world_id_required ≡ true
    → (k : Credentials) × (c.credentials ≡ some k) × AreComplete k
unfolding load_world_id_config
load_world_id_config-AreComplete env c e required =
    let (flag, _, e1) = >>=-loaded _ _ c e in
    let (k, named, done) = load_required-some env flag c e1 required in
    (k, named, load_credentials-AreComplete env k done)
