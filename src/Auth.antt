-- ===== src/Auth.antt =====
-- backend/src/auth/privy-auth.service.ts, with login of auth.controller.ts, over the tables of users and
-- agents of backend/src/database/database.service.ts.
pub mod Takeover
use ethonline.Common.{
  ℕ, Bool, true, false, ◌&&◌, ◌||◌, Option, none, some, List, find, if◌then◌else◌,
}
use ethonline.Common.Text.{Text, codes, text_eq, to_lower, is_empty, truthy, drop_prefix}
use ethonline.Common.Dict.{Dict, lookup, insert, values}
use ethonline.Common.Results.{HttpError, Result, ok, err}
use ethonline.Agents.{Agent, deactivate}

-- A row of the table of users
pub record User : Type 0 where
  pub id : Text
  pub email : Option Text
  pub name : Option Text
  pub avatar_url : Option Text
  pub wallet_address : Option Text
  pub deleted_at : Option ℕ
  pub created_at : ℕ
  pub updated_at : ℕ

-- `PrivyUserIdentity`
pub record Identity : Type 0 where
  pub id : Text
  pub email : Option Text
  pub name : Option Text
  pub avatar_url : Option Text
  pub wallet_address : Option Text

-- What the client sends along with the token.
pub record Metadata : Type 0 where
  pub email : Option Text
  pub name : Option Text

-- An item of linkedAccounts, and a user, of Privy.
pub record LinkedAccount : Type 0 where
  pub kind : Text
  pub wallet_client_type : Text
  pub connector_type : Text
  pub address : Option Text

pub record PrivyUser : Type 0 where
  pub id : Text
  pub google_email : Option Text
  pub google_name : Option Text
  pub email_address : Option Text
  pub linked_accounts : List LinkedAccount
  pub wallet : Option Text

-- The client of @privy-io/server-auth; `none` stands for an exception.
pub record Privy : Type 0 where
  pub verify_auth_token : Text → Option Text
  pub get_user : Text → Option (Option PrivyUser)
  pub create_wallets : Text → Option (Option PrivyUser)

-- `a || b` on optional strings
abbrev pub or_falsy : Option Text → Option Text → Option Text
or_falsy a b = elim (truthy a) [ some x ↦ some x | none ↦ b ]

-- The wallet of a user that Privy names.
unfoldable pub wallet_of : PrivyUser → Option Text
wallet_of u =
    elim (find
      (λ (a : LinkedAccount).
        text_eq a.kind (codes "wallet")
        && (text_eq a.wallet_client_type (codes "privy")
            || text_eq a.connector_type (codes "embedded")))
      u.linked_accounts) [ some a ↦ or_falsy a.address u.wallet | none ↦ u.wallet ]

-- The user after a wallet is made for it, where it has none; a failure is logged.
unfoldable pub with_wallet : Privy → PrivyUser → PrivyUser
with_wallet privy u = elim (truthy (wallet_of u)) [
  | some address ↦ u
  | none ↦ elim (privy.create_wallets u.id) [
    | some (some updated) ↦ updated
    | some none ↦ u
    | none ↦ u
  ]
]

-- `verifyWithPrivy`; the email and the name are those of the user before a wallet is made.
unfoldable pub verify_with_privy : Privy → Text → Metadata → Result Identity
verify_with_privy privy token metadata = elim (privy.verify_auth_token token) [
  | none ↦ err HttpError.unauthorized
  | some did ↦ elim (privy.get_user did) [
    | none ↦ err HttpError.unauthorized
    | some none ↦ err HttpError.unauthorized
    | some (some u) ↦
        let u' = with_wallet privy u in
        elim (truthy (wallet_of u')) [
          | none ↦ err HttpError.unauthorized
          | some address ↦ ok (record {
            id = u'.id;
            email = or_falsy u.google_email (or_falsy u.email_address metadata.email);
            name = or_falsy u.google_name metadata.name;
            avatar_url = none;
            wallet_address = some address;
          })
        ]
  ]
]

-- `verifyAuthToken` outside of tests; the client is `none` without credentials.
unfoldable pub verify_auth_token : Option Privy → Text → Metadata → Result Identity
verify_auth_token client token metadata =
    if is_empty token then err HttpError.unauthorized else elim client [
      | none ↦ err HttpError.unauthorized
      | some privy ↦ elim (drop_prefix (codes "Bearer ") token) [
        | some clean ↦ verify_with_privy privy clean metadata
        | none ↦ verify_with_privy privy token metadata
      ]
    ]

abbrev pub is_live : User → Bool
is_live u = elim u.deleted_at [ none ↦ true | some _ ↦ false ]

-- `getUser`
unfoldable pub get_user : Text → Dict User → Option User
get_user id d = elim (lookup id d) [ none ↦ none | some u ↦ if is_live u then some u else none ]

-- `u.email?.toLowerCase() === email`
abbrev pub has_email : Text → User → Bool
has_email email u = elim u.email [ none ↦ false | some e ↦ text_eq (to_lower e) (to_lower email) ]

-- `SELECT * FROM "user" WHERE email = ? AND "deletedAt" IS NULL`
unfoldable pub user_with_email : Text → Dict User → Option User
user_with_email email d = find (λ u. has_email email u && is_live u) (values d)

abbrev pub user_with_optional_email : Option Text → Dict User → Option User
user_with_optional_email none d = none
user_with_optional_email (some email) d = user_with_email email d

-- `UPDATE "user" SET "deletedAt" = ?, "updatedAt" = ? WHERE id = ?`
unfoldable pub set_deleted : Option ℕ → ℕ → Text → Dict User → Dict User
set_deleted deleted now id d = elim (lookup id d) [
  | none ↦ d
  | some u ↦ insert id (record u { deleted_at = deleted; updated_at = now }) d
]

-- The user that an identity is for, by its id and else by its email; the flag says whether a deleted
-- one came back.
unfoldable pub existing_user : Identity → ℕ → Dict User → Option User × Bool × Dict User
existing_user i now d = elim (get_user i.id d) [
  | some u ↦ (some u, false, d)
  | none ↦ elim (user_with_optional_email (truthy i.email) d) [
    | some u ↦ (some u, false, d)
    | none ↦ elim (lookup i.id d) [
      | none ↦ (none, false, d)
      | some u ↦
          if is_live u
          then (none, false, d)
          else (get_user i.id (set_deleted none now i.id d), true, set_deleted none now i.id d)
    ]
  ]
]

-- `UPDATE "user" SET email = ?, ...` with the values of `syncUser`
abbrev pub synced_row : Identity → Text → ℕ → User → User → User
synced_row i wallet now existing u = record u {
  email = or_falsy i.email existing.email;
  name = or_falsy i.name existing.name;
  avatar_url = or_falsy i.avatar_url existing.avatar_url;
  wallet_address = some wallet;
  updated_at = now;
}

abbrev pub new_user : Identity → Text → ℕ → User
new_user i wallet now = record {
  id = i.id;
  email = truthy i.email;
  name = truthy i.name;
  avatar_url = truthy i.avatar_url;
  wallet_address = some wallet;
  deleted_at = none;
  created_at = now;
  updated_at = now;
}

-- The writes of `syncUser`, once the wallet is known.
unfoldable pub write_user : Identity → Text → ℕ → Option User → Dict User → Option User × Dict User
write_user i wallet now none d =
    (get_user i.id (insert i.id (new_user i wallet now) d), insert i.id (new_user i wallet now) d)
write_user i wallet now (some existing) d = elim (lookup existing.id d) [
  | none ↦ (get_user existing.id d, d)
  | some u ↦
      let d' = insert existing.id (synced_row i wallet now existing u) d in
      (get_user existing.id d', d')
]

abbrev pub stored_wallet : Option User → Option Text
stored_wallet none = none
stored_wallet (some u) = u.wallet_address

-- The part of `syncUser` after the user is looked up.
unfoldable pub sync_existing :
    Identity → ℕ → Option User × Bool × Dict User → Result (Option User × Bool) × Dict User
sync_existing i now (existing, reactivated, d) =
    elim (truthy (or_falsy i.wallet_address (stored_wallet existing))) [
      | none ↦ (err HttpError.bad_request, d)
      | some wallet ↦
          let (user, d') = write_user i wallet now existing d in
          (ok (user, elim existing [ none ↦ true | some _ ↦ reactivated ]), d')
    ]

-- `syncUser`: the user, and whether it is a new one
unfoldable pub sync_user : Identity → ℕ → Dict User → Result (Option User × Bool) × Dict User
sync_user i now d = sync_existing i now (existing_user i now d)

-- `login`
unfoldable pub login :
    Option Privy → Text → Metadata → ℕ → Dict User → Result (Option User × Bool) × Dict User
login client token metadata now d = elim (verify_auth_token client token metadata) [
  | err e ↦ (err e, d)
  | ok i ↦ sync_user i now d
]

-- `deleteUserAccount`, with both tables
unfoldable pub delete_user_account :
    Text → ℕ → Dict User → Dict Agent → Result (Unit {0}) × Dict User × Dict Agent
delete_user_account id now users agents = elim (get_user id users) [
  | some u ↦ (ok tt, set_deleted (some now) now id users, deactivate id now agents)
  | none ↦ elim (lookup id users) [
    | none ↦ (err HttpError.bad_request, users, agents)
    | some u ↦
        if is_live u then (err HttpError.bad_request, users, agents) else (ok tt, users, agents)
  ]
]
