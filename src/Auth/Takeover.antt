-- ===== src/Auth/Takeover.antt =====
-- What a login does with an e-mail address that only the client vouches for.
use ethonline.Common.{
  ℕ, ◌≡◌, refl, sym, ap, ◌∙◌, true, false, ◌&&◌, Option, none, some, [], ◌∷◌, arith,
}
use ethonline.Common.Text.{Text, codes, is_empty, truthy, truthy-some, drop_prefix}
use ethonline.Common.Dict.{Dict, lookup, insert, values, lookup-insert_self}
use ethonline.Common.Results.{ok}
use ethonline.Agents.Written.{find_holds}
use ethonline.Auth.{
  User, Identity, Metadata, Privy, PrivyUser, or_falsy, wallet_of, with_wallet, verify_with_privy,
  verify_auth_token, is_live, get_user, has_email, user_with_email, existing_user, synced_row,
  write_user, sync_existing, sync_user, login,
}

get_user-live :
    (id : Text) (u : User) (d : Dict User)
    → lookup id d ≡ some u
    → is_live u ≡ true
    → get_user id d ≡ some u
unfolding get_user
get_user-live id u d there live = rw (get_user, there, live) refl

user_with_email-live :
    (email : Text) (u : User) (d : Dict User) → user_with_email email d ≡ some u → is_live u ≡ true
unfolding user_with_email
user_with_email-live email u d there =
    let both = find_holds (λ (x : User). has_email email x && is_live x) (values d) u there in
    ground arith

truthy_again : (o : Option Text) (t : Text) → truthy o ≡ some t → truthy (some t) ≡ some t
truthy_again none t e = cc
truthy_again (some []) t e = cc
truthy_again (some (c ∷ u)) t e = ap truthy (sym e) ∙ e

or_falsy-some : (a b : Option Text) (t : Text) → truthy a ≡ some t → or_falsy a b ≡ some t
or_falsy-some a b t e = rw (or_falsy, e) refl

get_user-none : (id : Text) (d : Dict User) → lookup id d ≡ none → get_user id d ≡ none
unfolding get_user
get_user-none id d absent = rw (get_user, absent) refl

existing_user-mail :
    (i : Identity) (now : ℕ) (d : Dict User) (email : Text) (v : User)
    → lookup i.id d ≡ none
    → truthy i.email ≡ some email
    → user_with_email email d ≡ some v
    → existing_user i now d ≡ (some v, false, d)
unfolding existing_user
existing_user-mail i now d email v new mail found =
    rw (existing_user, get_user-none i.id d new, mail, found) refl

write_user-existing :
    (i : Identity) (wallet : Text) (now : ℕ) (v : User) (d : Dict User)
    → lookup v.id d ≡ some v
    → is_live v ≡ true
    → write_user i wallet now (some v) d
      ≡ (some (synced_row i wallet now v v), insert v.id (synced_row i wallet now v v) d)
unfolding write_user
write_user-existing i wallet now v d there live =
    let row = synced_row i wallet now v v in
    let back : get_user v.id (insert v.id row d) ≡ some row =
      get_user-live v.id row (insert v.id row d) (lookup-insert_self v.id row d) live in
    rw (write_user, there, back) refl

-- An identity with an unknown id and the e-mail address of a user is that user.
sync_user-takeover :
    (i : Identity) (now : ℕ) (d : Dict User) (email wallet : Text) (v : User)
    → lookup i.id d ≡ none
    → truthy i.email ≡ some email
    → user_with_email email d ≡ some v
    → lookup v.id d ≡ some v
    → truthy i.wallet_address ≡ some wallet
    → sync_user i now d ≡ (
      ok (some (synced_row i wallet now v v), false),
      insert v.id (synced_row i wallet now v v) d,
    )
unfolding sync_user
sync_user-takeover i now d email wallet v new mail found there paid =
    let same = existing_user-mail i now d email v new mail found in
    let named : truthy (or_falsy i.wallet_address v.wallet_address) ≡ some wallet =
      ap truthy (or_falsy-some i.wallet_address v.wallet_address wallet paid)
      ∙ truthy_again i.wallet_address wallet paid in
    let wrote = write_user-existing i wallet now v d there (user_with_email-live email v d found) in
    ap (sync_existing i now) same ∙ unfold sync_existing in rw (sync_existing, named, wrote) refl

-- A first login, of a user without a row, with a token of a user that Privy knows no e-mail address
-- but a wallet of, and with the address of another, active user as the client's own: the answer is
-- that other user, and the row of the other user is overwritten with the wallet of the one that logs
-- in. The token has no prefix `Bearer `, and the row of the other user stands under its id.
pub login-takeover :
    (privy : Privy) (token did email wallet : Text) (u : PrivyUser) (v : User) (metadata : Metadata)
    (now : ℕ) (d : Dict User)
    → is_empty token ≡ false
    → drop_prefix (codes "Bearer ") token ≡ none
    → privy.verify_auth_token token ≡ some did
    → privy.get_user did ≡ some (some u)
    → truthy u.google_email ≡ none
    → truthy u.email_address ≡ none
    → truthy (wallet_of u) ≡ some wallet
    → truthy metadata.email ≡ some email
    → lookup u.id d ≡ none
    → user_with_email email d ≡ some v
    → lookup v.id d ≡ some v
    → (row : User) × (login (some privy) token metadata now d
        ≡ (ok (some row, false), insert v.id row d))
      × (row.id ≡ v.id)
      × (row.wallet_address ≡ some wallet)
unfolding login
login-takeover privy token did email wallet u v metadata now d filled bare known there no_google
      no_mail paid claimed new found keyed =
    let i : Identity = record {
      id = u.id;
      email = some email;
      name = or_falsy u.google_name metadata.name;
      avatar_url = none;
      wallet_address = some wallet;
    } in
    let mail : or_falsy u.google_email (or_falsy u.email_address metadata.email) ≡ some email =
      rw (or_falsy, no_google, no_mail) (truthy-some metadata.email email claimed) in
    let kept : with_wallet privy u ≡ u = unfold with_wallet in rw (with_wallet, paid) refl in
    let verified : verify_with_privy privy token metadata ≡ ok i =
      unfold verify_with_privy in
      rw (verify_with_privy, known, there, kept, paid, mail, kept) refl in
    let identified : verify_auth_token (some privy) token metadata ≡ ok i =
      unfold verify_auth_token in rw (verify_auth_token, filled, bare) verified in
    (
      synced_row i wallet now v v,
      rw (login, identified)
          (sync_user-takeover i now d email wallet v new (truthy_again metadata.email email claimed)
            found keyed (truthy_again (wallet_of u) wallet paid)),
      refl,
      refl,
    )
