-- ===== src/Oidc/Identities.antt =====
-- The identity that a callback signs in with or links: `_normalize_verified_email`,
-- `_revoke_user_sessions`, `_identity_for_login` and `_identity_for_link` of
-- src/app/services/oidc.py.
use fastapi_production_api.Tokens.{now}
use fastapi_production_api.Oidc.Usernames.{new_username}
use fastapi_production_api.Access.Register.{new_user}
use fastapi_production_api.Table.Laws.{map_option}
use fastapi_production_api.Sessions.{
  live_of_user, or_inactive, revoke_values, update_tokens, user_by_id,
}
use fastapi_production_api.Table.{add_row, first}
use fastapi_production_api.World.{World}
use fastapi_production_api.Oidc.Interface.{IdClaims}
use fastapi_production_api.Models.{Database, ExternalIdentity, User}
use fastapi_production_api.Db.{
  Action, flush, gets, modify, or_raise, pure, raise_if, reading, ◌>>=◌, ◌>>◌, value_error, http,
}
use fastapi_production_api.Base.{
  String, ℕ, Option, none, some, Bool, not, true, false, ◌==◌, ◌&&◌, is_some, nat_eq, string_eq,
}

-- `email_verified is not True or not isinstance(email, str)`
abbrev pub claimed_email : Bool → Option String → Option String
claimed_email true email = email
claimed_email false email = none

abbrev pub normalized : World → Option String → Option String
normalized w none = none
normalized w (some email) = map_option w.strip_casefold (w.validate_email email)

unfoldable pub normalize_verified_email : World → IdClaims → Option String
normalize_verified_email w claims = normalized w (claimed_email claims.email_verified claims.email)

unfoldable pub revoke_live_sessions : World → ℕ → String → Action (Unit {0})
revoke_live_sessions w user_id reason = do
  at ← now w
  modify (update_tokens (live_of_user user_id) (revoke_values at reason))

-- `ExternalIdentity.issuer == issuer, ExternalIdentity.subject == subject`
abbrev pub is_identity : String → String → ExternalIdentity → Bool
is_identity issuer subject i = i.issuer == issuer && i.subject == subject

abbrev pub find_identity : String → String → Database → Option ExternalIdentity
find_identity issuer subject db = first (is_identity issuer subject) db.external_identities

-- `func.lower(func.trim(User.email)) == email`
abbrev pub has_lowered_email : World → String → User → Bool
has_lowered_email w email u = elim u.email [ none ↦ false | some e ↦ w.lower_trim e == email ]

abbrev pub add_identity : ExternalIdentity → Database → Database
add_identity i db = record db { external_identities = add_row i db.external_identities }

abbrev pub add_user : User → Database → Database
add_user u db = record db { users = add_row u db.users }

-- The account that a first login makes, in the table with a username and its draws.
abbrev pub oidc_user : ℕ → String → String → String → ℕ → User
oidc_user id username password email at = record (new_user id username password (some email)) {
  password_login_enabled = false;
  email_verified_at = some at;
}

unfoldable pub create_oidc_account :
    World → String → String → String → Action (ExternalIdentity × User)
unfolding new_username
create_oidc_account w issuer subject email = do
  at ← now w
  username ←
      or_raise (← gets (λ db. new_username w email issuer subject db.users))
        (value_error "no username is free")
  draw ← reading w.random
  password ← reading (λ n. w.hash_password n draw)
  id ← reading w.row_id
  let user = oidc_user id username password email at
  modify (add_user user)
  flush w
  identity_id ← reading w.row_id
  created_at ← now w
  let identity : ExternalIdentity = record {
    id = identity_id;
    user_id = id;
    issuer = issuer;
    subject = subject;
    email = some email;
    created_at = created_at;
    last_login_at = some at;
  }
  modify (add_identity identity)
  pure (identity, user)

-- The branches on `identity is not None`.
unfoldable pub login_as :
    World → String → String → IdClaims → Option ExternalIdentity → Action (ExternalIdentity × User)
unfolding create_oidc_account normalize_verified_email
login_as w issuer subject claims (some identity) = do
  user ←
      or_raise (or_inactive (← gets (user_by_id identity.user_id)))
        (http 401 "OIDC login is not available")
  pure (identity, user)
login_as w issuer subject claims none = do
  email ←
      or_raise (normalize_verified_email w claims)
        (http 403 "Verified provider email is required for account creation")
  existing_user ← gets (λ db. first (has_lowered_email w email) db.users)
  raise_if (is_some existing_user)
      (http 409 "Sign in locally and link this external identity explicitly")
  create_oidc_account w issuer subject email

unfoldable pub identity_for_login :
    World → String → String → IdClaims → Action (ExternalIdentity × User)
unfolding login_as
identity_for_login w issuer subject claims = do
  identity ← gets (find_identity issuer subject)
  login_as w issuer subject claims identity

abbrev pub invalid_transaction : String
invalid_transaction = "Invalid or expired OIDC transaction"

-- `ExternalIdentity.user_id == user_id, ExternalIdentity.issuer == issuer`
abbrev pub is_identity_of : ℕ → String → ExternalIdentity → Bool
is_identity_of user_id issuer i = i.user_id == user_id && i.issuer == issuer

-- The branches on `existing_subject is not None`.
unfoldable pub link_as :
    World → ℕ → String → String → IdClaims → Option ExternalIdentity → Action ExternalIdentity
unfolding normalize_verified_email revoke_live_sessions
link_as w user_id issuer subject claims (some existing_subject) = do
  raise_if (not (existing_subject.user_id == user_id))
      (http 409 "External identity is already linked to another account")
  pure existing_subject
link_as w user_id issuer subject claims none = do
  existing_provider ← gets (λ db. first (is_identity_of user_id issuer) db.external_identities)
  raise_if (is_some existing_provider)
      (http 409 "This account already has an identity for the provider")
  id ← reading w.row_id
  created_at ← now w
  let identity : ExternalIdentity = record {
    id = id;
    user_id = user_id;
    issuer = issuer;
    subject = subject;
    email = normalize_verified_email w claims;
    created_at = created_at;
    last_login_at = none;
  }
  modify (add_identity identity)
  flush w
  revoke_live_sessions w user_id "external_identity_linked"
  pure identity

unfoldable pub identity_for_link : World → ℕ → String → String → IdClaims → Action ExternalIdentity
unfolding link_as
identity_for_link w user_id issuer subject claims = do
  or_raise (or_inactive (← gets (user_by_id user_id))) (http 401 invalid_transaction)
  existing_subject ← gets (find_identity issuer subject)
  link_as w user_id issuer subject claims existing_subject
