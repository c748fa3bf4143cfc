-- ===== src/Oidc/Accounts.antt =====
-- Whom a login through the provider signs in, and that an account keeps a way to sign in.
use fastapi_production_api.OutboxWorker.Finish.{owned}
use fastapi_production_api.Sessions.{or_inactive, user_by_id}
use fastapi_production_api.Oidc.FreeNames.{new_username_is_found}
use fastapi_production_api.Oidc.Usernames.{is_taken}
use fastapi_production_api.Table.{first}
use fastapi_production_api.Oidc.Identities.{
  create_oidc_account, find_identity, has_lowered_email, identity_for_login, login_as,
  normalize_verified_email,
}
use fastapi_production_api.World.{World}
use fastapi_production_api.Db.{Session, ok}
use fastapi_production_api.Oidc.Interface.{IdClaims}
use fastapi_production_api.Models.{Database, ExternalIdentity, User}
use fastapi_production_api.Base.{
  String, none, some, ◌≡◌, arith, false, nat_eq, string_eq, Option-cases, Bool-cases, inl, inr,
  is_some,
}

-- The account that a login signs in: the active owner of the identity that is stored for the issuer
-- and the subject, or else a new account without a password, for a verified address that no account
-- has, under a name that no account has.
pub data SignsIn (w : World) (issuer subject : String) (claims : IdClaims) (db : Database)
    (identity : ExternalIdentity) (user : User) : Type 0 where
  owner :
      find_identity issuer subject db ≡ some identity
      → or_inactive (user_by_id identity.user_id db) ≡ some user
      → SignsIn w issuer subject claims db identity user
  newcomer :
      (email : String)
      → find_identity issuer subject db ≡ none
      → normalize_verified_email w claims ≡ some email
      → is_some (first (has_lowered_email w email) db.users) ≡ false
      → is_taken db.users user.username ≡ false
      → user.password_login_enabled ≡ false
      → user.role ≡ "user"
      → user.email ≡ some email
      → identity.user_id ≡ user.id
      → SignsIn w issuer subject claims db identity user

module _ (w : World) (issuer subject : String) (claims : IdClaims) (s : Session)
    (identity : ExternalIdentity) (user : User) where
  created_ok :
      (email : String)
      → (create_oidc_account w issuer subject email s).0 ≡ ok (identity, user)
      → (is_taken s.view.users user.username ≡ false)
        × (user.password_login_enabled ≡ false)
        × (user.role ≡ "user")
        × (user.email ≡ some email)
        × (identity.user_id ≡ user.id)
  unfolding create_oidc_account
  created_ok email e =
      let (name, named, free) = new_username_is_found w email issuer subject s.view.users in
      ground (arith, named, free)

  login_as-none_ok :
      find_identity issuer subject s.view ≡ none
      → (login_as w issuer subject claims none s).0 ≡ ok (identity, user)
      → SignsIn w issuer subject claims s.view identity user
  unfolding login_as
  login_as-none_ok unknown e = elim (Option-cases (normalize_verified_email w claims)) [
    | inl unverified ↦ absurd (ground arith)
    | inr (email, verified) ↦
        elim (Bool-cases (is_some (first (has_lowered_email w email) s.view.users))) [
          | inl taken ↦ absurd (ground arith)
          | inr free ↦
              let (named, no_password, plain, its_email, owned) =
                created_ok email (simp (verified, free) at e) in
              newcomer email unknown verified free named no_password plain its_email owned
        ]
  ]

  -- A login through the provider signs in the active owner of the identity that is stored for the
  -- issuer and the subject of the ID token. If none is stored, it signs in a new account: one
  -- without password login and with the role "user", for the verified address of the token, which
  -- no account has, under a username that no account has. It never signs in to another account
  -- that exists.
  pub identity_for_login-SignsIn :
      (identity_for_login w issuer subject claims s).0 ≡ ok (identity, user)
      → SignsIn w issuer subject claims s.view identity user
  unfolding identity_for_login login_as
  identity_for_login-SignsIn e = elim (Option-cases (find_identity issuer subject s.view)) [
    | inl unknown ↦ login_as-none_ok unknown (simp unknown at e)
    | inr (known, found) ↦ elim (Option-cases (or_inactive (user_by_id known.user_id s.view))) [
      | inl inactive ↦ absurd (ground arith)
      | inr (active, owned) ↦ owner (ground arith) (ground arith)
    ]
  ]
