-- ===== src/Oidc/Frames.antt =====
-- What the parts of a callback leave alone.
use fastapi_production_api.Login.{login}
use fastapi_production_api.Db.Chains.{bind_frame}
use fastapi_production_api.Mfa.Factors.{require_available}
use fastapi_production_api.Mfa.Challenge.{prepare_mfa_login_challenge}
use fastapi_production_api.Sessions.{insert_refresh_token, prepare_session_tokens}
use fastapi_production_api.ActionTokens.{insert_action_token}
use fastapi_production_api.Table.{first}
use fastapi_production_api.Tokens.{create_access_token, create_refresh_token}
use fastapi_production_api.Oidc.Complete.{
  consume_transaction, oidc_challenge, oidc_session, settle, settle_link, settle_login,
  answer_login, login_values, update_identity, linked,
}
use fastapi_production_api.Oidc.Identities.{
  create_oidc_account, find_identity, identity_for_link, link_as, login_as, revoke_live_sessions,
  has_lowered_email, identity_for_login, normalize_verified_email,
}
use fastapi_production_api.World.{World}
use fastapi_production_api.Db.{Session, pure}
use fastapi_production_api.Oidc.Interface.{IdClaims}
use fastapi_production_api.Models.{ExternalIdentity, OidcTransaction, User}
use fastapi_production_api.Base.{
  String, ℕ, Option, none, some, ◌≡◌, arith, refl, ◌∙◌, Bool-cases, Option-cases, inl, inr, is_some,
  ◌==◌, List, nat_eq, string_eq,
}

abbrev transactions : Session → List OidcTransaction
transactions s = s.view.oidc_transactions

module _ (w : World) (issuer subject : String) (claims : IdClaims) (s : Session) where
  link_as-transactions :
      (user_id : ℕ) (found : Option ExternalIdentity)
      → (link_as w user_id issuer subject claims found s).1.view.oidc_transactions
        ≡ s.view.oidc_transactions
  unfolding link_as revoke_live_sessions
  link_as-transactions user_id none = ground arith
  link_as-transactions user_id (some existing) = ground arith

  identity_for_link-transactions :
      (user_id : ℕ)
      → (identity_for_link w user_id issuer subject claims s).1.view.oidc_transactions
        ≡ s.view.oidc_transactions
  unfolding identity_for_link
  identity_for_link-transactions user_id =
      ground (arith, link_as-transactions user_id (find_identity issuer subject s.view))

  create_account-transactions :
      (email : String)
      → (create_oidc_account w issuer subject email s).1.view.oidc_transactions
        ≡ s.view.oidc_transactions
  unfolding create_oidc_account
  create_account-transactions email = ground arith

  login_as-transactions :
      (found : Option ExternalIdentity)
      → (login_as w issuer subject claims found s).1.view.oidc_transactions
        ≡ s.view.oidc_transactions
  unfolding login_as
  login_as-transactions none = elim (Option-cases (normalize_verified_email w claims)) [
    | inl unverified ↦ rw unverified
    | inr (email, verified) ↦
        elim (Bool-cases (is_some (first (has_lowered_email w email) s.view.users))) [
          | inl taken ↦ simp (verified, taken)
          | inr free ↦ simp (verified, free) (create_account-transactions email)
        ]
  ]
  login_as-transactions (some identity) = ground arith

  identity_for_login-transactions :
      (identity_for_login w issuer subject claims s).1.view.oidc_transactions
      ≡ s.view.oidc_transactions
  unfolding identity_for_login
  identity_for_login-transactions = login_as-transactions (find_identity issuer subject s.view)

module _ (w : World) (user : User) (device_name : String) (s : Session) where
  oidc_challenge-transactions :
      (oidc_challenge w user device_name s).1.view.oidc_transactions ≡ s.view.oidc_transactions
  unfolding oidc_challenge prepare_mfa_login_challenge require_available insert_action_token
  oidc_challenge-transactions = ground arith

  oidc_session-transactions :
      (oidc_session w user device_name s).1.view.oidc_transactions ≡ s.view.oidc_transactions
  unfolding oidc_session prepare_session_tokens insert_refresh_token create_access_token
      create_refresh_token
  oidc_session-transactions = ground arith

module _ (w : World) (t : OidcTransaction) (issuer subject : String) (claims : IdClaims)
    (at : ℕ) where
  settle_link-transactions :
      (s : Session)
      → (settle_link w t issuer subject claims s).1.view.oidc_transactions
        ≡ s.view.oidc_transactions
  unfolding settle_link
  settle_link-transactions s = elim (Option-cases t.user_id) [
    | inl missing ↦ rw missing
    | inr (user_id, bound) ↦ rw bound (
        bind_frame transactions (λ identity. pure (linked identity))
          (identity_for_link w user_id issuer subject claims) s (λ identity. refl)
        ∙ identity_for_link-transactions w issuer subject claims s user_id)
  ]

  answer-transactions :
      (identity : ExternalIdentity) (user : User) (after : Session)
      → (answer_login w t claims at (identity, user) after).1.view.oidc_transactions
        ≡ after.view.oidc_transactions
  answer-transactions identity user after = elim (Bool-cases (is_some user.mfa_enabled_at)) [
    | inl enrolled ↦
        let moved = record after {
          view = update_identity identity.id (login_values w claims at) after.view;
        } in
        rw enrolled (oidc_challenge-transactions w user t.device_name moved)
    | inr plain ↦
        let moved = record after {
          view = update_identity identity.id (login_values w claims at) after.view;
        } in
        rw plain (oidc_session-transactions w user t.device_name moved)
  ]

  settle_login-transactions :
      (s : Session)
      → (settle_login w t issuer subject claims at s).1.view.oidc_transactions
        ≡ s.view.oidc_transactions
  unfolding settle_login
  settle_login-transactions s =
      bind_frame transactions (answer_login w t claims at)
        (identity_for_login w issuer subject claims) s
        (λ a. answer-transactions a.0 a.1 (identity_for_login w issuer subject claims s).1)
      ∙ identity_for_login-transactions w issuer subject claims s

  -- A callback marks its transaction as used, whatever else it does.
  pub settle-transactions :
      (s : Session)
      → (settle w t issuer subject claims at s).1.view.oidc_transactions
        ≡ (consume_transaction t at s.view).oidc_transactions
  unfolding settle
  settle-transactions s =
      let marked = record s { view = consume_transaction t at s.view } in
      elim (Bool-cases (t.intent == "link")) [
        | inl link ↦ rw link (settle_link-transactions marked)
        | inr other ↦ elim (Bool-cases (t.intent == "login")) [
          | inl login ↦ simp (other, login) (settle_login-transactions marked)
          | inr neither ↦ simp (other, neither)
        ]
      ]
