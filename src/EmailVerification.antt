-- ===== src/EmailVerification.antt =====
-- Issue and confirmation of email-verification tokens: src/app/services/email_verification.py.
pub mod Laws
pub mod Issue
use fastapi_production_api.Base.{
  ℕ, ◌+◌, String, Bool, true, false, not, ◌||◌, Option, none, some, ◌==◌, nat_eq, string_eq,
  if◌then◌else◌, is_some,
}
use fastapi_production_api.Models.{User, AccountActionToken}
use fastapi_production_api.World.{World, minutes}
use fastapi_production_api.Db.{
  Action, http, pure, raise_if, gets, modify, or_raise, transaction, ◌>>=◌, ◌>>◌,
}
use fastapi_production_api.Tokens.{now, generate_account_action_token, hash_account_action_token}
use fastapi_production_api.Sessions.{user_by_id}
use fastapi_production_api.ActionTokens.{
  email_verification_purpose, has_purpose, open_for, consumed, update_action_tokens,
  find_action_token, is_spent, insert_action_token, update_user, has_email, user_by_email,
}
use fastapi_production_api.Outbox.{email_verification_message, enqueue_email_delivery}

abbrev pub invalid_token_detail : String
invalid_token_detail = "Invalid or expired verification token"

-- The body of the `try` of `issue_email_verification_token`.
unfoldable pub store_verification_token : World → User → String → ℕ → String → Action (Unit {0})
unfolding insert_action_token hash_account_action_token
store_verification_token w user email at raw_token =
    let token_hash = hash_account_action_token w raw_token in
    let expires_at = at + minutes w.settings.email_verification_token_expire_minutes in
    do
      modify (
          update_action_tokens (open_for user.id (has_purpose email_verification_purpose))
            (consumed at))
      insert_action_token w user.id email_verification_purpose token_hash email expires_at
      if w.settings.email_delivery_mode == "outbox"
          then enqueue_email_delivery w email_verification_message
              (record {
                action_url = w.settings.email_verification_url;
                recipient = email;
                token = raw_token;
              })
              token_hash expires_at
          else pure tt

-- `user is None or user.email_verified_at is not None`
abbrev pub awaits_verification : Option User → Option User
awaits_verification none = none
awaits_verification (some u) = if is_some u.email_verified_at then none else some u

unfoldable pub issue_for : World → Option User → String → Action (Option (String × String))
unfolding store_verification_token
issue_for w none email = pure none
issue_for w (some user) email = do
  at ← now w
  raw_token ← generate_account_action_token w
  transaction w (store_verification_token w user email at raw_token)
  pure (some (email, raw_token))

unfoldable pub issue_email_verification_token : World → String → Action (Option (String × String))
unfolding issue_for
issue_email_verification_token w email = do
  user ← gets (user_by_email email)
  issue_for w (awaits_verification user) email

-- `user is None or user.email != stored_token.target`
abbrev pub owner_of : AccountActionToken → Option User → Option User
owner_of t none = none
owner_of t (some u) = if has_email t.target u then some u else none

unfoldable pub confirm_email_verification : World → String → Action (Unit {0})
unfolding hash_account_action_token
confirm_email_verification w token = do
  found ← gets (
      find_action_token (hash_account_action_token w token)
        (has_purpose email_verification_purpose))
  at ← now w
  stored ← or_raise found (http 400 invalid_token_detail)
  raise_if (is_spent stored at) (http 400 invalid_token_detail)
  user ←
      or_raise (owner_of stored (← gets (user_by_id stored.user_id)))
        (http 400 invalid_token_detail)
  transaction w (do
    modify (update_action_tokens (λ t. t.id == stored.id) (consumed at))
    modify (update_user user.id (λ u. record u { email_verified_at = some at })))
