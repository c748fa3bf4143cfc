-- ===== src/PasswordReset.antt =====
-- Issue and confirmation of password-reset tokens: src/app/services/password_reset.py.
pub mod Laws
pub mod Ended
pub mod Issue
use fastapi_production_api.Base.{
  ℕ, ◌+◌, String, Bool, true, false, not, ◌||◌, ◌&&◌, Option, none, some, ◌==◌, nat_eq, string_eq,
  if◌then◌else◌, is_none, is_some,
}
use fastapi_production_api.Models.{User, AccountActionToken, RefreshToken}
use fastapi_production_api.World.{World, minutes}
use fastapi_production_api.Db.{
  Action, http, pure, raise_if, gets, modify, or_raise, transaction, reading, ◌>>=◌, ◌>>◌,
}
use fastapi_production_api.Tokens.{now, generate_account_action_token, hash_account_action_token}
use fastapi_production_api.Sessions.{user_by_id, update_tokens, live_of_user, revoke_values}
use fastapi_production_api.ActionTokens.{
  password_reset_purpose, has_purpose, open_for, consumed, update_action_tokens, find_action_token,
  is_spent, insert_action_token, update_user, has_email, user_by_email,
}
use fastapi_production_api.Outbox.{password_reset_message, enqueue_email_delivery}

abbrev pub invalid_token_detail : String
invalid_token_detail = "Invalid or expired password reset token"

-- The body of the `try` of `issue_password_reset_token`.
unfoldable pub store_reset_token : World → User → String → ℕ → String → Action (Unit {0})
unfolding insert_action_token hash_account_action_token
store_reset_token w user email at raw_token =
    let token_hash = hash_account_action_token w raw_token in
    let expires_at = at + minutes w.settings.password_reset_token_expire_minutes in
    do
      modify (
          update_action_tokens (open_for user.id (has_purpose password_reset_purpose))
            (consumed at))
      insert_action_token w user.id password_reset_purpose token_hash email expires_at
      if w.settings.email_delivery_mode == "outbox"
          then enqueue_email_delivery w password_reset_message
              (record {
                action_url = w.settings.password_reset_url;
                recipient = email;
                token = raw_token;
              })
              token_hash expires_at
          else pure tt

-- `user is None or not user.is_active or user.email_verified_at is None`
abbrev pub may_reset : Option User → Option User
may_reset none = none
may_reset (some u) = if u.is_active && is_some u.email_verified_at then some u else none

unfoldable pub issue_for : World → Option User → String → Action (Option (String × String))
unfolding store_reset_token
issue_for w none email = pure none
issue_for w (some user) email = do
  at ← now w
  raw_token ← generate_account_action_token w
  transaction w (store_reset_token w user email at raw_token)
  pure (some (email, raw_token))

unfoldable pub issue_password_reset_token : World → String → Action (Option (String × String))
unfolding issue_for
issue_password_reset_token w email = do
  user ← gets (user_by_email email)
  issue_for w (may_reset user) email

-- The same test of a confirmation, and `user.email != stored_token.target`.
abbrev pub owner_of : AccountActionToken → Option User → Option User
owner_of t none = none
owner_of t (some u) =
    if (u.is_active && is_some u.email_verified_at) && has_email t.target u then some u else none

-- The body of the `try` of `confirm_password_reset`.
unfoldable pub apply_reset : User → ℕ → String → Action (Unit {0})
apply_reset user at new_password_hash = do
  modify (
      update_user user.id
        (λ u. record u { password = new_password_hash; password_login_enabled = true }))
  modify
      (update_action_tokens (open_for user.id (has_purpose password_reset_purpose)) (consumed at))
  modify (update_tokens (live_of_user user.id) (revoke_values at "password_reset"))

unfoldable pub confirm_password_reset : World → String → String → Action (Unit {0})
unfolding hash_account_action_token apply_reset
confirm_password_reset w token new_password = do
  found ←
      gets
        (find_action_token (hash_account_action_token w token) (has_purpose password_reset_purpose))
  at ← now w
  stored ← or_raise found (http 400 invalid_token_detail)
  raise_if (is_spent stored at) (http 400 invalid_token_detail)
  user ←
      or_raise (owner_of stored (← gets (user_by_id stored.user_id)))
        (http 400 invalid_token_detail)
  new_password_hash ← reading (λ n. w.hash_password n new_password)
  transaction w (apply_reset user at new_password_hash)
