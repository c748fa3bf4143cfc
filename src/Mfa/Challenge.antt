-- ===== src/Mfa/Challenge.antt =====
-- The second step of a login: prepare_mfa_login_challenge, issue_mfa_login_challenge and
-- verify_mfa_login_challenge of src/app/services/mfa.py.
use fastapi_production_api.Base.{
  ℕ, ◌+◌, ◌*◌, String, not, ◌||◌, Option, none, some, [], ◌∷◌, ◌==◌, nat_eq, string_eq,
  if◌then◌else◌, is_none,
}
use fastapi_production_api.Models.{User, AccountActionToken}
use fastapi_production_api.World.{World, minutes}
use fastapi_production_api.Db.{
  Action, http, value_error, pure, raise_if, gets, modify, or_raise, transaction, ◌>>=◌, ◌>>◌,
}
use fastapi_production_api.Tokens.{now, generate_account_action_token, hash_account_action_token}
use fastapi_production_api.Sessions.{Token, prepare_session_tokens}
use fastapi_production_api.ActionTokens.{
  mfa_login_purpose, oidc_mfa_login_purpose, has_mfa_purpose, open_for, consumed,
  update_action_tokens, find_action_token, is_spent, insert_action_token, update_user,
}
use fastapi_production_api.Mfa.Factors.{
  require_available, lock_user, matching_totp_counter, consume_recovery_code, revoke_sessions,
  invalid_factor_detail, invalid_challenge_detail,
}

-- schemas/mfa.py; `mfa_required` is always true.
pub record MfaChallengeResponse : Type 0 where
  pub challenge_token : String
  pub expires_in : ℕ

unfoldable pub prepare_mfa_login_challenge :
    World → User → String → String → Action MfaChallengeResponse
unfolding require_available insert_action_token hash_account_action_token
prepare_mfa_login_challenge w user device_name primary_method = do
  require_available w
  raise_if (not (primary_method == "pwd" || primary_method == "oidc"))
      (value_error "Unsupported primary authentication method")
  at ← now w
  raw_token ← generate_account_action_token w
  modify (update_action_tokens (open_for user.id has_mfa_purpose) (consumed at))
  insert_action_token w user.id
      (if primary_method == "oidc" then oidc_mfa_login_purpose else mfa_login_purpose)
      (hash_account_action_token w raw_token) device_name
      (at + minutes w.settings.mfa_challenge_expire_minutes)
  pure (record {
    challenge_token = raw_token;
    expires_in = w.settings.mfa_challenge_expire_minutes * 60;
  })

unfoldable pub issue_mfa_login_challenge : World → User → String → Action MfaChallengeResponse
unfolding prepare_mfa_login_challenge
issue_mfa_login_challenge w user device_name =
    transaction w (prepare_mfa_login_challenge w user device_name "pwd")

-- The factor that the code passes: the TOTP counter, or else a recovery code, which revokes the
-- user's sessions; with the authentication method that the access token names.
unfoldable pub recovery_factor : World → User → String → ℕ → Option ℕ → Action String
unfolding consume_recovery_code revoke_sessions
recovery_factor w user code at (some counter) = pure "otp"
recovery_factor w user code at none = do
  used ← consume_recovery_code w user.id code at
  raise_if (not used) (http 400 invalid_factor_detail)
  revoke_sessions user.id at "mfa_recovery_used"
  pure "recovery"

-- `if counter is not None: user.mfa_last_counter = counter`
unfoldable pub record_counter : ℕ → Option ℕ → Action (Unit {0})
record_counter user_id none = pure tt
record_counter user_id (some counter) =
    modify (update_user user_id (λ u. record u { mfa_last_counter = some counter }))

-- The body of the `try` of `verify_mfa_login_challenge`.
unfoldable pub finish_login :
    World → AccountActionToken → User → Option ℕ → String → ℕ → Action Token
unfolding record_counter prepare_session_tokens
finish_login w challenge user counter authentication_method at = do
  modify (update_action_tokens (λ t. t.id == challenge.id) (consumed at))
  record_counter user.id counter
  let primary_method : String =
      if challenge.purpose == oidc_mfa_login_purpose then "oidc" else "pwd"
  prepare_session_tokens w user challenge.target (primary_method ∷ authentication_method ∷ [])

unfoldable pub verify_mfa_login_challenge : World → String → String → Action Token
unfolding require_available lock_user matching_totp_counter recovery_factor finish_login
    hash_account_action_token
verify_mfa_login_challenge w challenge_token code = do
  require_available w
  at ← now w
  challenge ←
      or_raise
        (← gets (find_action_token (hash_account_action_token w challenge_token) has_mfa_purpose))
        (http 400 invalid_challenge_detail)
  raise_if (is_spent challenge at) (http 400 invalid_challenge_detail)
  user ← lock_user challenge.user_id
  raise_if (is_none user.mfa_enabled_at) (http 400 invalid_challenge_detail)
  counter ← matching_totp_counter w user code at
  authentication_method ← recovery_factor w user code at counter
  transaction w (finish_login w challenge user counter authentication_method at)
