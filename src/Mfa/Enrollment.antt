-- ===== src/Mfa/Enrollment.antt =====
-- Enrolment, regeneration and removal of a second factor: get_mfa_status, begin_totp_enrollment,
-- confirm_totp_enrollment, regenerate_recovery_codes and disable_mfa of src/app/services/mfa.py.
use fastapi_production_api.Base.{
  ℕ, ◌+◌, String, Bool, true, false, not, ◌&&◌, ◌||◌, Option, none, some, List, ◌==◌, nat_eq,
  if◌then◌else◌, is_none, is_some, leb,
}
use fastapi_production_api.Table.{count_where}
use fastapi_production_api.Models.{User, MfaRecoveryCode}
use fastapi_production_api.World.{World, minutes}
use fastapi_production_api.Db.{
  Action, http, pure, raise_if, gets, modify, or_raise, transaction, reading, ◌>>=◌, ◌>>◌,
}
use fastapi_production_api.Tokens.{now}
use fastapi_production_api.Sessions.{user_by_id}
use fastapi_production_api.ActionTokens.{update_user}
use fastapi_production_api.Mfa.Factors.{
  require_available, encrypt_secret, lock_user, verify_current_password, matching_totp_counter,
  replace_recovery_codes, delete_recovery_codes, consume_recovery_code, revoke_sessions,
  invalid_factor_detail,
}

pub record MfaStatusResponse : Type 0 where
  pub enabled : Bool
  pub recovery_codes_remaining : ℕ

abbrev pub is_unused : ℕ → MfaRecoveryCode → Bool
is_unused user_id c = c.user_id == user_id && is_none c.used_at

-- `user is not None and user.mfa_enabled_at is not None`
abbrev pub has_mfa : Option User → Bool
has_mfa none = false
has_mfa (some u) = is_some u.mfa_enabled_at

unfoldable pub get_mfa_status : ℕ → Action MfaStatusResponse
get_mfa_status user_id = do
  user ← gets (user_by_id user_id)
  unused ← gets (λ db. count_where (is_unused user_id) db.recovery_codes)
  pure (record {
    enabled = has_mfa user;
    recovery_codes_remaining = if has_mfa user then unused else 0;
  })

pub record MfaEnrollmentResponse : Type 0 where
  pub secret : String
  pub provisioning_uri : String
  pub expires_at : ℕ

-- The body of the `try` of `begin_totp_enrollment`.
unfoldable pub store_enrollment : World → User → String → ℕ → Action (Unit {0})
unfolding encrypt_secret
store_enrollment w user secret at = do
  encrypted ← encrypt_secret w secret
  modify (
      update_user user.id (λ u. record u {
        mfa_secret_encrypted = some encrypted;
        mfa_enrollment_created_at = some at;
        mfa_last_counter = none;
      }))
  modify (delete_recovery_codes user.id)

unfoldable pub begin_totp_enrollment : World → ℕ → String → Action MfaEnrollmentResponse
unfolding require_available lock_user verify_current_password store_enrollment
begin_totp_enrollment w user_id password = do
  require_available w
  user ← lock_user user_id
  verify_current_password w user password
  raise_if (is_some user.mfa_enabled_at) (http 409 "MFA is already enabled")
  at ← now w
  secret ← reading w.random_base32
  transaction w (store_enrollment w user secret at)
  pure (record {
    secret = secret;
    provisioning_uri = w.provisioning_uri secret user;
    expires_at = at + minutes w.settings.mfa_enrollment_expire_minutes;
  })

-- `mfa_enrollment_created_at is None or created_at + timedelta(...) <= now`
abbrev pub enrollment_over : World → Option ℕ → ℕ → Bool
enrollment_over w none at = true
enrollment_over w (some created) at =
    leb (created + minutes w.settings.mfa_enrollment_expire_minutes) at

abbrev pub enabled_values : ℕ → ℕ → User → User
enabled_values at counter u = record u {
  mfa_enabled_at = some at;
  mfa_enrollment_created_at = none;
  mfa_last_counter = some counter;
}

unfoldable pub confirm_totp_enrollment : World → ℕ → String → Action (List String)
unfolding lock_user matching_totp_counter replace_recovery_codes
confirm_totp_enrollment w user_id code = do
  user ← lock_user user_id
  at ← now w
  raise_if (is_some user.mfa_enabled_at || enrollment_over w user.mfa_enrollment_created_at at)
      (http 400 invalid_factor_detail)
  counter ← or_raise (← matching_totp_counter w user code at) (http 400 invalid_factor_detail)
  transaction w (do
    codes ← replace_recovery_codes w user.id
    modify (update_user user.id (enabled_values at counter))
    pure codes)

unfoldable pub regenerate_recovery_codes : World → ℕ → String → String → Action (List String)
unfolding lock_user verify_current_password matching_totp_counter replace_recovery_codes
    revoke_sessions
regenerate_recovery_codes w user_id password code = do
  user ← lock_user user_id
  verify_current_password w user password
  raise_if (is_none user.mfa_enabled_at) (http 400 invalid_factor_detail)
  at ← now w
  counter ← or_raise (← matching_totp_counter w user code at) (http 400 invalid_factor_detail)
  transaction w (do
    codes ← replace_recovery_codes w user.id
    modify (update_user user.id (λ u. record u { mfa_last_counter = some counter }))
    revoke_sessions user.id at "mfa_recovery_regenerated"
    pure codes)

abbrev pub disabled_values : User → User
disabled_values u = record u {
  mfa_secret_encrypted = none;
  mfa_enrollment_created_at = none;
  mfa_enabled_at = none;
  mfa_last_counter = none;
}

-- A recovery code is tried only where no counter matched.
abbrev pub passes_either : World → User → String → ℕ → Option ℕ → Action Bool
passes_either w user code at (some counter) = pure true
passes_either w user code at none = consume_recovery_code w user.id code at

unfoldable pub disable_mfa : World → ℕ → String → String → Action (Unit {0})
unfolding lock_user verify_current_password matching_totp_counter consume_recovery_code
    revoke_sessions
disable_mfa w user_id password code = do
  user ← lock_user user_id
  verify_current_password w user password
  raise_if (is_none user.mfa_enabled_at) (http 400 invalid_factor_detail)
  at ← now w
  counter ← matching_totp_counter w user code at
  valid ← passes_either w user code at counter
  raise_if (not valid) (http 400 invalid_factor_detail)
  transaction w (do
    modify (update_user user.id disabled_values)
    modify (delete_recovery_codes user.id)
    revoke_sessions user.id at "mfa_disabled")
