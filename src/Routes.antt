-- ===== src/Routes.antt =====
-- The routes of src/app/api/v1 that call the services: auth.py, sessions.py, mfa.py, oidc.py,
-- email_verification.py and password_reset.py. A dependency is called before the body, in the
-- order of the parameters.
pub mod Answers
use fastapi_production_api.Refresh.{refresh_access_token, revoke_refresh_token}
use fastapi_production_api.Oidc.Links.{list_external_identities, unlink_external_identity}
use fastapi_production_api.Access.Guards.{get_current_user, require_recent_authentication}
use fastapi_production_api.PasswordReset.{confirm_password_reset, issue_password_reset_token}
use fastapi_production_api.EmailVerification.{
  confirm_email_verification, issue_email_verification_token,
}
use fastapi_production_api.World.{World}
use fastapi_production_api.Sessions.{
  Token, revoke_all_user_sessions, revoke_session_family, user_revocation_reason,
}
use fastapi_production_api.Oidc.Interface.{Provider}
use fastapi_production_api.Oidc.Complete.{OidcCallbackResult, complete_oidc_authorization}
use fastapi_production_api.Oidc.Begin.{OidcAuthorizationStart, begin_oidc_authorization}
use fastapi_production_api.Models.{ExternalIdentity, User}
use fastapi_production_api.Sessions.Listing.{DeviceSession, list_active_sessions}
use fastapi_production_api.Mfa.Enrollment.{
  MfaStatusResponse, MfaEnrollmentResponse, begin_totp_enrollment, confirm_totp_enrollment,
  disable_mfa, get_mfa_status, regenerate_recovery_codes,
}
use fastapi_production_api.Db.{pure, reading, ◌>>=◌, ◌>>◌, Action}
use fastapi_production_api.Base.{
  String, ℕ, Bool, true, false, not, ◌&&◌, ◌==◌, Option, none, some, List, [], ◌∷◌, if◌then◌else◌,
  nat_eq, string_eq,
}

unfoldable pub get_me : World → String → Action User
unfolding get_current_user
get_me w token = get_current_user w token

unfoldable pub refresh : World → String → Action Token
unfolding refresh_access_token
refresh w refresh_token = do
  issued ← refresh_access_token w refresh_token
  pure (record { access_token = issued.0; refresh_token = issued.1; token_type = "bearer" })

unfoldable pub logout : World → String → Action String
unfolding revoke_refresh_token
logout w refresh_token = do revoke_refresh_token w refresh_token; pure "Logged out successfully"

unfoldable pub get_sessions : World → String → Action (List DeviceSession)
unfolding get_current_user list_active_sessions
get_sessions w token = do
  current_user ← get_current_user w token
  list_active_sessions w current_user.id

unfoldable pub revoke_session : World → String → String → Action String
unfolding get_current_user revoke_session_family
revoke_session w token session_id = do
  current_user ← get_current_user w token
  revoke_session_family w current_user.id session_id
  pure "Session revoked"

unfoldable pub revoke_all_sessions : World → String → Action String
unfolding get_current_user revoke_all_user_sessions
revoke_all_sessions w token = do
  current_user ← get_current_user w token
  revoke_all_user_sessions w current_user.id user_revocation_reason
  pure "All sessions revoked"

unfoldable pub mfa_status : World → String → Action MfaStatusResponse
unfolding get_current_user get_mfa_status
mfa_status w token = do current_user ← get_current_user w token; get_mfa_status current_user.id

unfoldable pub enroll_totp : World → String → String → Action MfaEnrollmentResponse
unfolding get_current_user begin_totp_enrollment
enroll_totp w token password = do
  current_user ← get_current_user w token
  begin_totp_enrollment w current_user.id password

unfoldable pub confirm_totp : World → String → String → Action (List String)
unfolding get_current_user confirm_totp_enrollment
confirm_totp w token code = do
  current_user ← get_current_user w token
  confirm_totp_enrollment w current_user.id code

unfoldable pub regenerate_codes : World → String → String → String → Action (List String)
unfolding get_current_user regenerate_recovery_codes
regenerate_codes w token password code = do
  current_user ← get_current_user w token
  regenerate_recovery_codes w current_user.id password code

unfoldable pub disable : World → String → String → String → Action String
unfolding get_current_user disable_mfa
disable w token password code = do
  current_user ← get_current_user w token
  disable_mfa w current_user.id password code
  pure "MFA disabled"

unfoldable pub authorize_login : World → Provider → String → Action OidcAuthorizationStart
unfolding begin_oidc_authorization
authorize_login w provider device_name =
    begin_oidc_authorization w provider "login" device_name none

unfoldable pub authorize_link : World → Provider → String → String → Action OidcAuthorizationStart
unfolding get_current_user require_recent_authentication begin_oidc_authorization
authorize_link w provider token device_name = do
  current_user ← get_current_user w token
  require_recent_authentication w token
  begin_oidc_authorization w provider "link" device_name (some current_user.id)

-- `state or ""`
abbrev pub or_empty : Option String → String
or_empty none = ""
or_empty (some s) = s

unfoldable pub callback :
    World → Provider → Option String → Option String → Option String → Action OidcCallbackResult
unfolding complete_oidc_authorization
callback w provider state code browser_binding =
    complete_oidc_authorization w provider (or_empty state) (or_empty code) browser_binding

unfoldable pub identities : World → String → Action (List ExternalIdentity)
unfolding get_current_user list_external_identities
identities w token = do
  current_user ← get_current_user w token
  list_external_identities current_user.id

unfoldable pub unlink_identity : World → String → ℕ → Action String
unfolding get_current_user require_recent_authentication unlink_external_identity
unlink_identity w token identity_id = do
  current_user ← get_current_user w token
  require_recent_authentication w token
  unlink_external_identity w identity_id current_user.id
  pure "External identity unlinked"

-- `sender is None and settings.EMAIL_DELIVERY_MODE != "outbox"`, with whether there is a sender.
abbrev pub cannot_send : World → Bool → Bool
cannot_send w has_sender = not has_sender && not (w.settings.email_delivery_mode == "outbox")

-- The `try` of a send: one reading of the outside, whose exceptions are swallowed.
abbrev pub send_quietly : World → Bool → String → Option (String × String) → Action (Unit {0})
send_quietly w has_sender url none = pure tt
send_quietly w false url (some delivery) = pure tt
send_quietly w true url (some (recipient, raw_token)) = do
  reading (λ n. w.smtp n (record { action_url = url; recipient = recipient; token = raw_token }))
  pure tt

abbrev pub verification_accepted : String
verification_accepted = "If the address is eligible, a verification email will be sent shortly"

unfoldable pub request_email_verification : World → Bool → String → Action String
unfolding issue_email_verification_token
request_email_verification w has_sender email =
    if cannot_send w has_sender
    then pure verification_accepted
    else issue_email_verification_token w email >>= λ delivery.
        send_quietly w has_sender w.settings.email_verification_url delivery
        >> pure verification_accepted

unfoldable pub confirm_verification : World → String → Action String
unfolding confirm_email_verification
confirm_verification w token = do confirm_email_verification w token; pure "Email address verified"

abbrev pub reset_accepted : String
reset_accepted = "If the address is eligible, a password reset email will be sent"

unfoldable pub request_password_reset : World → Bool → String → Action String
unfolding issue_password_reset_token
request_password_reset w has_sender email =
    if cannot_send w has_sender
    then pure reset_accepted
    else issue_password_reset_token w email >>= λ delivery.
        send_quietly w has_sender w.settings.password_reset_url delivery >> pure reset_accepted

unfoldable pub confirm_reset : World → String → String → Action String
unfolding confirm_password_reset
confirm_reset w token new_password = do
  confirm_password_reset w token new_password
  pure "Password reset successfully"
