-- ===== src/Access/Guards.antt =====
-- The access token and the guards of a request: verify.py, decode_token.py, current_user.py,
-- permissions.py, recent_auth.py and mfa.py of src/app/auth.
use fastapi_production_api.Login.{user_by_name}
use fastapi_production_api.Tokens.{now}
use fastapi_production_api.Models.{User}
use fastapi_production_api.Db.{
  Action, gets, or_raise, pure, raise_if, reading, ◌>>=◌, ◌>>◌, http, value_error,
}
use fastapi_production_api.World.{AccessClaims, World, minutes, second, seconds}
use fastapi_production_api.Base.{
  false, none, some, [], ◌∷◌, ◌&&◌, ◌*◌, ◌+◌, ◌-◌, ◌==◌, Bool, List, Option, String, ltb, not, ◌||◌,
  ℕ, nat_eq, string_eq, if◌then◌else◌,
}

-- schemas of src/app/auth/token_payload.py
pub record TokenPayload : Type 0 where
  pub sub : String
  pub amr : List String
  pub auth_time : Option ℕ

unfoldable pub verify_token : World → String → Action AccessClaims
verify_token w token = do
  payload ← reading (λ n. w.decode_jwt n token)
  or_raise payload (http 401 "Invalid token")

-- `TokenPayload(**payload)` raises pydantic's ValidationError, a ValueError, for other types.
unfoldable pub decode_token : World → String → Action TokenPayload
unfolding verify_token
decode_token w token = do
  payload ← verify_token w token
  sub ← or_raise payload.sub (http 401 "Invalid token")
  raise_if (not payload.well_typed) (value_error "TokenPayload")
  pure (record { sub = sub; amr = payload.amr; auth_time = payload.auth_time })

unfoldable pub get_current_user : World → String → Action User
unfolding decode_token
get_current_user w token = do
  payload ← decode_token w token
  raise_if (payload.sub == "") (http 401 "Invalid token")
  user ← or_raise (← gets (user_by_name payload.sub)) (http 401 "User not found")
  raise_if (not user.is_active) (http 401 "Inactive user")
  pure user

unfoldable pub require_admin : User → Action User
require_admin user = do
  raise_if (not (user.role == "admin")) (http 403 "Admin access required")
  pure user

-- `method in payload.amr`
abbrev pub contains : String → List String → Bool
contains method [] = false
contains method (m ∷ ms) = m == method || contains method ms

-- `{"pwd", "oidc"} & set(amr)`
abbrev pub has_primary : List String → Bool
has_primary amr = contains "pwd" amr || contains "oidc" amr

-- `authenticated_at > now + timedelta(seconds=30) or now - authenticated_at > timedelta(minutes=age)`
abbrev pub out_of_range : ℕ → ℕ → ℕ → Bool
out_of_range at now_at age = ltb (now_at + seconds 30) at || ltb (minutes age) (now_at - at)

-- The time at which the session was authenticated, where the methods are enough.
abbrev pub authenticated_at : Bool → Option ℕ → Option ℕ
authenticated_at enough none = none
authenticated_at enough (some t) = if enough then some (t * second) else none

-- The body that the two guards share but for the methods, the age and the detail.
abbrev pub require_recent : World → Bool → ℕ → String → TokenPayload → Action TokenPayload
require_recent w enough age detail payload = do
  at ← or_raise (authenticated_at enough payload.auth_time) (http 403 detail)
  now_at ← now w
  raise_if (out_of_range at now_at age) (http 403 detail)
  pure payload

unfoldable pub require_recent_authentication : World → String → Action TokenPayload
unfolding decode_token
require_recent_authentication w token = do
  payload ← decode_token w token
  require_recent w (has_primary payload.amr) w.settings.oidc_recent_auth_max_age_minutes
      "Recent authentication required" payload

unfoldable pub require_recent_mfa : World → String → Action TokenPayload
unfolding decode_token
require_recent_mfa w token = do
  payload ← decode_token w token
  require_recent w (contains "otp" payload.amr && has_primary payload.amr)
      w.settings.mfa_step_up_max_age_minutes "Recent MFA authentication required" payload
