-- ===== src/Login.antt =====
-- Password login: src/app/auth/login.py.
pub mod Laws
use fastapi_production_api.Base.{
  String, Bool, true, not, ◌||◌, ◌&&◌, Option, none, some, List, [], ◌∷◌, ◌==◌, string_eq,
  if◌then◌else◌, is_some,
}
use fastapi_production_api.Table.{first}
use fastapi_production_api.Models.{User, Database}
use fastapi_production_api.World.{World}
use fastapi_production_api.Db.{
  Action, http, pure, raise_if, gets, or_raise, transaction, ◌>>=◌, ◌>>◌,
}
use fastapi_production_api.Sessions.{Token, or_inactive, prepare_session_tokens}
use fastapi_production_api.Mfa.Challenge.{MfaChallengeResponse, issue_mfa_login_challenge}

-- `Token | MFAChallengeResponse`
pub data LoginResponse : Type 0 where
  tokens : Token → LoginResponse
  challenge : MfaChallengeResponse → LoginResponse

abbrev pub user_by_name : String → Database → Option User
user_by_name username db = first (λ u. u.username == username) db.users

unfoldable pub issue_challenge : World → User → String → Action LoginResponse
unfolding issue_mfa_login_challenge
issue_challenge w user device_name = do
  response ← issue_mfa_login_challenge w user device_name
  pure (challenge response)

unfoldable pub start_session : World → User → String → Action LoginResponse
unfolding prepare_session_tokens
start_session w user device_name = do
  issued ← transaction w (prepare_session_tokens w user device_name ("pwd" ∷ []))
  pure (tokens issued)

unfoldable pub login : World → String → String → String → Action LoginResponse
login w username password device_name = do
  user ←
      or_raise (or_inactive (← gets (user_by_name username)))
        (http 401 "Invalid username or password")
  raise_if (not user.password_login_enabled || not (w.verify_password password user.password))
      (http 401 "Invalid username or password")
  if is_some user.mfa_enabled_at
      then issue_challenge w user device_name
      else start_session w user device_name
