-- ===== src/Tokens.antt =====
-- The secrets that the services hand out (src/app/auth/refresh_token.py,
-- src/app/services/account_action_tokens.py) and the access token (src/app/auth/jwt.py).
use fastapi_production_api.Base.{ℕ, ◌+◌, String, Option, List}
use fastapi_production_api.World.{World, minutes, days}
use fastapi_production_api.Db.{Action, pure, reading, ◌>>=◌}

unfoldable pub hash_refresh_token : World → String → String
hash_refresh_token w token = w.sha256 token

unfoldable pub hash_account_action_token : World → String → String
hash_account_action_token w token = w.sha256 token

-- `datetime.now(UTC)`, `utc_now()`
abbrev pub now : World → Action ℕ
now w = reading w.clock

-- `secrets.token_urlsafe`
abbrev pub generate_account_action_token : World → Action String
generate_account_action_token w = reading w.random

-- `str(uuid4())`
abbrev pub create_refresh_token_family_id : World → Action String
create_refresh_token_family_id w = reading w.random

unfoldable pub create_refresh_token : World → Action (String × ℕ)
create_refresh_token w = do
  token ← reading w.random
  at ← now w
  pure (token, at + days w.settings.refresh_token_expire_days)

unfoldable pub create_access_token : World → String → List String → Option ℕ → Action String
create_access_token w sub amr auth_time = do
  at ← now w
  pure (
      w.encode_jwt (record {
        sub = sub;
        amr = amr;
        auth_time = auth_time;
        exp = at + minutes w.settings.access_token_expire_minutes;
        aud = w.settings.jwt_audience;
        iss = w.settings.jwt_issuer;
      }))
