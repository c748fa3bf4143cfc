-- ===== src/Refresh.antt =====
-- Rotation, replay detection and logout of refresh tokens: src/app/auth/refresh.py.
pub mod Laws
pub mod Once
pub mod Replay
use fastapi_production_api.Base.{
  ℕ, String, Bool, true, not, ◌&&◌, Option, none, some, List, [], ◌∷◌, ◌==◌, nat_eq, string_eq,
  if◌then◌else◌, ltb,
}
use fastapi_production_api.Table.{first, update_where}
use fastapi_production_api.Models.{User, RefreshToken, Database}
use fastapi_production_api.World.{World}
use fastapi_production_api.Db.{
  Action, http, pure, raise, raise_if, gets, modify, or_raise, transaction, ◌>>=◌, ◌>>◌,
}
use fastapi_production_api.Tokens.{
  now, create_refresh_token, create_access_token, hash_refresh_token,
}
use fastapi_production_api.Sessions.{
  revoke_values, update_tokens, user_by_id, revoke_all_user_sessions, insert_refresh_token,
  account_disabled_revocation_reason,
}

abbrev pub rotation_reason : String
rotation_reason = "rotated"

abbrev pub replay_reason : String
replay_reason = "reuse_detected"

abbrev pub logout_reason : String
logout_reason = "logout"

-- `_revoke_family`: the live rows of the family.
unfoldable pub revoke_family : String → String → ℕ → Action (Unit {0})
revoke_family family_id reason at =
    modify
      (update_tokens (λ t. t.family_id == family_id && not t.revoked) (revoke_values at reason))

-- `db.query(RefreshToken).filter(RefreshToken.token == hashed_token).first()`
abbrev pub token_by_hash : String → Database → Option RefreshToken
token_by_hash hashed db = first (λ t. t.token == hashed) db.refresh_tokens

-- The attributes that a rotation sets on the stored row.
abbrev pub rotated : ℕ → RefreshToken → RefreshToken
rotated at t = record t {
  revoked = true;
  revoked_at = some at;
  revocation_reason = some rotation_reason;
  last_used_at = at;
}

-- The branch of a token that was revoked before.
unfoldable pub reject_replay {ℓ} : {A : Type ℓ} → World → RefreshToken → Action A
unfolding revoke_family
reject_replay w stored = do
  transaction w (do at ← now w; revoke_family stored.family_id replay_reason at)
  raise (http 401 "Invalid refresh token")

-- The branch of an account that is disabled.
unfoldable pub reject_inactive {ℓ} : {A : Type ℓ} → World → User → Action A
unfolding revoke_all_user_sessions
reject_inactive w user = do
  revoke_all_user_sessions w user.id account_disabled_revocation_reason
  raise (http 401 "Invalid refresh token")

-- The rotation itself, from the new token on.
unfoldable pub rotate : World → RefreshToken → User → Action (String × String)
unfolding create_refresh_token create_access_token insert_refresh_token hash_refresh_token
rotate w stored user = do
  (new_refresh_token, expires_at) ← create_refresh_token w
  transaction w (do
    at ← now w
    modify (update_tokens (λ t. t.id == stored.id) (rotated at))
    insert_refresh_token w user.id stored.family_id (hash_refresh_token w new_refresh_token)
        expires_at stored.device_name)
  access_token ← create_access_token w user.username ("refresh" ∷ []) none
  pure (access_token, new_refresh_token)

unfoldable pub refresh_access_token : World → String → Action (String × String)
unfolding hash_refresh_token
refresh_access_token w refresh_token = do
  stored ←
      or_raise (← gets (token_by_hash (hash_refresh_token w refresh_token)))
        (http 401 "Invalid refresh token")
  if stored.revoked then reject_replay w stored else do
    at ← now w
    raise_if (ltb stored.expires_at at) (http 401 "Refresh token expired")
    user ← or_raise (← gets (user_by_id stored.user_id)) (http 401 "User not found")
    if user.is_active then rotate w stored user else reject_inactive w user

unfoldable pub revoke_refresh_token : World → String → Action Bool
unfolding revoke_family hash_refresh_token
revoke_refresh_token w refresh_token = do
  stored ←
      or_raise (← gets (token_by_hash (hash_refresh_token w refresh_token)))
        (http 401 "Invalid refresh token")
  transaction w (do at ← now w; revoke_family stored.family_id logout_reason at)
  pure true
