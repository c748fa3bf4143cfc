-- ===== src/Sessions.antt =====
-- Refresh-token families: the revocations of src/app/services/sessions.py and the issue of a new
-- family in src/app/services/session_issuance.py.
pub mod Laws
pub mod Listing
pub mod Ended
use fastapi_production_api.Base.{
  ℕ, ◌/◌, String, Bool, true, false, not, ◌&&◌, Option, none, some, List, ◌==◌, nat_eq, string_eq,
  if◌then◌else◌,
}
use fastapi_production_api.Table.{first, update_where, add_row}
use fastapi_production_api.Models.{User, RefreshToken, Database}
use fastapi_production_api.World.{World, second}
use fastapi_production_api.Db.{
  Action, http, pure, raise, gets, modify, reading, flush, or_raise, transaction, ◌>>=◌, ◌>>◌,
}
use fastapi_production_api.Tokens.{
  now, create_refresh_token, create_refresh_token_family_id, create_access_token,
  hash_refresh_token,
}

abbrev pub user_revocation_reason : String
user_revocation_reason = "user_revoked"

abbrev pub account_disabled_revocation_reason : String
account_disabled_revocation_reason = "account_disabled"

-- `.values(revoked=True, revoked_at=at, revocation_reason=reason)`
abbrev pub revoke_values : ℕ → String → RefreshToken → RefreshToken
revoke_values at reason t = record t {
  revoked = true;
  revoked_at = some at;
  revocation_reason = some reason;
}

-- `RefreshToken.user_id == user_id, RefreshToken.revoked.is_(False)`
abbrev pub live_of_user : ℕ → RefreshToken → Bool
live_of_user user_id t = t.user_id == user_id && not t.revoked

-- `if family_id is not None: statement.where(RefreshToken.family_id == family_id)`
abbrev pub in_family : Option String → RefreshToken → Bool
in_family none t = true
in_family (some family_id) t = t.family_id == family_id

-- One `update(RefreshToken)` statement.
abbrev pub update_tokens :
    (RefreshToken → Bool) → (RefreshToken → RefreshToken) → Database → Database
update_tokens p f db = record db { refresh_tokens = update_where p f db.refresh_tokens }

-- `_revoke_user_sessions`
unfoldable pub revoke_user_sessions : World → ℕ → Option String → String → Action (Unit {0})
revoke_user_sessions w user_id family_id reason = do
  at ← now w
  transaction w (
      modify (
        update_tokens (λ t. live_of_user user_id t && in_family family_id t)
          (revoke_values at reason)))

unfoldable pub revoke_session_family : World → ℕ → String → Action (Unit {0})
unfolding revoke_user_sessions
revoke_session_family w user_id family_id =
    revoke_user_sessions w user_id (some family_id) user_revocation_reason

unfoldable pub revoke_all_user_sessions : World → ℕ → String → Action (Unit {0})
unfolding revoke_user_sessions
revoke_all_user_sessions w user_id reason = revoke_user_sessions w user_id none reason

-- The response of a login, schemas/token.py; `token_type` is always "bearer".
pub record Token : Type 0 where
  pub access_token : String
  pub refresh_token : String
  pub token_type : String

abbrev pub user_by_id : ℕ → Database → Option User
user_by_id user_id db = first (λ u. u.id == user_id) db.users

-- `active_user is None or not active_user.is_active`
abbrev pub or_inactive : Option User → Option User
or_inactive none = none
or_inactive (some u) = if u.is_active then some u else none

-- A new row with the defaults of the model: the id, `created_at` and `last_used_at`.
unfoldable pub insert_refresh_token : World → ℕ → String → String → ℕ → String → Action (Unit {0})
insert_refresh_token w user_id family_id token expires_at device_name = do
  id ← reading w.row_id
  created_at ← now w
  last_used_at ← now w
  modify λ db. record db {
    refresh_tokens =
        add_row
          (record {
            id = id;
            user_id = user_id;
            family_id = family_id;
            token = token;
            expires_at = expires_at;
            created_at = created_at;
            last_used_at = last_used_at;
            device_name = device_name;
            revoked = false;
            revoked_at = none;
            revocation_reason = none;
          })
          db.refresh_tokens;
  }

unfoldable pub prepare_session_tokens : World → User → String → List String → Action Token
unfolding create_access_token create_refresh_token insert_refresh_token hash_refresh_token
prepare_session_tokens w user device_name authentication_methods = do
  flush w
  active_user ←
      or_raise (or_inactive (← gets (user_by_id user.id)))
        (http 401 "Authentication is not available")
  authenticated_at ← now w
  access_token ←
      create_access_token w active_user.username authentication_methods
        (some (authenticated_at / second))
  (refresh_token, expires_at) ← create_refresh_token w
  family_id ← create_refresh_token_family_id w
  insert_refresh_token w active_user.id family_id (hash_refresh_token w refresh_token) expires_at
      device_name
  pure
      (record { access_token = access_token; refresh_token = refresh_token; token_type = "bearer" })
