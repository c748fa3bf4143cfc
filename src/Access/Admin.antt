-- ===== src/Access/Admin.antt =====
-- The routes of src/app/api/v1/admin.py.
use fastapi_production_api.ActionTokens.{update_user}
use fastapi_production_api.Access.Guards.{get_current_user, require_admin}
use fastapi_production_api.Table.{delete_where}
use fastapi_production_api.Sessions.{
  account_disabled_revocation_reason, revoke_all_user_sessions, user_by_id,
}
use fastapi_production_api.World.{World}
use fastapi_production_api.Models.{Database, User}
use fastapi_production_api.Db.{Action, commit, gets, modify, or_raise, pure, ◌>>=◌, ◌>>◌, http}
use fastapi_production_api.Base.{
  true, false, none, some, ◌==◌, Bool, List, Option, String, ℕ, nat_eq, string_eq,
}

-- The dependency and the first statement of every route.
unfoldable pub admin_only : World → String → Action User
unfolding get_current_user require_admin
admin_only w token = do current_user ← get_current_user w token; require_admin current_user

unfoldable pub list_users : World → String → Action (List User)
unfolding admin_only
list_users w token = do admin_only w token; gets (λ db. db.users)

-- `user = db.query(User).filter(User.id == user_id).first(); if not user: raise ...`
abbrev pub known_user : ℕ → Action User
known_user user_id = do or_raise (← gets (user_by_id user_id)) (http 404 "User not found")

unfoldable pub get_user : World → String → ℕ → Action User
unfolding admin_only
get_user w token user_id = do admin_only w token; known_user user_id

-- `db.refresh(user)` reads the row again, which changes nothing here.
unfoldable pub update_user_role : World → String → ℕ → String → Action User
unfolding admin_only
update_user_role w token user_id role = do
  admin_only w token
  user ← known_user user_id
  modify (update_user user.id (λ u. record u { role = role }))
  commit w
  pure (record user { role = role })

-- The body of the `try`: an account that is switched off loses its sessions in the same commit.
unfoldable pub store_status : World → User → Bool → Action (Unit {0})
unfolding revoke_all_user_sessions
store_status w user true = commit w
store_status w user false = revoke_all_user_sessions w user.id account_disabled_revocation_reason

unfoldable pub update_user_status : World → String → ℕ → Bool → Action User
unfolding admin_only store_status
update_user_status w token user_id is_active = do
  admin_only w token
  user ← known_user user_id
  modify (update_user user.id (λ u. record u { is_active = is_active }))
  store_status w user is_active
  pure (record user { is_active = is_active })

-- `user_id == user.id` for a nullable column.
abbrev pub refers_to : ℕ → Option ℕ → Bool
refers_to user_id none = false
refers_to user_id (some u) = u == user_id

-- `db.delete(user)`, with the rows that ON DELETE CASCADE takes along. The foreign key of
-- refresh_tokens has no ON DELETE.
abbrev pub delete_account : ℕ → Database → Database
delete_account user_id db = record db {
  users = delete_where (λ u. u.id == user_id) db.users;
  action_tokens = delete_where (λ t. t.user_id == user_id) db.action_tokens;
  recovery_codes = delete_where (λ c. c.user_id == user_id) db.recovery_codes;
  external_identities = delete_where (λ i. i.user_id == user_id) db.external_identities;
  oidc_transactions = delete_where (λ t. refers_to user_id t.user_id) db.oidc_transactions;
}

unfoldable pub delete_user : World → String → ℕ → Action (Unit {0})
unfolding admin_only
delete_user w token user_id = do
  admin_only w token
  user ← known_user user_id
  modify (delete_account user.id)
  commit w
