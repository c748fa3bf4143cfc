-- ===== src/ActionTokens.antt =====
-- The table of single-use account tokens, as the services for email verification, password reset and
-- MFA challenges use it: src/app/models/account_action_token.py and the statements that
-- src/app/services/email_verification.py, password_reset.py and mfa.py share.
pub mod Laws
use fastapi_production_api.Base.{
  ℕ, String, Bool, true, false, not, ◌&&◌, ◌||◌, Option, none, some, ◌==◌, nat_eq, string_eq,
  if◌then◌else◌, leb, is_none, is_some,
}
use fastapi_production_api.Table.{first, update_where, add_row}
use fastapi_production_api.Models.{User, AccountActionToken, Database}
use fastapi_production_api.World.{World}
use fastapi_production_api.Db.{Action, modify, reading, ◌>>=◌, ◌>>◌}
use fastapi_production_api.Tokens.{now}

abbrev pub email_verification_purpose : String
email_verification_purpose = "email_verification"

abbrev pub password_reset_purpose : String
password_reset_purpose = "password_reset"

abbrev pub mfa_login_purpose : String
mfa_login_purpose = "mfa_login"

abbrev pub oidc_mfa_login_purpose : String
oidc_mfa_login_purpose = "mfa_login_oidc"

-- `AccountActionToken.purpose == purpose`, and the `in_` of the two MFA purposes.
abbrev pub has_purpose : String → AccountActionToken → Bool
has_purpose purpose t = t.purpose == purpose

abbrev pub has_mfa_purpose : AccountActionToken → Bool
has_mfa_purpose t = has_purpose mfa_login_purpose t || has_purpose oidc_mfa_login_purpose t

-- `user_id == user_id, <purpose>, consumed_at.is_(None)`
abbrev pub open_for : ℕ → (AccountActionToken → Bool) → AccountActionToken → Bool
open_for user_id purpose t = t.user_id == user_id && (purpose t && is_none t.consumed_at)

abbrev pub consumed : ℕ → AccountActionToken → AccountActionToken
consumed at t = record t { consumed_at = some at }

abbrev pub update_action_tokens :
    (AccountActionToken → Bool) → (AccountActionToken → AccountActionToken) → Database → Database
update_action_tokens p f db = record db { action_tokens = update_where p f db.action_tokens }

abbrev pub matching : String → (AccountActionToken → Bool) → AccountActionToken → Bool
matching token_hash purpose t = t.token_hash == token_hash && purpose t

-- `db.query(...).filter(token_hash == token_hash, <purpose>).first()`
abbrev pub find_action_token :
    String → (AccountActionToken → Bool) → Database → Option AccountActionToken
find_action_token token_hash purpose db = first (matching token_hash purpose) db.action_tokens

-- `stored.consumed_at is not None or as_utc(stored.expires_at) <= now`
abbrev pub is_spent : AccountActionToken → ℕ → Bool
is_spent t at = is_some t.consumed_at || leb t.expires_at at

-- `db.add(AccountActionToken(...))`, with the id and `created_at` that the row gets.
unfoldable pub insert_action_token : World → ℕ → String → String → String → ℕ → Action (Unit {0})
insert_action_token w user_id purpose token_hash target expires_at = do
  id ← reading w.row_id
  created_at ← now w
  modify λ db. record db {
    action_tokens =
        add_row
          (record {
            id = id;
            user_id = user_id;
            purpose = purpose;
            token_hash = token_hash;
            target = target;
            expires_at = expires_at;
            consumed_at = none;
            created_at = created_at;
          })
          db.action_tokens;
  }

-- Attributes of a user row that the request has loaded.
abbrev pub update_user : ℕ → (User → User) → Database → Database
update_user user_id f db = record db { users = update_where (λ u. u.id == user_id) f db.users }

-- `db.query(User).filter(User.email == email).first()`
abbrev pub has_email : String → User → Bool
has_email email u = elim u.email [ none ↦ false | some e ↦ e == email ]

abbrev pub user_by_email : String → Database → Option User
user_by_email email db = first (has_email email) db.users
