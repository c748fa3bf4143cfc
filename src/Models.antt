-- ===== src/Models.antt =====
-- The rows of the tables (src/app/models) that the modelled code reads and writes.
-- A `datetime` is a number of microseconds: the code brings every stored time to UTC before it
-- compares, so `as_utc` is the identity here. `User.created_at` and `User.updated_at`, which the ORM
-- fills in and no modelled code reads, are left out.
use fastapi_production_api.Base.{ℕ, String, Bool, Option, List}

pub record User : Type 0 where
  pub id : ℕ
  pub username : String
  pub password : String
  pub password_login_enabled : Bool
  pub role : String
  pub email : Option String
  pub email_verified_at : Option ℕ
  pub mfa_secret_encrypted : Option String
  pub mfa_enrollment_created_at : Option ℕ
  pub mfa_enabled_at : Option ℕ
  pub mfa_last_counter : Option ℕ
  pub is_active : Bool

pub record RefreshToken : Type 0 where
  pub id : ℕ
  pub user_id : ℕ
  pub family_id : String
  pub token : String
  pub expires_at : ℕ
  pub created_at : ℕ
  pub last_used_at : ℕ
  pub device_name : String
  pub revoked : Bool
  pub revoked_at : Option ℕ
  pub revocation_reason : Option String

pub record AccountActionToken : Type 0 where
  pub id : ℕ
  pub user_id : ℕ
  pub purpose : String
  pub token_hash : String
  pub target : String
  pub expires_at : ℕ
  pub consumed_at : Option ℕ
  pub created_at : ℕ

pub record MfaRecoveryCode : Type 0 where
  pub id : ℕ
  pub user_id : ℕ
  pub code_hash : String
  pub created_at : ℕ
  pub used_at : Option ℕ

-- The texts that `ck_outbox_messages_status` allows.
pub data Status : Type 0 where
  pending processing succeeded dead_letter : Status

pub record OutboxMessage : Type 0 where
  pub id : ℕ
  pub message_type : String
  pub idempotency_key : String
  pub encryption_version : ℕ
  pub payload_encrypted : Option String
  pub status : Status
  pub attempt_count : ℕ
  pub available_at : ℕ
  pub lease_owner : Option String
  pub lease_expires_at : Option ℕ
  pub payload_expires_at : ℕ
  pub failure_category : Option String
  pub traceparent : Option String
  pub tracestate : Option String
  pub created_at : ℕ
  pub updated_at : ℕ
  pub terminal_at : Option ℕ

pub record ExternalIdentity : Type 0 where
  pub id : ℕ
  pub user_id : ℕ
  pub issuer : String
  pub subject : String
  pub email : Option String
  pub created_at : ℕ
  pub last_login_at : Option ℕ

pub record OidcTransaction : Type 0 where
  pub id : ℕ
  pub state_hash : String
  pub browser_binding_hash : String
  pub nonce_hash : String
  pub code_verifier_encrypted : String
  pub intent : String
  pub user_id : Option ℕ
  pub issuer : String
  pub redirect_uri : String
  pub device_name : String
  pub expires_at : ℕ
  pub consumed_at : Option ℕ
  pub created_at : ℕ

-- The tables together.
pub record Database : Type 0 where
  pub users : List User
  pub refresh_tokens : List RefreshToken
  pub action_tokens : List AccountActionToken
  pub recovery_codes : List MfaRecoveryCode
  pub outbox : List OutboxMessage
  pub external_identities : List ExternalIdentity
  pub oidc_transactions : List OidcTransaction
