-- ===== src/Examples/Data.antt =====
-- A small world: a clock that gives a second per reading, constant draws, texts as their own hashes.
use fastapi_production_api.Base.{
  ◌*◌, ◌+◌, true, false, none, some, [], ◌∷◌, ◌==◌, string_eq, if◌then◌else◌, nat_eq,
}
use fastapi_production_api.Models.{
  User, RefreshToken, AccountActionToken, OutboxMessage, Database, pending, processing,
}
use fastapi_production_api.World.{World, Settings, second, sent}
use fastapi_production_api.Db.{Session}

abbrev pub sample_settings : Settings
sample_settings = record {
  access_token_expire_minutes = 30;
  refresh_token_expire_days = 7;
  jwt_audience = "api";
  jwt_issuer = "issuer";
  rate_limit_limit = 2;
  rate_limit_window_seconds = 60;
  email_delivery_mode = "outbox";
  outbox_batch_size = 10;
  outbox_lease_seconds = 60;
  outbox_max_attempts = 8;
  outbox_backoff_base_seconds = 5;
  outbox_backoff_max_seconds = 300;
  outbox_shutdown_grace_seconds = 20;
  email_verification_url = "https://app/verify";
  email_verification_token_expire_minutes = 30;
  password_reset_url = "https://app/reset";
  password_reset_token_expire_minutes = 30;
  mfa_enabled = true;
  mfa_enrollment_expire_minutes = 10;
  mfa_challenge_expire_minutes = 5;
  mfa_recovery_code_count = 10;
  mfa_step_up_max_age_minutes = 5;
  oidc_recent_auth_max_age_minutes = 5;
  oidc_enabled = true;
  oidc_issuer = "https://issuer/";
  oidc_client_id = "client";
  oidc_scopes = "openid email";
  oidc_redirect_uri = "https://app/callback";
  oidc_transaction_expire_minutes = 5;
}

abbrev pub sample_world : World
sample_world = record {
  settings = sample_settings;
  accepts = λ db. true;
  integrity_error = λ db. true;
  clock = λ n. (1000 + n) * second;
  monotonic = λ n. n;
  random = λ n. "draw";
  row_id = λ n. 100 + n;
  sha256 = λ s. s;
  encode_jwt = λ c. c.sub;
  decode_jwt = λ n t.
      some (record {
        sub = some t;
        amr = "pwd" ∷ "otp" ∷ [];
        auth_time = some 990;
        well_typed = true;
      });
  hash_password = λ n p. p;
  verify_password = λ p q. p == q;
  seal_payload = λ n v. "sealed";
  idempotency_text = λ a b. a;
  open_payload = λ s. none;
  smtp = λ n p. sent;
  retry_digest = λ i a. 7;
  trace_context = λ n. (none, none);
  mfa_key_valid = true;
  encrypt_secret = λ n s. s;
  decrypt_secret = λ s. some s;
  random_base32 = λ n. "BASE32";
  generate_otp = λ s c. if c == 33 then "123456" else "000000";
  strings_equal = λ a b. a == b;
  provisioning_uri = λ s u. "otpauth";
  isdigit = λ s. true;
  normalize_recovery_code = λ s. s;
  is_ascii = λ s. true;
  new_recovery_code = λ n. "CODE";
  oidc_key_valid = true;
  encrypt_verifier = λ n v. v;
  decrypt_verifier = λ v. some v;
  s256 = λ v. v;
  urlencode = λ ps. "query";
  validate_email = λ s. some s;
  strip_casefold = λ s. s;
  casefold = λ s. s;
  lower_trim = λ s. s;
}

abbrev pub alice : User
alice = record {
  id = 1;
  username = "alice";
  password = "password";
  password_login_enabled = true;
  role = "user";
  email = some "alice@example.com";
  email_verified_at = some 5;
  mfa_secret_encrypted = some "BASE32";
  mfa_enrollment_created_at = none;
  mfa_enabled_at = none;
  mfa_last_counter = some 32;
  is_active = true;
}

-- An account whose address is not verified.
abbrev pub bob : User
bob = record alice {
  id = 2;
  username = "bob";
  email = some "bob@example.com";
  email_verified_at = none;
}

abbrev pub live_token : RefreshToken
live_token = record {
  id = 10;
  user_id = 1;
  family_id = "family";
  token = "secret";
  expires_at = 9000 * second;
  created_at = 3;
  last_used_at = 3;
  device_name = "laptop";
  revoked = false;
  revoked_at = none;
  revocation_reason = none;
}

-- The token that `live_token` replaced.
abbrev pub spent_token : RefreshToken
spent_token = record live_token {
  id = 9;
  token = "old secret";
  revoked = true;
  revoked_at = some 3;
  revocation_reason = some "rotated";
}

abbrev pub verification_token : AccountActionToken
verification_token = record {
  id = 20;
  user_id = 2;
  purpose = "email_verification";
  token_hash = "verify me";
  target = "bob@example.com";
  expires_at = 9000 * second;
  consumed_at = none;
  created_at = 3;
}

abbrev pub reset_token : AccountActionToken
reset_token = record verification_token {
  id = 21;
  user_id = 1;
  purpose = "password_reset";
  token_hash = "reset me";
  target = "alice@example.com";
}

abbrev pub waiting : OutboxMessage
waiting = record {
  id = 30;
  message_type = "email_verification";
  idempotency_key = "key";
  encryption_version = 1;
  payload_encrypted = some "sealed";
  status = pending;
  attempt_count = 0;
  available_at = 3;
  lease_owner = none;
  lease_expires_at = none;
  payload_expires_at = 9000 * second;
  failure_category = none;
  traceparent = none;
  tracestate = none;
  created_at = 3;
  updated_at = 3;
  terminal_at = none;
}

-- A message that the worker "first" has claimed.
abbrev pub leased : OutboxMessage
leased = record waiting {
  id = 31;
  status = processing;
  attempt_count = 1;
  lease_owner = some "first";
  lease_expires_at = some (2000 * second);
}

abbrev pub sample_database : Database
sample_database = record {
  users = alice ∷ bob ∷ [];
  refresh_tokens = spent_token ∷ live_token ∷ [];
  action_tokens = verification_token ∷ reset_token ∷ [];
  recovery_codes = [];
  outbox = waiting ∷ leased ∷ [];
  external_identities = [];
  oidc_transactions = [];
}

abbrev pub sample_session : Session
sample_session = record { committed = sample_database; view = sample_database; ticks = 0 }
