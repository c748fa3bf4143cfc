-- ===== src/World.antt =====
-- What the code uses and does not implement, and the settings of core/config.py that it reads.
-- The functions of `World` stand for PostgreSQL, the clock, the random source, hashlib, bcrypt, PyJWT,
-- Fernet and pyotp. The clock, the random source and the row ids are read by the number of the
-- reading, so two readings of one request may differ.
use fastapi_production_api.Base.{ℕ, ◌*◌, String, Bool, Option, List}
use fastapi_production_api.Models.{Database, User}

-- `datetime` counts microseconds.
abbrev pub second : ℕ
second = 1000000

-- `timedelta(seconds=n)`, `timedelta(minutes=n)` and `timedelta(days=n)`.
abbrev pub seconds : ℕ → ℕ
seconds n = n * second

abbrev pub minutes : ℕ → ℕ
minutes n = n * (60 * second)

abbrev pub days : ℕ → ℕ
days n = n * (86400 * second)

-- The fields of `Settings` that the modelled code reads.
pub record Settings : Type 0 where
  pub access_token_expire_minutes : ℕ
  pub refresh_token_expire_days : ℕ
  pub jwt_audience : String
  pub jwt_issuer : String
  pub rate_limit_limit : ℕ
  pub rate_limit_window_seconds : ℕ
  pub email_delivery_mode : String
  pub outbox_batch_size : ℕ
  pub outbox_lease_seconds : ℕ
  pub outbox_max_attempts : ℕ
  pub outbox_backoff_base_seconds : ℕ
  pub outbox_backoff_max_seconds : ℕ
  pub outbox_shutdown_grace_seconds : ℕ
  pub email_verification_url : String
  pub email_verification_token_expire_minutes : ℕ
  pub password_reset_url : String
  pub password_reset_token_expire_minutes : ℕ
  pub mfa_enabled : Bool
  pub mfa_enrollment_expire_minutes : ℕ
  pub mfa_challenge_expire_minutes : ℕ
  pub mfa_recovery_code_count : ℕ
  pub mfa_step_up_max_age_minutes : ℕ
  pub oidc_recent_auth_max_age_minutes : ℕ
  pub oidc_enabled : Bool
  pub oidc_issuer : String
  pub oidc_client_id : String
  pub oidc_scopes : String
  pub oidc_redirect_uri : String
  pub oidc_transaction_expire_minutes : ℕ

-- The claims of an access token, `jwt.encode`'s argument.
pub record Claims : Type 0 where
  pub sub : String
  pub amr : List String
  pub auth_time : Option ℕ
  pub exp : ℕ
  pub aud : String
  pub iss : String

-- What `jwt.decode` gives for an access token that it accepts: the text of `sub` if the claim is
-- there, the other two with the defaults of TokenPayload, and whether the claims have its types.
pub record AccessClaims : Type 0 where
  pub sub : Option String
  pub amr : List String
  pub auth_time : Option ℕ
  pub well_typed : Bool

-- The parts of a mail that a message of the outbox keeps.
pub record EmailPayload : Type 0 where
  pub action_url : String
  pub recipient : String
  pub token : String

-- A JSON value as `decrypt_email_payload` looks at it: an object with texts and other values, or
-- something else.
pub data JsonField : Type 0 where
  text : String → JsonField
  other : JsonField

pub data JsonValue : Type 0 where
  object : List (String × JsonField) → JsonValue
  scalar : JsonValue

-- How `send_outbox` ends: without an exception, with one of SMTPException, OSError and TimeoutError,
-- or with any other exception.
pub data Delivery : Type 0 where
  sent smtp_failure crash : Delivery

pub record World : Type 0 where
  pub settings : Settings
  -- whether the database takes the rows at a flush or a commit
  pub accepts : Database → Bool
  -- whether what it does not take is refused with an IntegrityError
  pub integrity_error : Database → Bool
  pub clock : ℕ → ℕ
  pub monotonic : ℕ → ℕ
  pub random : ℕ → String
  pub row_id : ℕ → ℕ
  pub sha256 : String → String
  pub encode_jwt : Claims → String
  -- jwt.decode with the key, the audience and the issuer of the settings; none for PyJWTError
  pub decode_jwt : ℕ → String → Option AccessClaims
  pub hash_password : ℕ → String → String
  pub verify_password : String → String → Bool
  -- json.dumps with sorted keys and Fernet.encrypt, with the number of the reading
  pub seal_payload : ℕ → JsonValue → String
  -- outbox_idempotency_key joins its arguments by an f-string before it hashes
  pub idempotency_text : String → String → String
  -- Fernet.decrypt and json.loads of an outbox payload, none for the exceptions that are caught
  pub open_payload : String → Option JsonValue
  -- the SMTP exchange of `_send_action_email`
  pub smtp : ℕ → EmailPayload → Delivery
  -- the first two bytes of the SHA-256 digest of "id:attempt"
  pub retry_digest : ℕ → ℕ → ℕ
  -- capture_trace_context of src/app/core/tracing.py
  pub trace_context : ℕ → Option String × Option String
  -- whether MFA_ENCRYPTION_KEY makes a Fernet key, its encrypt and its decrypt
  pub mfa_key_valid : Bool
  pub encrypt_secret : ℕ → String → String
  pub decrypt_secret : String → Option String
  -- pyotp.random_base32(), TOTP(secret).generate_otp(counter) and TOTP(secret).provisioning_uri(...)
  pub random_base32 : ℕ → String
  pub generate_otp : String → ℕ → String
  -- pyotp.utils.strings_equal, which brings both texts to a normal form before it compares
  pub strings_equal : String → String → Bool
  pub provisioning_uri : String → User → String
  -- str.isdigit, and `code.replace("-", "").strip().upper()` with whether it encodes as ASCII
  pub isdigit : String → Bool
  pub normalize_recovery_code : String → String
  pub is_ascii : String → Bool
  -- secrets.token_hex(10).upper() in groups of four
  pub new_recovery_code : ℕ → String
  -- whether OIDC_TRANSACTION_ENCRYPTION_KEY makes a Fernet key, its encrypt and its decrypt
  pub oidc_key_valid : Bool
  pub encrypt_verifier : ℕ → String → String
  pub decrypt_verifier : String → Option String
  -- base64.urlsafe_b64encode of a SHA-256 digest, with no padding; urllib.parse.urlencode
  pub s256 : String → String
  pub urlencode : List (String × String) → String
  -- TypeAdapter(EmailStr).validate_python, str.strip with str.casefold, str.casefold, and
  -- func.lower(func.trim(...))
  pub validate_email : String → Option String
  pub strip_casefold : String → String
  pub casefold : String → String
  pub lower_trim : String → String
