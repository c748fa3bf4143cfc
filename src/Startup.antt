-- ===== src/Startup.antt =====
-- The validation of the settings when the service starts: `validate_production_settings` of
-- src/app/core/config.py.
pub mod Checks
pub mod Laws
use fastapi_production_api.Oidc.Cache.{without}
use fastapi_production_api.Oidc.Trust.{required}
use fastapi_production_api.Oidc.Entries.{is_space, split_commas, stripped_entries, words}
use fastapi_production_api.Oidc.Texts.{is_slash, rstrip, strip}
use fastapi_production_api.Oidc.Documents.{endpoint}
use Prim.Native.String.{len, count, find}
use text.Mathlib.Text.{starts_with}
use fastapi_production_api.Base.{
  String, ℕ, Bool, true, false, ◌&&◌, ◌||◌, ◌==◌, Option, none, some, List, not, [], ◌∷◌,
  if◌then◌else◌, ltb, leb, is_some, suc, nat_eq, string_eq,
}

-- The settings that the validation reads; secrets by their texts. The two durations of the cache are
-- in one unit, since the wait may be a fraction of a second.
pub record StartupSettings : Type 0 where
  pub environment : String
  pub debug : Bool
  pub secret_key : String
  pub forwarded_allow_ips : String
  pub rate_limit_backend : String
  pub rate_limit_key_secret : String
  pub redis_url : String
  pub oidc_cache_backend : String
  pub oidc_cache_refresh_wait_seconds : ℕ
  pub oidc_cache_refresh_lock_seconds : ℕ
  pub email_delivery_mode : String
  pub outbox_encryption_key : String
  pub outbox_backoff_base_seconds : ℕ
  pub outbox_backoff_max_seconds : ℕ
  pub outbox_lease_seconds : ℕ
  pub outbox_shutdown_grace_seconds : ℕ
  pub smtp_timeout_seconds : ℕ
  pub smtp_host : String
  pub smtp_from : String
  pub email_verification_url : String
  pub password_reset_url : String
  pub mfa_enabled : Bool
  pub mfa_encryption_key : String
  pub oidc_enabled : Bool
  pub oidc_issuer : String
  pub oidc_client_id : String
  pub oidc_client_secret : String
  pub oidc_scopes : String
  pub oidc_allowed_algorithms : String
  pub oidc_redirect_uri : String
  pub oidc_transaction_encryption_key : String
  pub tracing_enabled : Bool
  pub otel_exporter_otlp_endpoint : String
  pub otel_service_name : String

-- A URL with its query, as urlsplit gives it.
pub record SplitUrl : Type 0 where
  pub scheme : String
  pub netloc : String
  pub query : String
  pub fragment : String
  pub hostname : Option String
  pub username : Option String
  pub password : Option String

-- The libraries that the validation calls: whether Fernet takes a key, whether ipaddress takes an
-- address or a network, urlsplit (none where it raises ValueError) and str.lower.
pub record Platform : Type 0 where
  pub is_fernet_key : String → Bool
  pub is_network : String → Bool
  pub is_address : String → Bool
  pub urlsplit : String → Option SplitUrl
  pub lower : String → String

-- The text of the first ValueError, none where the settings are taken.
abbrev pub Verdict : Type 0
Verdict = Option String

abbrev pub refuse_if : Bool → String → Verdict
refuse_if true detail = some detail
refuse_if false detail = none

-- Conditions in order, each with the text of its ValueError.
abbrev pub refuse_any : List (Bool × String) → Verdict
refuse_any [] = none
refuse_any (c ∷ cs) = let rest = refuse_any cs in if c.0 then some c.1 else rest

infixr 4 ◌then_check◌
abbrev pub ◌then_check◌ : Verdict → Verdict → Verdict
none then_check rest = rest
(some detail) then_check rest = some detail

-- Checks under an `if`.
abbrev pub only_if : Bool → Verdict → Verdict
only_if true checks = checks
only_if false checks = none

-- A check of a URL, which is refused where urlsplit raises.
abbrev pub on_url : Option SplitUrl → (SplitUrl → Verdict) → Verdict
on_url none checks = some "Invalid URL"
on_url (some url) checks = checks url

abbrev pub is_member : String → List String → Bool
is_member s [] = false
is_member s (t ∷ ts) = s == t || is_member s ts

abbrev pub all_members : List String → List String → Bool
all_members [] ts = true
all_members (s ∷ ss) ts = is_member s ts && all_members ss ts
