-- ===== src/Examples/Startup.antt =====
-- Settings that the service starts with.
use fastapi_production_api.Startup.Checks.{validate_production_settings}
use fastapi_production_api.Startup.{Platform, SplitUrl, StartupSettings}
use fastapi_production_api.Startup.Laws.{
  FitsOidc, FitsOutbox, FitsProduction, validate_production_settings-Fits,
}
use fastapi_production_api.Base.{true, false, none, some, ◌==◌, string_eq, refl, nat_eq}

abbrev sample_url : SplitUrl
sample_url = record {
  scheme = "https";
  netloc = "issuer";
  query = "";
  fragment = "";
  hostname = some "issuer";
  username = none;
  password = none;
}

abbrev sample_platform : Platform
sample_platform = record {
  is_fernet_key = λ k. k == "key";
  is_network = λ s. true;
  is_address = λ s. true;
  urlsplit = λ s. some sample_url;
  lower = λ s. s;
}

abbrev production_settings : StartupSettings
production_settings = record {
  environment = "production";
  debug = false;
  secret_key = "0123456789abcdef0123456789abcdef";
  forwarded_allow_ips = "10.0.0.1, 10.0.0.0/8";
  rate_limit_backend = "memory";
  rate_limit_key_secret = "";
  redis_url = "";
  oidc_cache_backend = "memory";
  oidc_cache_refresh_wait_seconds = 2;
  oidc_cache_refresh_lock_seconds = 10;
  email_delivery_mode = "outbox";
  outbox_encryption_key = "key";
  outbox_backoff_base_seconds = 5;
  outbox_backoff_max_seconds = 300;
  outbox_lease_seconds = 60;
  outbox_shutdown_grace_seconds = 20;
  smtp_timeout_seconds = 10;
  smtp_host = "mail";
  smtp_from = "api@example.com";
  email_verification_url = "https://app/verify";
  password_reset_url = "https://app/reset";
  mfa_enabled = false;
  mfa_encryption_key = "";
  oidc_enabled = true;
  oidc_issuer = "https://issuer/";
  oidc_client_id = "client";
  oidc_client_secret = "secret";
  oidc_scopes = "openid email";
  oidc_allowed_algorithms = "RS256, ES256";
  oidc_redirect_uri = "https://app/callback";
  oidc_transaction_encryption_key = "key";
  tracing_enabled = false;
  otel_exporter_otlp_endpoint = "";
  otel_service_name = "";
}

validate_production_settings-Fits_example :
    FitsProduction production_settings
    × FitsOutbox sample_platform production_settings
    × FitsOidc sample_platform production_settings
unfolding validate_production_settings
validate_production_settings-Fits_example =
    validate_production_settings-Fits sample_platform production_settings refl refl refl refl
