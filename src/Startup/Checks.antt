-- ===== src/Startup/Checks.antt =====
-- The checks of `validate_production_settings` of src/app/core/config.py, in its order.
use fastapi_production_api.Oidc.Entries.{is_space, split_commas, stripped_entries, words}
use fastapi_production_api.Oidc.Texts.{is_slash, rstrip, strip}
use Prim.Native.String.{len, count, find}
use text.Mathlib.Text.{starts_with}
use fastapi_production_api.Startup.{
  ◌then_check◌, Platform, SplitUrl, StartupSettings, Verdict, all_members, is_member, on_url,
  only_if, refuse_any, refuse_if,
}
use fastapi_production_api.Base.{
  List, [], ◌∷◌, ◌&&◌, ◌==◌, Bool, Option, String, false, is_some, leb, ltb, none, not, some, suc,
  ◌||◌, nat_eq, string_eq, if◌then◌else◌,
}

-- `any(not value.strip() for value in trusted_proxies)`
unfoldable pub has_blank : List String → Bool
unfolding strip
has_blank [] = false
has_blank (s ∷ ss) = strip is_space s == "" || has_blank ss

abbrev pub has_slash : String → Bool
has_slash s = ltb (find s "/") (suc (len s))

-- One entry of the loop over the trusted proxies.
unfoldable pub check_proxy : Platform → String → Verdict
check_proxy p proxy =
    refuse_if (proxy == "*") "FORWARDED_ALLOW_IPS must not trust every client"
    then_check refuse_if (not (if has_slash proxy then p.is_network proxy else p.is_address proxy))
        "FORWARDED_ALLOW_IPS must contain only valid IP addresses or canonical CIDR networks"

unfoldable pub check_each : Platform → List String → Verdict
unfolding check_proxy
check_each p [] = none
check_each p (proxy ∷ proxies) = check_proxy p proxy then_check check_each p proxies

unfoldable pub check_proxies : Platform → StartupSettings → Verdict
unfolding has_blank check_each split_commas stripped_entries
check_proxies p s =
    let trusted_proxies = split_commas s.forwarded_allow_ips in
    refuse_if (not (s.forwarded_allow_ips == "") && has_blank trusted_proxies)
      "FORWARDED_ALLOW_IPS must not contain empty entries"
    then_check check_each p (stripped_entries trusted_proxies)

abbrev pub has_host : Option String → Bool
has_host none = false
has_host (some host) = not (host == "")

unfoldable pub check_redis : Platform → StartupSettings → Verdict
check_redis p s =
    only_if (s.rate_limit_backend == "redis" || s.oidc_cache_backend == "redis") (
      on_url (p.urlsplit s.redis_url) λ url.
        refuse_if
          (not (url.scheme == "redis" || url.scheme == "rediss") || not (has_host url.hostname))
          "REDIS_URL must be a redis:// or rediss:// URL when a Redis backend is enabled")
    then_check only_if (s.rate_limit_backend == "redis") (
        refuse_if (ltb (len s.rate_limit_key_secret) 32)
          "RATE_LIMIT_KEY_SECRET must contain at least 32 bytes when the Redis rate-limit backend is enabled")
    then_check refuse_if
        (s.oidc_cache_backend == "redis"
          && leb s.oidc_cache_refresh_lock_seconds s.oidc_cache_refresh_wait_seconds)
        "OIDC_CACHE_REFRESH_WAIT_SECONDS must be less than OIDC_CACHE_REFRESH_LOCK_SECONDS"

abbrev pub outbox_conditions : Platform → StartupSettings → List (Bool × String)
outbox_conditions p s =
    (
      not (p.is_fernet_key s.outbox_encryption_key),
      "OUTBOX_ENCRYPTION_KEY must be a valid Fernet key when transactional delivery is enabled",
    )
    ∷ (
      ltb s.outbox_backoff_max_seconds s.outbox_backoff_base_seconds,
      "OUTBOX_BACKOFF_MAX_SECONDS must be greater than or equal to OUTBOX_BACKOFF_BASE_SECONDS",
    )
    ∷ (
      leb s.outbox_lease_seconds s.smtp_timeout_seconds,
      "OUTBOX_LEASE_SECONDS must be greater than SMTP_TIMEOUT_SECONDS",
    )
    ∷ (
      ltb s.outbox_shutdown_grace_seconds s.smtp_timeout_seconds,
      "OUTBOX_SHUTDOWN_GRACE_SECONDS must be at least SMTP_TIMEOUT_SECONDS",
    )
    ∷ []

unfoldable pub check_outbox : Platform → StartupSettings → Verdict
check_outbox p s = only_if (s.email_delivery_mode == "outbox") (refuse_any (outbox_conditions p s))

unfoldable pub check_mfa : Platform → StartupSettings → Verdict
check_mfa p s = only_if s.mfa_enabled (
    refuse_if (not (p.is_fernet_key s.mfa_encryption_key))
      "MFA_ENCRYPTION_KEY must be a valid Fernet key when MFA is enabled")

abbrev pub asymmetric_algorithms : List String
asymmetric_algorithms =
    "RS256" ∷ "RS384" ∷ "RS512" ∷ "PS256" ∷ "PS384" ∷ "PS512" ∷ "ES256" ∷ "ES384" ∷ "ES512"
    ∷ "EdDSA" ∷ []

abbrev pub is_issuer_url : SplitUrl → Bool
is_issuer_url url =
    url.scheme == "https" && not (url.netloc == "") && url.query == "" && url.fragment == ""

abbrev pub is_redirect_url : SplitUrl → Bool
is_redirect_url url = not (url.scheme == "") && not (url.netloc == "") && url.fragment == ""

abbrev pub oidc_conditions : StartupSettings → List (Bool × String)
oidc_conditions s =
    (
      s.oidc_issuer == "" || s.oidc_client_id == "" || s.oidc_client_secret == "",
      "OIDC_ISSUER, OIDC_CLIENT_ID, and OIDC_CLIENT_SECRET are required when OIDC is enabled",
    )
    ∷ (not (is_member "openid" (words s.oidc_scopes)), "OIDC_SCOPES must include openid")
    ∷ (strip is_space s.oidc_allowed_algorithms == "", "OIDC_ALLOWED_ALGORITHMS cannot be empty")
    ∷ (
      not (
          all_members (stripped_entries (split_commas s.oidc_allowed_algorithms))
            asymmetric_algorithms),
      "OIDC_ALLOWED_ALGORITHMS must contain only asymmetric signing algorithms",
    )
    ∷ []

abbrev pub oidc_url_conditions :
    Platform → StartupSettings → SplitUrl → SplitUrl → List (Bool × String)
oidc_url_conditions p s issuer redirect =
    (not (is_issuer_url issuer), "OIDC_ISSUER must be an HTTPS URL without query or fragment")
    ∷ (
      ltb 255 (count (rstrip is_slash s.oidc_issuer)),
      "OIDC_ISSUER must not exceed 255 characters",
    )
    ∷ (not (is_redirect_url redirect), "OIDC_REDIRECT_URI must be an absolute URL without fragment")
    ∷ (
      not (p.is_fernet_key s.oidc_transaction_encryption_key),
      "OIDC_TRANSACTION_ENCRYPTION_KEY must be a valid Fernet key when OIDC is enabled",
    )
    ∷ []

abbrev pub check_oidc_urls : Platform → StartupSettings → Verdict
check_oidc_urls p s = on_url (p.urlsplit s.oidc_issuer) λ issuer.
    on_url (p.urlsplit s.oidc_redirect_uri)
      λ redirect. refuse_any (oidc_url_conditions p s issuer redirect)

unfoldable pub check_oidc : Platform → StartupSettings → Verdict
unfolding split_commas stripped_entries strip rstrip words
check_oidc p s =
    only_if s.oidc_enabled (refuse_any (oidc_conditions s) then_check check_oidc_urls p s)

-- `EMAIL_DELIVERY_MODE in {"smtp", "outbox"}`
abbrev pub sends_mail : StartupSettings → Bool
sends_mail s = s.email_delivery_mode == "smtp" || s.email_delivery_mode == "outbox"

unfoldable pub check_smtp : StartupSettings → Verdict
check_smtp s =
    refuse_if (sends_mail s && (s.smtp_host == "" || s.smtp_from == ""))
      "SMTP_HOST and SMTP_FROM are required when SMTP delivery is enabled"

unfoldable pub check_tracing : Platform → StartupSettings → Verdict
unfolding strip
check_tracing p s = only_if s.tracing_enabled (
    on_url (p.urlsplit s.otel_exporter_otlp_endpoint) λ endpoint.
      refuse_if
        (not (endpoint.scheme == "http" || endpoint.scheme == "https") || endpoint.netloc == "")
        "OTEL_EXPORTER_OTLP_ENDPOINT must be an absolute http:// or https:// URL when tracing is enabled"
      then_check refuse_if (is_some endpoint.username || is_some endpoint.password)
          "OTEL_EXPORTER_OTLP_ENDPOINT must not contain embedded credentials"
      then_check refuse_if (strip is_space s.otel_service_name == "")
          "OTEL_SERVICE_NAME cannot be empty when tracing is enabled"
      then_check refuse_if (ltb 128 (count s.otel_service_name))
          "OTEL_SERVICE_NAME must not exceed 128 characters")

abbrev pub placeholder_secrets : List String
placeholder_secrets =
    "change_this_to_a_random_secret_key" ∷ "generate_a_secure_random_secret_key" ∷ "your-secret-key"
    ∷ []

abbrev pub placeholder_rate_limit_keys : List String
placeholder_rate_limit_keys =
    "change_this_to_a_random_rate_limit_key" ∷ "generate_a_secure_random_rate_limit_key" ∷ []

abbrev pub production_conditions : StartupSettings → List (Bool × String)
production_conditions s =
    (
      s.rate_limit_backend == "redis"
          && is_member s.rate_limit_key_secret placeholder_rate_limit_keys,
      "RATE_LIMIT_KEY_SECRET must not use a placeholder in production",
    )
    ∷ (s.debug, "DEBUG must be false in production")
    ∷ (
      sends_mail s
          && not (
              starts_with s.email_verification_url "https://"
              && starts_with s.password_reset_url "https://"),
      "Email action URLs must use HTTPS in production",
    )
    ∷ []

abbrev pub check_redirect : Platform → StartupSettings → Verdict
check_redirect p s = only_if s.oidc_enabled (
    on_url (p.urlsplit s.oidc_redirect_uri) λ redirect.
      refuse_if (not (redirect.scheme == "https")) "OIDC_REDIRECT_URI must use HTTPS in production")

-- The checks behind `if self.ENVIRONMENT.lower() != "production": return self`.
unfoldable pub check_production : Platform → StartupSettings → Verdict
check_production p s =
    refuse_any (production_conditions s)
    then_check check_redirect p s
    then_check refuse_if (ltb (len s.secret_key) 32 || is_member s.secret_key placeholder_secrets)
        "SECRET_KEY must contain at least 32 bytes of non-placeholder data in production"

unfoldable pub validate_production_settings : Platform → StartupSettings → Verdict
unfolding check_proxies check_redis check_outbox check_mfa check_oidc check_smtp check_tracing
    check_production
validate_production_settings p s =
    check_proxies p s
    then_check check_redis p s
    then_check check_outbox p s
    then_check check_mfa p s
    then_check check_oidc p s
    then_check check_smtp s
    then_check check_tracing p s
    then_check only_if (p.lower s.environment == "production") (check_production p s)
