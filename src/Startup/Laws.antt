-- ===== src/Startup/Laws.antt =====
-- What settings are like that the service starts with.
use fastapi_production_api.Startup.Checks.{
  asymmetric_algorithms, check_mfa, check_oidc, check_oidc_urls, check_outbox, check_production,
  check_proxies, check_redirect, check_redis, check_smtp, check_tracing, is_issuer_url,
  oidc_conditions, oidc_url_conditions, outbox_conditions, placeholder_secrets,
  production_conditions, sends_mail, validate_production_settings,
}
use fastapi_production_api.Startup.{
  ◌then_check◌, Platform, SplitUrl, StartupSettings, Verdict, all_members, is_member, on_url,
  only_if, refuse_any, refuse_if,
}
use fastapi_production_api.Oidc.Entries.{split_commas, stripped_entries}
use Prim.Native.String.{len}
use text.Mathlib.Text.{starts_with}
use fastapi_production_api.Base.{
  ◌≡◌, Bool, true, false, none, some, arith, nat_eq, string_eq, refl, ◌&&◌, ◌<◌, ◌==◌, Option,
  String, leb, ltb, not, ◌||◌, ℕ, ◌≤◌, All, Bool-cases, List, [], inl, inr, ◌∷◌,
}

both_pass : (a b : Verdict) → (a then_check b) ≡ none → (a ≡ none) × (b ≡ none)
both_pass none b e = (refl, e)
both_pass (some detail) b e = absurd (ground (arith, e))

when_on : (on : Bool) (checks : Verdict) → only_if on checks ≡ none → on ≡ true → checks ≡ none
when_on true checks e h = e
when_on false checks e h = absurd (ground (arith, h))

not_refused : (b : Bool) (detail : String) → refuse_if b detail ≡ none → b ≡ false
not_refused true detail e = absurd (ground (arith, e))
not_refused false detail e = refl

All-pass : (cs : List (Bool × String)) → refuse_any cs ≡ none → All (λ c. c.0 ≡ false) cs
All-pass [] e = tt
All-pass (c ∷ cs) e = elim (Bool-cases c.0) [
  | inl refused ↦ absurd (ground (arith, e))
  | inr passed ↦ (passed, All-pass cs (ground (arith, e)))
]

url_passes :
    (o : Option SplitUrl) (checks : SplitUrl → Verdict)
    → on_url o checks ≡ none
    → (url : SplitUrl) × (o ≡ some url) × (checks url ≡ none)
url_passes none checks e = absurd (ground (arith, e))
url_passes (some url) checks e = (url, refl, e)

not-false : (b : Bool) → not b ≡ false → b ≡ true
not-false b e = ground arith

neither : (a b : Bool) → (a || b) ≡ false → (a ≡ false) × (b ≡ false)
neither a b e = ground arith

ltb-false : (a b : ℕ) → ltb a b ≡ false → b ≤ a
ltb-false a b e = ground arith

leb-false : (a b : ℕ) → leb a b ≡ false → b < a
leb-false a b e = ground arith

links_pass :
    (mail a b : Bool) → mail ≡ true → (mail && not (a && b)) ≡ false → (a ≡ true) × (b ≡ true)
links_pass mail a b h e = ground arith

either_mail : (a b : Bool) → b ≡ true → (a || b) ≡ true
either_mail a b h = ground arith

-- The delivery of mail through the outbox: a Fernet key, delays in order, and a lease and a grace
-- period that an SMTP exchange fits in.
pub record FitsOutbox (p : Platform) (s : StartupSettings) : Type 0 where
  pub key : p.is_fernet_key s.outbox_encryption_key ≡ true
  pub delays : s.outbox_backoff_base_seconds ≤ s.outbox_backoff_max_seconds
  pub lease : s.smtp_timeout_seconds < s.outbox_lease_seconds
  pub grace : s.smtp_timeout_seconds ≤ s.outbox_shutdown_grace_seconds

-- The login through a provider: only asymmetric algorithms, and an HTTPS issuer.
pub record FitsOidc (p : Platform) (s : StartupSettings) : Type 0 where
  pub algorithms :
      all_members (stripped_entries (split_commas s.oidc_allowed_algorithms)) asymmetric_algorithms
      ≡ true
  pub issuer : SplitUrl
  pub split : p.urlsplit s.oidc_issuer ≡ some issuer
  pub https : is_issuer_url issuer ≡ true
  pub key : p.is_fernet_key s.oidc_transaction_encryption_key ≡ true

-- A production server: no debugging, a key of at least 32 bytes that is no placeholder, and mail
-- whose links are HTTPS.
pub record FitsProduction (s : StartupSettings) : Type 0 where
  pub quiet : s.debug ≡ false
  pub long_key : 32 ≤ len s.secret_key
  pub own_key : is_member s.secret_key placeholder_secrets ≡ false
  pub verification_link : starts_with s.email_verification_url "https://" ≡ true
  pub reset_link : starts_with s.password_reset_url "https://" ≡ true

module _ (p : Platform) (s : StartupSettings) where
  check_outbox-FitsOutbox :
      check_outbox p s ≡ none → (s.email_delivery_mode == "outbox") ≡ true → FitsOutbox p s
  unfolding check_outbox
  check_outbox-FitsOutbox e on =
      let passed =
        when_on (s.email_delivery_mode == "outbox") (refuse_any (outbox_conditions p s)) e on in
      let fits = All-pass (outbox_conditions p s) passed in
      record {
        key = not-false _ fits.0;
        delays = ltb-false _ _ fits.1.0;
        lease = leb-false _ _ fits.1.1.0;
        grace = ltb-false _ _ fits.1.1.1.0;
      }

  check_oidc-FitsOidc : check_oidc p s ≡ none → s.oidc_enabled ≡ true → FitsOidc p s
  unfolding check_oidc
  check_oidc-FitsOidc e on =
      let passed =
        when_on s.oidc_enabled (refuse_any (oidc_conditions s) then_check check_oidc_urls p s) e
          on in
      let (basic, urls) = both_pass (refuse_any (oidc_conditions s)) (check_oidc_urls p s) passed in
      let fits = All-pass (oidc_conditions s) basic in
      let (issuer, split, e1) =
        url_passes (p.urlsplit s.oidc_issuer)
          (λ url.
            on_url (p.urlsplit s.oidc_redirect_uri)
              λ redirect. refuse_any (oidc_url_conditions p s url redirect))
          urls in
      let (redirect, split', e2) =
        url_passes (p.urlsplit s.oidc_redirect_uri)
          (λ url. refuse_any (oidc_url_conditions p s issuer url)) e1 in
      let urls_fit = All-pass (oidc_url_conditions p s issuer redirect) e2 in
      record {
        algorithms = not-false _ fits.1.1.1.0;
        issuer = issuer;
        split = split;
        https = not-false _ urls_fit.0;
        key = not-false _ urls_fit.1.1.1.0;
      }

  check_production-FitsProduction :
      check_production p s ≡ none → sends_mail s ≡ true → FitsProduction s
  unfolding check_production
  check_production-FitsProduction e mail =
      let weak = ltb (len s.secret_key) 32 || is_member s.secret_key placeholder_secrets in
      let detail : String =
        "SECRET_KEY must contain at least 32 bytes of non-placeholder data in production" in
      let (first_ones, e1) =
        both_pass (refuse_any (production_conditions s))
          (check_redirect p s then_check refuse_if weak detail) e in
      let fits = All-pass (production_conditions s) first_ones in
      let (redirect, strong) = both_pass (check_redirect p s) (refuse_if weak detail) e1 in
      let (long_key, own_key) =
        neither (ltb (len s.secret_key) 32) (is_member s.secret_key placeholder_secrets)
          (not_refused weak detail strong) in
      let (verification, reset) =
        links_pass (sends_mail s) (starts_with s.email_verification_url "https://")
          (starts_with s.password_reset_url "https://") mail fits.1.1.0 in
      record {
        quiet = fits.1.0;
        long_key = ltb-false _ _ long_key;
        own_key = own_key;
        verification_link = verification;
        reset_link = reset;
      }

-- If settings for production, with mail through the outbox and the login through a provider, are
-- taken when the service starts, then debugging is off, the secret key has at least 32 bytes and is
-- no placeholder, the links of the mails are HTTPS, the outbox has a Fernet key, ordered delays, and a
-- lease and a grace period that an SMTP exchange fits in, and the provider has an HTTPS issuer, only
-- asymmetric algorithms and a Fernet key for its transactions.
pub validate_production_settings-Fits :
    (p : Platform) (s : StartupSettings)
    → validate_production_settings p s ≡ none
    → (p.lower s.environment == "production") ≡ true
    → (s.email_delivery_mode == "outbox") ≡ true
    → s.oidc_enabled ≡ true
    → FitsProduction s × FitsOutbox p s × FitsOidc p s
unfolding validate_production_settings
validate_production_settings-Fits p s e production outbox oidc =
    let last = only_if (p.lower s.environment == "production") (check_production p s) in
    let from_tracing = check_tracing p s then_check last in
    let from_smtp = check_smtp s then_check from_tracing in
    let from_oidc = check_oidc p s then_check from_smtp in
    let from_mfa = check_mfa p s then_check from_oidc in
    let from_outbox = check_outbox p s then_check from_mfa in
    let (proxies, e1) = both_pass (check_proxies p s) (check_redis p s then_check from_outbox) e in
    let (redis, e2) = both_pass (check_redis p s) from_outbox e1 in
    let (mail, e3) = both_pass (check_outbox p s) from_mfa e2 in
    let (mfa, e4) = both_pass (check_mfa p s) from_oidc e3 in
    let (provider, e5) = both_pass (check_oidc p s) from_smtp e4 in
    let (smtp, e6) = both_pass (check_smtp s) from_tracing e5 in
    let (tracing, e7) = both_pass (check_tracing p s) last e6 in
    let strict =
      when_on (p.lower s.environment == "production") (check_production p s) e7 production in
    (
      check_production-FitsProduction p s strict (
          either_mail (s.email_delivery_mode == "smtp") (s.email_delivery_mode == "outbox") outbox),
      check_outbox-FitsOutbox p s mail outbox,
      check_oidc-FitsOidc p s provider oidc,
    )
