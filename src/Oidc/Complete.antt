-- ===== src/Oidc/Complete.antt =====
-- The callback: `complete_oidc_authorization` of src/app/services/oidc.py.
use fastapi_production_api.Tokens.{now}
use fastapi_production_api.Oidc.Texts.{is_slash, rstrip}
use fastapi_production_api.Oidc.Identities.{
  identity_for_link, identity_for_login, invalid_transaction, normalize_verified_email,
}
use fastapi_production_api.Oidc.Begin.{hash_secret, require_oidc_available}
use fastapi_production_api.Table.{first, update_where}
use fastapi_production_api.World.{World}
use fastapi_production_api.Sessions.{Token, prepare_session_tokens}
use fastapi_production_api.Mfa.Challenge.{MfaChallengeResponse, prepare_mfa_login_challenge}
use fastapi_production_api.Oidc.Interface.{IdClaims, OidcMetadata, Provider}
use fastapi_production_api.Models.{Database, ExternalIdentity, OidcTransaction, User}
use fastapi_production_api.Db.{
  Action, gets, modify, or_abort, or_raise, pure, raise, raise_if, reading, transaction_or, http,
  ◌>>=◌, ◌>>◌,
}
use Prim.Native.String.{count}
use fastapi_production_api.Base.{
  String, ℕ, Option, none, some, Bool, not, ◌==◌, ◌||◌, if◌then◌else◌, leb, ltb, [], ◌∷◌, is_some,
  nat_eq, string_eq,
}

-- `OIDCCallbackResult`: the kind with its response.
pub data OidcCallbackResult : Type 0 where
  tokens : Token → OidcCallbackResult
  mfa : MfaChallengeResponse → OidcCallbackResult
  linked : ExternalIdentity → OidcCallbackResult

-- `not state or not code or not browser_binding`
abbrev pub usable_binding : String → String → Option String → Option String
usable_binding state code none = none
usable_binding state code (some binding) =
    if state == "" || code == "" || binding == "" then none else some binding

-- `OIDCTransaction.state_hash == state_hash`
abbrev pub has_state : String → OidcTransaction → Bool
has_state state_hash t = t.state_hash == state_hash

abbrev pub find_transaction : String → Database → Option OidcTransaction
find_transaction state_hash db = first (has_state state_hash) db.oidc_transactions

-- The conditions on a transaction that is found, with the hash of the browser's binding.
abbrev pub is_unusable : World → OidcTransaction → ℕ → String → Bool
is_unusable w t at binding_hash =
    is_some t.consumed_at
    || leb t.expires_at at
    || not (t.issuer == rstrip is_slash w.settings.oidc_issuer)
    || not (t.redirect_uri == w.settings.oidc_redirect_uri)
    || not (t.browser_binding_hash == binding_hash)

unfoldable pub decrypt_code_verifier : World → String → Action String
decrypt_code_verifier w encrypted =
    or_raise (w.decrypt_verifier encrypted) (http 503 "OIDC is not available")

-- The first `try`.
unfoldable pub exchange_claims :
    World → Provider → OidcTransaction → String → Action (OidcMetadata × IdClaims)
unfolding decrypt_code_verifier
exchange_claims w provider t code = do
  metadata ← or_abort (← reading provider.discover) (http 400 invalid_transaction)
  verifier ← decrypt_code_verifier w t.code_verifier_encrypted
  id_token ←
      or_abort (← reading (λ n. provider.exchange_code n metadata code verifier t.redirect_uri))
        (http 400 invalid_transaction)
  claims ←
      or_abort (← reading (λ n. provider.validate_id_token n metadata id_token))
        (http 400 invalid_transaction)
  pure (metadata, claims)

-- The subject, if it and the nonce are texts, it is neither empty nor too long, and the nonce is the
-- transaction's.
abbrev pub bound_subject : World → OidcTransaction → Option String → Option String → Option String
bound_subject w t none _ = none
bound_subject w t (some subject) none = none
bound_subject w t (some subject) (some nonce) =
    if subject == "" || ltb 255 (count subject) || not (t.nonce_hash == w.sha256 nonce)
    then none
    else some subject

abbrev pub used_at : ℕ → OidcTransaction → OidcTransaction
used_at at t = record t { consumed_at = some at }

abbrev pub consume_transaction : OidcTransaction → ℕ → Database → Database
consume_transaction t at db = record db {
  oidc_transactions = update_where (λ r. r.id == t.id) (used_at at) db.oidc_transactions;
}

-- `_normalize_verified_email(claims) or identity.email`
abbrev pub or_email : Option String → Option String → Option String
or_email none stored = stored
or_email (some email) stored = if email == "" then stored else some email

abbrev pub update_identity : ℕ → (ExternalIdentity → ExternalIdentity) → Database → Database
update_identity id f db = record db {
  external_identities = update_where (λ i. i.id == id) f db.external_identities;
}

unfoldable pub settle_link :
    World → OidcTransaction → String → String → IdClaims → Action OidcCallbackResult
unfolding identity_for_link
settle_link w t issuer subject claims = do
  user_id ← or_raise t.user_id (http 400 invalid_transaction)
  identity ← identity_for_link w user_id issuer subject claims
  pure (linked identity)

-- The response of a login: a challenge where the user has MFA, or else a session.
unfoldable pub oidc_challenge : World → User → String → Action OidcCallbackResult
unfolding prepare_mfa_login_challenge
oidc_challenge w user device_name = do
  response ← prepare_mfa_login_challenge w user device_name "oidc"
  pure (mfa response)

unfoldable pub oidc_session : World → User → String → Action OidcCallbackResult
unfolding prepare_session_tokens
oidc_session w user device_name = do
  issued ← prepare_session_tokens w user device_name ("oidc" ∷ [])
  pure (tokens issued)

-- What a login stores on the identity's row.
abbrev pub login_values : World → IdClaims → ℕ → ExternalIdentity → ExternalIdentity
login_values w claims at i = record i {
  email = or_email (normalize_verified_email w claims) i.email;
  last_login_at = some at;
}

abbrev pub answer_login :
    World → OidcTransaction → IdClaims → ℕ → ExternalIdentity × User → Action OidcCallbackResult
answer_login w t claims at (identity, user) = do
  modify (update_identity identity.id (login_values w claims at))
  if is_some user.mfa_enabled_at
      then oidc_challenge w user t.device_name
      else oidc_session w user t.device_name

unfoldable pub settle_login :
    World → OidcTransaction → String → String → IdClaims → ℕ → Action OidcCallbackResult
unfolding identity_for_login
settle_login w t issuer subject claims at =
    identity_for_login w issuer subject claims >>= answer_login w t claims at

-- The body of the second `try`.
unfoldable pub settle :
    World → OidcTransaction → String → String → IdClaims → ℕ → Action OidcCallbackResult
settle w t issuer subject claims at = do
  modify (consume_transaction t at)
  if t.intent == "link"
      then settle_link w t issuer subject claims
      else if t.intent == "login"
      then settle_login w t issuer subject claims at
      else raise (http 400 invalid_transaction)

unfoldable pub complete_oidc_authorization :
    World → Provider → String → String → Option String → Action OidcCallbackResult
unfolding require_oidc_available hash_secret exchange_claims settle rstrip
complete_oidc_authorization w provider state code browser_binding = do
  require_oidc_available w
  binding ← or_raise (usable_binding state code browser_binding) (http 400 invalid_transaction)
  at ← now w
  t ← or_raise (← gets (find_transaction (hash_secret w state))) (http 400 invalid_transaction)
  raise_if (is_unusable w t at (hash_secret w binding)) (http 400 invalid_transaction)
  (metadata, claims) ← exchange_claims w provider t code
  subject ← or_abort (bound_subject w t claims.sub claims.nonce) (http 400 invalid_transaction)
  transaction_or w (http 409 "External identity could not be linked")
      (settle w t metadata.issuer subject claims at)
