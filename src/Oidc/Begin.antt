-- ===== src/Oidc/Begin.antt =====
-- The start of an authorization: `_require_available`, `_hash_secret`, `_code_challenge` and
-- `begin_oidc_authorization` of src/app/services/oidc.py.
use fastapi_production_api.Tokens.{now}
use fastapi_production_api.Oidc.Texts.{has_question_mark}
use fastapi_production_api.Table.{add_row}
use fastapi_production_api.World.{World, minutes}
use fastapi_production_api.Oidc.Interface.{Provider}
use fastapi_production_api.Models.{OidcTransaction}
use fastapi_production_api.Db.{
  Action, modify, or_raise, pure, raise_if, reading, transaction, ◌>>=◌, ◌>>◌, http, value_error,
}
use Prim.Native.String.{◌++◌}
use fastapi_production_api.Base.{
  String, ℕ, ◌*◌, ◌+◌, Option, none, Bool, not, ◌==◌, ◌∷◌, [], if◌then◌else◌, List, is_some, nat_eq,
  string_eq,
}

pub record OidcAuthorizationStart : Type 0 where
  pub authorization_url : String
  pub browser_binding : String
  pub expires_in : ℕ

unfoldable pub require_oidc_available : World → Action (Unit {0})
require_oidc_available w = do
  raise_if (not w.settings.oidc_enabled) (http 503 "OIDC is not available")
  raise_if (not w.oidc_key_valid) (http 503 "OIDC is not available")

unfoldable pub hash_secret : World → String → String
hash_secret w value = w.sha256 value

unfoldable pub code_challenge : World → String → String
code_challenge w verifier = w.s256 verifier

-- `db.add(transaction)`, with the id and `created_at` that the row gets.
unfoldable pub insert_oidc_transaction : World → (ℕ → ℕ → OidcTransaction) → Action (Unit {0})
insert_oidc_transaction w row = do
  id ← reading w.row_id
  created_at ← now w
  modify λ db. record db { oidc_transactions = add_row (row id created_at) db.oidc_transactions }

-- `(intent == "link") != (user_id is not None)`
abbrev pub is_misbound : String → Option ℕ → Bool
is_misbound intent user_id = if intent == "link" then not (is_some user_id) else is_some user_id

abbrev pub authorization_parameters : World → String → String → String → List (String × String)
authorization_parameters w state nonce challenge =
    ("response_type", "code")
    ∷ ("client_id", w.settings.oidc_client_id)
    ∷ ("redirect_uri", w.settings.oidc_redirect_uri)
    ∷ ("scope", w.settings.oidc_scopes)
    ∷ ("state", state)
    ∷ ("nonce", nonce)
    ∷ ("code_challenge", challenge)
    ∷ ("code_challenge_method", "S256")
    ∷ []

-- `f"{authorization_endpoint}{separator}{parameters}"`
unfoldable pub with_parameters : String → String → String
unfolding has_question_mark
with_parameters endpoint parameters =
    endpoint ++ (if has_question_mark endpoint then "&" else "?") ++ parameters

unfoldable pub begin_oidc_authorization :
    World → Provider → String → String → Option ℕ → Action OidcAuthorizationStart
unfolding require_oidc_available hash_secret code_challenge insert_oidc_transaction with_parameters
begin_oidc_authorization w provider intent device_name user_id = do
  require_oidc_available w
  raise_if (is_misbound intent user_id)
      (value_error "OIDC link transactions must be bound to a user")
  metadata ← or_raise (← reading provider.discover) (http 502 "OIDC provider unavailable")
  state ← reading w.random
  browser_binding ← reading w.random
  nonce ← reading w.random
  verifier ← reading w.random
  at ← now w
  encrypted ← reading (λ n. w.encrypt_verifier n verifier)
  transaction w (
      insert_oidc_transaction w λ id created_at. record {
        id = id;
        state_hash = hash_secret w state;
        browser_binding_hash = hash_secret w browser_binding;
        nonce_hash = hash_secret w nonce;
        code_verifier_encrypted = encrypted;
        intent = intent;
        user_id = user_id;
        issuer = metadata.issuer;
        redirect_uri = w.settings.oidc_redirect_uri;
        device_name = device_name;
        expires_at = at + minutes w.settings.oidc_transaction_expire_minutes;
        consumed_at = none;
        created_at = created_at;
      })
  let parameters = w.urlencode (authorization_parameters w state nonce (code_challenge w verifier))
  pure (record {
    authorization_url = with_parameters metadata.authorization_endpoint parameters;
    browser_binding = browser_binding;
    expires_in = w.settings.oidc_transaction_expire_minutes * 60;
  })
