-- ===== src/Oidc/Documents.antt =====
-- The JSON documents of a provider and their validation: `_validate_discovery` and `_validate_jwks`
-- of src/app/services/oidc_provider.py.
use fastapi_production_api.Oidc.Texts.{is_slash, rstrip}
use fastapi_production_api.World.{JsonField, text, other}
use fastapi_production_api.Oidc.Interface.{IdClaims, OidcMetadata}
use package.text.Mathlib.Text.{find?}
use fastapi_production_api.Base.{
  String, ℕ, Bool, true, false, ◌&&◌, ◌||◌, ◌==◌, Option, none, some, List, not, [], ◌∷◌, is_none,
  is_some, nat_eq, string_eq,
}

-- A public key of the provider, as PyJWKSet gives it.
pub record SigningKey : Type 0 where
  pub key_id : Option String
  pub algorithm_name : String
  pub material : String

-- The value of "code_challenge_methods_supported", with [] where it is missing: a list, of which the
-- texts are kept; an object, with its keys; a text; or a value that `in` does not take.
pub data Methods : Type 0 where
  entries : List String → Methods
  method_text : String → Methods
  no_container : Methods

-- A JSON object as the client reads it: its fields, its challenge methods, whether "keys" is a list of objects that is not empty, and the
-- keys, if PyJWKSet.from_dict takes the object.
pub record Document : Type 0 where
  pub field : String → Option JsonField
  pub challenge_methods : Methods
  pub has_key_objects : Bool
  pub key_set : Option (List SigningKey)

-- What urlsplit gives.
pub record Url : Type 0 where
  pub scheme : String
  pub netloc : String
  pub fragment : String
  pub username : Option String
  pub password : Option String

-- OIDCProviderError, or any other exception.
pub data Failure : Type 0 where
  provider_error : String → Failure
  crash : Failure

pub data Outcome {ℓ} (A : Type ℓ) : Type ℓ where
  done : A → Outcome A
  failed : Failure → Outcome A

-- What jwt.decode gives for an ID token: whether the audience is a list of several, the authorized
-- party, and the claims that the service reads.
pub record TokenClaims : Type 0 where
  pub has_several_audiences : Bool
  pub azp : Option JsonField
  pub claims : IdClaims

-- What Redis holds for the cache: the two documents and the two locks.
pub record Store : Type 0 where
  pub discovery : Option String
  pub jwks : Option String
  pub discovery_lock : Option String
  pub jwks_lock : Option String

-- What the client uses and does not implement: the settings, urlsplit, PyJWT, httpx, the clocks, and
-- Redis. `others` is what other clients and the expiry of keys do to the store before the command of
-- that number, and `redis_fails` whether the command raises RedisError, OSError or TimeoutError.
pub record Network : Type 0 where
  pub cache_enabled : Bool
  pub cache_max_document_bytes : ℕ
  -- in microseconds
  pub cache_refresh_wait : ℕ
  pub issuer : String
  pub client_id : String
  pub client_secret : String
  pub token_endpoint_auth_method : String
  pub allowed_algorithms : String
  -- of any JSON value; none where it raises
  pub urlsplit : JsonField → Option Url
  -- json.loads of a cached text, where it gives an object; json.dumps of an object; `!=` of objects
  pub json_object : String → Option Document
  pub json_dumps : Document → String
  pub same_document : Document → Document → Bool
  -- a request by httpx that gives a JSON object, with the bytes of the answer
  pub get_json : ℕ → String → Option (ℕ × Document)
  pub post_form : ℕ → String → List (String × String) → Option (String × String) → Option Document
  pub unverified_header : String → Option (Option String × Option String)
  pub decode_id_token : ℕ → SigningKey → List String → String → String → String → Option TokenClaims
  pub token_bytes : ℕ → String
  -- time.monotonic() in microseconds, less the time that the client has slept
  pub monotonic : ℕ → ℕ
  pub redis_fails : ℕ → Bool
  pub others : ℕ → Store → Store

infixl 5 ◌>>=◌ ◌>>◌
abbrev pub ◌>>=◌ {ℓ κ} : {A : Type ℓ} {B : Type κ} → Outcome A → (A → Outcome B) → Outcome B
done a >>= f = f a
failed e >>= f = failed e

abbrev pub ◌>>◌ {ℓ κ} : {A : Type ℓ} {B : Type κ} → Outcome A → Outcome B → Outcome B
m >> k = m >>= λ _. k

abbrev pub require : Bool → String → Outcome (Unit {0})
require true detail = done tt
require false detail = failed (provider_error detail)

-- `payload["..."]`
abbrev pub item : Option JsonField → Outcome JsonField
item none = failed (provider_error "OIDC discovery metadata is incomplete")
item (some value) = done value

abbrev pub is_text : String → JsonField → Bool
is_text expected (text t) = t == expected
is_text expected other = false

abbrev pub as_text : JsonField → Outcome String
as_text (text t) = done t
as_text other = failed crash

-- The condition on each endpoint.
abbrev pub is_secure : Url → Bool
is_secure url =
    url.scheme == "https"
    && not (url.netloc == "")
    && url.fragment == ""
    && is_none url.username
    && is_none url.password

abbrev pub split_url : Option Url → Outcome Url
split_url none = failed crash
split_url (some url) = done url

unfoldable pub endpoint : Network → JsonField → Outcome String
endpoint net value = do
  url ← split_url (net.urlsplit value)
  require (is_secure url) "OIDC provider endpoints must use HTTPS"
  as_text value

abbrev pub advertises : String → List String → Bool
advertises method [] = false
advertises method (m ∷ ms) = m == method || advertises method ms

-- `"S256" in methods`: an entry, a part of a text, or a TypeError.
abbrev pub offers_method : String → Methods → Outcome Bool
offers_method method (entries methods) = done (advertises method methods)
offers_method method (method_text t) = done (is_some (find? t method))
offers_method method no_container = failed crash

abbrev pub configured_issuer : Network → String
configured_issuer net = rstrip is_slash net.issuer

unfoldable pub validate_discovery : Network → Document → Outcome OidcMetadata
unfolding endpoint
validate_discovery net payload = do
  issuer ← item (payload.field "issuer")
  authorization_endpoint ← item (payload.field "authorization_endpoint")
  token_endpoint ← item (payload.field "token_endpoint")
  jwks_uri ← item (payload.field "jwks_uri")
  require (is_text (configured_issuer net) issuer) "OIDC discovery issuer mismatch"
  authorization ← endpoint net authorization_endpoint
  token ← endpoint net token_endpoint
  keys ← endpoint net jwks_uri
  pkce ← offers_method "S256" payload.challenge_methods
  require pkce "OIDC provider does not advertise PKCE S256"
  done (record {
    issuer = configured_issuer net;
    authorization_endpoint = authorization;
    token_endpoint = token;
    jwks_uri = keys;
  })

-- `jwt.PyJWKSet.from_dict(payload).keys`
abbrev pub key_list : Option (List SigningKey) → Outcome (List SigningKey)
key_list none = failed (provider_error "OIDC JWKS document is invalid")
key_list (some keys) = done keys

unfoldable pub validate_jwks : Document → Outcome Document
validate_jwks payload = do
  require payload.has_key_objects "OIDC JWKS document is invalid"
  key_list payload.key_set
  done payload
