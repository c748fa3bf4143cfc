-- ===== src/Oidc/Client.antt =====
-- The calls of the client of the identity provider: src/app/services/oidc_provider.py.
use fastapi_production_api.Oidc.Load.{load_public_document, refreshed}
use fastapi_production_api.Oidc.Entries.{split_commas, stripped_entries}
use fastapi_production_api.Table.{first}
use fastapi_production_api.World.{JsonField, text}
use fastapi_production_api.Oidc.Interface.{IdClaims, OidcMetadata}
use fastapi_production_api.Oidc.Documents.{
  Document, Network, Outcome, SigningKey, TokenClaims, advertises, configured_issuer, is_text,
  key_list, validate_discovery, validate_jwks, failed, provider_error, done,
}
use fastapi_production_api.Oidc.Cache.{Fetch, lift, discovery, jwks, ◌>>=◌, reading, pure}
use Prim.Native.String.{◌++◌}
use fastapi_production_api.Base.{
  String, Bool, true, false, ◌&&◌, ◌||◌, ◌==◌, Option, none, some, List, not, [], ◌∷◌,
  if◌then◌else◌, is_none, nat_eq, string_eq,
}

unfoldable pub discover : Network → Fetch OidcMetadata
unfolding load_public_document validate_discovery
discover net = do
  loaded ←
      load_public_document net discovery
        (configured_issuer net ++ "/.well-known/openid-configuration") (validate_discovery net)
  pure loaded.0

abbrev pub credentials : Network → Option (String × String)
credentials net =
    if net.token_endpoint_auth_method == "client_secret_basic"
    then some (net.client_id, net.client_secret)
    else none

abbrev pub secret_field : Network → List (String × String)
secret_field net =
    if net.token_endpoint_auth_method == "client_secret_basic"
    then []
    else ("client_secret", net.client_secret) ∷ []

abbrev pub id_token_of : Option Document → Outcome String
id_token_of none = failed (provider_error "OIDC provider request failed")
id_token_of (some payload) = elim (payload.field "id_token") [
  | some (text id_token) ↦
      if id_token == ""
      then failed (provider_error "OIDC token response did not contain an ID token")
      else done id_token
  | _ ↦ failed (provider_error "OIDC token response did not contain an ID token")
]

unfoldable pub exchange_code : Network → OidcMetadata → String → String → String → Fetch String
exchange_code net metadata code code_verifier redirect_uri =
    let form =
      ("grant_type", "authorization_code")
      ∷ ("code", code)
      ∷ ("redirect_uri", redirect_uri)
      ∷ ("client_id", net.client_id)
      ∷ ("code_verifier", code_verifier)
      ∷ secret_field net in
    do
      payload ← reading (λ n. net.post_form n metadata.token_endpoint form (credentials net))
      lift (id_token_of payload)

-- `algorithm not in allowed or not key_id`
abbrev pub allowed_header :
    List String → Option (Option String × Option String) → Outcome (String × String)
allowed_header allowed none = failed (provider_error "OIDC ID token validation failed")
allowed_header allowed (some (some algorithm, some key_id)) =
    if advertises algorithm allowed && not (key_id == "")
    then done (algorithm, key_id)
    else failed (provider_error "OIDC ID token header is not allowed")
allowed_header allowed (some (some algorithm, none)) =
    failed (provider_error "OIDC ID token header is not allowed")
allowed_header allowed (some (none, key_id)) =
    failed (provider_error "OIDC ID token header is not allowed")

-- `key.key_id == key_id and key.algorithm_name == algorithm`
abbrev pub is_key : String → String → SigningKey → Bool
is_key algorithm key_id key = elim key.key_id [
  | none ↦ false
  | some id ↦ id == key_id && key.algorithm_name == algorithm
]

-- `next((key for key in keys if ...), None)` of a loaded document.
abbrev pub picked : String → String → Document × Bool → Fetch (Option SigningKey)
picked algorithm key_id loaded =
    lift (key_list loaded.0.key_set) >>= λ keys. pure (first (is_key algorithm key_id) keys)

-- Without a key from a cached document, the document is fetched again.
unfoldable pub key_or_refreshed :
    Network
    → String
    → String
    → String
    → Document
    → Bool
    → Option SigningKey
    → Fetch (Option SigningKey)
unfolding refreshed validate_jwks
key_or_refreshed net url algorithm key_id jwks_payload cached (some key) = pure (some key)
key_or_refreshed net url algorithm key_id jwks_payload false none = pure none
key_or_refreshed net url algorithm key_id jwks_payload true none =
    refreshed net jwks url validate_jwks (some jwks_payload) >>= picked algorithm key_id

abbrev pub found_key : Option SigningKey → Outcome SigningKey
found_key none = failed (provider_error "OIDC signing key was not found")
found_key (some key) = done key

-- The two conditions on "azp".
abbrev pub is_party : Network → Option JsonField → Bool
is_party net none = false
is_party net (some value) = is_text net.client_id value

abbrev pub is_other_party : Network → TokenClaims → Bool
is_other_party net claims =
    if claims.has_several_audiences
    then not (is_party net claims.azp)
    else not (is_none claims.azp || is_party net claims.azp)

abbrev pub decoded_claims : Network → Option TokenClaims → Outcome IdClaims
decoded_claims net none = failed (provider_error "OIDC ID token validation failed")
decoded_claims net (some claims) =
    if is_other_party net claims
    then failed (provider_error "OIDC authorized party mismatch")
    else done claims.claims

-- The steps of `validate_id_token`, each with those behind it.
abbrev pub allowed_of : Network → List String
allowed_of net = stripped_entries (split_commas net.allowed_algorithms)

module _ (net : Network) (metadata : OidcMetadata) (id_token : String) where
  abbrev pub decoded_under : SigningKey → Fetch IdClaims
  decoded_under key =
      reading
        (λ n. net.decode_id_token n key (allowed_of net) net.client_id metadata.issuer id_token)
      >>= λ decoded. lift (decoded_claims net decoded)

  abbrev pub with_found : Option SigningKey → Fetch IdClaims
  with_found found = lift (found_key found) >>= decoded_under

  abbrev pub with_keys : String × String → Document × Bool → List SigningKey → Fetch IdClaims
  with_keys (algorithm, key_id) (payload, cached) keys =
      key_or_refreshed net metadata.jwks_uri algorithm key_id payload cached
        (first (is_key algorithm key_id) keys)
      >>= with_found

  abbrev pub with_document : String × String → Document × Bool → Fetch IdClaims
  with_document header loaded = lift (key_list loaded.0.key_set) >>= with_keys header loaded

  abbrev pub with_header : String × String → Fetch IdClaims
  with_header header =
      load_public_document net jwks metadata.jwks_uri validate_jwks >>= with_document header

unfoldable pub validate_id_token : Network → OidcMetadata → String → Fetch IdClaims
unfolding load_public_document validate_jwks key_or_refreshed stripped_entries split_commas
validate_id_token net metadata id_token =
    lift (allowed_header (allowed_of net) (net.unverified_header id_token))
    >>= with_header net metadata id_token
