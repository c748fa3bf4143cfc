-- ===== src/Examples/Provider.antt =====
-- Runs of the client of the identity provider, with a store that another client has poisoned.
use fastapi_production_api.Oidc.Client.{discover, validate_id_token}
use fastapi_production_api.Table.{first}
use fastapi_production_api.Oidc.Texts.{rstrip}
use fastapi_production_api.Oidc.Waiting.{wait_for_value_ends}
use fastapi_production_api.Oidc.Interface.{OidcMetadata}
use fastapi_production_api.Oidc.Verified.{IsVerified, validate_id_token-IsVerified}
use fastapi_production_api.Oidc.Origin.{HasOrigin}
use fastapi_production_api.Oidc.Trust.{IsTrusted, discovery_url, discover-IsTrusted}
use fastapi_production_api.Examples.Oidc.{sample_claims}
use fastapi_production_api.World.{text}
use fastapi_production_api.Oidc.Documents.{
  done, Document, Network, SigningKey, Store, TokenClaims, Url, entries,
}
use fastapi_production_api.Oidc.Cache.{discovery, jwks, CacheRead, Moment, wait_for_value}
use fastapi_production_api.Base.{
  ℕ, suc, true, false, none, some, ◌≡◌, ◌≤◌, ◌==◌, string_eq, refl, [], ◌∷◌, arith, nat_eq,
  if◌then◌else◌,
}

abbrev provider_url : Url
provider_url = record {
  scheme = "https";
  netloc = "issuer";
  fragment = "";
  username = none;
  password = none;
}

abbrev provider_key : SigningKey
provider_key = record { key_id = some "key"; algorithm_name = "RS256"; material = "material" }

-- One object that serves as discovery metadata and as a set of keys.
abbrev provider_document : Document
provider_document = record {
  field = λ name.
      some (text (if name == "issuer" then "https://issuer" else "https://issuer/endpoint"));
  challenge_methods = entries ("S256" ∷ []);
  has_key_objects = true;
  key_set = some (provider_key ∷ []);
}

abbrev poisoned_document : Document
poisoned_document = record provider_document {
  field = λ name. some (text "https://attacker");
  has_key_objects = false;
}

abbrev poisoned_store : Store
poisoned_store = record {
  discovery = some "poison";
  jwks = some "poison";
  discovery_lock = none;
  jwks_lock = none;
}

abbrev provider_claims : TokenClaims
provider_claims = record { has_several_audiences = false; azp = none; claims = sample_claims }

abbrev sample_network : Network
sample_network = record {
  cache_enabled = true;
  cache_max_document_bytes = 1000;
  cache_refresh_wait = 120000;
  issuer = "https://issuer/";
  client_id = "client";
  client_secret = "secret";
  token_endpoint_auth_method = "client_secret_basic";
  allowed_algorithms = "RS256, ES256";
  urlsplit = λ v. some provider_url;
  json_object = λ s. if s == "poison" then some poisoned_document else none;
  json_dumps = λ d. "fresh";
  same_document = λ a b. true;
  get_json = λ n url. some (100, provider_document);
  post_form = λ n url form auth. some provider_document;
  unverified_header = λ t. some (some "RS256", some "key");
  decode_id_token = λ n key algorithms audience issuer t. some provider_claims;
  token_bytes = λ n. "lock";
  monotonic = λ n. n;
  redis_fails = λ n. false;
  others = λ n store. store;
}

abbrev poisoned : Moment
poisoned = record { store = poisoned_store; ticks = 0; slept = 0 }

abbrev endpoint_metadata : OidcMetadata
endpoint_metadata = record {
  issuer = "https://issuer";
  authorization_endpoint = "https://issuer/endpoint";
  token_endpoint = "https://issuer/endpoint";
  jwks_uri = "https://issuer/endpoint";
}

discover-IsTrusted_example :
    (payload : Document) × HasOrigin sample_network discovery (discovery_url sample_network) payload
    × IsTrusted sample_network payload endpoint_metadata
unfolding discover rstrip
discover-IsTrusted_example = discover-IsTrusted sample_network poisoned endpoint_metadata refl

validate_id_token-IsVerified_example :
    IsVerified sample_network endpoint_metadata "id token" sample_claims
unfolding validate_id_token first
validate_id_token-IsVerified_example =
    validate_id_token-IsVerified sample_network endpoint_metadata "id token" poisoned sample_claims
      refl

ticking : (n : ℕ) → sample_network.monotonic n ≤ sample_network.monotonic (suc n)
ticking n = omega arith

wait_for_value_ends_example :
    (r : CacheRead) × ((wait_for_value sample_network jwks (some poisoned_document) poisoned).0
      ≡ done (some r))
wait_for_value_ends_example =
    wait_for_value_ends sample_network jwks (some poisoned_document) poisoned ticking
