-- ===== src/Oidc/Interface.antt =====
-- What src/app/services/oidc.py uses of the provider's client: its metadata, the claims of an ID
-- token as the service reads them, and the three calls, by the number of the reading.
use fastapi_production_api.Base.{ℕ, String, Bool, Option}

pub record OidcMetadata : Type 0 where
  pub issuer : String
  pub authorization_endpoint : String
  pub token_endpoint : String
  pub jwks_uri : String

-- The claims that are texts, or none; `email_verified` is whether the claim is `True`.
pub record IdClaims : Type 0 where
  pub sub : Option String
  pub nonce : Option String
  pub email : Option String
  pub email_verified : Bool

-- Each call gives none where it raises OIDCProviderError.
pub record Provider : Type 0 where
  pub discover : ℕ → Option OidcMetadata
  pub exchange_code : ℕ → OidcMetadata → String → String → String → Option String
  pub validate_id_token : ℕ → OidcMetadata → String → Option IdClaims
