-- ===== src/Oidc/Trust.antt =====
-- What the client accepts from the provider.
use fastapi_production_api.Oidc.Load.{load_public_document}
use fastapi_production_api.Oidc.Client.{discover}
use fastapi_production_api.Oidc.Loading.{load-IsValid}
use fastapi_production_api.Oidc.Origin.{HasOrigin}
use fastapi_production_api.Oidc.Results.{done_eq, fetched_ok}
use Prim.Native.String.{◌++◌}
use fastapi_production_api.Oidc.Cache.{discovery, pure, Moment}
use fastapi_production_api.Oidc.Interface.{OidcMetadata}
use fastapi_production_api.World.{text, other, JsonField}
use fastapi_production_api.Oidc.Documents.{
  offers_method, ◌>>=◌, ◌>>◌, done, failed, Document, Network, Url, as_text, configured_issuer,
  endpoint, is_secure, require, split_url, Outcome, is_text, item, validate_discovery,
}
use fastapi_production_api.Base.{
  ◌≡◌, refl, ap, sym, ◌∙◌, String, Bool, true, false, nat_eq, string_eq, Option, none, some, arith,
  Bool-cases, inl, inr, subst, ==_iff,
}

-- A text that urlsplit reads as an HTTPS URL with a host, without fragment and credentials.
abbrev pub IsEndpoint : Network → String → Type 0
IsEndpoint net value = (url : Url) × (net.urlsplit (text value) ≡ some url) × (is_secure url ≡ true)

-- Metadata read off the document, whose issuer is the configured one, whose endpoints are such URLs
-- and which names S256 among its challenge methods.
pub record IsTrusted (net : Network) (payload : Document) (m : OidcMetadata) : Type 0 where
  pub issued : m.issuer ≡ configured_issuer net
  pub issuer_field : payload.field "issuer" ≡ some (text m.issuer)
  pub authorization_field :
      payload.field "authorization_endpoint" ≡ some (text m.authorization_endpoint)
  pub authorization : IsEndpoint net m.authorization_endpoint
  pub token_field : payload.field "token_endpoint" ≡ some (text m.token_endpoint)
  pub token : IsEndpoint net m.token_endpoint
  pub keys_field : payload.field "jwks_uri" ≡ some (text m.jwks_uri)
  pub keys : IsEndpoint net m.jwks_uri
  pub pkce : offers_method "S256" payload.challenge_methods ≡ done true

secure_text :
    (net : Network) (value : JsonField) (o : Option Url) (u : String)
    → net.urlsplit value ≡ o
    → (split_url o >>= λ url.
        require (is_secure url) "OIDC provider endpoints must use HTTPS" >> as_text value)
      ≡ done u
    → IsEndpoint net u × (value ≡ text u)
secure_text net value none u split e = absurd (ground arith)
secure_text net (text v) (some url) u split e = elim (Bool-cases (is_secure url)) [
  | inl secure ↦
      let detail : String = "OIDC provider endpoints must use HTTPS" in
      let same : v ≡ u = done_eq (sym (ap (λ b. require b detail >> done v) secure) ∙ e) in
      ((url, subst (λ x. net.urlsplit (text x) ≡ some url) same split, secure), ap text same)
  | inr insecure ↦ absurd (ground arith)
]
secure_text net other (some url) u split e = absurd (ground arith)

endpoint-IsEndpoint :
    (net : Network) (value : JsonField) (u : String)
    → endpoint net value ≡ done u
    → IsEndpoint net u × (value ≡ text u)
unfolding endpoint
endpoint-IsEndpoint net value u e = secure_text net value (net.urlsplit value) u refl e

abbrev metadata_of : Network → String → String → String → OidcMetadata
metadata_of net authorization token keys = record {
  issuer = configured_issuer net;
  authorization_endpoint = authorization;
  token_endpoint = token;
  jwks_uri = keys;
}

pub bind_done :
    {A B : Type 0} (o : Outcome A) (f : A → Outcome B) (b : B)
    → (o >>= f) ≡ done b
    → (a : A) × (o ≡ done a) × (f a ≡ done b)
bind_done (done a) f b e = (a, refl, e)
bind_done (failed x) f b e = absurd (ground (arith, e))

pub required :
    {B : Type 0} (c : Bool) (detail : String) (k : Outcome B) (b : B)
    → (require c detail >> k) ≡ done b
    → (c ≡ true) × (k ≡ done b)
required true detail k b e = (refl, e)
required false detail k b e = absurd (ground (arith, e))

item_ok : (o : Option JsonField) (value : JsonField) → item o ≡ done value → o ≡ some value
item_ok none value e = absurd (ground (arith, e))
item_ok (some v) value e = ap some (done_eq e)

is_text_ok :
    (expected : String) (value : JsonField) → is_text expected value ≡ true → value ≡ text expected
is_text_ok expected (text t) e = ap text ((==_iff t expected).0 e)
is_text_ok expected other e = absurd (ground (arith, e))

validate_discovery-IsTrusted :
    (net : Network) (payload : Document) (m : OidcMetadata)
    → validate_discovery net payload ≡ done m
    → IsTrusted net payload m
unfolding validate_discovery
validate_discovery-IsTrusted net payload m e =
    let (issuer, has_issuer, e1) = bind_done (item (payload.field "issuer")) _ m e in
    let (a, has_a, e2) = bind_done (item (payload.field "authorization_endpoint")) _ m e1 in
    let (t, has_t, e3) = bind_done (item (payload.field "token_endpoint")) _ m e2 in
    let (k, has_k, e4) = bind_done (item (payload.field "jwks_uri")) _ m e3 in
    let (issued, e5) =
      required (is_text (configured_issuer net) issuer) "OIDC discovery issuer mismatch" _ m e4 in
    let (authorization, secure_a, e6) = bind_done (endpoint net a) _ m e5 in
    let (token, secure_t, e7) = bind_done (endpoint net t) _ m e6 in
    let (keys, secure_k, e8) = bind_done (endpoint net k) _ m e7 in
    let (offers, contained, e9) =
      bind_done (offers_method "S256" payload.challenge_methods) _ m e8 in
    let (pkce, e10) = required offers "OIDC provider does not advertise PKCE S256" _ m e9 in
    let (at_a, is_a) = endpoint-IsEndpoint net a authorization secure_a in
    let (at_t, is_t) = endpoint-IsEndpoint net t token secure_t in
    let (at_k, is_k) = endpoint-IsEndpoint net k keys secure_k in
    subst (IsTrusted net payload) (done_eq e10) (record {
      issued = refl;
      issuer_field =
          item_ok _ issuer has_issuer ∙ ap some (is_text_ok (configured_issuer net) issuer issued);
      authorization_field = item_ok _ a has_a ∙ ap some is_a;
      authorization = at_a;
      token_field = item_ok _ t has_t ∙ ap some is_t;
      token = at_t;
      keys_field = item_ok _ k has_k ∙ ap some is_k;
      keys = at_k;
      pkce = contained ∙ ap done pkce;
    })

-- `settings.OIDC_ISSUER.rstrip("/")` and the path of the metadata.
abbrev pub discovery_url : Network → String
discovery_url net = configured_issuer net ++ "/.well-known/openid-configuration"

-- Whatever the cache holds, whatever other clients do to it and whatever the provider answers: the
-- metadata that the client works with stands, field by field, in a document that the provider
-- has given at the discovery URL or that Redis has held for it; the document names the configured
-- issuer and S256 among its challenge methods; and the endpoints are HTTPS URLs with a host and
-- without fragment and credentials.
pub discover-IsTrusted :
    (net : Network) (t : Moment) (m : OidcMetadata)
    → (discover net t).0 ≡ done m
    → (payload : Document) × HasOrigin net discovery (discovery_url net) payload
      × IsTrusted net payload m
unfolding discover
discover-IsTrusted net t m e =
    let url = discovery_url net in
    let (loaded, found, given, whole) =
      fetched_ok (load_public_document net discovery url (validate_discovery net)) (λ r. pure r.0) t
        m e in
    let (payload, valid, origin) =
      load-IsValid net discovery url (validate_discovery net) t loaded found in
    (
      payload,
      origin,
      subst (IsTrusted net payload) (done_eq given)
          (validate_discovery-IsTrusted net payload loaded.0 valid),
    )
