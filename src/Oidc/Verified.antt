-- ===== src/Oidc/Verified.antt =====
-- What an ID token that the client accepts has passed.
use fastapi_production_api.Oidc.Offered.{key_or_refreshed-IsOffered}
use fastapi_production_api.Oidc.Load.{load_public_document}
use fastapi_production_api.Oidc.Client.{
  allowed_header, allowed_of, decoded_claims, decoded_under, found_key, is_key, is_other_party,
  key_or_refreshed, validate_id_token, with_document, with_found, with_header, with_keys,
}
use fastapi_production_api.Oidc.Loading.{load-IsValid}
use fastapi_production_api.Oidc.Origin.{HasOrigin}
use fastapi_production_api.Oidc.Results.{done_eq, fetched_ok}
use fastapi_production_api.Sessions.Laws.{chosen}
use fastapi_production_api.Table.{first}
use fastapi_production_api.Oidc.Interface.{IdClaims, OidcMetadata}
use fastapi_production_api.Oidc.Documents.{
  provider_error, done, failed, Document, Network, SigningKey, TokenClaims, advertises, key_list,
  validate_jwks, Outcome,
}
use fastapi_production_api.Oidc.Cache.{lift, jwks, Moment}
use fastapi_production_api.Base.{
  ◌≡◌, refl, ap, sym, ◌∙◌, String, ℕ, true, false, ◌&&◌, ◌==◌, nat_eq, string_eq, Option, none,
  some, List, not, if◌then◌else◌, arith, Bool-cases, inl, inr, subst,
}

-- The header names an allowed algorithm and a key; a key of that id and algorithm stands in a set
-- of keys that the provider has given or Redis has held, and that passed the validation; the token decodes under that key for this client and
-- the issuer of the metadata, and no other party is authorized.
pub record IsVerified (net : Network) (metadata : OidcMetadata) (id_token : String)
    (claims : IdClaims) : Type 0 where
  pub algorithm : String
  pub key_id : String
  pub header : net.unverified_header id_token ≡ some (some algorithm, some key_id)
  pub allowed : advertises algorithm (allowed_of net) ≡ true
  pub payload : Document
  pub origin : HasOrigin net jwks metadata.jwks_uri payload
  pub valid : payload.has_key_objects ≡ true
  pub keys : List SigningKey
  pub key_set : payload.key_set ≡ some keys
  pub key : SigningKey
  pub found : first (is_key algorithm key_id) keys ≡ some key
  pub reading_number : ℕ
  pub token : TokenClaims
  pub decoded :
      net.decode_id_token reading_number key (allowed_of net) net.client_id metadata.issuer id_token
      ≡ some token
  pub party : is_other_party net token ≡ false
  pub read_off : token.claims ≡ claims

allowed_header_ok :
    (allowed : List String) (o : Option (Option String × Option String)) (h : String × String)
    → allowed_header allowed o ≡ done h
    → (o ≡ some (some h.0, some h.1)) × (advertises h.0 allowed ≡ true)
allowed_header_ok allowed none h e = absurd (ground (arith, e))
allowed_header_ok allowed (some (some algorithm, some key_id)) h e =
    elim (Bool-cases (advertises algorithm allowed)) [
      | inr unknown ↦ absurd (ground arith)
      | inl known ↦ elim (Bool-cases (key_id == "")) [
        | inl empty ↦ absurd (ground arith)
        | inr named ↦
            let both : (advertises algorithm allowed && not (key_id == "")) ≡ true = ground arith in
            let refused : Outcome (String × String) =
              failed (provider_error "OIDC ID token header is not allowed") in
            let same : (algorithm, key_id) ≡ h =
              done_eq (sym (ap (λ b. if b then done (algorithm, key_id) else refused) both) ∙ e) in
            (
              ap (λ (x : String × String). some (some x.0, some x.1)) same,
              subst (λ (x : String × String). advertises x.0 allowed ≡ true) same known,
            )
      ]
    ]
allowed_header_ok allowed (some (some algorithm, none)) h e = absurd (ground (arith, e))
allowed_header_ok allowed (some (none, key_id)) h e = absurd (ground (arith, e))

decoded_claims_ok :
    (net : Network) (o : Option TokenClaims) (claims : IdClaims)
    → decoded_claims net o ≡ done claims
    → (token : TokenClaims) × (o ≡ some token)
      × (is_other_party net token ≡ false)
      × (token.claims ≡ claims)
decoded_claims_ok net none claims e = absurd (ground (arith, e))
decoded_claims_ok net (some token) claims e = elim (Bool-cases (is_other_party net token)) [
  | inl stranger ↦ absurd (ground arith)
  | inr party ↦ (token, refl, party, ground arith)
]

found_key_ok : (o : Option SigningKey) (key : SigningKey) → found_key o ≡ done key → o ≡ some key
found_key_ok none key e = absurd (ground (arith, e))
found_key_ok (some k) key e = ap some (done_eq e)

-- An ID token is accepted only if its header names an algorithm that the settings allow and a key; a
-- key of that id and algorithm stands in a set of keys that the provider has given at the metadata's
-- address or that Redis has held for it, and that passed the validation of key sets; the token decodes under that key, the allowed algorithms, this client and the issuer of the metadata;
-- and no other party is authorized. The claims that the service gets are those of this token.
pub validate_id_token-IsVerified :
    (net : Network) (metadata : OidcMetadata) (id_token : String) (t : Moment) (claims : IdClaims)
    → (validate_id_token net metadata id_token t).0 ≡ done claims
    → IsVerified net metadata id_token claims
unfolding validate_id_token
validate_id_token-IsVerified net metadata id_token t claims e =
    let url = metadata.jwks_uri in
    let (h, headed, e1, w1) =
      fetched_ok (lift (allowed_header (allowed_of net) (net.unverified_header id_token)))
        (with_header net metadata id_token) t claims e in
    let (header, allowed) =
      allowed_header_ok (allowed_of net) (net.unverified_header id_token) h headed in
    let (loaded, found, e2, w2) =
      fetched_ok (load_public_document net jwks url validate_jwks)
        (with_document net metadata id_token h) t claims e1 in
    let t2 = (load_public_document net jwks url validate_jwks t).1 in
    let (keys, listed, e3, w3) =
      fetched_ok (lift (key_list loaded.0.key_set)) (with_keys net metadata id_token h loaded) t2
        claims e2 in
    let choice = key_or_refreshed net url h.0 h.1 loaded.0 loaded.1 (first (is_key h.0 h.1) keys) in
    let (o, chosen, e4, w4) = fetched_ok choice (with_found net metadata id_token) t2 claims e3 in
    let t4 = (choice t2).1 in
    let (key, given, e5, w5) =
      fetched_ok (lift (found_key o)) (decoded_under net metadata id_token) t4 claims e4 in
    let is_some_key = found_key_ok o key given in
    let offer =
      key_or_refreshed-IsOffered net url h.0 h.1 loaded.0 keys loaded.1
        (first (is_key h.0 h.1) keys) t2 key
        (load-IsValid net jwks url validate_jwks t loaded found) listed refl
        (chosen ∙ ap done is_some_key) in
    let (token, decoded, party, read_off) =
      decoded_claims_ok net
        (net.decode_id_token t4.ticks key (allowed_of net) net.client_id metadata.issuer id_token)
        claims e5 in
    record {
      algorithm = h.0;
      key_id = h.1;
      header = header;
      allowed = allowed;
      payload = offer.payload;
      origin = offer.origin;
      valid = offer.valid;
      keys = offer.keys;
      key_set = offer.key_set;
      key = key;
      found = offer.found;
      reading_number = t4.ticks;
      token = token;
      decoded = decoded;
      party = party;
      read_off = read_off;
    }
