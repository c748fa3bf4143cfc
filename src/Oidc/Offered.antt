-- ===== src/Oidc/Offered.antt =====
-- Where a signing key that the client finds comes from.
use fastapi_production_api.Oidc.Load.{refreshed}
use fastapi_production_api.Oidc.Client.{is_key, key_or_refreshed, picked}
use fastapi_production_api.Oidc.Loading.{refreshed-IsValid}
use fastapi_production_api.Oidc.Origin.{HasOrigin}
use fastapi_production_api.Oidc.Results.{done_eq, fetched_ok}
use fastapi_production_api.Oidc.Trust.{bind_done, required}
use fastapi_production_api.Table.{first}
use fastapi_production_api.Oidc.Documents.{
  done, Document, Network, SigningKey, key_list, validate_jwks,
}
use fastapi_production_api.Oidc.Cache.{pure, lift, jwks, Moment}
use fastapi_production_api.Base.{
  ◌≡◌, ap, ◌∙◌, String, Bool, true, false, nat_eq, string_eq, Option, none, some, List, arith,
  subst,
}

key_list_ok :
    (o : Option (List SigningKey)) (keys : List SigningKey) → key_list o ≡ done keys → o ≡ some keys
key_list_ok none keys e = absurd (ground (arith, e))
key_list_ok (some ks) keys e = ap some (done_eq e)

validate_jwks_ok :
    (payload result : Document) (keys : List SigningKey)
    → validate_jwks payload ≡ done result
    → key_list result.key_set ≡ done keys
    → (result.has_key_objects ≡ true) × (result.key_set ≡ some keys) × (payload ≡ result)
unfolding validate_jwks
validate_jwks_ok payload result keys e k =
    let (objects, rest) =
      required payload.has_key_objects "OIDC JWKS document is invalid" _ result e in
    let (parsed, set, last) =
      bind_done (key_list payload.key_set) (λ _. done payload) result rest in
    (
      subst (λ (d : Document). d.has_key_objects ≡ true) (done_eq last) objects,
      key_list_ok result.key_set keys k,
      done_eq last,
    )

module _ (net : Network) (url algorithm key_id : String) where
  -- A key that the client finds, with the set of keys that it is of.
  pub record IsOffered (key : SigningKey) : Type 0 where
    pub payload : Document
    pub origin : HasOrigin net jwks url payload
    pub valid : payload.has_key_objects ≡ true
    pub keys : List SigningKey
    pub key_set : payload.key_set ≡ some keys
    pub found : first (is_key algorithm key_id) keys ≡ some key

  -- A loaded set of keys.
  abbrev pub IsLoaded : Document → Type 0
  IsLoaded payload =
      (source : Document) × (validate_jwks source ≡ done payload) × HasOrigin net jwks url source

  IsOffered-of :
      (payload : Document) (keys : List SigningKey) (key : SigningKey)
      → IsLoaded payload
      → key_list payload.key_set ≡ done keys
      → first (is_key algorithm key_id) keys ≡ some key
      → IsOffered key
  IsOffered-of payload keys key (source, valid, origin) listed found =
      let (objects, set, same) = validate_jwks_ok source payload keys valid listed in
      record {
        payload = payload;
        origin = subst (HasOrigin net jwks url) same origin;
        valid = objects;
        keys = keys;
        key_set = set;
        found = found;
      }

  pub key_or_refreshed-IsOffered :
      (payload : Document) (keys : List SigningKey) (cached : Bool) (o : Option SigningKey)
      (t : Moment) (key : SigningKey)
      → IsLoaded payload
      → key_list payload.key_set ≡ done keys
      → first (is_key algorithm key_id) keys ≡ o
      → (key_or_refreshed net url algorithm key_id payload cached o t).0 ≡ done (some key)
      → IsOffered key
  unfolding key_or_refreshed
  key_or_refreshed-IsOffered payload keys cached (some k) t key loaded listed found e =
      IsOffered-of payload keys key loaded listed (found ∙ done_eq e)
  key_or_refreshed-IsOffered payload keys false none t key loaded listed found e =
      absurd (ground (arith, e))
  key_or_refreshed-IsOffered payload keys true none t key loaded listed found e =
      let (again, given, rest, whole) =
        fetched_ok (refreshed net jwks url validate_jwks (some payload)) (picked algorithm key_id) t
          (some key) e in
      let (keys', listed', last, whole') =
        fetched_ok (lift (key_list again.0.key_set))
          (λ ks. pure (first (is_key algorithm key_id) ks))
          (refreshed net jwks url validate_jwks (some payload) t).1 (some key) rest in
      IsOffered-of again.0 keys' key
        (refreshed-IsValid net jwks url validate_jwks (some payload) t again given) listed'
        (done_eq last)
