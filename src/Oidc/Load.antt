-- ===== src/Oidc/Load.antt =====
-- The load of a public document through the cache: `_load_public_document` of
-- src/app/services/oidc_provider.py.
use fastapi_production_api.RateLimit.Middleware.{answer}
use fastapi_production_api.Oidc.Documents.{
  Document, Network, Outcome, failed, provider_error, done, crash,
}
use fastapi_production_api.Oidc.Cache.{
  CacheDocument, CacheRead, Fetch, acquire_refresh_lock, discard_invalid, lift, read,
  release_refresh_lock, wait_for_value, write, ◌>>=◌, ◌>>◌, reading, pure,
}
use fastapi_production_api.Base.{
  String, ℕ, Bool, true, false, ◌&&◌, Option, none, some, if◌then◌else◌, ltb, is_none, nat_eq,
  string_eq,
}

-- `_request_json` with a bound on the bytes of the answer.
abbrev pub bounded : ℕ → Option (ℕ × Document) → Outcome Document
bounded max_bytes none = failed (provider_error "OIDC provider request failed")
bounded max_bytes (some (bytes, payload)) =
    if ltb max_bytes bytes
    then failed (provider_error "OIDC provider document is too large")
    else done payload

-- The metrics of `_fetch_public_document` are left out.
unfoldable pub fetch_public_document : Network → String → Fetch Document
fetch_public_document net url = do
  answer ← reading (λ n. net.get_json n url)
  lift (bounded net.cache_max_document_bytes answer)

-- `finally: if lock is not None: release`
unfoldable pub releasing {κ} :
    {B : Type κ} → Network → CacheDocument → Option String → Fetch B → Fetch B
unfolding release_refresh_lock
releasing net document none body t = body t
releasing net document (some token) body t =
    let (r, t') = body t in (r, (release_refresh_lock net document token t').1)

abbrev pub payload_read : Option CacheRead → Option Document
payload_read none = none
payload_read (some result) = result.payload

-- `if lock is None and self.cache.enabled`
abbrev pub awaited :
    Network → CacheDocument → Option Document → Option String → Fetch (Option CacheRead)
awaited net document previous lock =
    if is_none lock && net.cache_enabled then wait_for_value net document previous else pure none

module _ {A : Type 0} where
  -- A document of the cache that the validator refuses is thrown away.
  unfoldable pub offered : Network → CacheDocument → Outcome A → Fetch (Option A)
  unfolding discard_invalid
  offered net document (done a) = pure (some a)
  offered net document (failed (provider_error detail)) = discard_invalid net document >> pure none
  offered net document (failed crash) = lift (failed crash)

  unfoldable pub from_cache :
      Network → CacheDocument → (Document → Outcome A) → Option Document → Fetch (Option A)
  unfolding offered
  from_cache net document validator none = pure none
  from_cache net document validator (some payload) = offered net document (validator payload)

  abbrev pub written : Network → CacheDocument → Document → A → Fetch (A × Bool)
  written net document payload validated = write net document payload >> pure (validated, false)

  abbrev pub validated_from :
      Network → CacheDocument → (Document → Outcome A) → Document → Fetch (A × Bool)
  validated_from net document validator payload =
      lift (validator payload) >>= written net document payload

  unfoldable pub fetch_validated :
      Network → CacheDocument → String → (Document → Outcome A) → Fetch (A × Bool)
  unfolding fetch_public_document write
  fetch_validated net document url validator =
      fetch_public_document net url >>= validated_from net document validator

  unfoldable pub or_fetched :
      Network
      → CacheDocument
      → String
      → (Document → Outcome A)
      → Option String
      → Option A
      → Fetch (A × Bool)
  unfolding fetch_validated releasing
  or_fetched net document url validator lock (some validated) = pure (validated, true)
  or_fetched net document url validator lock none =
      releasing net document lock (fetch_validated net document url validator)

  abbrev pub from_wait :
      Network
      → CacheDocument
      → String
      → (Document → Outcome A)
      → Option String
      → Option CacheRead
      → Fetch (A × Bool)
  from_wait net document url validator lock waited =
      from_cache net document validator (payload_read waited)
      >>= or_fetched net document url validator lock

  abbrev pub behind_lock :
      Network
      → CacheDocument
      → String
      → (Document → Outcome A)
      → Option Document
      → Option String
      → Fetch (A × Bool)
  behind_lock net document url validator previous lock =
      awaited net document previous lock >>= from_wait net document url validator lock

  -- From the lock on, with the payload that the caller wants replaced.
  unfoldable pub refreshed :
      Network → CacheDocument → String → (Document → Outcome A) → Option Document → Fetch (A × Bool)
  unfolding acquire_refresh_lock wait_for_value from_cache or_fetched
  refreshed net document url validator previous =
      acquire_refresh_lock net document >>= behind_lock net document url validator previous

  unfoldable pub or_refreshed :
      Network → CacheDocument → String → (Document → Outcome A) → Option A → Fetch (A × Bool)
  unfolding refreshed
  or_refreshed net document url validator (some validated) = pure (validated, true)
  or_refreshed net document url validator none = refreshed net document url validator none

  abbrev pub from_read :
      Network → CacheDocument → String → (Document → Outcome A) → CacheRead → Fetch (A × Bool)
  from_read net document url validator cached =
      from_cache net document validator cached.payload >>= or_refreshed net document url validator

  -- `_load_public_document` without `force_refresh`; with it, the code begins at `refreshed`.
  unfoldable pub load_public_document :
      Network → CacheDocument → String → (Document → Outcome A) → Fetch (A × Bool)
  unfolding read from_cache or_refreshed
  load_public_document net document url validator =
      read net document >>= from_read net document url validator
