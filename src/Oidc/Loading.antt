-- ===== src/Oidc/Loading.antt =====
-- Every document that the client uses has passed its validation.
use fastapi_production_api.Oidc.Load.{
  awaited, behind_lock, fetch_public_document, fetch_validated, from_cache, from_read, from_wait,
  load_public_document, offered, or_fetched, or_refreshed, payload_read, refreshed, releasing,
  validated_from, written,
}
use fastapi_production_api.Oidc.Results.{done_eq, fetched_ok}
use fastapi_production_api.Oidc.Origin.{
  HasOrigin, IsCached, awaited-IsCached, fetch-IsFetched, read-IsCached,
}
use fastapi_production_api.Oidc.Documents.{
  crash, provider_error, done, failed, Document, Network, Outcome,
}
use fastapi_production_api.Oidc.Cache.{
  ◌>>=◌, pure, lift, Fetch, CacheDocument, Moment, discard_invalid, acquire_refresh_lock, answered,
  put, read, stored, write,
}
use fastapi_production_api.Base.{
  ◌≡◌, inl, inr, refl, ap, ◌∙◌, String, Bool, false, nat_eq, string_eq, Option, none, some, arith,
}

module _ {A : Type 0} (net : Network) (document : CacheDocument) (url : String)
    (validator : Document → Outcome A) where
  -- The validator has accepted a document of the provider or of the cache as this.
  abbrev pub IsValid : A → Type 0
  IsValid a =
      (payload : Document) × (validator payload ≡ done a) × HasOrigin net document url payload

  offered_ok :
      (o : Outcome A) (t : Moment) (a : A)
      → (offered net document o t).0 ≡ done (some a)
      → o ≡ done a
  unfolding offered discard_invalid
  offered_ok (done x) t a e = ground arith
  offered_ok (failed (provider_error detail)) t a e = absurd (ground arith)
  offered_ok (failed crash) t a e = absurd (ground arith)

  from_cache-IsValid :
      (payload : Option Document) (t : Moment) (a : A)
      → ((p : Document) → payload ≡ some p → IsCached net document url p)
      → (from_cache net document validator payload t).0 ≡ done (some a)
      → IsValid a
  unfolding from_cache
  from_cache-IsValid none t a origin e = absurd (ground arith)
  from_cache-IsValid (some payload) t a origin e =
      (payload, offered_ok (validator payload) t a e, inr (origin payload refl))

  fetch_validated-IsValid :
      (t : Moment) (r : A × Bool)
      → (fetch_validated net document url validator t).0 ≡ done r
      → IsValid r.0
  unfolding fetch_validated
  fetch_validated-IsValid t r e =
      let (payload, fetched, rest, whole) =
        fetched_ok (fetch_public_document net url) (validated_from net document validator) t r e in
      let t' = (fetch_public_document net url t).1 in
      let (a, valid, last, whole') =
        fetched_ok (lift (validator payload)) (written net document payload) t' r rest in
      let (stored, put, given, whole'') =
        fetched_ok (write net document payload) (λ _. pure (a, false)) t' r last in
      (
        payload,
        valid ∙ ap (λ (x : A × Bool). done x.0) (done_eq given),
        inl (fetch-IsFetched net document url t payload fetched),
      )

  or_fetched-IsValid :
      (lock : Option String) (found : Option A) (t : Moment) (r : A × Bool)
      → ((a : A) → found ≡ some a → IsValid a)
      → (or_fetched net document url validator lock found t).0 ≡ done r
      → IsValid r.0
  unfolding or_fetched releasing
  or_fetched-IsValid lock (some a) t r valid e =
      let (payload, accepted, origin) = valid a refl in
      (payload, accepted ∙ ap (λ (x : A × Bool). done x.0) (done_eq e), origin)
  or_fetched-IsValid none none t r valid e = fetch_validated-IsValid t r e
  or_fetched-IsValid (some token) none t r valid e = fetch_validated-IsValid t r e

  -- A result of the cache, or a document that is fetched.
  chosen-IsValid :
      (payload : Option Document) (k : Option A → Fetch (A × Bool)) (t : Moment) (r : A × Bool)
      → ((p : Document) → payload ≡ some p → IsCached net document url p)
      → ((found : Option A) (t' : Moment)
          → ((a : A) → found ≡ some a → IsValid a)
          → (k found t').0 ≡ done r
          → IsValid r.0)
      → ((from_cache net document validator payload >>= k) t).0 ≡ done r
      → IsValid r.0
  chosen-IsValid payload k t r origin go e =
      let (found, offered, rest, whole) =
        fetched_ok (from_cache net document validator payload) k t r e in
      go found (from_cache net document validator payload t).1
        (λ a same. from_cache-IsValid payload t a origin (offered ∙ ap done same)) rest

  pub refreshed-IsValid :
      (previous : Option Document) (t : Moment) (r : A × Bool)
      → (refreshed net document url validator previous t).0 ≡ done r
      → IsValid r.0
  unfolding refreshed
  refreshed-IsValid previous t r e =
      let (lock, locked, rest, whole) =
        fetched_ok (acquire_refresh_lock net document)
          (behind_lock net document url validator previous) t r e in
      let t' = (acquire_refresh_lock net document t).1 in
      let (waited, answered, last, whole') =
        fetched_ok (awaited net document previous lock) (from_wait net document url validator lock)
          t' r rest in
      chosen-IsValid (payload_read waited) (or_fetched net document url validator lock)
        (awaited net document previous lock t').1 r
        (λ p hit. awaited-IsCached net document url previous lock t' waited p answered hit)
        (λ found t'' valid e'. or_fetched-IsValid lock found t'' r valid e') last

  or_refreshed-IsValid :
      (found : Option A) (t : Moment) (r : A × Bool)
      → ((a : A) → found ≡ some a → IsValid a)
      → (or_refreshed net document url validator found t).0 ≡ done r
      → IsValid r.0
  unfolding or_refreshed
  or_refreshed-IsValid none t r valid e = refreshed-IsValid none t r e
  or_refreshed-IsValid (some a) t r valid e =
      let (payload, accepted, origin) = valid a refl in
      (payload, accepted ∙ ap (λ (x : A × Bool). done x.0) (done_eq e), origin)

  pub load-IsValid :
      (t : Moment) (r : A × Bool)
      → (load_public_document net document url validator t).0 ≡ done r
      → IsValid r.0
  unfolding load_public_document
  load-IsValid t r e =
      let (cached, seen, rest, whole) =
        fetched_ok (read net document) (from_read net document url validator) t r e in
      chosen-IsValid cached.payload (or_refreshed net document url validator)
        (read net document t).1 r (λ p hit. read-IsCached net document url t cached p seen hit)
        (λ found t' valid e'. or_refreshed-IsValid found t' r valid e') rest
