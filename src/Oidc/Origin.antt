-- ===== src/Oidc/Origin.antt =====
-- Where a document that the client works with comes from.

use fastapi_production_api.Oidc.Load.{awaited, fetch_public_document, payload_read}
use fastapi_production_api.Oidc.Results.{done_eq, fetched_ok}
use fastapi_production_api.Oidc.Documents.{Document, Network, done}
use fastapi_production_api.Oidc.Cache.{
  ◌>>=◌, pure, CacheDocument, CacheRead, Moment, discard_invalid, is_new, read, read_object,
  read_value, stored, stops, wait_for_value, wait_until, Fetch, nap, sleep, monotonic, clock_at,
  poll_interval,
}
use Prim.Native.String.{len}
use fastapi_production_api.Base.{
  ◌≡◌, ◌⊎◌, ap, ◌∙◌, String, ℕ, zero, suc, false, ◌||◌, ◌&&◌, nat_eq, string_eq, Option, none, some,
  if◌then◌else◌, ltb, arith, Bool-cases, Option-cases, inl, inr, ◌+◌, is_none, some_eq, ◌/◌,
}

module _ (net : Network) (document : CacheDocument) (url : String) where
  -- The provider has given it, in an answer of at most the size that is allowed.
  pub record IsFetched (payload : Document) : Type 0 where
    pub reading_number : ℕ
    pub bytes : ℕ
    pub given : net.get_json reading_number url ≡ some (bytes, payload)
    pub small : ltb net.cache_max_document_bytes bytes ≡ false

  -- Redis has held a text for the document, no longer than is allowed, that reads as it.
  pub record IsCached (payload : Document) : Type 0 where
    pub seen : Moment
    pub value : String
    pub held : stored document (net.others seen.ticks seen.store) ≡ some value
    pub small : ltb net.cache_max_document_bytes (len value) ≡ false
    pub parsed : net.json_object value ≡ some payload

  abbrev pub HasOrigin : Document → Type 0
  HasOrigin payload = IsFetched payload ⊎ IsCached payload

  pub fetch-IsFetched :
      (t : Moment) (payload : Document)
      → (fetch_public_document net url t).0 ≡ done payload
      → IsFetched payload
  unfolding fetch_public_document
  fetch-IsFetched t payload e = elim (Option-cases (net.get_json t.ticks url)) [
    | inl lost ↦ absurd (ground arith)
    | inr ((bytes, p), given) ↦ elim (Bool-cases (ltb net.cache_max_document_bytes bytes)) [
      | inl large ↦ absurd (ground arith)
      | inr small ↦
          let same : p ≡ payload = ground arith in
          record {
            reading_number = t.ticks;
            bytes = bytes;
            given = given ∙ ap (λ x. some (bytes, x)) same;
            small = small;
          }
    ]
  ]

  -- What a reading of the cache that finds an object gives.
  pub read-IsCached :
      (t : Moment) (result : CacheRead) (payload : Document)
      → (read net document t).0 ≡ done result
      → result.payload ≡ some payload
      → IsCached payload
  unfolding read read_value read_object discard_invalid
  read-IsCached t result payload e hit = elim (Bool-cases net.cache_enabled) [
    | inr off ↦ absurd (ground arith)
    | inl on ↦ elim (Bool-cases (net.redis_fails t.ticks)) [
      | inl down ↦ absurd (ground arith)
      | inr up ↦ elim (Option-cases (stored document (net.others t.ticks t.store))) [
        | inl empty ↦ absurd (ground arith)
        | inr (value, held) ↦ elim (Bool-cases (ltb net.cache_max_document_bytes (len value))) [
          | inl large ↦ absurd (ground arith)
          | inr small ↦ elim (Option-cases (net.json_object value)) [
            | inl garbled ↦ absurd (ground arith)
            | inr (p, parsed) ↦
                let same : p ≡ payload = ground arith in
                record {
                  seen = t;
                  value = value;
                  held = held;
                  small = small;
                  parsed = parsed ∙ ap some same;
                }
          ]
        ]
      ]
    ]
  ]

  module _ (different_from : Option Document) (deadline : ℕ) where
    abbrev decide_on : ℕ → CacheRead → Fetch (Option CacheRead)
    decide_on fuel result =
        if is_new net result.payload different_from || stops result.outcome
        then pure (some result)
        else wait_until fuel net document different_from deadline

    abbrev one_round : ℕ → Fetch (Option CacheRead)
    one_round fuel = monotonic net >>= λ awake.
        sleep (nap deadline awake) >>= λ _. read net document >>= decide_on fuel

    wait_until-IsCached :
        (fuel : ℕ) (t : Moment) (result : CacheRead) (payload : Document)
        → (wait_until fuel net document different_from deadline t).0 ≡ done (some result)
        → result.payload ≡ some payload
        → IsCached payload
    unfolding wait_until
    wait_until-IsCached zero t result payload e hit = absurd (ground arith)
    wait_until-IsCached (suc fuel) t result payload e hit =
        let looked : Moment = record t { ticks = suc t.ticks } in
        let awake : Moment = record t {
          ticks = suc (suc (suc t.ticks));
          slept = t.slept + nap deadline (clock_at net looked);
        } in
        elim (Bool-cases (ltb (clock_at net t) deadline)) [
          | inr over ↦ absurd (ground arith)
          | inl early ↦
              let (seen, read_it, rest, whole) =
                fetched_ok (read net document) (decide_on fuel) awake (some result)
                  (simp early at e) in
              let after : Moment = (read net document awake).1 in
              elim (Bool-cases (is_new net seen.payload different_from || stops seen.outcome)) [
                | inl settled ↦
                    let same : seen ≡ result = some_eq (done_eq (simp settled at rest)) in
                    read-IsCached awake seen payload read_it (ap (λ x. x.payload) same ∙ hit)
                | inr unsettled ↦
                    wait_until-IsCached fuel after result payload (simp unsettled at rest) hit
              ]
        ]

  pub awaited-IsCached :
      (previous : Option Document) (lock : Option String) (t : Moment) (waited : Option CacheRead)
      (payload : Document)
      → (awaited net document previous lock t).0 ≡ done waited
      → payload_read waited ≡ some payload
      → IsCached payload
  unfolding wait_for_value
  awaited-IsCached previous lock t none payload e hit = cc
  awaited-IsCached previous lock t (some result) payload e hit =
      elim (Bool-cases (is_none lock && net.cache_enabled)) [
        | inr off ↦ absurd (ground arith)
        | inl on ↦
            wait_until-IsCached previous (clock_at net t + net.cache_refresh_wait)
              (suc (suc (net.cache_refresh_wait / poll_interval)))
              (record t { ticks = suc t.ticks }) result payload (simp on at e) hit
      ]
