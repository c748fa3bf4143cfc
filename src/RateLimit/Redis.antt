-- ===== src/RateLimit/Redis.antt =====
-- The class RedisRateLimiter and the script that it runs in Redis. The keys are the pairs of the
-- client's prefix and the bucket.
use fastapi_production_api.Base.{
  ℕ, ◌+◌, ◌-◌, ◌*◌, ◌/◌, ◌%◌, max, String, Bool, true, ◌&&◌, Option, none, some, List, [], ◌∷◌,
  ◌==◌, nat_eq, string_eq, if◌then◌else◌, leb, ltb,
}
use fastapi_production_api.RateLimit.{RateLimitDecision}
use fastapi_production_api.Oidc.Texts.{or_default, text_take}

-- What the names of the keys need and the code does not implement: str.strip,
-- ipaddress.ip_address(...).compressed or none for ValueError, str.casefold, the hexadecimal
-- HMAC-SHA256 of a text behind the label of the keys, and the f-string of the prefix.
pub record KeyNames : Type 0 where
  pub strip : String → String
  pub compressed_address : String → Option String
  pub casefold : String → String
  pub identifier : String → String
  pub prefix_text : String → String

-- `candidate.casefold()[:255] or "unknown"`, where the candidate is no address.
abbrev pub address_or : Option String → String → String
address_or none name = or_default (text_take 255 name) "unknown"
address_or (some address) name = address

unfoldable pub normalize_client : KeyNames → String → String
unfolding or_default text_take
normalize_client k value =
    let candidate = k.strip value in
    address_or (k.compressed_address candidate) (k.casefold candidate)

unfoldable pub key_prefix : KeyNames → String → String
unfolding normalize_client
key_prefix k client = k.prefix_text (k.identifier (normalize_client k client))

-- A counter, with the second at which it expires; none for a key with no TTL.
pub record Counter : Type 0 where
  pub prefix : String
  pub bucket : ℕ
  pub count : ℕ
  pub expires_at : Option ℕ

abbrev pub is_alive : ℕ → Counter → Bool
is_alive now c = elim c.expires_at [ none ↦ true | some t ↦ ltb now t ]

abbrev pub has_key : String → ℕ → Counter → Bool
has_key prefix bucket c = c.prefix == prefix && c.bucket == bucket

-- `GET key`, 0 for no key; an expired counter is no key.
unfoldable pub get : String → ℕ → ℕ → List Counter → ℕ
get prefix bucket now [] = 0
get prefix bucket now (c ∷ cs) =
    if has_key prefix bucket c && is_alive now c then c.count else get prefix bucket now cs

-- `INCR key`, with `EXPIRE key ttl` for a new counter and for one with no TTL.
abbrev pub bumped : ℕ → ℕ → Counter → Counter
bumped now ttl c = record c {
  count = c.count + 1;
  expires_at = elim c.expires_at [ none ↦ some (now + ttl) | some t ↦ some t ];
}

unfoldable pub incr : String → ℕ → ℕ → ℕ → List Counter → List Counter
incr prefix bucket now ttl [] =
    record { prefix = prefix; bucket = bucket; count = 1; expires_at = some (now + ttl) } ∷ []
incr prefix bucket now ttl (c ∷ cs) =
    if has_key prefix bucket c && is_alive now c
    then bumped now ttl c ∷ cs
    else c ∷ incr prefix bucket now ttl cs

-- `eval` of the script and the decision of `check`, by the prefix of the client's keys.
unfoldable pub check : ℕ → ℕ → String → ℕ → List Counter → List Counter × RateLimitDecision
check limit window prefix seconds counters =
    let bucket = seconds / window in
    let counters' = incr prefix bucket seconds (window * 2) counters in
    let count = get prefix bucket seconds counters' in
    let retry_after = window - seconds % window in
    (counters', record { allowed = leb count limit; retry_after = max 1 retry_after })
