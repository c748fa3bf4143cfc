-- ===== src/RateLimit/Shared.antt =====
-- What the limiter in Redis counts within one window, and that it decides as the one in memory.
use fastapi_production_api.RateLimit.Tally.{redis_check_allows_limit, run, same_decision}
use fastapi_production_api.RateLimit.Counting.{Call, IsWithin, occurrences}
use fastapi_production_api.RateLimit.Counting.{check_allows_limit, run as memory_run, run-window}
use fastapi_production_api.RateLimit.Memory.{check, RateLimiter}
use fastapi_production_api.Base.{
  [], ◌∷◌, nat_eq, string_eq, ◌+◌, ◌<◌, ◌==◌, All, List, String, false, ℕ, ◌≡◌, ◌≤◌, refl, leb, map,
}
use fastapi_production_api.RateLimit.Redis.{check as redis_check, Counter, KeyNames, key_prefix}

-- A call under the name of the client's keys.
abbrev pub rekeyed : (String → String) → Call → Call
rekeyed key call = (key call.0, call.1)

run-rekeyed :
    (key : String → String) (limit window : ℕ) (cs : List Counter) (calls : List Call)
    → run key limit window cs calls ≡ run (λ c. c) limit window cs (map (rekeyed key) calls)
unfolding run
run-rekeyed key limit window cs [] = refl
run-rekeyed key limit window cs (call ∷ calls) =
    run-rekeyed key limit window (redis_check limit window (key call.0) call.1.0 cs).0 calls

occurrences-rekeyed :
    (key : String → String) (client : String) (calls : List Call)
    → All (λ c. (key c.0 == key client) ≡ (c.0 == client)) calls
    → occurrences (key client) (map (rekeyed key) calls) ≡ occurrences client calls
unfolding occurrences
occurrences-rekeyed key client [] h = refl
occurrences-rekeyed key client (call ∷ calls) h =
    rw (h.0, occurrences-rekeyed key client calls h.1) refl

IsWithin-rekeyed :
    (key : String → String) (window current : ℕ) (calls : List Call)
    → All (IsWithin window current) calls
    → All (IsWithin window current) (map (rekeyed key) calls)
IsWithin-rekeyed key window current [] h = tt
IsWithin-rekeyed key window current (call ∷ calls) h =
    (h.0, IsWithin-rekeyed key window current calls h.1)

module _ (k : KeyNames) (limit window current : ℕ) (positive : 1 ≤ window) where
  same_retry :
      (r : RateLimiter) (cs : List Counter) (calls : List Call) (call : Call)
      → r.window ≡ window
      → (check (memory_run r calls) call.0 call.1.0 call.1.1).1.retry_after
        ≡ (redis_check limit window
            (key_prefix k call.0)
            call.1.0
            (run (key_prefix k) limit window cs calls)).1.retry_after
  unfolding check redis_check
  same_retry r cs calls call same_window = rw (run-window r calls, same_window) refl

  redis-occurrences :
      (cs : List Counter) (calls : List Call) (call : Call)
      → All (λ c. (key_prefix k c.0 == key_prefix k call.0) ≡ (c.0 == call.0)) calls
      → All (λ c. (c.bucket == current) ≡ false) cs
      → All (IsWithin window current) calls
      → IsWithin window current call
      → (redis_check limit window
          (key_prefix k call.0)
          call.1.0
          (run (key_prefix k) limit window cs calls)).1.allowed
        ≡ leb (occurrences call.0 calls + 1) limit
  redis-occurrences cs calls call apart fresh within now_within =
      let keyed = map (rekeyed (key_prefix k)) calls in
      rw
        (
          run-rekeyed (key_prefix k) limit window cs calls,
          redis_check_allows_limit (λ c. c) (λ a b. refl) limit window current positive cs keyed
              (rekeyed (key_prefix k) call) fresh
              (IsWithin-rekeyed (key_prefix k) window current calls within) now_within,
          occurrences-rekeyed (key_prefix k) call.0 calls apart,
        )
        refl

  -- The two limiters take the same decision on a call, after the same calls of one window, when
  -- neither has counted in the window before and no call of another client, by its spelling, has the
  -- keys of this call's client.
  pub check-redis_check :
      (r : RateLimiter) (cs : List Counter) (calls : List Call) (call : Call)
      → r.limit ≡ limit
      → r.window ≡ window
      → All (λ c. (key_prefix k c.0 == key_prefix k call.0) ≡ (c.0 == call.0)) calls
      → All (λ e. e.1.0 < current) r.requests
      → All (λ c. (c.bucket == current) ≡ false) cs
      → All (IsWithin window current) calls
      → IsWithin window current call
      → (check (memory_run r calls) call.0 call.1.0 call.1.1).1
        ≡ (redis_check limit window
            (key_prefix k call.0)
            call.1.0
            (run (key_prefix k) limit window cs calls)).1
  check-redis_check r cs calls call same_limit same_window apart old fresh within now_within =
      let in_memory =
        check_allows_limit r calls call current old (rw same_window within)
          (rw same_window now_within) in
      let in_redis = redis-occurrences cs calls call apart fresh within now_within in
      same_decision (rw (in_memory, in_redis, same_limit) refl)
        (same_retry r cs calls call same_window)
