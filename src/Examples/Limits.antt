-- ===== src/Examples/Limits.antt =====
-- Runs of the two limiters.
use fastapi_production_api.RateLimit.Middleware.{json_response}
use fastapi_production_api.RateLimit.Answers.{
  Request, after_requests, rate_limit_middleware_answers, respond,
}
use fastapi_production_api.Base.{refl, [], ◌∷◌, All, List, arith, false, some, ◌≡◌}
use fastapi_production_api.RateLimit.Memory.{check, RateLimiter}
use fastapi_production_api.RateLimit.Redis.{
  check as redis_check, Counter, KeyNames, key_prefix, normalize_client,
}
use fastapi_production_api.RateLimit.Counting.{
  run as memory_run, Call, IsWithin, check_allows_limit, occurrences,
}
use fastapi_production_api.RateLimit.Shared.{check-redis_check}
use fastapi_production_api.RateLimit.Tally.{run as redis_run}

-- A client that came in the window before.
abbrev limiter : RateLimiter
limiter = record { limit = 2; window = 60; requests = ("carol", (0, 9)) ∷ [] }

abbrev counters : List Counter
counters = record { prefix = "carol"; bucket = 0; count = 9; expires_at = some 130 } ∷ []

abbrev calls : List Call
calls = ("alice", (70, 70)) ∷ ("bob", (80, 80)) ∷ ("alice", (90, 91)) ∷ []

calls-IsWithin : All (IsWithin 60 1) calls
calls-IsWithin = ((refl, refl), ((refl, refl), ((refl, refl), tt)))

check_allows_limit_example : (check (memory_run limiter calls) "alice" 100 100).1.allowed ≡ false
unfolding occurrences
check_allows_limit_example =
    check_allows_limit limiter calls ("alice", (100, 100)) 1 (omega arith, tt) calls-IsWithin
      (refl, refl)

-- Addresses without surrounding blanks, and a hash that keeps them apart.
abbrev plain_names : KeyNames
plain_names = record {
  strip = λ s. s;
  compressed_address = λ s. some s;
  casefold = λ s. s;
  identifier = λ s. s;
  prefix_text = λ s. s;
}

check-redis_check_example :
    (check (memory_run limiter calls) "alice" 100 100).1
    ≡ (redis_check 2 60
        (key_prefix plain_names "alice")
        100
        (redis_run (key_prefix plain_names) 2 60 counters calls)).1
unfolding key_prefix normalize_client
check-redis_check_example =
    check-redis_check plain_names 2 60 1 (omega arith) limiter counters calls ("alice", (100, 100))
      refl refl (refl, (refl, (refl, tt))) (omega arith, tt) (refl, tt) calls-IsWithin (refl, refl)

abbrev requests : List Request
requests =
    ("/login/", ("alice", (70, 70)))
    ∷ ("/health/live", ("alice", (75, 75)))
    ∷ ("/login/", ("alice", (90, 91)))
    ∷ []

rate_limit_middleware_answers_example :
    (respond "closed"
      (after_requests "closed" limiter requests)
      ("/login/", ("alice", (100, 100)))).1
    ≡ json_response 429 "Too many requests" 20
unfolding occurrences
rate_limit_middleware_answers_example =
    rate_limit_middleware_answers "closed" limiter requests "/login/" ("alice", (100, 100)) 1
      (omega arith, tt) ((refl, refl), ((refl, refl), tt)) (refl, refl)
