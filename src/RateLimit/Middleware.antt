-- ===== src/RateLimit/Middleware.antt =====
-- `rate_limit_middleware`: which requests are counted, and what each outcome answers.
use fastapi_production_api.Base.{
  ℕ, String, Bool, ◌||◌, Option, none, some, ◌==◌, string_eq, if◌then◌else◌,
}
use fastapi_production_api.RateLimit.{RateLimitDecision}

-- The call of the next handler, or a JSON response with its status and Retry-After.
pub data Answer : Type 0 where
  call_next : Answer
  json_response : ℕ → String → ℕ → Answer

unfoldable pub is_exempt : String → Bool
is_exempt path =
    path == "/health"
    || (path == "/health/db"
        || (path == "/health/live" || (path == "/health/ready" || path == "/metrics")))

-- The decision of the backend; none for RedisError, OSError and TimeoutError.
unfoldable pub answer : String → Option RateLimitDecision → Answer
answer failure_mode none =
    if failure_mode == "open"
    then call_next
    else json_response 503 "Rate limit service unavailable" 1
answer failure_mode (some decision) =
    if decision.allowed
    then call_next
    else json_response 429 "Too many requests" decision.retry_after

-- The backend is asked only for a path that is not exempt: the state after, and the answer.
unfoldable pub rate_limit_middleware {ℓ} :
    {S : Type ℓ} → String → String → (S → S × Option RateLimitDecision) → S → S × Answer
unfolding is_exempt answer
rate_limit_middleware failure_mode path backend s =
    if is_exempt path
    then (s, call_next)
    else (let (s', decision) = backend s in (s', answer failure_mode decision))
