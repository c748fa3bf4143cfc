-- ===== src/RateLimit/Answers.antt =====
-- What a request gets from the middleware with the in-memory limiter.
use fastapi_production_api.Tokens.{now}
use fastapi_production_api.Base.{
  ℕ, ◌+◌, ◌-◌, ◌%◌, ◌<◌, ◌≡◌, String, Bool, false, ◌||◌, ◌==◌, string_eq, List, [], ◌∷◌, some, All,
  inl, inr, Bool-cases, max, refl, Option, if◌then◌else◌, leb, arith, nat_eq,
}
use fastapi_production_api.RateLimit.{RateLimitDecision}
use fastapi_production_api.RateLimit.Counting.{
  Call, IsWithin, check_allows_limit, occurrences, run, run-window,
}
use fastapi_production_api.RateLimit.Memory.{RateLimiter, check}
use fastapi_production_api.RateLimit.Middleware.{
  Answer, call_next, json_response, rate_limit_middleware, is_exempt, answer,
}

-- `rate_limiter.check(_client_address(request))`
abbrev pub in_memory : String → ℕ → ℕ → RateLimiter → RateLimiter × Option RateLimitDecision
in_memory client now cleaned_at r =
    let (r', decision) = check r client now cleaned_at in (r', some decision)

-- A request: its path, and the call of the limiter that it leads to if it is counted.
abbrev pub Request : Type 0
Request = String × Call

abbrev pub respond : String → RateLimiter → Request → RateLimiter × Answer
respond failure_mode r (path, call) =
    rate_limit_middleware failure_mode path (in_memory call.0 call.1.0 call.1.1) r

-- The limiter after the requests.
unfoldable pub after_requests : String → RateLimiter → List Request → RateLimiter
after_requests failure_mode r [] = r
after_requests failure_mode r (q ∷ qs) = after_requests failure_mode (respond failure_mode r q).0 qs

-- The health checks and the metrics, which alone are not counted.
abbrev pub open_paths : List String
open_paths = "/health" ∷ "/health/db" ∷ "/health/live" ∷ "/health/ready" ∷ "/metrics" ∷ []

abbrev pub is_one_of : List String → String → Bool
is_one_of [] path = false
is_one_of (p ∷ ps) path = path == p || is_one_of ps path

abbrev pub counted_calls : List Request → List Call
counted_calls [] = []
counted_calls ((path, call) ∷ qs) =
    if is_one_of open_paths path then counted_calls qs else call ∷ counted_calls qs

is_exempt-is_one_of : (path : String) → is_exempt path ≡ is_one_of open_paths path
unfolding is_exempt
is_exempt-is_one_of path = ground arith

after_requests-run :
    (failure_mode : String) (r : RateLimiter) (qs : List Request)
    → after_requests failure_mode r qs ≡ run r (counted_calls qs)
unfolding after_requests run rate_limit_middleware
after_requests-run failure_mode r [] = refl
after_requests-run failure_mode r ((path, call) ∷ qs) =
    let same = is_exempt-is_one_of path in
    elim (Bool-cases (is_one_of open_paths path)) [
      | inl exempt ↦ simp (same, exempt) (after_requests-run failure_mode r qs)
      | inr counted ↦
          simp (same, counted)
            (after_requests-run failure_mode (check r call.0 call.1.0 call.1.1).0 qs)
    ]

-- What the limit says of a counted call that comes after others.
abbrev pub limited : RateLimiter → List Call → Call → Answer
limited r calls call =
    if leb (occurrences call.0 calls + 1) r.limit
    then call_next
    else json_response 429 "Too many requests" (max 1 (r.window - call.1.0 % r.window))

check-retry_after :
    (r : RateLimiter) (calls : List Call) (call : Call)
    → (check (run r calls) call.0 call.1.0 call.1.1).1.retry_after
      ≡ max 1 (r.window - call.1.0 % r.window)
unfolding check
check-retry_after r calls call = rw (run-window r calls) refl

-- After any requests whose counted calls fall into one window, a request for a health check or the
-- metrics is passed on. Any other is passed on exactly when its client's counted requests of the
-- window, this one included, do not exceed the limit, and is else answered by 429 with the
-- seconds until the window ends.
pub rate_limit_middleware_answers :
    (failure_mode : String) (r : RateLimiter) (qs : List Request) (path : String) (call : Call)
    (current : ℕ)
    → All (λ e. e.1.0 < current) r.requests
    → All (IsWithin r.window current) (counted_calls qs)
    → IsWithin r.window current call
    → (respond failure_mode (after_requests failure_mode r qs) (path, call)).1
      ≡ (if is_one_of open_paths path then call_next else limited r (counted_calls qs) call)
unfolding rate_limit_middleware answer
rate_limit_middleware_answers failure_mode r qs path call current old within now_within =
    let same = is_exempt-is_one_of path in
    let before = after_requests-run failure_mode r qs in
    elim (Bool-cases (is_one_of open_paths path)) [
      | inl exempt ↦ simp (same, exempt) refl
      | inr counted ↦
          let allowed =
            check_allows_limit r (counted_calls qs) call current old within now_within in
          let retry = check-retry_after r (counted_calls qs) call in
          simp (same, counted, before, allowed, retry) refl
    ]
