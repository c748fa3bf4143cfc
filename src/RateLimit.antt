-- ===== src/RateLimit.antt =====
-- The fixed-window limiter: src/app/middlewares/rate_limit.py. A time is in whole seconds: the code
-- takes the floor of what it reads, and the window is a whole number of seconds.
pub mod Memory
pub mod Redis
pub mod Middleware
pub mod Counting
pub mod Tally
pub mod Shared
pub mod Answers
use fastapi_production_api.Base.{ℕ, Bool}

pub record RateLimitDecision : Type 0 where
  pub allowed : Bool
  pub retry_after : ℕ
