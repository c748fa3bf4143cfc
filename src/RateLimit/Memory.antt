-- ===== src/RateLimit/Memory.antt =====
-- The class RateLimiter: a dict from the client to the window and the count.
use fastapi_production_api.Base.{
  ℕ, ◌+◌, ◌-◌, ◌/◌, ◌%◌, max, String, Option, none, some, List, [], ◌∷◌, ◌==◌, nat_eq, string_eq,
  if◌then◌else◌, leb,
}
use fastapi_production_api.RateLimit.{RateLimitDecision}

-- `self.limit`, `self.window` and `self.requests`
pub record RateLimiter : Type 0 where
  pub limit : ℕ
  pub window : ℕ
  pub requests : List (String × (ℕ × ℕ))

-- `self.requests.get(client)` and `self.requests[client] = state`
unfoldable pub lookup : String → List (String × (ℕ × ℕ)) → Option (ℕ × ℕ)
lookup k [] = none
lookup k ((j, v) ∷ d) = if j == k then some v else lookup k d

unfoldable pub store : String → ℕ × ℕ → List (String × (ℕ × ℕ)) → List (String × (ℕ × ℕ))
store k v [] = (k, v) ∷ []
store k v ((j, u) ∷ d) = if j == k then (j, v) ∷ d else (j, u) ∷ store k v d

unfoldable pub kept_from : ℕ → List (String × (ℕ × ℕ)) → List (String × (ℕ × ℕ))
kept_from current [] = []
kept_from current ((j, v) ∷ d) =
    if leb current v.0 then (j, v) ∷ kept_from current d else kept_from current d

unfoldable pub cleanup : RateLimiter → ℕ → RateLimiter
cleanup r now = record r { requests = kept_from (now / r.window) r.requests }

-- The stored count, or 0 for another window and for an unknown client.
abbrev pub count_in : ℕ → Option (ℕ × ℕ) → ℕ
count_in current none = 0
count_in current (some v) = if v.0 == current then v.1 else 0

-- `check`: `cleanup` reads the clock again, a moment after.
unfoldable pub check : RateLimiter → String → ℕ → ℕ → RateLimiter × RateLimitDecision
unfolding cleanup
check r client now cleaned_at =
    let current = now / r.window in
    let cleaned = cleanup r cleaned_at in
    let count = count_in current (lookup client cleaned.requests) + 1 in
    (
      record cleaned { requests = store client (current, count) cleaned.requests },
      record { allowed = leb count r.limit; retry_after = max 1 (r.window - now % r.window) },
    )
