-- ===== src/OutboxWorker/Backoff.antt =====
-- The bounds of the retry delay.
use native.Mathlib.Nat.{mod-lt, pow-suc}
use fastapi_production_api.Base.{
  ℕ, ◌≤◌, min, ◌*◌, ◌^◌, ◌+◌, ◌-◌, max, arith, ◌%◌, ◌/◌, ◌<◌, suc, zero,
}
use fastapi_production_api.World.{World}
use fastapi_production_api.OutboxWorker.Finish.{retry_delay}

power_pos : (k : ℕ) → 1 ≤ 2 ^ k
power_pos zero = omega arith
power_pos (suc k) = rw pow-suc (omega (arith, power_pos k))

module _ (w : World) (id attempt_count : ℕ) where
  abbrev base : ℕ
  base = w.settings.outbox_backoff_base_seconds

  abbrev maximum : ℕ
  maximum = w.settings.outbox_backoff_max_seconds

  -- The exponential part, before the jitter.
  abbrev pub exponential : ℕ
  exponential = min maximum (base * 2 ^ (attempt_count - 1))

  exponential-ge : min maximum base ≤ exponential
  exponential-ge =
      let h : base * 1 ≤ base * 2 ^ (attempt_count - 1) =
        grind (arith, power_pos (attempt_count - 1)) in
      omega (arith, h)

  -- The delay lies between the exponential part and the maximum, and the jitter adds at most the
  -- base or one second; it is never below the smaller of the base and the maximum.
  pub retry_delay_bounds :
      (exponential ≤ retry_delay w id attempt_count)
      × (retry_delay w id attempt_count ≤ maximum)
      × (retry_delay w id attempt_count ≤ exponential + max 1 base)
      × (min maximum base ≤ retry_delay w id attempt_count)
  unfolding retry_delay
  retry_delay_bounds =
      let jitter : ℕ = w.retry_digest id attempt_count % (max 1 (min base (exponential / 4)) + 1) in
      let small : jitter < max 1 (min base (exponential / 4)) + 1 = mod-lt _ (omega arith) in
      (
        omega (arith, small),
        omega (arith, small),
        omega (arith, small),
        omega (arith, small, exponential-ge),
      )
