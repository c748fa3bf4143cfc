-- ===== src/OutboxWorker/Finish.antt =====
-- _owned_update, mark_succeeded, _retry_delay and mark_failed of src/app/services/outbox_worker.py.
use fastapi_production_api.Base.{
  ℕ, ◌+◌, ◌-◌, ◌*◌, ◌/◌, ◌%◌, ◌^◌, min, max, String, Bool, false, not, ◌&&◌, ◌||◌, Option, none,
  some, ◌==◌, nat_eq, string_eq, if◌then◌else◌, leb,
}
use fastapi_production_api.Table.{count_where}
use fastapi_production_api.Models.{OutboxMessage, pending, succeeded, dead_letter}
use fastapi_production_api.World.{World, seconds}
use fastapi_production_api.Db.{Action, pure, gets, modify, transaction, request, ◌>>=◌, ◌>>◌}
use fastapi_production_api.Tokens.{now}
use fastapi_production_api.OutboxWorker.Claim.{ClaimedMessage, is_processing, update_outbox}

-- `lease_owner == owner`, never true of NULL.
abbrev pub is_owner : String → Option String → Bool
is_owner owner none = false
is_owner owner (some o) = o == owner

-- `id == message.id, status == "processing", lease_owner == lease_owner`
abbrev pub owned : ℕ → String → OutboxMessage → Bool
owned id lease_owner m =
    m.id == id && (is_processing m.status && is_owner lease_owner m.lease_owner)

-- `_owned_update`: whether exactly one row was updated.
unfoldable pub owned_update : ℕ → String → (OutboxMessage → OutboxMessage) → Action Bool
owned_update id lease_owner values = do
  rowcount ← gets (λ db. count_where (owned id lease_owner) db.outbox)
  modify (update_outbox (owned id lease_owner) values)
  pure (rowcount == 1)

abbrev pub succeeded_values : ℕ → OutboxMessage → OutboxMessage
succeeded_values at m = record m {
  status = succeeded;
  payload_encrypted = none;
  lease_owner = none;
  lease_expires_at = none;
  failure_category = none;
  traceparent = none;
  tracestate = none;
  updated_at = at;
  terminal_at = some at;
}

unfoldable pub mark_succeeded : World → ClaimedMessage → String → Action Bool
unfolding owned_update
mark_succeeded w message lease_owner = do
  at ← now w
  request (transaction w (owned_update message.id lease_owner (succeeded_values at)))

-- `_retry_delay`; the attempt count of a claimed message is at least 1.
unfoldable pub retry_delay : World → ℕ → ℕ → ℕ
retry_delay w id attempt_count =
    let base = w.settings.outbox_backoff_base_seconds in
    let maximum = w.settings.outbox_backoff_max_seconds in
    let exponential = min maximum (base * 2 ^ (attempt_count - 1)) in
    let jitter_limit = max 1 (min base (exponential / 4)) in
    let jitter = w.retry_digest id attempt_count % (jitter_limit + 1) in
    min maximum (exponential + jitter)

abbrev pub dead_letter_values : ℕ → String → OutboxMessage → OutboxMessage
dead_letter_values at category m = record m {
  status = dead_letter;
  payload_encrypted = none;
  available_at = at;
  lease_owner = none;
  lease_expires_at = none;
  failure_category = some category;
  traceparent = none;
  tracestate = none;
  updated_at = at;
  terminal_at = some at;
}

abbrev pub retry_values : ℕ → ℕ → String → OutboxMessage → OutboxMessage
retry_values at delay category m = record m {
  status = pending;
  available_at = at + seconds delay;
  lease_owner = none;
  lease_expires_at = none;
  failure_category = some category;
  updated_at = at;
}

-- `not retryable or attempt_count >= OUTBOX_MAX_ATTEMPTS or payload_expires_at <= failed_at`
abbrev pub is_terminal_failure : World → ClaimedMessage → Bool → ℕ → Bool
is_terminal_failure w message retryable at =
    not retryable
    || (leb w.settings.outbox_max_attempts message.attempt_count
        || leb message.payload_expires_at at)

abbrev pub failed_values :
    World → ClaimedMessage → String → Bool → ℕ → OutboxMessage → OutboxMessage
failed_values w message category terminal at m =
    if terminal
    then dead_letter_values at category m
    else retry_values at (retry_delay w message.id message.attempt_count) category m

-- The outcome is none for an owner whose lease was lost.
unfoldable pub mark_failed :
    World → ClaimedMessage → String → String → Bool → Action (Option String)
unfolding owned_update
mark_failed w message lease_owner category retryable = do
  at ← now w
  let terminal : Bool = is_terminal_failure w message retryable at
  updated ← request (
      transaction w
        (owned_update message.id lease_owner (failed_values w message category terminal at)))
  pure (if updated then some (if terminal then "dead_letter" else "retried") else none)
