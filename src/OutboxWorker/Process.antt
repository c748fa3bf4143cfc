-- ===== src/OutboxWorker/Process.antt =====
-- The class OutboxWorker of src/app/services/outbox_worker.py, and `send_outbox` of
-- src/app/services/email_delivery.py. Metrics, log lines and the tracing span are left out; the
-- outcome that `_record` counts is returned.
use fastapi_production_api.Base.{
  ℕ, ◌-◌, String, Bool, true, false, not, Option, none, some, List, [], ◌∷◌, string_eq,
  if◌then◌else◌, leb, is_some, length,
}
use fastapi_production_api.World.{World, EmailPayload, Delivery, sent, smtp_failure, crash, seconds}
use fastapi_production_api.Db.{Action, value_error, pure, raise, raise_if, reading, ◌>>=◌, ◌>>◌}
use fastapi_production_api.Tokens.{now}
use fastapi_production_api.Outbox.{is_supported, decrypt_email_payload}
use fastapi_production_api.OutboxWorker.Claim.{ClaimedMessage, claim_messages}
use fastapi_production_api.OutboxWorker.Finish.{mark_succeeded, mark_failed}

-- `outcome or "stale_owner"`
abbrev pub or_stale : Option String → String
or_stale none = "stale_owner"
or_stale (some outcome) = outcome

-- `_fail`
unfoldable pub fail : World → ClaimedMessage → String → String → Bool → Action String
unfolding mark_failed
fail w message owner category retryable = do
  outcome ← mark_failed w message owner category retryable
  pure (or_stale outcome)

-- `send_outbox`: an unknown message type is a ValueError.
unfoldable pub send_outbox : World → String → EmailPayload → Action Delivery
send_outbox w message_type payload = do
  raise_if (not (is_supported message_type)) (value_error "Unsupported outbox message type")
  reading (λ n. w.smtp n payload)

-- What follows the attempt to send: only the exceptions that `_process_message` names are caught.
unfoldable pub after_delivery : World → String → ClaimedMessage → Delivery → Action String
unfolding mark_succeeded fail
after_delivery w owner message sent = do
  updated ← mark_succeeded w message owner
  pure (if updated then "succeeded" else "stale_owner")
after_delivery w owner message smtp_failure = fail w message owner "smtp" true
after_delivery w owner message crash = raise (value_error "uncaught")

unfoldable pub deliver : World → String → ClaimedMessage → Option EmailPayload → Action String
unfolding send_outbox after_delivery fail
deliver w owner message none = fail w message owner "invalid_payload" false
deliver w owner message (some payload) = do
  delivery ← send_outbox w message.message_type payload
  after_delivery w owner message delivery

-- `_process_message`
unfoldable pub process_message : World → String → ClaimedMessage → Action String
unfolding deliver decrypt_email_payload
process_message w owner message = do
  at ← now w
  if leb message.payload_expires_at at
      then fail w message owner "expired" false
      else deliver w owner message
          (decrypt_email_payload w message.encryption_version message.payload_encrypted)

-- `_grace_expired`; `stop n` is `stop_requested_at` as the worker sees it at the reading `n`.
abbrev pub is_over : World → Option ℕ → ℕ → Bool
is_over w none at = false
is_over w (some requested) at =
    leb (seconds w.settings.outbox_shutdown_grace_seconds) (at - requested)

abbrev pub grace_expired : World → (ℕ → Option ℕ) → Action Bool
grace_expired w stop = reading (λ n. is_over w (stop n) (w.monotonic n))

-- The loop of `run_once`, with the outcomes of what was processed.
unfoldable pub process_batch :
    World → (ℕ → Option ℕ) → String → List ClaimedMessage → Action (List String)
process_batch w stop owner [] = pure []
process_batch w stop owner (message ∷ messages) =
    let rest : Action (List String) = do
      outcome ← process_message w owner message
      outcomes ← process_batch w stop owner messages
      pure (outcome ∷ outcomes)
    in do expired ← grace_expired w stop; if expired then pure [] else rest

-- `run_once`: the number of messages claimed.
unfoldable pub run_once : World → (ℕ → Option ℕ) → (ℕ → Bool) → String → Action ℕ
unfolding claim_messages process_batch
run_once w stop locked owner = do
  stopping ← reading (λ n. is_some (stop n))
  if stopping then pure 0 else do
    messages ← claim_messages w locked owner
    process_batch w stop owner messages
    pure (length messages)
