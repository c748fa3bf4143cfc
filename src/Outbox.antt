-- ===== src/Outbox.antt =====
-- The transactional outbox: src/app/services/outbox.py. A message is added to the table in the
-- transaction of the request that asks for the delivery.
pub mod RoundTrip
use fastapi_production_api.Base.{
  if◌then◌else◌, Option, ℕ, String, Bool, ◌||◌, none, some, ◌==◌, string_eq, not, [], ◌∷◌, ◌&&◌,
  true, nat_eq, List, suc,
}
use fastapi_production_api.Table.{add_row}
use fastapi_production_api.Models.{OutboxMessage, pending}
use fastapi_production_api.World.{
  World, EmailPayload, JsonField, JsonValue, text, other, object, scalar,
}
use fastapi_production_api.Db.{Action, value_error, raise_if, modify, reading, ◌>>=◌, ◌>>◌}
use fastapi_production_api.Tokens.{now}

abbrev pub email_verification_message : String
email_verification_message = "email_verification.v1"

abbrev pub password_reset_message : String
password_reset_message = "password_reset.v1"

-- `message_type in SUPPORTED_MESSAGE_TYPES`
abbrev pub is_supported : String → Bool
is_supported message_type =
    message_type == email_verification_message || message_type == password_reset_message

unfoldable pub outbox_idempotency_key : World → String → String → String
outbox_idempotency_key w message_type token_hash =
    w.sha256 (w.idempotency_text message_type token_hash)

-- The dict that is dumped.
abbrev pub payload_fields : EmailPayload → JsonValue
payload_fields p = object (
    ("action_url", text p.action_url)
    ∷ ("recipient", text p.recipient)
    ∷ ("token", text p.token)
    ∷ [])

unfoldable pub enqueue_email_delivery :
    World → String → EmailPayload → String → ℕ → Action (Unit {0})
unfolding outbox_idempotency_key
enqueue_email_delivery w message_type payload token_hash expires_at = do
  raise_if (not (is_supported message_type)) (value_error "Unsupported outbox message type")
  now ← now w
  (traceparent, tracestate) ← reading w.trace_context
  payload_encrypted ← reading (λ n. w.seal_payload n (payload_fields payload))
  id ← reading w.row_id
  modify λ db. record db {
    outbox =
        add_row
          (record {
            id = id;
            message_type = message_type;
            idempotency_key = outbox_idempotency_key w message_type token_hash;
            encryption_version = 1;
            payload_encrypted = some payload_encrypted;
            status = pending;
            attempt_count = 0;
            available_at = now;
            lease_owner = none;
            lease_expires_at = none;
            payload_expires_at = expires_at;
            failure_category = none;
            traceparent = traceparent;
            tracestate = tracestate;
            created_at = now;
            updated_at = now;
            terminal_at = none;
          })
          db.outbox;
  }

-- `payload[field]`, where it is a text that is not empty.
abbrev pub lookup_field : String → List (String × JsonField) → Option JsonField
lookup_field k [] = none
lookup_field k ((j, v) ∷ d) = if j == k then some v else lookup_field k d

abbrev pub filled_text : Option JsonField → Option String
filled_text none = none
filled_text (some other) = none
filled_text (some (text t)) = if t == "" then none else some t

abbrev pub is_expected : String → Bool
is_expected k = k == "action_url" || (k == "recipient" || k == "token")

-- No key but the expected ones.
abbrev pub only_expected : List (String × JsonField) → Bool
only_expected [] = true
only_expected ((k, v) ∷ d) = is_expected k && only_expected d

abbrev pub payload_of : Option String → Option String → Option String → Option EmailPayload
payload_of (some u) (some r) (some t) = some (record { action_url = u; recipient = r; token = t })
payload_of _ _ _ = none

-- The shape and field checks of `decrypt_email_payload`.
abbrev pub read_payload : Option JsonValue → Option EmailPayload
read_payload none = none
read_payload (some scalar) = none
read_payload (some (object d)) =
    if only_expected d
    then payload_of (filled_text (lookup_field "action_url" d))
        (filled_text (lookup_field "recipient" d)) (filled_text (lookup_field "token" d))
    else none

-- `decrypt_email_payload`; none is the ValueError.
unfoldable pub decrypt_email_payload : World → ℕ → Option String → Option EmailPayload
decrypt_email_payload w version none = none
decrypt_email_payload w version (some encrypted) =
    if version == 1 then read_payload (w.open_payload encrypted) else none

-- The row that `enqueue_email_delivery` adds; `n` is the number of its first reading.
abbrev pub new_message : World → ℕ → String → EmailPayload → String → ℕ → OutboxMessage
new_message w n message_type payload token_hash expires_at = record {
  id = w.row_id (suc (suc (suc n)));
  message_type = message_type;
  idempotency_key = w.sha256 (w.idempotency_text message_type token_hash);
  encryption_version = 1;
  payload_encrypted = some (w.seal_payload (suc (suc n)) (payload_fields payload));
  status = pending;
  attempt_count = 0;
  available_at = w.clock n;
  lease_owner = none;
  lease_expires_at = none;
  payload_expires_at = expires_at;
  failure_category = none;
  traceparent = (w.trace_context (suc n)).0;
  tracestate = (w.trace_context (suc n)).1;
  created_at = w.clock n;
  updated_at = w.clock n;
  terminal_at = none;
}
