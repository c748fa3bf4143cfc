-- ===== src/OutboxWorker/Claim.antt =====
-- claim_messages of src/app/services/outbox_worker.py.
use fastapi_production_api.Base.{
  ℕ, ◌+◌, String, Bool, true, false, not, ◌&&◌, ◌||◌, Option, none, some, List, [], ◌∷◌, ◌==◌,
  nat_eq, if◌then◌else◌, leb, ltb, take,
}
use fastapi_production_api.Table.{update_where, delete_where}
use fastapi_production_api.Models.{
  OutboxMessage, Status, pending, processing, succeeded, dead_letter, Database,
}
use fastapi_production_api.World.{World, seconds}
use fastapi_production_api.Db.{Action, pure, gets, modify, transaction, request, ◌>>=◌, ◌>>◌}
use fastapi_production_api.Tokens.{now}

-- The snapshot that a worker keeps of a message it has claimed.
pub record ClaimedMessage : Type 0 where
  pub id : ℕ
  pub message_type : String
  pub encryption_version : ℕ
  pub payload_encrypted : Option String
  pub payload_expires_at : ℕ
  pub attempt_count : ℕ
  pub lease_recovered : Bool
  pub traceparent : Option String
  pub tracestate : Option String

abbrev pub is_processing : Status → Bool
is_processing processing = true
is_processing _ = false

-- A comparison with NULL is not true.
abbrev pub at_most : Option ℕ → ℕ → Bool
at_most none at = false
at_most (some t) at = leb t at

-- The filter: due and pending, or processing with an expired lease.
abbrev pub is_due : ℕ → OutboxMessage → Bool
is_due at m = elim m.status [
  | pending ↦ leb m.available_at at
  | processing ↦ at_most m.lease_expires_at at
  | succeeded ↦ false
  | dead_letter ↦ false
]

-- `order_by(available_at, created_at)`
abbrev pub comes_first : OutboxMessage → OutboxMessage → Bool
comes_first a b =
    ltb a.available_at b.available_at
    || (a.available_at == b.available_at && leb a.created_at b.created_at)

unfoldable pub insert_ordered : OutboxMessage → List OutboxMessage → List OutboxMessage
insert_ordered m [] = m ∷ []
insert_ordered m (x ∷ xs) = if comes_first m x then m ∷ x ∷ xs else x ∷ insert_ordered m xs

unfoldable pub in_order : List OutboxMessage → List OutboxMessage
unfolding insert_ordered
in_order [] = []
in_order (m ∷ ms) = insert_ordered m (in_order ms)

-- The query: the due rows that no other transaction has locked, in order, a batch at most.
unfoldable pub due_batch : ℕ → ℕ → (ℕ → Bool) → List OutboxMessage → List OutboxMessage
unfolding in_order
due_batch batch_size at locked rows =
    take batch_size (in_order (delete_where (λ m. not (is_due at m) || locked m.id) rows))

abbrev pub claim_values : World → String → ℕ → OutboxMessage → OutboxMessage
claim_values w lease_owner at m = record m {
  status = processing;
  lease_owner = some lease_owner;
  lease_expires_at = some (at + seconds w.settings.outbox_lease_seconds);
  attempt_count = m.attempt_count + 1;
  updated_at = at;
}

abbrev pub snapshot : OutboxMessage → ClaimedMessage
snapshot m = record {
  id = m.id;
  message_type = m.message_type;
  encryption_version = m.encryption_version;
  payload_encrypted = m.payload_encrypted;
  payload_expires_at = m.payload_expires_at;
  attempt_count = m.attempt_count + 1;
  lease_recovered = is_processing m.status;
  traceparent = m.traceparent;
  tracestate = m.tracestate;
}

abbrev pub update_outbox :
    (OutboxMessage → Bool) → (OutboxMessage → OutboxMessage) → Database → Database
update_outbox p f db = record db { outbox = update_where p f db.outbox }

-- The loop over the batch.
unfoldable pub claim_each : World → String → ℕ → List OutboxMessage → Action (List ClaimedMessage)
claim_each w lease_owner at [] = pure []
claim_each w lease_owner at (m ∷ ms) = do
  modify (update_outbox (λ r. r.id == m.id) (claim_values w lease_owner at))
  rest ← claim_each w lease_owner at ms
  pure (snapshot m ∷ rest)

-- `locked` says which rows another transaction holds, which SKIP LOCKED leaves out.
unfoldable pub claim_messages : World → (ℕ → Bool) → String → Action (List ClaimedMessage)
unfolding due_batch claim_each
claim_messages w locked lease_owner = do
  at ← now w
  request (
      transaction w (do
        messages ← gets (λ db. due_batch w.settings.outbox_batch_size at locked db.outbox)
        claim_each w lease_owner at messages))
