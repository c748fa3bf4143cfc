-- ===== src/OutboxWorker/Lifecycle.antt =====
-- The life of a message: the CHECK constraints of src/app/models/outbox_message.py as an invariant,
-- and the moves that the operations of the worker make on one row.
use fastapi_production_api.Table.Laws.{row_after}
use fastapi_production_api.Table.{update_where}
use fastapi_production_api.Base.{
  ℕ, ◌≤◌, ◌≡◌, String, Bool, true, false, arith, is_some, not, List, ◌⊎◌, ◌∷◌, All, ◌+◌, inl, inr,
  [], refl,
}
use fastapi_production_api.Models.{
  OutboxMessage, Status, pending, processing, succeeded, dead_letter,
}
use fastapi_production_api.World.{World}
use fastapi_production_api.OutboxWorker.Claim.{is_due, claim_values, is_processing}
use fastapi_production_api.OutboxWorker.Finish.{
  succeeded_values, dead_letter_values, retry_values, owned,
}

abbrev pub is_terminal : Status → Bool
is_terminal pending = false
is_terminal processing = false
is_terminal succeeded = true
is_terminal dead_letter = true

-- `ck_outbox_messages_lease_state` and `ck_outbox_messages_terminal_state`: a message has a lease
-- exactly while it is processing, and ends exactly when its payload is gone.
pub record IsConsistent (m : OutboxMessage) : Type 0 where
  pub owner : is_some m.lease_owner ≡ is_processing m.status
  pub lease : is_some m.lease_expires_at ≡ is_processing m.status
  pub ended : is_some m.terminal_at ≡ is_terminal m.status
  pub payload : is_some m.payload_encrypted ≡ not (is_terminal m.status)

-- What an operation does to one row.
pub data MessageStep (w : World) (old new : OutboxMessage) : Type 0 where
  keep : new ≡ old → MessageStep w old new
  claim :
      (lease_owner : String) (at : ℕ)
      → is_due at old ≡ true
      → new ≡ claim_values w lease_owner at old
      → MessageStep w old new
  succeed :
      (lease_owner : String) (at : ℕ)
      → owned old.id lease_owner old ≡ true
      → new ≡ succeeded_values at old
      → MessageStep w old new
  bury :
      (lease_owner category : String) (at : ℕ)
      → owned old.id lease_owner old ≡ true
      → new ≡ dead_letter_values at category old
      → MessageStep w old new
  retry :
      (lease_owner category : String) (at delay : ℕ)
      → owned old.id lease_owner old ≡ true
      → delay ≤ w.settings.outbox_backoff_max_seconds
      → new ≡ retry_values at delay category old
      → MessageStep w old new

claimed-IsConsistent :
    (w : World) (m : OutboxMessage) (o : String) (at : ℕ)
    → is_due at m ≡ true
    → IsConsistent m
    → IsConsistent (claim_values w o at m)
claimed-IsConsistent w m o at due c = ground arith

module _ (w : World) where
  -- Every move of a row keeps the CHECK constraints.
  pub MessageStep-IsConsistent :
      {old new : OutboxMessage} → MessageStep w old new → IsConsistent old → IsConsistent new
  MessageStep-IsConsistent (keep e) c = rw e c
  MessageStep-IsConsistent {old} (claim o at due e) c = rw e (claimed-IsConsistent w old o at due c)
  MessageStep-IsConsistent (succeed o at own e) c = rw e (ground arith)
  MessageStep-IsConsistent (bury o category at own e) c = rw e (ground arith)
  MessageStep-IsConsistent (retry o category at delay own bound e) c = rw e (ground arith)

  -- A message that has ended is never changed again.
  pub MessageStep-ended :
      {old new : OutboxMessage} → MessageStep w old new → is_terminal old.status ≡ true → new ≡ old
  MessageStep-ended (keep e) h = e
  MessageStep-ended (claim o at due e) h = absurd (ground arith)
  MessageStep-ended (succeed o at own e) h = absurd (ground arith)
  MessageStep-ended (bury o category at own e) h = absurd (ground arith)
  MessageStep-ended (retry o category at delay own bound e) h = absurd (ground arith)

  -- Only a claim counts an attempt, and it counts one.
  pub MessageStep-attempts :
      {old new : OutboxMessage}
      → MessageStep w old new
      → (new.attempt_count ≡ old.attempt_count)
        ⊎ ((new.attempt_count ≡ old.attempt_count + 1) × (is_processing new.status ≡ true))
  MessageStep-attempts (keep e) = inl (rw e)
  MessageStep-attempts (claim o at due e) = inr (rw e, rw e)
  MessageStep-attempts (succeed o at own e) = inl (rw e)
  MessageStep-attempts (bury o category at own e) = inl (rw e)
  MessageStep-attempts (retry o category at delay own bound e) = inl (rw e)

-- The rows before and after, one by one.
abbrev pub RowSteps : World → List OutboxMessage → List OutboxMessage → Type 0
RowSteps w [] [] = Unit
RowSteps w [] (y ∷ ys) = ⊥
RowSteps w (x ∷ xs) [] = ⊥
RowSteps w (x ∷ xs) (y ∷ ys) = MessageStep w x y × RowSteps w xs ys

pub RowSteps-update_where :
    (w : World) (p : OutboxMessage → Bool) (f : OutboxMessage → OutboxMessage)
    (xs : List OutboxMessage)
    → ((x : OutboxMessage) → MessageStep w x (row_after p f x))
    → RowSteps w xs (update_where p f xs)
unfolding update_where
RowSteps-update_where w p f [] k = tt
RowSteps-update_where w p f (x ∷ xs) k = (k x, RowSteps-update_where w p f xs k)

pub RowSteps-refl : (w : World) (xs : List OutboxMessage) → RowSteps w xs xs
RowSteps-refl w [] = tt
RowSteps-refl w (x ∷ xs) = (keep refl, RowSteps-refl w xs)

-- Moves of the rows keep the CHECK constraints of all messages.
pub RowSteps-IsConsistent :
    (w : World) (xs ys : List OutboxMessage)
    → RowSteps w xs ys
    → All IsConsistent xs
    → All IsConsistent ys
RowSteps-IsConsistent w [] [] h c = tt
RowSteps-IsConsistent w [] (y ∷ ys) h c = absurd h
RowSteps-IsConsistent w (x ∷ xs) [] h c = absurd h
RowSteps-IsConsistent w (x ∷ xs) (y ∷ ys) h c =
    (MessageStep-IsConsistent w h.0 c.0, RowSteps-IsConsistent w xs ys h.1 c.1)
