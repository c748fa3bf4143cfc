-- ===== src/OutboxWorker/Laws.antt =====
-- Completion of a claimed message: each row makes a move of Lifecycle, and only the owner of the lease
-- completes.

use fastapi_production_api.Table.{update_where}
use fastapi_production_api.Table.Laws.{row_after}
use fastapi_production_api.OutboxWorker.Lifecycle.{
  MessageStep, RowSteps, RowSteps-refl, RowSteps-update_where, succeed, keep,
}
use fastapi_production_api.OutboxWorker.Finish.{mark_succeeded, owned, succeeded_values}
use fastapi_production_api.Models.{OutboxMessage}
use fastapi_production_api.OutboxWorker.Claim.{ClaimedMessage}
use fastapi_production_api.Db.{Session, request}
use fastapi_production_api.World.{World}
use fastapi_production_api.Base.{
  ℕ, String, ◌≡◌, true, arith, List, ==_refl, Bool-cases, inl, inr, ◌⊎◌, nat_eq,
}

module _ (w : World) (s : Session) (message : ClaimedMessage) (owner : String) where
  owned_row : (x : OutboxMessage) → owned message.id owner x ≡ true → owned x.id owner x ≡ true
  owned_row x h = ground (arith, ==_refl x.id)

  succeeded-step :
      (at : ℕ) (x : OutboxMessage)
      → MessageStep w x (row_after (owned message.id owner) (succeeded_values at) x)
  succeeded-step at x = elim (Bool-cases (owned message.id owner x)) [
    | inl h ↦ succeed owner at (owned_row x h) (simp h)
    | inr h ↦ keep (simp h)
  ]

  after_or_same :
      (f : OutboxMessage → OutboxMessage) (rows' : List OutboxMessage)
      → ((x : OutboxMessage) → MessageStep w x (row_after (owned message.id owner) f x))
      → (rows' ≡ s.committed.outbox)
        ⊎ (rows' ≡ update_where (owned message.id owner) f s.committed.outbox)
      → RowSteps w s.committed.outbox rows'
  after_or_same f rows' step (inl e) = rw e (RowSteps-refl w s.committed.outbox)
  after_or_same f rows' step (inr e) =
      rw e (RowSteps-update_where w (owned message.id owner) f s.committed.outbox step)

  -- Marking a success moves each row as Lifecycle allows.
  pub mark_succeeded-RowSteps :
      RowSteps w s.committed.outbox (mark_succeeded w message owner s).1.committed.outbox
  unfolding mark_succeeded request
  mark_succeeded-RowSteps =
      after_or_same (succeeded_values (w.clock s.ticks)) _ (succeeded-step (w.clock s.ticks))
        (ground arith)
