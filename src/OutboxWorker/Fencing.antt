-- ===== src/OutboxWorker/Fencing.antt =====
-- A worker whose lease another worker has taken over cannot complete the message any more.

use fastapi_production_api.OutboxWorker.Finish.{
  failed_values, is_terminal_failure, mark_failed, mark_succeeded, owned, succeeded_values,
}
use fastapi_production_api.Table.Laws.{count_where-none, update_where-none}
use fastapi_production_api.Table.{count_where, update_where}
use fastapi_production_api.World.{World}
use fastapi_production_api.Db.{Session, request, ok, err, database}
use fastapi_production_api.Models.{OutboxMessage}
use fastapi_production_api.OutboxWorker.Claim.{
  ClaimedMessage, claim_each, claim_values, is_processing, snapshot, update_outbox,
}
use fastapi_production_api.Base.{
  ℕ, ◌≡◌, refl, String, Bool, true, false, none, some, List, [], ◌∷◌, arith, ◌⊎◌, ◌==◌, All, map,
  ◌||◌, nat_eq, string_eq,
}

-- The rows after the loop of claim_messages, as a function of the rows before.
unfoldable pub claim_rows :
    World → String → ℕ → List OutboxMessage → List OutboxMessage → List OutboxMessage
claim_rows w owner at [] rows = rows
claim_rows w owner at (m ∷ ms) rows =
    claim_rows w owner at ms (update_where (λ r. r.id == m.id) (claim_values w owner at) rows)

pub claim_each_lem :
    (w : World) (owner : String) (at : ℕ) (ms : List OutboxMessage) (s : Session)
    → claim_each w owner at ms s ≡ (
      ok (map snapshot ms),
      record s { view = record s.view { outbox = claim_rows w owner at ms s.view.outbox } },
    )
unfolding claim_each claim_rows
claim_each_lem w owner at [] s = refl
claim_each_lem w owner at (m ∷ ms) s = ground (
  arith,
  claim_each_lem w owner at ms
      (record s { view = update_outbox (λ r. r.id == m.id) (claim_values w owner at) s.view }),
)

-- Each row with the id is leased to the owner.
abbrev pub HeldBy : String → ℕ → List OutboxMessage → Type 0
HeldBy owner k =
    All (λ r. (r.id == k) ≡ true → (is_processing r.status ≡ true) × (r.lease_owner ≡ some owner))

abbrev pub has_id : ℕ → List OutboxMessage → Bool
has_id k [] = false
has_id k (m ∷ ms) = m.id == k || has_id k ms

-- Nothing is owned by another worker.
held-not_owned :
    (owner other : String) (k : ℕ) (rows : List OutboxMessage)
    → (owner == other) ≡ false
    → HeldBy owner k rows
    → All (λ r. owned k other r ≡ false) rows
held-not_owned owner other k [] ne h = tt
held-not_owned owner other k (r ∷ rs) ne h = (ground arith, held-not_owned owner other k rs ne h.1)

module _ (w : World) (s : Session) (message : ClaimedMessage) (owner other : String)
    (ne : (owner == other) ≡ false) (held : HeldBy owner message.id s.committed.outbox) where
  nothing_owned : count_where (owned message.id other) s.committed.outbox ≡ 0
  nothing_owned =
      count_where-none _ _ (held-not_owned owner other message.id s.committed.outbox ne held)

  unchanged :
      (f : OutboxMessage → OutboxMessage)
      → update_where (owned message.id other) f s.committed.outbox ≡ s.committed.outbox
  unchanged f =
      update_where-none _ f _ (held-not_owned owner other message.id s.committed.outbox ne held)

  -- While a message is leased to one worker, a success that another worker reports is refused and
  -- changes no message.
  pub stale_success :
      let (r, s') = mark_succeeded w message other s in
      ((r ≡ ok false) ⊎ (r ≡ err database)) × (s'.committed.outbox ≡ s.committed.outbox)
  unfolding mark_succeeded request
  stale_success = ground (arith, nothing_owned, unchanged (succeeded_values (w.clock s.ticks)))

  -- While a message is leased to one worker, a failure that another worker reports is refused and
  -- changes no message.
  pub stale_failure :
      (category : String) (retryable : Bool)
      → let (r, s') = mark_failed w message other category retryable s in
        ((r ≡ ok none) ⊎ (r ≡ err database)) × (s'.committed.outbox ≡ s.committed.outbox)
  unfolding mark_failed request
  stale_failure category retryable = ground (
    arith,
    nothing_owned,
    unchanged (
        failed_values w message category (is_terminal_failure w message retryable (w.clock s.ticks))
          (w.clock s.ticks)),
  )
