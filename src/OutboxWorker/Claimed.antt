-- ===== src/OutboxWorker/Claimed.antt =====
-- How the loop of claim_messages leaves each row of the table.

use fastapi_production_api.Table.{count_where, update_where}
use fastapi_production_api.OutboxWorker.Claim.{claim_values}
use fastapi_production_api.World.{World, seconds}
use fastapi_production_api.Models.{OutboxMessage, processing}
use fastapi_production_api.OutboxWorker.Fencing.{claim_rows, has_id}
use fastapi_production_api.Base.{
  ℕ, ◌≡◌, String, false, List, [], ◌∷◌, arith, map, ◌==◌, ◌+◌, nat_eq, refl, ap, sym, ◌∙◌, some,
  if◌then◌else◌, string_eq,
}

-- How a claim leaves a row: leased to the owner until the end of the lease, with one attempt more
-- for each time that it is claimed, if its id is claimed, and as it was if not.
abbrev pub claimed_row : World → String → ℕ → List OutboxMessage → OutboxMessage → OutboxMessage
claimed_row w owner at ms r =
    if has_id r.id ms
    then record r {
      status = processing;
      lease_owner = some owner;
      lease_expires_at = some (at + seconds w.settings.outbox_lease_seconds);
      attempt_count = r.attempt_count + count_where (λ m. m.id == r.id) ms;
      updated_at = at;
    }
    else r

has_id-none :
    (k : ℕ) (ms : List OutboxMessage) → has_id k ms ≡ false → count_where (λ m. m.id == k) ms ≡ 0
unfolding count_where
has_id-none k [] h = refl
has_id-none k (m ∷ ms) h = ground (arith, has_id-none k ms)

claimed_row-step :
    (w : World) (owner : String) (at : ℕ) (m : OutboxMessage) (ms : List OutboxMessage)
    (r : OutboxMessage)
    → claimed_row w owner at ms (if r.id == m.id then claim_values w owner at r else r)
      ≡ claimed_row w owner at (m ∷ ms) r
unfolding count_where
claimed_row-step w owner at m ms r = ground (arith, has_id-none r.id ms)

map-claimed_row :
    (w : World) (owner : String) (at : ℕ) (m : OutboxMessage) (ms rows : List OutboxMessage)
    → map
        (claimed_row w owner at ms)
        (update_where (λ r. r.id == m.id) (claim_values w owner at) rows)
      ≡ map (claimed_row w owner at (m ∷ ms)) rows
unfolding update_where
map-claimed_row w owner at m ms [] = refl
map-claimed_row w owner at m ms (r ∷ rows) =
    cc (claimed_row-step w owner at m ms r, map-claimed_row w owner at m ms rows)

map_none :
    (w : World) (owner : String) (at : ℕ) (rows : List OutboxMessage)
    → map (claimed_row w owner at []) rows ≡ rows
map_none w owner at [] = refl
map_none w owner at (r ∷ rows) = ap (λ rs. r ∷ rs) (map_none w owner at rows)

pub claim_rows-claimed_row :
    (w : World) (owner : String) (at : ℕ) (ms rows : List OutboxMessage)
    → claim_rows w owner at ms rows ≡ map (claimed_row w owner at ms) rows
unfolding claim_rows
claim_rows-claimed_row w owner at [] rows = sym (map_none w owner at rows)
claim_rows-claimed_row w owner at (m ∷ ms) rows =
    claim_rows-claimed_row w owner at ms
      (update_where (λ r. r.id == m.id) (claim_values w owner at) rows)
    ∙ map-claimed_row w owner at m ms rows
