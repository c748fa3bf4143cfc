-- ===== src/Examples/Worker.antt =====
-- Runs of the outbox worker.

use fastapi_production_api.Outbox.RoundTrip.{decrypt_email_payload-new_message}
use fastapi_production_api.Outbox.{decrypt_email_payload, new_message, payload_fields}
use fastapi_production_api.Db.{ok, err, database}
use fastapi_production_api.World.{second, EmailPayload, World}
use fastapi_production_api.OutboxWorker.Laws.{mark_succeeded-RowSteps}
use fastapi_production_api.OutboxWorker.Finish.{
  mark_failed, mark_succeeded, retry_delay, succeeded_values,
}
use fastapi_production_api.Examples.Data.{leased, sample_session, sample_world, waiting}
use fastapi_production_api.OutboxWorker.Backoff.{exponential, retry_delay_bounds}
use fastapi_production_api.Models.{OutboxMessage}
use fastapi_production_api.OutboxWorker.Lifecycle.{IsConsistent, RowSteps-IsConsistent}
use fastapi_production_api.OutboxWorker.Claimed.{claimed_row}
use fastapi_production_api.OutboxWorker.Batch.{IsBatch, claim_messages-IsBatch}
use fastapi_production_api.OutboxWorker.Fencing.{HeldBy, stale_failure, stale_success}
use fastapi_production_api.OutboxWorker.Claim.{ClaimedMessage, claim_messages, snapshot}
use fastapi_production_api.Base.{
  refl, [], ◌∷◌, ◌*◌, ◌+◌, All, List, arith, false, map, max, min, none, true, ◌≡◌, ◌≤◌, ◌⊎◌,
  String, some,
}

abbrev snapshot_of_leased : ClaimedMessage
snapshot_of_leased = snapshot leased

claim_messages-IsBatch_example :
    let (r, s') = claim_messages sample_world (λ k. false) "second" sample_session in
    ((ms : List OutboxMessage) × IsBatch 10 (1000 * second) (λ k. false) (waiting ∷ leased ∷ []) ms
      × (r ≡ ok (map snapshot ms))
      × (s'.committed.outbox
          ≡ map (claimed_row sample_world "second" (1000 * second) ms) (waiting ∷ leased ∷ [])))
    ⊎ ((r ≡ err database) × (s'.committed ≡ sample_session.committed))
claim_messages-IsBatch_example =
    claim_messages-IsBatch sample_world sample_session (λ k. false) "second"

HeldBy-first : HeldBy "first" 31 (waiting ∷ leased ∷ [])
HeldBy-first = ground arith

stale_success_example :
    let (r, s') = mark_succeeded sample_world snapshot_of_leased "second" sample_session in
    ((r ≡ ok false) ⊎ (r ≡ err database)) × (s'.committed.outbox ≡ waiting ∷ leased ∷ [])
stale_success_example =
    stale_success sample_world sample_session snapshot_of_leased "first" "second" refl HeldBy-first

stale_failure_example :
    let (r, s') =
      mark_failed sample_world snapshot_of_leased "second" "delivery" true sample_session in
    ((r ≡ ok none) ⊎ (r ≡ err database)) × (s'.committed.outbox ≡ waiting ∷ leased ∷ [])
stale_failure_example =
    stale_failure sample_world sample_session snapshot_of_leased "first" "second" refl HeldBy-first
      "delivery" true

waiting_ok : IsConsistent waiting
waiting_ok = record { owner = refl; lease = refl; ended = refl; payload = refl }

leased_ok : IsConsistent leased
leased_ok = record { owner = refl; lease = refl; ended = refl; payload = refl }

RowSteps-IsConsistent_example :
    All IsConsistent
      (mark_succeeded sample_world snapshot_of_leased "first" sample_session).1.committed.outbox
RowSteps-IsConsistent_example =
    RowSteps-IsConsistent sample_world (waiting ∷ leased ∷ []) _
      (mark_succeeded-RowSteps sample_world sample_session snapshot_of_leased "first")
      (waiting_ok, (leased_ok, tt))

abbrev delivered : OutboxMessage
delivered = succeeded_values (3 * second) leased

retry_delay_bounds_example :
    (exponential sample_world 31 2 ≤ retry_delay sample_world 31 2)
    × (retry_delay sample_world 31 2 ≤ 300)
    × (retry_delay sample_world 31 2 ≤ exponential sample_world 31 2 + max 1 5)
    × (min 300 5 ≤ retry_delay sample_world 31 2)
retry_delay_bounds_example = retry_delay_bounds sample_world 31 2

abbrev reset_mail : String → EmailPayload
reset_mail s = record {
  action_url = "https://app/reset";
  recipient = "alice@example.com";
  token = s;
}

-- A seal for one mail.
abbrev sealing_world : World
sealing_world = record sample_world { open_payload = λ s. some (payload_fields (reset_mail "raw")) }

decrypt_email_payload-new_message_example :
    let m =
      new_message sealing_world 0 "password_reset.v1" (reset_mail "raw") "hash" (9000 * second) in
    decrypt_email_payload sealing_world m.encryption_version m.payload_encrypted
    ≡ some (reset_mail "raw")
decrypt_email_payload-new_message_example =
    decrypt_email_payload-new_message sealing_world 0 "password_reset.v1" (reset_mail "raw") "hash"
      (9000 * second) (λ k. refl) refl refl refl
