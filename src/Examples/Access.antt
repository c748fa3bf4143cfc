-- ===== src/Examples/Access.antt =====
-- Runs of the guards and of the administration of accounts.
use fastapi_production_api.Table.{first, update_where}
use fastapi_production_api.Sessions.{live_of_user}
use fastapi_production_api.Access.Disabled.{disabled_ends_sessions, disabled_is_refused}
use fastapi_production_api.Access.Deletion.{delete_user_is_refused, has_orphan}
use fastapi_production_api.Access.Admin.{delete_user, update_user_status}
use fastapi_production_api.Examples.Data.{alice, bob, sample_database, sample_session, sample_world}
use fastapi_production_api.World.{World, second}
use fastapi_production_api.Access.Guards.{TokenPayload, contains, has_primary, require_recent_mfa}
use fastapi_production_api.Db.{Session, request, ok}
use fastapi_production_api.Access.Recent.{IsRecent, require_recent_mfa-IsRecent}
use fastapi_production_api.Access.Laws.{IsDecoded}
use fastapi_production_api.Models.{Database, User}
use fastapi_production_api.Base.{
  ℕ, none, some, ◌≡◌, ◌≢◌, ◌*◌, refl, true, false, ◌==◌, nat_eq, string_eq, [], ◌∷◌, All, not,
}

-- An administrator beside the two users.
abbrev carol : User
carol = record alice { id = 3; username = "carol"; role = "admin"; email = none }

abbrev managed : Database
managed = record sample_database { users = alice ∷ bob ∷ carol ∷ [] }

abbrev managed_session : Session
managed_session = record { committed = managed; view = managed; ticks = 0 }

abbrev switched : Session
switched = (request (update_user_status sample_world "carol" 1 false) managed_session).1

disabled_ends_sessions_example :
    All (λ r. live_of_user 1 r ≡ false) switched.committed.refresh_tokens
unfolding request update_user_status first update_where
disabled_ends_sessions_example =
    disabled_ends_sessions sample_world 1 "carol" managed_session
      (record alice { is_active = false }) refl

disabled_is_refused_example : (bob.id == 1) ≡ false
unfolding request update_user_status first update_where
disabled_is_refused_example =
    disabled_is_refused sample_world 1 "carol" "bob" managed_session switched
      (record alice { is_active = false }) bob refl refl refl

-- A database with the foreign key.
abbrev guarded_world : World
guarded_world = record sample_world { accepts = λ db. not (has_orphan db) }

abbrev guarded : (db : Database) → has_orphan db ≡ true → guarded_world.accepts db ≡ false
guarded db h = rw h

delete_user_is_refused_example :
    ((request (delete_user guarded_world "carol" 1) managed_session).0 ≢ ok tt)
    × ((request (delete_user guarded_world "carol" 1) managed_session).1.committed ≡ managed)
unfolding request update_user_status first update_where
delete_user_is_refused_example =
    delete_user_is_refused guarded_world guarded 1 "carol" managed_session refl

abbrev alice_payload : TokenPayload
alice_payload = record { sub = "alice"; amr = "pwd" ∷ "otp" ∷ []; auth_time = some 990 }

require_recent_mfa-IsRecent_example :
    IsDecoded sample_world "alice" sample_session alice_payload
    × (contains "otp" alice_payload.amr ≡ true)
    × (has_primary alice_payload.amr ≡ true)
    × ((t : ℕ) × (alice_payload.auth_time ≡ some t) × IsRecent (t * second) (1001 * second) 5)
unfolding require_recent_mfa first
require_recent_mfa-IsRecent_example =
    require_recent_mfa-IsRecent sample_world "alice" sample_session alice_payload refl
