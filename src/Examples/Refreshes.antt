-- ===== src/Examples/Refreshes.antt =====
-- Runs of refresh, logout and login.
use fastapi_production_api.Sessions.Ended.{revoked_are_not_listed}
use fastapi_production_api.Sessions.Listing.{list_active_sessions}
use fastapi_production_api.Families.Steps.{rows_after}
use fastapi_production_api.Refresh.{rotate}
use fastapi_production_api.Families.{here, next}
use fastapi_production_api.Sessions.{revoke_user_sessions}
use fastapi_production_api.Refresh.Once.{refresh_once}
use fastapi_production_api.Refresh.{refresh_access_token, revoke_refresh_token}
use fastapi_production_api.Refresh.Replay.{logout_forever, replay_ends_family}
use fastapi_production_api.Refresh.Laws.{refresh-TokenStep}
use fastapi_production_api.Examples.Data.{live_token, sample_session, sample_world, spent_token}
use fastapi_production_api.Table.{count_where, delete_where, first, update_where}
use fastapi_production_api.Sessions.Laws.{chosen, of_user, revoke_user_sessions_ends}
use fastapi_production_api.Families.{TokenStep, live_in}
use fastapi_production_api.Db.{Session, request, ok, err, http, database}
use fastapi_production_api.Families.Single.{IsSingle, TokenSteps-IsSingle}
use fastapi_production_api.Base.{refl, [], ◌∷◌, All, arith, false, some, ◌≡◌, ◌≢◌, ◌⊎◌, none}

abbrev refreshed : Session
refreshed = (request (refresh_access_token sample_world "secret") sample_session).1

abbrev logged_out : Session
logged_out = (request (revoke_refresh_token sample_world "secret") sample_session).1

refresh_once_example :
    (request (refresh_access_token sample_world "secret") refreshed).0 ≢ ok ("alice", "draw")
unfolding request refresh_access_token first rotate
refresh_once_example =
    refresh_once sample_world sample_session refreshed "secret" ("alice", "draw") ("alice", "draw")
      refl here

replay_ends_family_example :
    let (r, s') = request (refresh_access_token sample_world "old secret") sample_session in
    ((r ≡ err (http 401 "Invalid refresh token"))
      × (count_where (live_in "family") s'.committed.refresh_tokens ≡ 0))
    ⊎ ((r ≡ err database) × (s'.committed ≡ sample_session.committed))
unfolding request refresh_access_token first
replay_ends_family_example =
    replay_ends_family sample_world sample_session "old secret" spent_token refl refl

logout_forever_example :
    (request (refresh_access_token sample_world "old secret") logged_out).0 ≢ ok ("alice", "draw")
unfolding request refresh_access_token first revoke_refresh_token update_where
logout_forever_example =
    logout_forever sample_world sample_session "secret" live_token refl logged_out "old secret"
      spent_token ("alice", "draw") refl here refl refl

refresh-TokenStep_example :
    TokenStep
      (spent_token ∷ live_token ∷ [])
      (rows_after (request (refresh_access_token sample_world "secret") sample_session))
refresh-TokenStep_example =
    refresh-TokenStep sample_world sample_session "secret" ((refl, tt), (tt, tt))

at_most_one : IsSingle (spent_token ∷ live_token ∷ [])
unfolding count_where
at_most_one f = ground arith

TokenSteps-IsSingle_example :
    IsSingle (rows_after (request (refresh_access_token sample_world "secret") sample_session))
TokenSteps-IsSingle_example =
    TokenSteps-IsSingle
      (next here (refresh-TokenStep sample_world sample_session "secret" ((refl, tt), (tt, tt))))
      at_most_one

revoke_user_sessions_ends_example :
    let (r, s') =
      request (revoke_user_sessions sample_world 1 (some "family") "user_revoked") sample_session in
    All (λ t. chosen 1 (some "family") t ≡ false) s'.committed.refresh_tokens
    × (delete_where (of_user 1) s'.committed.refresh_tokens
        ≡ delete_where (of_user 1) (spent_token ∷ live_token ∷ []))
unfolding request revoke_user_sessions
revoke_user_sessions_ends_example =
    revoke_user_sessions_ends sample_world sample_session 1 (some "family") "user_revoked" refl

revoked_are_not_listed_example :
    (request
      (list_active_sessions sample_world 1)
      (request (revoke_user_sessions sample_world 1 none "user_revoked") sample_session).1).0
    ≡ ok []
unfolding request revoke_user_sessions
revoked_are_not_listed_example =
    revoked_are_not_listed sample_world 1 "user_revoked" sample_session refl
