-- ===== src/Refresh/Replay.antt =====
-- Replay and logout end a family for good.
use fastapi_production_api.Base.{
  ◌≤◌, ℕ, String, ◌≡◌, ◌≢◌, true, false, some, List, arith, inl, inr, ◌⊎◌, nat_eq, string_eq,
  ==_refl,
}
use fastapi_production_api.Table.{update_where, count_where}
use fastapi_production_api.Table.Laws.{count_where-none, update_where-All_new, count_where-found}
use fastapi_production_api.Models.{RefreshToken}
use fastapi_production_api.World.{World}
use fastapi_production_api.Db.{Session, ok, err, http, database, request}
use fastapi_production_api.Sessions.{revoke_values}
use fastapi_production_api.Refresh.{
  refresh_access_token, revoke_refresh_token, token_by_hash, reject_replay, replay_reason,
  logout_reason,
}
use fastapi_production_api.Refresh.Once.{refresh-revoked, has_token}
use fastapi_production_api.Refresh.Laws.{logout-TokenStep}
use fastapi_production_api.Families.{TokenSteps, TokenStep, live_in}
use fastapi_production_api.Families.Dead.{
  IsDead, of_family, TokenSteps-IsDead, IsDead-revoked, Extends-count,
}
use fastapi_production_api.Families.Permanence.{TokenStep-Extends}
use fastapi_production_api.Families.Steps.{rows_after}

-- The table after `_revoke_family`.
abbrev family_swept : String → String → ℕ → List RefreshToken → List RefreshToken
family_swept f reason at rows = update_where (live_in f) (revoke_values at reason) rows

swept-none_live :
    (f reason : String) (at : ℕ) (rows : List RefreshToken)
    → count_where (live_in f) (family_swept f reason at rows) ≡ 0
swept-none_live f reason at rows = count_where-none (live_in f) (family_swept f reason at rows) (
    update_where-All_new (λ t. live_in f t ≡ false) (live_in f) (revoke_values at reason) rows
      (λ t. ground arith))

module _ (w : World) (s : Session) (token : String) (t : RefreshToken)
    (found : token_by_hash (w.sha256 token) s.committed ≡ some t) where
  known_before : 1 ≤ count_where (of_family t.family_id) s.committed.refresh_tokens
  known_before =
      count_where-found (of_family t.family_id) (has_token (w.sha256 token))
        s.committed.refresh_tokens found (==_refl t.family_id)

  -- A refresh with a token that is revoked already is answered by 401, and leaves no token of its
  -- family live; or the database refuses, and nothing changes.
  pub replay_ends_family :
      t.revoked ≡ true
      → let (r, s') = request (refresh_access_token w token) s in
        ((r ≡ err (http 401 "Invalid refresh token"))
          × (count_where (live_in t.family_id) s'.committed.refresh_tokens ≡ 0))
        ⊎ ((r ≡ err database) × (s'.committed ≡ s.committed))
  unfolding request refresh_access_token reject_replay
  replay_ends_family dead = ground (
    arith,
    found,
    swept-none_live t.family_id replay_reason (w.clock s.ticks) s.committed.refresh_tokens,
  )

  logout_cases :
      let (r, s') = request (revoke_refresh_token w token) s in
      ((r ≡ ok true) × (count_where (live_in t.family_id) s'.committed.refresh_tokens ≡ 0))
      ⊎ ((r ≡ err database) × (s'.committed ≡ s.committed))
  unfolding request revoke_refresh_token
  logout_cases = ground (
    arith,
    found,
    swept-none_live t.family_id logout_reason (w.clock s.ticks) s.committed.refresh_tokens,
  )

  IsDead-after :
      (m : Session)
      → TokenStep s.committed.refresh_tokens m.committed.refresh_tokens
      → count_where (live_in t.family_id) m.committed.refresh_tokens ≡ 0
      → IsDead t.family_id m.committed.refresh_tokens
  IsDead-after m step none_live = record {
    known = omega (
      arith,
      known_before,
      Extends-count t.family_id s.committed.refresh_tokens m.committed.refresh_tokens
          (TokenStep-Extends step),
    );
    none_live = none_live;
  }

  logout_ok-IsDead :
      (request (revoke_refresh_token w token) s).0 ≡ ok true
      → IsDead t.family_id (rows_after (request (revoke_refresh_token w token) s))
  logout_ok-IsDead done = elim logout_cases [
    | inl ended ↦
        IsDead-after (request (revoke_refresh_token w token) s).1 (logout-TokenStep w s token)
          ended.1
    | inr failed ↦ absurd (ground arith)
  ]

  -- After a logout that succeeded, no refresh with any token of the family succeeds, at any later
  -- time and whatever steps the token table takes in between.
  pub logout_forever :
      (later : Session) (token' : String) (t' : RefreshToken) (r : String × String)
      → (request (revoke_refresh_token w token) s).0 ≡ ok true
      → TokenSteps
          (rows_after (request (revoke_refresh_token w token) s))
          later.committed.refresh_tokens
      → token_by_hash (w.sha256 token') later.committed ≡ some t'
      → t'.family_id ≡ t.family_id
      → (request (refresh_access_token w token') later).0 ≢ ok r
  logout_forever later token' t' r done steps found' same =
      refresh-revoked w later token' t' r found' (
        IsDead-revoked t.family_id (has_token (w.sha256 token')) later.committed.refresh_tokens
          (TokenSteps-IsDead t.family_id steps (logout_ok-IsDead done)) found' same)
