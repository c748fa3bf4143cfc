-- ===== src/Refresh/Laws.antt =====
-- The handlers of Refresh make only steps of the machine of Families.
use fastapi_production_api.Families.Steps.{rows_after, revoke_or_keep, rotate_or_keep}
use fastapi_production_api.Families.Keys.{DistinctIds}
use fastapi_production_api.Base.{
  ltb, Bool-cases, some, none, ℕ, String, ◌≡◌, Bool, true, false, arith, inl, inr, Option-cases,
  ◌==◌, nat_eq, string_eq, ◌&&◌, not, ◌+◌, suc, refl,
}
use fastapi_production_api.Models.{RefreshToken, User}
use fastapi_production_api.World.{World, days}
use fastapi_production_api.Db.{Session, request, rollback}
use fastapi_production_api.Sessions.{live_of_user, account_disabled_revocation_reason}
use fastapi_production_api.Refresh.{
  user_by_id, refresh_access_token, first, revoke_refresh_token, token_by_hash, logout_reason,
  reject_replay, reject_inactive, rotate, replay_reason,
}
use fastapi_production_api.Families.{TokenStep, keep}

-- The row that a rotation adds, by the number of the first reading.
abbrev pub successor : World → ℕ → RefreshToken → User → RefreshToken
successor w n stored user = record {
  id = w.row_id (suc (suc (suc n)));
  user_id = user.id;
  family_id = stored.family_id;
  token = w.sha256 (w.random n);
  expires_at = w.clock (suc n) + days w.settings.refresh_token_expire_days;
  created_at = w.clock (suc (suc (suc (suc n))));
  last_used_at = w.clock (suc (suc (suc (suc (suc n)))));
  device_name = stored.device_name;
  revoked = false;
  revoked_at = none;
  revocation_reason = none;
}

module _ (w : World) (s : Session) where
  -- A logout makes one step of the machine, whatever its outcome.
  pub logout-TokenStep :
      (token : String)
      → TokenStep s.committed.refresh_tokens (rows_after (request (revoke_refresh_token w token) s))
  unfolding request revoke_refresh_token
  logout-TokenStep token = elim (Option-cases (token_by_hash (w.sha256 token) s.committed)) [
    | inl missing ↦ keep (ground arith)
    | inr (stored, found) ↦
        revoke_or_keep (λ t. t.family_id == stored.family_id && not t.revoked) (w.clock s.ticks)
          logout_reason (λ t h. ground arith) (ground arith)
  ]

  -- The three parts of a refresh, on a request whose view is what is committed.
  replay-TokenStep :
      (stored : RefreshToken)
      → s.view ≡ s.committed
      → TokenStep s.committed.refresh_tokens
          (rows_after (reject_replay {A = String × String} w stored s))
  unfolding reject_replay
  replay-TokenStep stored e =
      revoke_or_keep (λ t. t.family_id == stored.family_id && not t.revoked) (w.clock s.ticks)
        replay_reason (λ t h. ground arith) (ground arith)

  inactive-TokenStep :
      (user : User)
      → s.view ≡ s.committed
      → TokenStep s.committed.refresh_tokens
          (rows_after (reject_inactive {A = String × String} w user s))
  unfolding reject_inactive
  inactive-TokenStep user e =
      revoke_or_keep (λ t. live_of_user user.id t && true) (w.clock s.ticks)
        account_disabled_revocation_reason (λ t h. ground arith) (ground arith)

  rotate-TokenStep :
      (r : RefreshToken → Bool) (stored : RefreshToken) (user : User)
      → s.view ≡ s.committed
      → first r s.committed.refresh_tokens ≡ some stored
      → stored.revoked ≡ false
      → DistinctIds s.committed.refresh_tokens
      → TokenStep s.committed.refresh_tokens (rows_after (rotate w stored user s))
  unfolding rotate
  rotate-TokenStep r stored user e found live keys =
      rotate_or_keep r stored (successor w s.ticks stored user) (w.clock (suc (suc s.ticks))) found
        live keys (record { live = refl; undated = refl; unexplained = refl }) refl (ground arith)

-- On a table with distinct ids a refresh makes one step of the machine, whatever its outcome.
pub refresh-TokenStep :
    (w : World) (s : Session) (token : String)
    → DistinctIds s.committed.refresh_tokens
    → TokenStep s.committed.refresh_tokens (rows_after (request (refresh_access_token w token) s))
unfolding request refresh_access_token
refresh-TokenStep w s token keys =
    elim (Option-cases (token_by_hash (w.sha256 token) s.committed)) [
      | inl missing ↦ keep (ground arith)
      | inr (stored, found) ↦ elim (Bool-cases stored.revoked) [
        | inl dead ↦ simp (found, dead) (replay-TokenStep w (rollback s) stored refl)
        | inr live ↦ elim (Bool-cases (ltb stored.expires_at (w.clock s.ticks))) [
          | inl late ↦ keep (ground arith)
          | inr timely ↦ elim (Option-cases (user_by_id stored.user_id s.committed)) [
            | inl orphan ↦ keep (ground arith)
            | inr (user, owner) ↦ elim (Bool-cases user.is_active) [
              | inl active ↦
                  simp (found, live, timely, owner, active)
                    (rotate-TokenStep w (later s) (λ t. t.token == w.sha256 token) stored user refl
                      found live keys)
              | inr inactive ↦
                  simp (found, live, timely, owner, inactive)
                    (inactive-TokenStep w (later s) user refl)
            ]
          ]
        ]
      ]
    ]
  where
    later : Session → Session
    later t = record (rollback t) { ticks = suc t.ticks }
