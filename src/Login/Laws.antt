-- ===== src/Login/Laws.antt =====
-- A login makes one step of the machine of Families.
use fastapi_production_api.Base.{
  ℕ, suc, ◌+◌, ◌≤◌, String, ◌≡◌, refl, false, none, arith, inl, inr, Bool-cases, Option-cases,
  nat_eq, is_some, not, ◌||◌,
}
use fastapi_production_api.Models.{RefreshToken, User}
use fastapi_production_api.World.{World, days}
use fastapi_production_api.Db.{Session, request, rollback}
use fastapi_production_api.Sessions.{user_by_id, or_inactive}
use fastapi_production_api.Login.{login, issue_challenge, start_session, user_by_name}
use fastapi_production_api.Families.{TokenStep, keep, IsNew, NoRowIn}
use fastapi_production_api.Families.Steps.{rows_after, insert_or_keep}

-- uuid4 gives no family id that is in the table.
abbrev pub IsFresh : World → Session → Type 0
IsFresh w s = (n : ℕ) → s.ticks ≤ n → NoRowIn (w.random n) s.committed.refresh_tokens

-- The first row of a new family; `n` is the number of the first reading of prepare_session_tokens.
abbrev pub first_row : World → ℕ → ℕ → String → RefreshToken
first_row w n user_id device_name = record {
  id = w.row_id (suc (suc (suc (suc (suc n)))));
  user_id = user_id;
  family_id = w.random (suc (suc (suc (suc n))));
  token = w.sha256 (w.random (suc (suc n)));
  expires_at = w.clock (suc (suc (suc n))) + days w.settings.refresh_token_expire_days;
  created_at = w.clock (suc (suc (suc (suc (suc (suc n))))));
  last_used_at = w.clock (suc (suc (suc (suc (suc (suc (suc n)))))));
  device_name = device_name;
  revoked = false;
  revoked_at = none;
  revocation_reason = none;
}

first_row-IsNew :
    (w : World) (n user_id : ℕ) (device_name : String) → IsNew (first_row w n user_id device_name)
first_row-IsNew w n user_id device_name = record { live = refl; undated = refl; unexplained = refl }

module _ (w : World) (s : Session) (user : User) (device_name : String)
    (same : s.view ≡ s.committed) where
  challenge-TokenStep :
      TokenStep s.committed.refresh_tokens (rows_after (issue_challenge w user device_name s))
  unfolding issue_challenge
  challenge-TokenStep = keep (ground arith)

  session-TokenStep :
      IsFresh w s
      → TokenStep s.committed.refresh_tokens (rows_after (start_session w user device_name s))
  unfolding start_session
  session-TokenStep fresh = elim (Option-cases (or_inactive (user_by_id user.id s.committed))) [
    | inl gone ↦ keep (ground arith)
    | inr (active, found) ↦
        insert_or_keep (first_row w s.ticks active.id device_name)
          (first_row-IsNew w s.ticks active.id device_name)
          (fresh (suc (suc (suc (suc s.ticks)))) (omega arith)) (ground arith)
  ]

-- A login makes one step of the machine, when the family ids it draws are not in the table.
pub login-TokenStep :
    (w : World) (s : Session) (username password device_name : String)
    → IsFresh w s
    → TokenStep s.committed.refresh_tokens
        (rows_after (request (login w username password device_name) s))
unfolding request login
login-TokenStep w s username password device_name fresh =
    elim (Option-cases (or_inactive (user_by_name username s.committed))) [
      | inl missing ↦ keep (ground arith)
      | inr (user, found) ↦
          elim (Bool-cases
            (not user.password_login_enabled || not (w.verify_password password user.password))) [
              | inl wrong ↦ keep (ground arith)
              | inr right ↦ elim (Bool-cases (is_some user.mfa_enabled_at)) [
                | inl guarded ↦
                    simp (found, right, guarded)
                      (challenge-TokenStep w (rollback s) user device_name refl)
                | inr plain ↦
                    simp (found, right, plain)
                      (session-TokenStep w (rollback s) user device_name refl fresh)
              ]
            ]
    ]
