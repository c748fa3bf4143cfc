-- ===== src/Sessions/Laws.antt =====
-- What the revocations of Sessions leave live, and what they do not touch.
use fastapi_production_api.Families.{TokenStep, revoke, keep}
use fastapi_production_api.Base.{
  ◌⊎◌, ℕ, String, ◌≡◌, Bool, true, false, ◌&&◌, Option, List, arith, inl, inr, All, ◌==◌, nat_eq,
  string_eq, ap,
}
use fastapi_production_api.Table.{update_where, delete_where}
use fastapi_production_api.Table.Laws.{update_where-All_new, delete_where-update_where}
use fastapi_production_api.Models.{RefreshToken, Database}
use fastapi_production_api.World.{World}
use fastapi_production_api.Db.{Session, ok, err, database, request}
use fastapi_production_api.Sessions.{live_of_user, in_family, revoke_values, revoke_user_sessions}

-- The rows that one `_revoke_user_sessions` picks.
abbrev pub chosen : ℕ → Option String → RefreshToken → Bool
chosen user_id family_id t = live_of_user user_id t && in_family family_id t

abbrev pub of_user : ℕ → RefreshToken → Bool
of_user user_id t = t.user_id == user_id

chosen-of_user :
    (user_id : ℕ) (family_id : Option String) (t : RefreshToken)
    → chosen user_id family_id t ≡ true
    → of_user user_id t ≡ true
chosen-of_user user_id family_id t h = ground arith

module _ (w : World) (s : Session) (user_id : ℕ) (family_id : Option String) (reason : String) where
  pub swept : List RefreshToken
  swept =
      update_where (chosen user_id family_id) (revoke_values (w.clock s.ticks) reason)
        s.committed.refresh_tokens

  -- The request revokes them all, or the database refuses and nothing changes.
  pub revoke_user_sessions_outcome :
      let (r, s') = request (revoke_user_sessions w user_id family_id reason) s in
      ((r ≡ ok tt) × (s'.committed.refresh_tokens ≡ swept))
      ⊎ ((r ≡ err database) × (s'.committed ≡ s.committed))
  unfolding request revoke_user_sessions swept
  revoke_user_sessions_outcome = ground arith

  swept-none_live : All (λ t. chosen user_id family_id t ≡ false) swept
  unfolding swept
  swept-none_live = update_where-All_new _ _ _ s.committed.refresh_tokens (λ t. ground arith)

  swept-others :
      delete_where (of_user user_id) swept
      ≡ delete_where (of_user user_id) s.committed.refresh_tokens
  unfolding swept
  swept-others =
      delete_where-update_where _ _ _ s.committed.refresh_tokens
        (λ t h. (chosen-of_user user_id family_id t h, chosen-of_user user_id family_id t h))

  -- A revocation of a user's sessions, of one family or of all, that reports success leaves none of
  -- them live, and the rows of all other users as they were.
  pub revoke_user_sessions_ends :
      (request (revoke_user_sessions w user_id family_id reason) s).0 ≡ ok tt
      → let (r, s') = request (revoke_user_sessions w user_id family_id reason) s in
        All (λ t. chosen user_id family_id t ≡ false) s'.committed.refresh_tokens
        × (delete_where (of_user user_id) s'.committed.refresh_tokens
            ≡ delete_where (of_user user_id) s.committed.refresh_tokens)
  revoke_user_sessions_ends e = elim revoke_user_sessions_outcome [
    | inl done ↦ rw done.1 (swept-none_live, swept-others)
    | inr failed ↦ absurd (ground arith)
  ]

  -- It is a step of the machine of Families.
  pub revoke_user_sessions-TokenStep :
      TokenStep s.committed.refresh_tokens
        (request (revoke_user_sessions w user_id family_id reason) s).1.committed.refresh_tokens
  unfolding swept
  revoke_user_sessions-TokenStep = elim revoke_user_sessions_outcome [
    | inl done ↦
        revoke (chosen user_id family_id) (w.clock s.ticks) reason (λ t h. ground arith) done.1
    | inr failed ↦ keep (ap (λ (d : Database). d.refresh_tokens) failed.1)
  ]
