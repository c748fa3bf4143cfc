-- ===== src/PasswordReset/Ended.antt =====
-- What a confirmed password reset does to each row of the refresh tokens, and to its user.
use fastapi_production_api.Base.{
  ℕ, ◌≡◌, refl, true, false, some, List, [], ◌∷◌, inl, inr, ◌⊎◌, ◌==◌, ==_refl, nat_eq, Bool-cases,
  if◌then◌else◌, string_eq,
}
use fastapi_production_api.Table.{first, update_where}
use fastapi_production_api.Table.Laws.{first-update_where}
use fastapi_production_api.Models.{RefreshToken, User}
use fastapi_production_api.Sessions.{live_of_user, revoke_values}

abbrev pub ended_at : ℕ → RefreshToken → RefreshToken
ended_at at r = record r {
  revoked = true;
  revoked_at = some at;
  revocation_reason = some "password_reset";
}

-- A row of the account that was not revoked is revoked now, at the time and with the reason; a row
-- of another account, and one that was revoked before, is as it was.
abbrev pub RowEnded : ℕ → ℕ → RefreshToken → RefreshToken → Type 0
RowEnded user_id at r r' =
    (((r.user_id == user_id) ≡ true) × (r.revoked ≡ false) × (r' ≡ ended_at at r))
    ⊎ ((((r.user_id == user_id) ≡ false) ⊎ (r.revoked ≡ true)) × (r' ≡ r))

abbrev pub SessionsEnded : ℕ → ℕ → List RefreshToken → List RefreshToken → Type 0
SessionsEnded user_id at [] [] = Unit
SessionsEnded user_id at [] (r' ∷ after) = ⊥
SessionsEnded user_id at (r ∷ before) [] = ⊥
SessionsEnded user_id at (r ∷ before) (r' ∷ after) =
    RowEnded user_id at r r' × SessionsEnded user_id at before after

row-RowEnded :
    (user_id at : ℕ) (r : RefreshToken)
    → RowEnded user_id at r
        (if live_of_user user_id r then revoke_values at "password_reset" r else r)
row-RowEnded user_id at r = elim (Bool-cases (r.user_id == user_id)) [
  | inr other ↦ inr (inl other, rw other refl)
  | inl own ↦ elim (Bool-cases r.revoked) [
    | inl dead ↦ inr (inr dead, simp (own, dead) refl)
    | inr live ↦ inl (own, live, simp (own, live) refl)
  ]
]

pub update_where-SessionsEnded :
    (user_id at : ℕ) (rows : List RefreshToken)
    → SessionsEnded user_id at rows
        (update_where (live_of_user user_id) (revoke_values at "password_reset") rows)
unfolding update_where
update_where-SessionsEnded user_id at [] = tt
update_where-SessionsEnded user_id at (r ∷ rows) =
    (row-RowEnded user_id at r, update_where-SessionsEnded user_id at rows)

found_by_id :
    (f : User → User) (id other : ℕ) (v : User)
    → ((v : User) → (f v).id ≡ v.id)
    → ((if v.id == other then f v else v).id == id) ≡ (v.id == id)
found_by_id f id other v keeps = elim (Bool-cases (v.id == other)) [
  | inl hit ↦ rw (hit, keeps v) refl
  | inr miss ↦ rw miss refl
]

-- A user who is changed is found again, changed.
pub found_changed :
    (f : User → User) (id : ℕ) (users : List User) (u : User)
    → ((v : User) → (f v).id ≡ v.id)
    → u.id ≡ id
    → first (λ v. v.id == id) users ≡ some u
    → first (λ v. v.id == id) (update_where (λ v. v.id == u.id) f users) ≡ some (f u)
found_changed f id users u keeps same known =
    rw
      (
        first-update_where (λ v. v.id == id) (λ v. v.id == u.id) f users
            (λ v. found_by_id f id u.id v keeps),
        known,
        ==_refl u.id,
      )
      refl
