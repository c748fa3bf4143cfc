-- ===== src/Families/Steps.antt =====
-- Steps of the machine from the two outcomes of a transaction: what it meant to commit, or nothing.
use fastapi_production_api.Base.{
  some, ◌≡◌, ℕ, String, Bool, true, false, List, ◌⊎◌, inl, inr, ◌==◌, nat_eq,
}
use fastapi_production_api.Table.{first, update_where, add_row}
use fastapi_production_api.Models.{RefreshToken}
use fastapi_production_api.Sessions.{revoke_values}
use fastapi_production_api.Db.{Session}
use fastapi_production_api.Refresh.{rotated}
use fastapi_production_api.Families.{
  rotate as rotate_step, TokenStep, keep, revoke, insert, IsNew, NoRowIn,
}
use fastapi_production_api.Families.Keys.{DistinctIds, OnlyRow-first}

-- The committed tokens after a request.
abbrev pub rows_after {ℓ} : {A : Type ℓ} → A × Session → List RefreshToken
rows_after (_, s) = s.committed.refresh_tokens

module _ {rows rows' : List RefreshToken} where
  -- Where the commit may be refused, the rows stay.
  pub revoke_or_keep :
      (p : RefreshToken → Bool) (at : ℕ) (reason : String)
      → ((t : RefreshToken) → t.revoked ≡ true → p t ≡ false)
      → (rows' ≡ rows) ⊎ (rows' ≡ update_where p (revoke_values at reason) rows)
      → TokenStep rows rows'
  revoke_or_keep p at reason live (inl e) = keep e
  revoke_or_keep p at reason live (inr e) = revoke p at reason live e

  pub rotate_or_keep :
      (r : RefreshToken → Bool) (stored new : RefreshToken) (at : ℕ)
      → first r rows ≡ some stored
      → stored.revoked ≡ false
      → DistinctIds rows
      → IsNew new
      → new.family_id ≡ stored.family_id
      → (rows' ≡ rows)
        ⊎ (rows' ≡ add_row new (update_where (λ t. t.id == stored.id) (rotated at) rows))
      → TokenStep rows rows'
  rotate_or_keep r stored new at found live keys fresh family (inl e) = keep e
  rotate_or_keep r stored new at found live keys fresh family (inr e) =
      rotate_step r stored new at found live (OnlyRow-first r rows keys found) fresh family e

  pub insert_or_keep :
      (new : RefreshToken)
      → IsNew new
      → NoRowIn new.family_id rows
      → (rows' ≡ rows) ⊎ (rows' ≡ add_row new rows)
      → TokenStep rows rows'
  insert_or_keep new fresh alone (inl e) = keep e
  insert_or_keep new fresh alone (inr e) = insert new fresh alone e
