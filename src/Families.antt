-- ===== src/Families.antt =====
-- The abstract machine of the refresh-token families: what a request of the API may do to the table
-- `refresh_tokens`. The handlers of src/app/auth/refresh.py, src/app/services/sessions.py and
-- src/app/services/session_issuance.py are shown to make only such steps.
pub mod Permanence
pub mod Single
pub mod Keys
pub mod Dead
pub mod Steps
use fastapi_production_api.Base.{
  ℕ, ◌≡◌, String, Bool, true, false, not, ◌&&◌, none, some, List, ◌==◌, nat_eq, string_eq, All,
}
use fastapi_production_api.Table.{first, update_where, add_row}
use fastapi_production_api.Models.{RefreshToken}
use fastapi_production_api.Sessions.{revoke_values}
use fastapi_production_api.Refresh.{rotated}

-- A row as it is inserted.
pub record IsNew (t : RefreshToken) : Type 0 where
  pub live : t.revoked ≡ false
  pub undated : t.revoked_at ≡ none
  pub unexplained : t.revocation_reason ≡ none

abbrev pub live_in : String → RefreshToken → Bool
live_in family_id t = t.family_id == family_id && not t.revoked

-- Each row with the id of `stored` is `stored`.
abbrev pub OnlyRow : RefreshToken → List RefreshToken → Type 0
OnlyRow stored = All (λ t. (t.id == stored.id) ≡ true → t ≡ stored)

-- No row is of the family.
abbrev pub NoRowIn : String → List RefreshToken → Type 0
NoRowIn family_id = All (λ t. (t.family_id == family_id) ≡ false)

pub data TokenStep (rows rows' : List RefreshToken) : Type 0 where
  keep : rows' ≡ rows → TokenStep rows rows'
  revoke :
      (p : RefreshToken → Bool) (at : ℕ) (reason : String)
      → ((t : RefreshToken) → t.revoked ≡ true → p t ≡ false)
      → rows' ≡ update_where p (revoke_values at reason) rows
      → TokenStep rows rows'
  rotate :
      (r : RefreshToken → Bool) (stored new : RefreshToken) (at : ℕ)
      → first r rows ≡ some stored
      → stored.revoked ≡ false
      → OnlyRow stored rows
      → IsNew new
      → new.family_id ≡ stored.family_id
      → rows' ≡ add_row new (update_where (λ t. t.id == stored.id) (rotated at) rows)
      → TokenStep rows rows'
  insert :
      (new : RefreshToken)
      → IsNew new
      → NoRowIn new.family_id rows
      → rows' ≡ add_row new rows
      → TokenStep rows rows'

pub data TokenSteps (rows : List RefreshToken) : List RefreshToken → Type 0 where
  here : TokenSteps rows rows
  next :
      {rows' rows'' : List RefreshToken}
      → TokenSteps rows rows'
      → TokenStep rows' rows''
      → TokenSteps rows rows''
