-- ===== src/PasswordReset/Laws.antt =====
-- What a confirmed password reset does, and that its token is good for one.

use fastapi_production_api.Table.Laws.{first-meets}
use fastapi_production_api.Base.{
  inr, inl, Option-cases, ◌≢◌, ℕ, suc, String, ◌≡◌, true, false, none, some, Option, arith, ◌==◌,
  nat_eq, string_eq,
}
use fastapi_production_api.Table.{update_where}
use fastapi_production_api.Models.{User, AccountActionToken, Database}
use fastapi_production_api.World.{World}
use fastapi_production_api.Db.{Session, ok, request}
use fastapi_production_api.Sessions.{user_by_id, live_of_user, revoke_values}
use fastapi_production_api.ActionTokens.{
  matching, password_reset_purpose, has_purpose, open_for, consumed, find_action_token, is_spent,
}
use fastapi_production_api.PasswordReset.{confirm_password_reset, owner_of}
use fastapi_production_api.ActionTokens.Laws.{
  Extends-IsSpentFor, tokens_after, IsSpentFor, ActionTokenSteps, ReadsPurpose,
  ActionTokenSteps-Extends, IsSpentFor-update,
}

reset_purpose-reads : ReadsPurpose (has_purpose password_reset_purpose)
reset_purpose-reads a b e = rw e

-- The user that the confirmation finds, if it goes on.
abbrev reset_owner : Database → AccountActionToken → Option User
reset_owner db t = owner_of t (user_by_id t.user_id db)

owner_of-found :
    (t : AccountActionToken) (o : Option User) {u : User} → owner_of t o ≡ some u → o ≡ some u
owner_of-found t none e = cc
owner_of-found t (some v) e = ground arith

open-of_reset :
    (t : AccountActionToken) (u : User) (at : ℕ) (hashed : String)
    → (u.id == t.user_id) ≡ true
    → matching hashed (has_purpose password_reset_purpose) t ≡ true
    → is_spent t at ≡ false
    → open_for u.id (has_purpose password_reset_purpose) t ≡ true
open-of_reset t u at hashed same hit unspent = ground arith

module _ (w : World) (s : Session) (token new_password : String) where
  -- The three tables after a confirmation that succeeds.
  pub record HasReset (t : AccountActionToken) (u : User) (after : Database) : Type 0 where
    pub unspent : is_spent t (w.clock s.ticks) ≡ false
    pub owner : reset_owner s.committed t ≡ some u
    pub users_set :
        after.users
        ≡ update_where
            (λ v. v.id == u.id)
            (λ v. record v {
              password = w.hash_password (suc s.ticks) new_password;
              password_login_enabled = true;
            })
            s.committed.users
    pub tokens_set :
        after.action_tokens
        ≡ update_where
            (open_for u.id (has_purpose password_reset_purpose))
            (consumed (w.clock s.ticks))
            s.committed.action_tokens
    pub sessions_set :
        after.refresh_tokens
        ≡ update_where
            (live_of_user u.id)
            (revoke_values (w.clock s.ticks) "password_reset")
            s.committed.refresh_tokens

  reset_outcome :
      (t : AccountActionToken) (u : User)
      → find_action_token (w.sha256 token) (has_purpose password_reset_purpose) s.committed ≡ some t
      → reset_owner s.committed t ≡ some u
      → let (r, s') = request (confirm_password_reset w token new_password) s in
        r ≡ ok tt → HasReset t u s'.committed
  unfolding request confirm_password_reset
  reset_outcome t u found owner e = ground arith

  reset-missing :
      find_action_token (w.sha256 token) (has_purpose password_reset_purpose) s.committed ≡ none
      → (request (confirm_password_reset w token new_password) s).0 ≢ ok tt
  unfolding request confirm_password_reset
  reset-missing missing e = ground arith

  reset-ownerless :
      (t : AccountActionToken)
      → find_action_token (w.sha256 token) (has_purpose password_reset_purpose) s.committed ≡ some t
      → reset_owner s.committed t ≡ none
      → (request (confirm_password_reset w token new_password) s).0 ≢ ok tt
  unfolding request confirm_password_reset
  reset-ownerless t found nobody e = ground arith

  -- A reset that succeeds had an unspent token of the purpose and its eligible owner, and has set
  -- the password, consumed the owner's reset tokens and revoked the owner's sessions.
  pub confirm_password_reset_effect :
      (request (confirm_password_reset w token new_password) s).0 ≡ ok tt
      → (t : AccountActionToken) × (u : User) × (find_action_token
            (w.sha256 token)
            (has_purpose password_reset_purpose)
            s.committed
          ≡ some t)
        × HasReset t u (request (confirm_password_reset w token new_password) s).1.committed
  confirm_password_reset_effect e =
      elim (Option-cases
        (find_action_token (w.sha256 token) (has_purpose password_reset_purpose) s.committed)) [
          | inl missing ↦ absurd (reset-missing missing e)
          | inr (t, found) ↦ elim (Option-cases (reset_owner s.committed t)) [
            | inl nobody ↦ absurd (reset-ownerless t found nobody e)
            | inr (u, owner) ↦ (t, u, found, reset_outcome t u found owner e)
          ]
        ]

  reset_ok-IsSpentFor :
      (request (confirm_password_reset w token new_password) s).0 ≡ ok tt
      → IsSpentFor
          (w.sha256 token)
          (has_purpose password_reset_purpose)
          (tokens_after (request (confirm_password_reset w token new_password) s))
  reset_ok-IsSpentFor e =
      let (t, u, found, done) = confirm_password_reset_effect e in
      let known : user_by_id t.user_id s.committed ≡ some u =
        owner_of-found t (user_by_id t.user_id s.committed) done.owner in
      let same : (u.id == t.user_id) ≡ true =
        first-meets (λ v. v.id == t.user_id) s.committed.users known in
      let hit : matching (w.sha256 token) (has_purpose password_reset_purpose) t ≡ true =
        first-meets (matching (w.sha256 token) (has_purpose password_reset_purpose))
          s.committed.action_tokens found in
      rw done.tokens_set (
        IsSpentFor-update (w.sha256 token) (has_purpose password_reset_purpose)
          (open_for u.id (has_purpose password_reset_purpose)) (w.clock s.ticks)
          s.committed.action_tokens reset_purpose-reads found
          (open-of_reset t u (w.clock s.ticks) (w.sha256 token) same hit done.unspent))

module _ (w : World) where
  reset-spent :
      (s : Session) (token new_password : String)
      → IsSpentFor (w.sha256 token) (has_purpose password_reset_purpose) s.committed.action_tokens
      → (request (confirm_password_reset w token new_password) s).0 ≢ ok tt
  unfolding request confirm_password_reset
  reset-spent s token new_password (t, found, dead) e = ground arith

  -- A reset token that was accepted once is refused from then on, whatever steps the table of
  -- account tokens takes in between.
  pub confirm_password_reset_once :
      (s later : Session) (token new_password another : String)
      → (request (confirm_password_reset w token new_password) s).0 ≡ ok tt
      → ActionTokenSteps
          (tokens_after (request (confirm_password_reset w token new_password) s))
          later.committed.action_tokens
      → (request (confirm_password_reset w token another) later).0 ≢ ok tt
  confirm_password_reset_once s later token new_password another e steps =
      reset-spent later token another (
        Extends-IsSpentFor (w.sha256 token) (has_purpose password_reset_purpose) _
          later.committed.action_tokens reset_purpose-reads (ActionTokenSteps-Extends steps)
          (reset_ok-IsSpentFor w s token new_password e))
