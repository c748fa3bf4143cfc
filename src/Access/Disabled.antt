-- ===== src/Access/Disabled.antt =====
-- What switching an account off does.
use fastapi_production_api.Access.Guards.{get_current_user}
use fastapi_production_api.Table.Laws.{first-All, first-meets, row_after, update_where-All_new}
use fastapi_production_api.Db.Chains.{bind_ok}
use fastapi_production_api.Access.Laws.{admin_only_ok, get_current_user_ok}
use fastapi_production_api.Table.{update_where}
use fastapi_production_api.ActionTokens.{update_user}
use fastapi_production_api.Access.Admin.{store_status, admin_only, known_user, update_user_status}
use fastapi_production_api.Sessions.{
  account_disabled_revocation_reason, live_of_user, revoke_all_user_sessions, revoke_user_sessions,
  revoke_values, user_by_id,
}
use fastapi_production_api.World.{World}
use fastapi_production_api.Models.{User, Database, RefreshToken}
use fastapi_production_api.Db.{
  ◌>>◌, Action, Session, modify, pure, ok, ◌>>=◌, Result, request, rollback,
}
use fastapi_production_api.Base.{
  ℕ, ◌≡◌, arith, true, false, ◌==◌, nat_eq, string_eq, ◌&&◌, String, ap, some, sym, ◌∙◌, ==_iff,
  All, Bool-cases, List, inl, inr, subst,
}

abbrev switched_off : User → User
switched_off u = record u { is_active = false }

not_live :
    {user_id : ℕ} (id at : ℕ) (r : RefreshToken)
    → user_id ≡ id
    → live_of_user user_id (
        row_after
          (λ t. live_of_user id t && true)
          (revoke_values at account_disabled_revocation_reason)
          r)
      ≡ false
not_live {user_id} id at r same = ground arith

abbrev IsOff : ℕ → User → Type 0
IsOff user_id u = (u.id == user_id) ≡ true → u.is_active ≡ false

row_after-IsOff :
    (user_id : ℕ) (x : User) → IsOff user_id (row_after (λ u. u.id == user_id) switched_off x)
row_after-IsOff user_id x hit = elim (Bool-cases (x.id == user_id)) [
  | inl here ↦ rw here
  | inr other ↦ absurd (ground arith)
]

update_where-IsOff :
    (user_id : ℕ) (users : List User)
    → All (IsOff user_id) (update_where (λ u. u.id == user_id) switched_off users)
update_where-IsOff user_id users =
    update_where-All_new (IsOff user_id) (λ u. u.id == user_id) switched_off users
      (row_after-IsOff user_id)

off_user :
    (user_id : ℕ) (user : User)
    → IsOff user_id user
    → user.is_active ≡ true
    → (user.id == user_id) ≡ false
off_user user_id user off active = elim (Bool-cases (user.id == user_id)) [
  | inl hit ↦ absurd (ground (arith, off hit))
  | inr miss ↦ miss
]

module _ (w : World) (user_id : ℕ) where
  abbrev switch_off : User → Action User
  switch_off user =
      modify (update_user user.id switched_off)
      >> (store_status w user false >> pure (switched_off user))

  switch_off_ok :
      (user found : User) (s : Session)
      → (switch_off user s).0 ≡ ok found
      → ((switch_off user s).1.committed.users
          ≡ update_where (λ u. u.id == user.id) switched_off s.view.users)
        × ((switch_off user s).1.committed.refresh_tokens
            ≡ update_where
                (λ t. live_of_user user.id t && true)
                (revoke_values (w.clock s.ticks) account_disabled_revocation_reason)
                s.view.refresh_tokens)
  unfolding store_status revoke_all_user_sessions revoke_user_sessions
  switch_off_ok user found s e = ground arith

  abbrev status_of : User → Action User
  status_of admin = known_user user_id >>= switch_off

  known_user_ok :
      (user : User) (s : Session)
      → (known_user user_id s).0 ≡ ok user
      → (user_by_id user_id s.view ≡ some user) × ((known_user user_id s).1 ≡ s)
  known_user_ok user s e = ground arith

  -- The two tables that switching an account off writes.
  update_user_status-stored :
      (token : String) (s : Session) (changed : User)
      → (request (update_user_status w token user_id false) s).0 ≡ ok changed
      → (user : User) × (at : ℕ) × (user_by_id user_id s.committed ≡ some user)
        × ((request (update_user_status w token user_id false) s).1.committed.users
            ≡ update_where (λ u. u.id == user.id) switched_off s.committed.users)
        × ((request (update_user_status w token user_id false) s).1.committed.refresh_tokens
            ≡ update_where
                (λ t. live_of_user user.id t && true)
                (revoke_values at account_disabled_revocation_reason)
                s.committed.refresh_tokens)
  unfolding request update_user_status
  update_user_status-stored token s changed e =
      let began = rollback s in
      let (admin, allowed, rest, whole) = bind_ok (admin_only w token) status_of began changed e in
      let (signed_in, role, after) = admin_only_ok w token began admin allowed in
      let at = (admin_only w token began).1 in
      let (user, known, switched, whole') =
        bind_ok (known_user user_id) switch_off at changed rest in
      let (found, same) = known_user_ok user at known in
      let seen : (known_user user_id at).1.view ≡ s.committed =
        ap (λ (x : Session). x.view) (same ∙ after) in
      let (users, tokens) = switch_off_ok user changed (known_user user_id at).1 switched in
      let total = whole ∙ whole' in
      (
        user,
        w.clock (known_user user_id at).1.ticks,
        ap (λ (x : Session). user_by_id user_id x.view) (sym after) ∙ found,
        ap (λ (x : Result User × Session). x.1.committed.users) total
            ∙ users
            ∙ ap (λ (db : Database). update_where (λ u. u.id == user.id) switched_off db.users)
                seen,
        ap (λ (x : Result User × Session). x.1.committed.refresh_tokens) total
            ∙ tokens
            ∙ ap
                (λ (db : Database).
                  update_where (λ t. live_of_user user.id t && true)
                    (revoke_values (w.clock (known_user user_id at).1.ticks)
                      account_disabled_revocation_reason)
                    db.refresh_tokens)
                seen,
      )

  -- After an administrator has switched an account off, no refresh token of the account is live.
  pub disabled_ends_sessions :
      (token : String) (s : Session) (changed : User)
      → (request (update_user_status w token user_id false) s).0 ≡ ok changed
      → All
          (λ r. live_of_user user_id r ≡ false)
          (request (update_user_status w token user_id false) s).1.committed.refresh_tokens
  disabled_ends_sessions token s changed e =
      let (user, at, found, users, tokens) = update_user_status-stored token s changed e in
      let same : user.id ≡ user_id =
        (==_iff _ _).0 (first-meets (λ u. u.id == user_id) s.committed.users found) in
      subst (All (λ r. live_of_user user_id r ≡ false)) (sym tokens) (
        update_where-All_new (λ r. live_of_user user_id r ≡ false)
          (λ t. live_of_user user.id t && true)
          (revoke_values at account_disabled_revocation_reason) s.committed.refresh_tokens
          (λ r. not_live user.id at r (sym same)))

  -- After an administrator has switched an account off, no access token is accepted as the account's,
  -- at any later time at which the table of users is as it was left, and whatever the token says.
  pub disabled_is_refused :
      (token token' : String) (s later : Session) (changed user : User)
      → (request (update_user_status w token user_id false) s).0 ≡ ok changed
      → later.committed.users
        ≡ (request (update_user_status w token user_id false) s).1.committed.users
      → (request (get_current_user w token') later).0 ≡ ok user
      → (user.id == user_id) ≡ false
  unfolding request
  disabled_is_refused token token' s later changed user e unchanged e' =
      let (user', at, found, users, tokens) = update_user_status-stored token s changed e in
      let same : user'.id ≡ user_id =
        (==_iff _ _).0 (first-meets (λ u. u.id == user_id) s.committed.users found) in
      let (signed_in, after) = get_current_user_ok w token' (rollback later) user e' in
      let off =
        subst (All (IsOff user_id))
          (sym (
            unchanged
            ∙ users
            ∙ ap (λ id. update_where (λ u. u.id == id) switched_off s.committed.users) same))
          (update_where-IsOff user_id s.committed.users) in
      off_user user_id user
        (first-All (IsOff user_id) _ later.committed.users off signed_in.found).0 signed_in.active
