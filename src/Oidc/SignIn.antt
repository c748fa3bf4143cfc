-- ===== src/Oidc/SignIn.antt =====
-- Unlinking leaves an account a way to sign in.
use fastapi_production_api.Sessions.{user_by_id}
use fastapi_production_api.Oidc.Identities.{revoke_live_sessions}
use fastapi_production_api.Oidc.Links.{
  delete_identity, is_only_method, owned_by, unlink_found, unlink_external_identity,
}
use fastapi_production_api.Table.{count_where, delete_where, first}
use fastapi_production_api.World.{World}
use fastapi_production_api.Db.{Session, request, rollback}
use fastapi_production_api.Models.{Database, ExternalIdentity, User}
use fastapi_production_api.Base.{
  ℕ, Option, none, some, ◌≡◌, ◌≤◌, ◌+◌, arith, refl, Bool, true, false, ◌==◌, nat_eq, string_eq,
  Bool-cases, inl, inr, List, [], ◌∷◌, ◌⊎◌, ◌&&◌,
}

-- The account of the id can sign in: it has a password that may be used, or an identity.
abbrev pub CanSignIn : ℕ → Database → Type 0
CanSignIn user_id db =
    ((u : User) × (user_by_id user_id db ≡ some u) × (u.password_login_enabled ≡ true))
    ⊎ (1 ≤ count_where (owned_by user_id) db.external_identities)

-- The ids of the identities are a key.
abbrev pub IsKeyed : List ExternalIdentity → Type 0
IsKeyed rows = (k : ℕ) → count_where (λ i. i.id == k) rows ≤ 1

count_where-delete :
    {A : Type 0} (q d : A → Bool) (xs : List A)
    → count_where q xs ≤ count_where q (delete_where d xs) + count_where d xs
unfolding count_where delete_where
count_where-delete q d [] = omega arith
count_where-delete q d (x ∷ xs) = ground (arith, count_where-delete q d xs)

deleted-CanSignIn :
    (user_id id : ℕ) (db : Database) (user : Option User)
    → IsKeyed db.external_identities
    → user_by_id user_id db ≡ user
    → is_only_method user (count_where (owned_by user_id) db.external_identities) ≡ false
    → CanSignIn user_id (delete_identity id db)
deleted-CanSignIn user_id id db none keys found spare = absurd (ground arith)
deleted-CanSignIn user_id id db (some u) keys found spare =
    elim (Bool-cases u.password_login_enabled) [
      | inl enabled ↦ inl (u, found, enabled)
      | inr disabled ↦ inr (
          ground (
            arith,
            keys id,
            count_where-delete (owned_by user_id) (λ i. i.id == id) db.external_identities,
          ))
    ]

CanSignIn-same :
    (user_id : ℕ) (db db' : Database)
    → db'.users ≡ db.users
    → db'.external_identities ≡ db.external_identities
    → CanSignIn user_id db
    → CanSignIn user_id db'
CanSignIn-same user_id db db' users identities (inl (u, found, enabled)) =
    inl (u, rw users found, enabled)
CanSignIn-same user_id db db' users identities (inr some_left) = inr (rw identities some_left)

module _ (w : World) (user_id : ℕ) (s : Session) where
  unlink_found-outcome :
      (i : ExternalIdentity)
      → s.view ≡ s.committed
      → ((unlink_found w user_id (some i) s).1.committed ≡ s.committed)
        ⊎ ((is_only_method
                (user_by_id user_id s.committed)
                (count_where (owned_by user_id) s.committed.external_identities)
              ≡ false)
            × ((unlink_found w user_id (some i) s).1.committed.users ≡ s.committed.users)
            × ((unlink_found w user_id (some i) s).1.committed.external_identities
                ≡ (delete_identity i.id s.committed).external_identities))
  unfolding unlink_found revoke_live_sessions
  unlink_found-outcome i same = ground arith

  unlink_found-CanSignIn :
      (found : Option ExternalIdentity)
      → s.view ≡ s.committed
      → IsKeyed s.committed.external_identities
      → CanSignIn user_id s.committed
      → CanSignIn user_id (unlink_found w user_id found s).1.committed
  unfolding unlink_found
  unlink_found-CanSignIn none same keys can = can
  unlink_found-CanSignIn (some i) same keys can = elim (unlink_found-outcome i same) [
    | inl kept ↦ rw kept can
    | inr (spare, users, identities) ↦
        CanSignIn-same user_id (delete_identity i.id s.committed)
          (unlink_found w user_id (some i) s).1.committed users identities
          (deleted-CanSignIn user_id i.id s.committed (user_by_id user_id s.committed) keys refl
            spare)
  ]

-- An account that can sign in, by a password or by an external identity, still can after a request
-- to unlink one of its identities, whether that succeeds or is refused, in a table whose ids are
-- distinct.
pub unlink_keeps_sign_in :
    (w : World) (identity_id user_id : ℕ) (s : Session)
    → IsKeyed s.committed.external_identities
    → CanSignIn user_id s.committed
    → CanSignIn user_id (request (unlink_external_identity w identity_id user_id) s).1.committed
unfolding request unlink_external_identity
unlink_keeps_sign_in w identity_id user_id s keys can =
    unlink_found-CanSignIn w user_id (rollback s)
      (first (λ i. i.id == identity_id && owned_by user_id i) s.committed.external_identities) refl
      keys can
