-- ===== src/Oidc/Links.antt =====
-- The identities of an account: `list_external_identities` and `unlink_external_identity` of
-- src/app/services/oidc.py.
use fastapi_production_api.Sessions.{user_by_id}
use fastapi_production_api.Oidc.Identities.{revoke_live_sessions}
use fastapi_production_api.Table.{count_where, delete_where, first}
use fastapi_production_api.World.{World}
use fastapi_production_api.Models.{Database, ExternalIdentity, User}
use fastapi_production_api.Db.{Action, gets, modify, pure, raise_if, transaction, ◌>>=◌, ◌>>◌, http}
use fastapi_production_api.Base.{
  ℕ, Option, none, some, Bool, not, true, ◌==◌, ◌&&◌, ◌||◌, if◌then◌else◌, leb, ltb, [], ◌∷◌, List,
  nat_eq, string_eq,
}

-- `order_by(ExternalIdentity.created_at, ExternalIdentity.id)`
abbrev pub comes_before : ExternalIdentity → ExternalIdentity → Bool
comes_before i j = ltb i.created_at j.created_at || (i.created_at == j.created_at && leb i.id j.id)

unfoldable pub insert_identity : ExternalIdentity → List ExternalIdentity → List ExternalIdentity
insert_identity i [] = i ∷ []
insert_identity i (j ∷ js) =
    let rest = insert_identity i js in if comes_before i j then i ∷ j ∷ js else j ∷ rest

unfoldable pub identities_in_order : List ExternalIdentity → List ExternalIdentity
unfolding insert_identity
identities_in_order [] = []
identities_in_order (i ∷ is) = insert_identity i (identities_in_order is)

-- `ExternalIdentity.user_id == user_id`
abbrev pub owned_by : ℕ → ExternalIdentity → Bool
owned_by user_id i = i.user_id == user_id

unfoldable pub list_external_identities : ℕ → Action (List ExternalIdentity)
unfolding identities_in_order
list_external_identities user_id = gets (λ db.
    identities_in_order (delete_where (λ i. not (owned_by user_id i)) db.external_identities))

abbrev pub delete_identity : ℕ → Database → Database
delete_identity id db = record db {
  external_identities = delete_where (λ i. i.id == id) db.external_identities;
}

-- `user is None or (not user.password_login_enabled and identity_count <= 1)`
abbrev pub is_only_method : Option User → ℕ → Bool
is_only_method none identity_count = true
is_only_method (some user) identity_count = not user.password_login_enabled && leb identity_count 1

-- Behind the lookup of the identity.
unfoldable pub unlink_found : World → ℕ → Option ExternalIdentity → Action (Unit {0})
unfolding revoke_live_sessions
unlink_found w user_id none = pure tt
unlink_found w user_id (some identity) = do
  user ← gets (user_by_id user_id)
  identity_count ← gets (λ db. count_where (owned_by user_id) db.external_identities)
  raise_if (is_only_method user identity_count)
      (http 409 "Cannot unlink the account's only sign-in method")
  transaction w (do
    modify (delete_identity identity.id)
    revoke_live_sessions w user_id "external_identity_unlinked")

unfoldable pub unlink_external_identity : World → ℕ → ℕ → Action (Unit {0})
unfolding unlink_found
unlink_external_identity w identity_id user_id = do
  identity ←
      gets (λ db. first (λ i. i.id == identity_id && owned_by user_id i) db.external_identities)
  unlink_found w user_id identity
