-- ===== src/Access/Laws.antt =====
-- What a request that passes the guards has shown.
use fastapi_production_api.Access.Admin.{admin_only}
use fastapi_production_api.Login.{user_by_name}
use fastapi_production_api.Access.Guards.{
  decode_token, get_current_user, verify_token, TokenPayload, require_admin,
}
use fastapi_production_api.Db.Chains.{bind_ok}
use fastapi_production_api.Models.{User}
use fastapi_production_api.Db.{
  Session, ok, ◌>>◌, ◌>>=◌, Action, gets, or_raise, pure, raise_if, http, value_error,
}
use fastapi_production_api.World.{AccessClaims, World}
use fastapi_production_api.Base.{
  String, suc, some, ◌≡◌, arith, ◌∙◌, true, ◌==◌, nat_eq, string_eq, Option-cases, inl, inr, sym,
  ap, not, ==_iff, subst,
}

-- The payload of a token that is accepted is made of its claims.
pub record IsDecoded (w : World) (token : String) (s : Session) (p : TokenPayload) : Type 0 where
  pub claims : AccessClaims
  pub decoded : w.decode_jwt s.ticks token ≡ some claims
  pub named : claims.sub ≡ some p.sub
  pub methods : claims.amr ≡ p.amr
  pub dated : claims.auth_time ≡ p.auth_time

abbrev payload_from : AccessClaims → Action TokenPayload
payload_from payload = or_raise payload.sub (http 401 "Invalid token") >>= λ sub.
    raise_if (not payload.well_typed) (value_error "TokenPayload")
    >> pure (record { sub = sub; amr = payload.amr; auth_time = payload.auth_time })

payload_from_ok :
    (claims : AccessClaims) (s : Session) (p : TokenPayload)
    → (payload_from claims s).0 ≡ ok p
    → (claims.sub ≡ some p.sub)
      × (claims.amr ≡ p.amr)
      × (claims.auth_time ≡ p.auth_time)
      × ((payload_from claims s).1 ≡ s)
payload_from_ok claims s p e = ground arith

verify_token_ok :
    (w : World) (token : String) (s : Session) (claims : AccessClaims)
    → (verify_token w token s).0 ≡ ok claims
    → (w.decode_jwt s.ticks token ≡ some claims)
      × ((verify_token w token s).1 ≡ record s { ticks = suc s.ticks })
unfolding verify_token
verify_token_ok w token s claims e = elim (Option-cases (w.decode_jwt s.ticks token)) [
  | inl invalid ↦ absurd (ground arith)
  | inr (c, decoded) ↦ ground arith
]

pub decode_token_ok :
    (w : World) (token : String) (s : Session) (p : TokenPayload)
    → (decode_token w token s).0 ≡ ok p
    → IsDecoded w token s p × ((decode_token w token s).1 ≡ record s { ticks = suc s.ticks })
unfolding decode_token
decode_token_ok w token s p e =
    let (claims, verified, typed, whole) = bind_ok (verify_token w token) payload_from s p e in
    let (decoded, after) = verify_token_ok w token s claims verified in
    let (named, methods, dated, same) = payload_from_ok claims (verify_token w token s).1 p typed in
    (
      record {
        claims = claims;
        decoded = decoded;
        named = named;
        methods = methods;
        dated = dated;
      },
      ap (λ x. x.1) whole ∙ same ∙ after,
    )

-- The user whom an access token signs in.
pub record IsSignedIn (w : World) (token : String) (s : Session) (user : User) : Type 0 where
  pub payload : TokenPayload
  pub decoded : IsDecoded w token s payload
  pub found : user_by_name payload.sub s.view ≡ some user
  pub active : user.is_active ≡ true

abbrev user_of : TokenPayload → Action User
user_of payload =
    raise_if (payload.sub == "") (http 401 "Invalid token")
    >> (gets (user_by_name payload.sub) >>= λ found.
        or_raise found (http 401 "User not found") >>= λ user.
        raise_if (not user.is_active) (http 401 "Inactive user") >> pure user)

user_of_ok :
    (payload : TokenPayload) (s : Session) (user : User)
    → (user_of payload s).0 ≡ ok user
    → (user_by_name payload.sub s.view ≡ some user)
      × (user.is_active ≡ true)
      × ((user_of payload s).1 ≡ s)
user_of_ok payload s user e = ground arith

module _ (w : World) (token : String) (s : Session) (user : User) where
  pub get_current_user_ok :
      (get_current_user w token s).0 ≡ ok user
      → IsSignedIn w token s user
        × ((get_current_user w token s).1 ≡ record s { ticks = suc s.ticks })
  unfolding get_current_user
  get_current_user_ok e =
      let (payload, decoded, looked_up, whole) = bind_ok (decode_token w token) user_of s user e in
      let (is_decoded, after) = decode_token_ok w token s payload decoded in
      let (found, active, same) = user_of_ok payload (decode_token w token s).1 user looked_up in
      (
        record {
          payload = payload;
          decoded = is_decoded;
          found = ap (λ (x : Session). user_by_name payload.sub x.view) (sym after) ∙ found;
          active = active;
        },
        ap (λ x. x.1) whole ∙ same ∙ after,
      )

require_admin_ok :
    (u user : User) (s : Session)
    → (require_admin u s).0 ≡ ok user
    → (u ≡ user) × ((u.role == "admin") ≡ true) × ((require_admin u s).1 ≡ s)
unfolding require_admin
require_admin_ok u user s e = ground arith

pub admin_only_ok :
    (w : World) (token : String) (s : Session) (admin : User)
    → (admin_only w token s).0 ≡ ok admin
    → IsSignedIn w token s admin
      × (admin.role ≡ "admin")
      × ((admin_only w token s).1 ≡ record s { ticks = suc s.ticks })
unfolding admin_only
admin_only_ok w token s admin e =
    let (u, signed_in, allowed, whole) =
      bind_ok (get_current_user w token) require_admin s admin e in
    let (is_signed_in, after) = get_current_user_ok w token s u signed_in in
    let (same_user, role, same) = require_admin_ok u admin (get_current_user w token s).1 allowed in
    (
      subst (IsSignedIn w token s) same_user is_signed_in,
      ap (λ (x : User). x.role) (sym same_user) ∙ (==_iff _ _).0 role,
      ap (λ x. x.1) whole ∙ same ∙ after,
    )
