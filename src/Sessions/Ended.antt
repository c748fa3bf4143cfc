-- ===== src/Sessions/Ended.antt =====
-- A user whose sessions have ended has none in the list.
use fastapi_production_api.Sessions.Laws.{revoke_user_sessions_ends}
use fastapi_production_api.Sessions.{live_of_user, revoke_user_sessions}
use fastapi_production_api.Table.{delete_where}
use fastapi_production_api.World.{World}
use fastapi_production_api.Models.{RefreshToken}
use fastapi_production_api.Sessions.Listing.{
  Family, active_records, descending, device_session, device_sessions, group_records,
  insert_descending, list_active_sessions, put_record, DeviceSession, with_session,
}
use fastapi_production_api.Db.{ok, Session, request, rollback}
use fastapi_production_api.Base.{
  ◌≡◌, refl, ap, ◌∙◌, arith, inl, inr, Bool-cases, All, ℕ, true, false, not, ◌==◌, nat_eq,
  string_eq, List, [], ◌∷◌, leb, All-append, ◌&&◌, All-map, String, none,
}

abbrev IsRevoked : RefreshToken → Type 0
IsRevoked t = t.revoked ≡ true

insert-AllRevoked :
    (r : RefreshToken) (rs : List RefreshToken)
    → IsRevoked r
    → All IsRevoked rs
    → All IsRevoked (insert_descending (λ t. t.created_at) r rs)
unfolding insert_descending
insert-AllRevoked r [] d h = (d, tt)
insert-AllRevoked r (s ∷ rs) d h = elim (Bool-cases (leb s.created_at r.created_at)) [
  | inl before ↦ rw before (d, h)
  | inr behind ↦ rw behind (h.0, insert-AllRevoked r rs d h.1)
]

descending-AllRevoked :
    (rs : List RefreshToken) → All IsRevoked rs → All IsRevoked (descending (λ t. t.created_at) rs)
unfolding descending
descending-AllRevoked [] h = tt
descending-AllRevoked (r ∷ rs) h =
    insert-AllRevoked r (descending (λ t. t.created_at) rs) h.0 (descending-AllRevoked rs h.1)

-- The rows of the user are revoked if no row is a live one of the user.
own_rows-AllRevoked :
    (user_id : ℕ) (rs : List RefreshToken)
    → All (λ r. live_of_user user_id r ≡ false) rs
    → All IsRevoked (delete_where (λ t. not (t.user_id == user_id)) rs)
unfolding delete_where
own_rows-AllRevoked user_id [] h = tt
own_rows-AllRevoked user_id (r ∷ rs) h = elim (Bool-cases (r.user_id == user_id)) [
  | inl own ↦ rw own (ground (arith, h.0), own_rows-AllRevoked user_id rs h.1)
  | inr foreign ↦ rw foreign (own_rows-AllRevoked user_id rs h.1)
]

abbrev FamilyRevoked : Family → Type 0
FamilyRevoked family = All IsRevoked family.1

put_record-FamilyRevoked :
    (r : RefreshToken) (families : List Family)
    → IsRevoked r
    → All FamilyRevoked families
    → All FamilyRevoked (put_record r families)
unfolding put_record
put_record-FamilyRevoked r [] d h = ((d, tt), tt)
put_record-FamilyRevoked r ((id, records) ∷ families) d h = elim (Bool-cases (id == r.family_id)) [
  | inl same ↦ rw same (All-append IsRevoked records (r ∷ []) h.0 (d, tt), h.1)
  | inr other ↦ rw other (h.0, put_record-FamilyRevoked r families d h.1)
]

group_records-FamilyRevoked :
    (families : List Family) (rs : List RefreshToken)
    → All FamilyRevoked families
    → All IsRevoked rs
    → All FamilyRevoked (group_records families rs)
unfolding group_records
group_records-FamilyRevoked families [] h d = h
group_records-FamilyRevoked families (r ∷ rs) h d =
    group_records-FamilyRevoked (put_record r families) rs
      (put_record-FamilyRevoked r families d.0 h) d.1

no_active : (at : ℕ) (rs : List RefreshToken) → All IsRevoked rs → active_records at rs ≡ []
unfolding delete_where
no_active at [] h = refl
no_active at (r ∷ rs) h = rw h.0 (no_active at rs h.1)

no_sessions :
    (at : ℕ) (families : List Family)
    → All FamilyRevoked families
    → device_sessions at families ≡ []
unfolding device_sessions device_session
no_sessions at [] h = refl
no_sessions at (family ∷ families) h =
    ap (λ a. with_session (device_session family a) (device_sessions at families))
      (no_active at family.1 h.0)
    ∙ no_sessions at families h.1

-- In a table where no row is a live one of the user, the user's list of sessions is empty.
pub list_active_sessions_ended :
    (w : World) (user_id : ℕ) (s : Session)
    → All (λ r. live_of_user user_id r ≡ false) s.view.refresh_tokens
    → (list_active_sessions w user_id s).0 ≡ ok []
unfolding list_active_sessions descending
list_active_sessions_ended w user_id s h =
    let own = own_rows-AllRevoked user_id s.view.refresh_tokens h in
    let sorted =
      descending-AllRevoked (delete_where (λ t. not (t.user_id == user_id)) s.view.refresh_tokens)
        own in
    let families = group_records-FamilyRevoked [] _ tt sorted in
    ap (λ (sessions : List DeviceSession). ok (descending (λ x. x.last_used_at) sessions))
      (no_sessions (w.clock s.ticks) _ families)

still_dead :
    (user_id : ℕ) (r : RefreshToken)
    → (live_of_user user_id r && true) ≡ false
    → live_of_user user_id r ≡ false
still_dead user_id r h = ground arith

-- After a revocation of all sessions of a user that reports success, the user's list of sessions is
-- empty.
pub revoked_are_not_listed :
    (w : World) (user_id : ℕ) (reason : String) (s : Session)
    → (request (revoke_user_sessions w user_id none reason) s).0 ≡ ok tt
    → (request
        (list_active_sessions w user_id)
        (request (revoke_user_sessions w user_id none reason) s).1).0
      ≡ ok []
unfolding request
revoked_are_not_listed w user_id reason s e =
    let after = (request (revoke_user_sessions w user_id none reason) s).1 in
    let (dead, others) = revoke_user_sessions_ends w s user_id none reason e in
    list_active_sessions_ended w user_id (rollback after)
      (All-map after.committed.refresh_tokens (λ r h. still_dead user_id r h) dead)
