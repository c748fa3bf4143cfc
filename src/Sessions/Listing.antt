-- ===== src/Sessions/Listing.antt =====
-- The list of a user's sessions: `list_active_sessions` of src/app/services/sessions.py.
use fastapi_production_api.Tokens.{now}
use fastapi_production_api.Table.{delete_where}
use fastapi_production_api.World.{World}
use fastapi_production_api.Models.{RefreshToken}
use fastapi_production_api.Db.{gets, pure, ◌>>=◌, Action}
use fastapi_production_api.Base.{
  ℕ, String, Bool, not, ◌&&◌, ◌==◌, nat_eq, string_eq, Option, none, some, List, [], ◌∷◌, ◌++◌,
  if◌then◌else◌, leb, ltb,
}

-- schemas of src/app/schemas/session.py
pub record DeviceSession : Type 0 where
  pub id : String
  pub device_name : String
  pub created_at : ℕ
  pub last_used_at : ℕ
  pub expires_at : ℕ

-- A sort in descending order that keeps equal ones in place.
module _ {A : Type 0} (key : A → ℕ) where
  unfoldable pub insert_descending : A → List A → List A
  insert_descending x [] = x ∷ []
  insert_descending x (y ∷ ys) =
      let rest = insert_descending x ys in if leb (key y) (key x) then x ∷ y ∷ ys else y ∷ rest

  unfoldable pub descending : List A → List A
  descending [] = []
  descending (x ∷ xs) = insert_descending x (descending xs)

-- `families.setdefault(record.family_id, []).append(record)`
abbrev pub Family : Type 0
Family = String × List RefreshToken

unfoldable pub put_record : RefreshToken → List Family → List Family
put_record r [] = (r.family_id, r ∷ []) ∷ []
put_record r ((id, records) ∷ families) =
    let rest = put_record r families in
    if id == r.family_id then (id, records ++ r ∷ []) ∷ families else (id, records) ∷ rest

unfoldable pub group_records : List Family → List RefreshToken → List Family
unfolding put_record
group_records families [] = families
group_records families (r ∷ records) = group_records (put_record r families) records

-- `not record.revoked and _as_utc(record.expires_at) > now`
abbrev pub is_active_at : ℕ → RefreshToken → Bool
is_active_at at r = not r.revoked && ltb at r.expires_at

-- `max(..., key=...)`, which takes the first of equal ones, `max` and `min`, from a first value on.
unfoldable pub last_used : RefreshToken → List RefreshToken → RefreshToken
last_used r [] = r
last_used r (s ∷ records) = last_used (if ltb r.last_used_at s.last_used_at then s else r) records

unfoldable pub largest : (RefreshToken → ℕ) → ℕ → List RefreshToken → ℕ
largest key n [] = n
largest key n (r ∷ records) = largest key (if ltb n (key r) then key r else n) records

unfoldable pub smallest : (RefreshToken → ℕ) → ℕ → List RefreshToken → ℕ
smallest key n [] = n
smallest key n (r ∷ records) = smallest key (if ltb (key r) n then key r else n) records

-- The session of a family, by its active records.
unfoldable pub device_session : Family → List RefreshToken → Option DeviceSession
unfolding last_used largest smallest
device_session (family_id, records) [] = none
device_session (family_id, records) (r ∷ active) = some (record {
  id = family_id;
  device_name = (last_used r active).device_name;
  created_at = smallest (λ t. t.created_at) r.created_at records;
  last_used_at = largest (λ t. t.last_used_at) r.last_used_at records;
  expires_at = largest (λ t. t.expires_at) r.expires_at active;
})

abbrev pub with_session : Option DeviceSession → List DeviceSession → List DeviceSession
with_session none sessions = sessions
with_session (some session) sessions = session ∷ sessions

abbrev pub active_records : ℕ → List RefreshToken → List RefreshToken
active_records at records = delete_where (λ r. not (is_active_at at r)) records

unfoldable pub device_sessions : ℕ → List Family → List DeviceSession
unfolding device_session
device_sessions at [] = []
device_sessions at (family ∷ families) =
    with_session (device_session family (active_records at family.1)) (device_sessions at families)

unfoldable pub list_active_sessions : World → ℕ → Action (List DeviceSession)
unfolding descending group_records device_sessions
list_active_sessions w user_id = do
  records ← gets (λ db.
      descending (λ t. t.created_at)
        (delete_where (λ t. not (t.user_id == user_id)) db.refresh_tokens))
  at ← now w
  pure
      (descending (λ session. session.last_used_at) (device_sessions at (group_records [] records)))
