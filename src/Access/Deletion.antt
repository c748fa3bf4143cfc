-- ===== src/Access/Deletion.antt =====
-- The route that deletes an account against the foreign key of refresh_tokens, which has no
-- ON DELETE (src/app/models/refresh_token.py).
use fastapi_production_api.Access.Laws.{admin_only_ok}
use fastapi_production_api.Db.Chains.{Result-cases, bind_step, bind_stop, ok≢err}
use fastapi_production_api.Sessions.{user_by_id}
use fastapi_production_api.Table.Laws.{first-meets}
use fastapi_production_api.Table.{delete_where, first}
use fastapi_production_api.Access.Guards.{
  decode_token, get_current_user, require_admin, verify_token,
}
use fastapi_production_api.Access.Admin.{admin_only, delete_account, known_user, delete_user}
use fastapi_production_api.World.{World}
use fastapi_production_api.Models.{Database, RefreshToken, User}
use fastapi_production_api.Db.{
  ◌>>◌, ◌>>=◌, Action, Session, commit, modify, ok, err, database, request, rollback, or_raise,
  http,
}
use fastapi_production_api.Base.{
  String, ℕ, none, ◌≡◌, ◌≢◌, arith, refl, ◌∙◌, Bool, true, false, ◌==◌, nat_eq, string_eq,
  Option-cases, Bool-cases, inl, inr, sym, ap, subst, List, [], ◌∷◌, is_some, is_none, ==_iff,
}

-- A refresh token whose account is not in the table of users.
abbrev pub is_orphan : Database → RefreshToken → Bool
is_orphan db r = is_none (user_by_id r.user_id db)

abbrev pub has_orphan : Database → Bool
has_orphan db = is_some (first (is_orphan db) db.refresh_tokens)

deleted_is_gone :
    (user_id : ℕ) (users : List User)
    → first (λ u. u.id == user_id) (delete_where (λ u. u.id == user_id) users) ≡ none
unfolding first delete_where
deleted_is_gone user_id [] = refl
deleted_is_gone user_id (u ∷ users) = elim (Bool-cases (u.id == user_id)) [
  | inl hit ↦ rw hit (deleted_is_gone user_id users)
  | inr miss ↦ rw (miss, miss) (deleted_is_gone user_id users)
]

first-weaker :
    {A : Type 0} (p q : A → Bool) (xs : List A)
    → ((x : A) → p x ≡ true → q x ≡ true)
    → is_some (first p xs) ≡ true
    → is_some (first q xs) ≡ true
unfolding first
first-weaker p q [] k h = h
first-weaker p q (x ∷ xs) k h = ground (arith, k x, first-weaker p q xs k)

orphaned :
    (user_id : ℕ) (db : Database)
    → is_some (first (λ r. r.user_id == user_id) db.refresh_tokens) ≡ true
    → has_orphan (delete_account user_id db) ≡ true
orphaned user_id db held =
    let orphan_row : (r : RefreshToken)
        → r.user_id ≡ user_id
        → is_orphan (delete_account user_id db) r ≡ true =
      λ r same. ap is_none (
        ap (λ id. user_by_id id (delete_account user_id db)) same
        ∙ deleted_is_gone user_id db.users) in
    first-weaker (λ r. r.user_id == user_id) (is_orphan (delete_account user_id db))
      db.refresh_tokens (λ r hit. orphan_row r ((==_iff r.user_id user_id).0 hit)) held

-- This is how a database that holds the foreign key answers.
abbrev RefusesOrphans : World → Type 0
RefusesOrphans w = (db : Database) → has_orphan db ≡ true → w.accepts db ≡ false

module _ (w : World) (foreign_key : RefusesOrphans w) (user_id : ℕ) where
  abbrev erase : User → Action (Unit {0})
  erase user = modify (delete_account user.id) >> commit w

  abbrev erase_known : User → Action (Unit {0})
  erase_known admin = known_user user_id >>= erase

  erase_refused :
      (user : User) (s : Session)
      → is_some (first (λ r. r.user_id == user.id) s.view.refresh_tokens) ≡ true
      → ((erase user s).0 ≡ err database) × ((erase user s).1.committed ≡ s.committed)
  erase_refused user s held =
      let refused = foreign_key (delete_account user.id s.view) (orphaned user.id s.view held) in
      ground (arith, refused)

  erase_known_refused :
      (admin : User) (s : Session)
      → is_some (first (λ r. r.user_id == user_id) s.view.refresh_tokens) ≡ true
      → ((erase_known admin s).0 ≢ ok tt) × ((erase_known admin s).1.committed ≡ s.committed)
  erase_known_refused admin s held = elim (Option-cases (user_by_id user_id s.view)) [
    | inl unknown ↦ ground arith
    | inr (user, found) ↦
        let same : user.id ≡ user_id =
          (==_iff _ _).0 (first-meets (λ u. u.id == user_id) s.view.users found) in
        let (refused, kept) = erase_refused user s (rw same held) in
        let known = ap (λ o. or_raise o (http 404 "User not found") s) found in
        let whole =
          bind_step (known_user user_id) erase s user (ap (λ x. x.0) known)
          ∙ ap (λ x. erase user x.1) known in
        (
          (λ e. ok≢err (sym e ∙ ap (λ x. x.0) whole ∙ refused)),
          ap (λ x. x.1.committed) whole ∙ kept,
        )
  ]

  admin_only-committed :
      (token : String) (s : Session) → (admin_only w token s).1.committed ≡ s.committed
  unfolding admin_only get_current_user decode_token verify_token require_admin
  admin_only-committed token s = ground arith

  -- An account for which a refresh token is stored is never deleted: in a database that holds the
  -- foreign key of refresh_tokens, the route fails for every caller, and stores nothing.
  pub delete_user_is_refused :
      (token : String) (s : Session)
      → is_some (first (λ r. r.user_id == user_id) s.committed.refresh_tokens) ≡ true
      → ((request (delete_user w token user_id) s).0 ≢ ok tt)
        × ((request (delete_user w token user_id) s).1.committed ≡ s.committed)
  unfolding request delete_user
  delete_user_is_refused token s held =
      let began = rollback s in
      let kept = admin_only-committed token began in
      elim (Result-cases (admin_only w token began).0) [
        | inl (admin, allowed) ↦
            let whole = bind_step (admin_only w token) erase_known began admin allowed in
            let (signed_in, role, after) = admin_only_ok w token began admin allowed in
            let held' =
              subst
                (λ (x : Session).
                  is_some (first (λ r. r.user_id == user_id) x.view.refresh_tokens) ≡ true)
                (sym after) held in
            let (refused, same) = erase_known_refused admin (admin_only w token began).1 held' in
            (
              (λ e. refused (sym (ap (λ x. x.0) whole) ∙ e)),
              ap (λ x. x.1.committed) whole ∙ same ∙ kept,
            )
        | inr (x, denied) ↦
            let whole = bind_stop (admin_only w token) erase_known began x denied in
            ((λ e. ok≢err (sym e ∙ ap (λ x. x.0) whole)), ap (λ x. x.1.committed) whole ∙ kept)
      ]
