-- ===== src/Refresh/Once.antt =====
-- A refresh token is good for one refresh.

use fastapi_production_api.Families.{TokenSteps}
use fastapi_production_api.Sessions.{user_by_id}
use fastapi_production_api.Base.{
  ℕ, suc, String, ◌≡◌, ◌≢◌, sym, ◌∙◌, ap, Bool, true, false, some, List, [], ◌∷◌, arith, inl, inr,
  Bool-cases, ◌==◌, nat_eq, string_eq, ==_refl, Option-cases, ltb, refl, some_eq,
}
use fastapi_production_api.Table.{first, update_where, add_row}
use fastapi_production_api.Table.Laws.{
  map_option, row_after, first-append, first-update_where, first-cons_hit, first-cons_miss,
}
use fastapi_production_api.Models.{RefreshToken, User}
use fastapi_production_api.World.{World}
use fastapi_production_api.Db.{Session, ok, request, rollback}
use fastapi_production_api.Refresh.{
  refresh_access_token, token_by_hash, rotated, rotate, reject_replay, reject_inactive,
}
use fastapi_production_api.Refresh.Laws.{successor}
use fastapi_production_api.Families.Permanence.{Extends, TokenSteps-Extends}
use fastapi_production_api.Families.Steps.{rows_after}

abbrev pub has_token : String → RefreshToken → Bool
has_token hashed t = t.token == hashed

-- A revoked row is found again, as it was, in every later table.
pub Extends-first :
    (hashed : String) (xs ys : List RefreshToken) {t : RefreshToken}
    → Extends xs ys
    → first (has_token hashed) xs ≡ some t
    → t.revoked ≡ true
    → first (has_token hashed) ys ≡ some t
unfolding first
Extends-first hashed [] ys h e d = cc
Extends-first hashed (x ∷ xs) [] h e d = absurd h
Extends-first hashed (x ∷ xs) (y ∷ ys) {t} h e d = elim (Bool-cases (has_token hashed x)) [
  | inl hit ↦
      let same : x ≡ t = some_eq (sym (first-cons_hit (has_token hashed) x xs hit) ∙ e) in
      let kept : y ≡ x = h.0.frozen (rw same d) in
      rw (kept, same) (first-cons_hit (has_token hashed) t ys (rw same at hit))
  | inr miss ↦
      let missed : has_token hashed y ≡ false = rw (h.0.same_token) miss in
      first-cons_miss (has_token hashed) y ys missed
      ∙ Extends-first hashed xs ys h.1 (sym (first-cons_miss (has_token hashed) x xs miss) ∙ e) d
]

module _ (w : World) where
  -- A revoked token is refused, whatever the database does.
  pub refresh-revoked :
      (s : Session) (token : String) (t : RefreshToken) (r : String × String)
      → token_by_hash (w.sha256 token) s.committed ≡ some t
      → t.revoked ≡ true
      → (request (refresh_access_token w token) s).0 ≢ ok r
  unfolding request refresh_access_token reject_replay
  refresh-revoked s token t r found dead e = ground arith

  first-rotated :
      (hashed : String) (rows : List RefreshToken) (stored new : RefreshToken) (at : ℕ)
      → first (has_token hashed) rows ≡ some stored
      → first
          (has_token hashed)
          (add_row new (update_where (λ t. t.id == stored.id) (rotated at) rows))
        ≡ some (rotated at stored)
  unfolding add_row
  first-rotated hashed rows stored new at found =
      let after : List RefreshToken = update_where (λ t. t.id == stored.id) (rotated at) rows in
      let same : row_after (λ t. t.id == stored.id) (rotated at) stored ≡ rotated at stored =
        rw (==_refl stored.id) in
      let moved : first (has_token hashed) after
          ≡ map_option (row_after (λ t. t.id == stored.id) (rotated at))
              (first (has_token hashed) rows) =
        first-update_where (has_token hashed) (λ t. t.id == stored.id) (rotated at) rows
          (λ x. ground arith) in
      let hit : first (has_token hashed) after ≡ some (rotated at stored) =
        moved ∙ rw found (ap some same) in
      first-append (has_token hashed) after (new ∷ []) ∙ rw hit

  rotate_ok-found :
      (s : Session) (hashed : String) (stored : RefreshToken) (user : User) (r : String × String)
      → s.view ≡ s.committed
      → first (has_token hashed) s.committed.refresh_tokens ≡ some stored
      → (rotate w stored user s).0 ≡ ok r
      → first (has_token hashed) (rows_after (rotate w stored user s))
        ≡ some (rotated (w.clock (suc (suc s.ticks))) stored)
  unfolding rotate
  rotate_ok-found s hashed stored user r same found e = ground (
    arith,
    first-rotated hashed s.committed.refresh_tokens stored (successor w s.ticks stored user)
        (w.clock (suc (suc s.ticks))) found,
  )

  refresh_ok-found :
      (s : Session) (token : String) (r : String × String)
      → (request (refresh_access_token w token) s).0 ≡ ok r
      → (t : RefreshToken) × (first
            (has_token (w.sha256 token))
            (rows_after (request (refresh_access_token w token) s))
          ≡ some t)
        × (t.revoked ≡ true)
  unfolding request refresh_access_token reject_replay reject_inactive
  refresh_ok-found s token r e = elim (Option-cases (token_by_hash (w.sha256 token) s.committed)) [
    | inl missing ↦ absurd (ground arith)
    | inr (stored, found) ↦ elim (Bool-cases stored.revoked) [
      | inl dead ↦ absurd (ground arith)
      | inr live ↦ elim (Bool-cases (ltb stored.expires_at (w.clock s.ticks))) [
        | inl late ↦ absurd (ground arith)
        | inr timely ↦ elim (Option-cases (user_by_id stored.user_id s.committed)) [
          | inl orphan ↦ absurd (ground arith)
          | inr (user, owner) ↦ elim (Bool-cases user.is_active) [
            | inl active ↦ (
              rotated (w.clock (suc (suc (suc s.ticks)))) stored,
              simp (found, live, timely, owner, active)
                  (rotate_ok-found (record (rollback s) { ticks = suc s.ticks }) (w.sha256 token)
                    stored user r refl found (simp (found, live, timely, owner, active) at e)),
              refl,
            )
            | inr inactive ↦ absurd (ground arith)
          ]
        ]
      ]
    ]
  ]

  -- Once a refresh with a token has succeeded, no refresh with the same token succeeds again, at any
  -- later time and whatever steps the token table takes in between.
  pub refresh_once :
      (s later : Session) (token : String) (r r' : String × String)
      → (request (refresh_access_token w token) s).0 ≡ ok r
      → TokenSteps
          (rows_after (request (refresh_access_token w token) s))
          later.committed.refresh_tokens
      → (request (refresh_access_token w token) later).0 ≢ ok r'
  refresh_once s later token r r' e steps =
      let (t, found, dead) = refresh_ok-found s token r e in
      refresh-revoked later token t r'
        (Extends-first (w.sha256 token) _ later.committed.refresh_tokens (TokenSteps-Extends steps)
          found dead)
        dead
