-- ===== src/Families/Single.antt =====
-- At most one token of a family is live.
use fastapi_production_api.Base.{
  some, ℕ, ◌+◌, ◌≤◌, ◌≡◌, String, Bool, false, List, [], ◌∷◌, arith, if◌then◌else◌, ◌==◌, nat_eq,
  string_eq, All-map, ==_iff, Bool-cases, inl, inr, subst, ==_refl,
}
use fastapi_production_api.Table.{count_where, update_where, add_row, first}
use fastapi_production_api.Table.Laws.{
  row_after, count_where-append, count_where-none, count_where-update_le, count_where-update_found,
}
use fastapi_production_api.Models.{RefreshToken}
use fastapi_production_api.Sessions.{revoke_values}
use fastapi_production_api.Refresh.{rotated}
use fastapi_production_api.Families.{
  TokenStep, TokenSteps, keep, revoke, rotate, insert, here, next, live_in, IsNew, NoRowIn,
}

-- In every family at most one row is not revoked.
abbrev pub IsSingle : List RefreshToken → Type 0
IsSingle rows = (family_id : String) → count_where (live_in family_id) rows ≤ 1

pub count-add_row :
    (f : String) (new : RefreshToken) (rows : List RefreshToken)
    → count_where (live_in f) (add_row new rows)
      ≡ count_where (live_in f) rows + (if live_in f new then 1 else 0)
unfolding add_row count_where
count-add_row f new rows = omega (arith, count_where-append (live_in f) rows (new ∷ []))

NoRowIn-count :
    (f : String) (rows : List RefreshToken) → NoRowIn f rows → count_where (live_in f) rows ≡ 0
NoRowIn-count f rows h = count_where-none (live_in f) rows (All-map rows (λ x e. rw e) h)

insert-IsSingle :
    (new : RefreshToken) (rows : List RefreshToken)
    → IsNew new
    → NoRowIn new.family_id rows
    → IsSingle rows
    → IsSingle (add_row new rows)
insert-IsSingle new rows fresh alone h f = elim (Bool-cases (new.family_id == f)) [
  | inl same ↦
      let none_of_f : NoRowIn f rows = subst (λ g. NoRowIn g rows) ((==_iff _ _).0 same) alone in
      ground (arith, count-add_row f new rows, NoRowIn-count f rows none_of_f)
  | inr other ↦ ground (arith, count-add_row f new rows, h f)
]

pub revoke-not-live :
    (p : RefreshToken → Bool) (at : ℕ) (reason f : String) (x : RefreshToken)
    → live_in f x ≡ false
    → live_in f (row_after p (revoke_values at reason) x) ≡ false
revoke-not-live p at reason f x h = ground arith

pub rotate-not-live :
    (p : RefreshToken → Bool) (at : ℕ) (f : String) (x : RefreshToken)
    → live_in f x ≡ false
    → live_in f (row_after p (rotated at) x) ≡ false
rotate-not-live p at f x h = ground arith

revoke-IsSingle :
    (p : RefreshToken → Bool) (at : ℕ) (reason : String) (rows : List RefreshToken)
    → IsSingle rows
    → IsSingle (update_where p (revoke_values at reason) rows)
revoke-IsSingle p at reason rows h f = omega (
  arith,
  h f,
  count_where-update_le (live_in f) p (revoke_values at reason) rows
      (revoke-not-live p at reason f),
)

rotate-IsSingle :
    (r : RefreshToken → Bool) (stored new : RefreshToken) (at : ℕ) (rows : List RefreshToken)
    → first r rows ≡ some stored
    → stored.revoked ≡ false
    → IsNew new
    → new.family_id ≡ stored.family_id
    → IsSingle rows
    → IsSingle (add_row new (update_where (λ t. t.id == stored.id) (rotated at) rows))
rotate-IsSingle r stored new at rows found live fresh family h f =
    elim (Bool-cases (stored.family_id == f)) [
      | inl same ↦ ground (
        arith,
        count-add_row f new after,
        h f,
        count_where-update_found (live_in f) hit r (rotated at) rows stored
            (rotate-not-live hit at f) found (ground arith) (rw (==_refl stored.id) (ground arith)),
      )
      | inr other ↦ ground (
        arith,
        count-add_row f new after,
        h f,
        count_where-update_le (live_in f) hit (rotated at) rows (rotate-not-live hit at f),
      )
    ]
  where
    hit : RefreshToken → Bool
    hit t = t.id == stored.id

    after : List RefreshToken
    after = update_where hit (rotated at) rows

-- A step leaves at most one live token in each family.
pub TokenStep-IsSingle : {xs ys : List RefreshToken} → TokenStep xs ys → IsSingle xs → IsSingle ys
TokenStep-IsSingle (keep e) h = rw e h
TokenStep-IsSingle {xs} (revoke p at reason live e) h = rw e (revoke-IsSingle p at reason xs h)
TokenStep-IsSingle {xs} (rotate r stored new at found live only fresh family e) h =
    rw e (rotate-IsSingle r stored new at xs found live fresh family h)
TokenStep-IsSingle {xs} (insert new fresh alone e) h = rw e (insert-IsSingle new xs fresh alone h)

-- Any run of steps leaves at most one live token in each family, if it starts so.
pub TokenSteps-IsSingle : {xs ys : List RefreshToken} → TokenSteps xs ys → IsSingle xs → IsSingle ys
TokenSteps-IsSingle here h = h
TokenSteps-IsSingle (next steps step) h = TokenStep-IsSingle step (TokenSteps-IsSingle steps h)
