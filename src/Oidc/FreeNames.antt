-- ===== src/Oidc/FreeNames.antt =====
-- The search for a username ends, with a name that no user has.
use fastapi_production_api.World.{World}
use fastapi_production_api.Oidc.Decimals.{read_on, suffixed-read}
use fastapi_production_api.Oidc.Usernames.{
  free_name, is_taken, suffixed, new_username, username_base,
}
use fastapi_production_api.Table.Laws.{first-cons_miss}
use fastapi_production_api.Table.{count_where, first}
use fastapi_production_api.Models.{User}
use fastapi_production_api.Base.{
  ◌≡◌, ◌==◌, nat_eq, string_eq, ℕ, zero, suc, ◌+◌, ◌≤◌, arith, List, [], ◌∷◌, true, false, sym, ◌∙◌,
  ap, is_some, ==_iff, inl, inr, leb, ltb, ◌&&◌, some, length, Bool-cases, String, subst, Bool,
  Option-cases, some_eq,
}

-- The users whose name reads as one of the n numbers from k on.
abbrev read_within : ℕ → ℕ → User → Bool
read_within k n u = leb k (read_on 0 u.username) && ltb (read_on 0 u.username) (k + n)

within_more :
    (base : String) (k n : ℕ) (users : List User)
    → count_where (read_within k n) users ≤ count_where (read_within k (suc n)) users
unfolding count_where
within_more base k n [] = omega arith
within_more base k n (u ∷ users) = ground (arith, within_more base k n users)

taken_within :
    (base : String) (k n : ℕ) (users : List User)
    → is_taken users (suffixed base (k + n)) ≡ true
    → count_where (read_within k n) users + 1 ≤ count_where (read_within k (suc n)) users
unfolding count_where first
taken_within base k n [] h = absurd (ground (arith, h))
taken_within base k n (u ∷ users) h = elim (Bool-cases (u.username == suffixed base (k + n))) [
  | inl same ↦
      let read : read_on 0 u.username ≡ k + n =
        ap (read_on 0) ((==_iff _ _).0 same) ∙ suffixed-read base (k + n) in
      ground (arith, read, within_more base k n users)
  | inr other ↦
      ground (
        arith,
        taken_within base k n users (sym (ap is_some (first-cons_miss _ u users other)) ∙ h),
      )
]

count_where-le_length : (p : User → Bool) (users : List User) → count_where p users ≤ length users
unfolding count_where
count_where-le_length p [] = omega arith
count_where-le_length p (u ∷ users) = ground (arith, count_where-le_length p users)

one_more_taken :
    (base : String) (users : List User) (i : ℕ)
    → i ≤ count_where (read_within 1 i) users
    → is_taken users (suffixed base (suc i)) ≡ true
    → suc i ≤ count_where (read_within 1 (suc i)) users
one_more_taken base users i many taken =
    let shift : suc i ≡ 1 + i = omega arith in
    let moved = subst (λ n. is_taken users (suffixed base n) ≡ true) shift taken in
    omega (arith, many, taken_within base 1 i users moved)

-- From the first suffix on, with the smaller ones all taken.
free_name-ends :
    (base : String) (users : List User) (fuel i : ℕ)
    → i ≤ count_where (read_within 1 i) users
    → length users ≤ fuel + i
    → is_some (free_name fuel users base (suffixed base (suc i)) (suc (suc i))) ≡ true
unfolding free_name
free_name-ends base users zero i many enough =
    elim (Bool-cases (is_taken users (suffixed base (suc i)))) [
      | inr free ↦ rw free
      | inl taken ↦ absurd (
          omega (
            arith,
            one_more_taken base users i many taken,
            count_where-le_length (read_within 1 (suc i)) users,
            enough,
          ))
    ]
free_name-ends base users (suc fuel) i many enough =
    elim (Bool-cases (is_taken users (suffixed base (suc i)))) [
      | inr free ↦ rw free
      | inl taken ↦ rw taken (
          free_name-ends base users fuel (suc i) (one_more_taken base users i many taken)
            (omega (arith, enough)))
    ]

free_name-free :
    (users : List User) (base : String) (fuel : ℕ) (candidate : String) (suffix : ℕ) (name : String)
    → free_name fuel users base candidate suffix ≡ some name
    → is_taken users name ≡ false
unfolding free_name
free_name-free users base zero candidate suffix name e =
    elim (Bool-cases (is_taken users candidate)) [
      | inl taken ↦ absurd (ground arith)
      | inr free ↦
          let same : some candidate ≡ some name = simp free at e in rw (sym (some_eq same)) free
    ]
free_name-free users base (suc fuel) candidate suffix name e =
    elim (Bool-cases (is_taken users candidate)) [
      | inl taken ↦
          free_name-free users base fuel (suffixed base suffix) (suc suffix) name (simp taken at e)
      | inr free ↦
          let same : some candidate ≡ some name = simp free at e in rw (sym (some_eq same)) free
    ]

-- The search of a username for a new account ends with a name, and no user has that name.
pub new_username_is_found :
    (w : World) (email issuer subject : String) (users : List User)
    → (name : String) × (new_username w email issuer subject users ≡ some name)
      × (is_taken users name ≡ false)
unfolding new_username free_name
new_username_is_found w email issuer subject users =
    elim (Option-cases (new_username w email issuer subject users)) [
      | inl missing ↦ absurd (ground (arith, missing, found))
      | inr (name, e) ↦ (name, e, free_name-free users base (suc (length users)) base 1 name e)
    ]
  where
    base : String
    base = username_base w email issuer subject

    found : is_some (new_username w email issuer subject users) ≡ true
    found = elim (Bool-cases (is_taken users base)) [
      | inl taken ↦
          rw taken (free_name-ends base users (length users) 0 (omega arith) (omega arith))
      | inr free ↦ rw free
    ]
