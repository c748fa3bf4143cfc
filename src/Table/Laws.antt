-- ===== src/Table/Laws.antt =====
-- What the statements of Table do to the rows.
use fastapi_production_api.Base.{
  ◌+◌, ◌≤◌, ◌≡◌, refl, sym, ◌∙◌, subst, Bool, true, false, Option, none, some, List, [], ◌∷◌, ◌++◌,
  if◌then◌else◌, arith, All, Bool-cases, inl, inr, some_eq,
}
use fastapi_production_api.Table.{first, update_where, delete_where, count_where}

-- What an update makes of one row, and the first of two results.
abbrev pub row_after {ℓ} : {A : Type ℓ} → (A → Bool) → (A → A) → A → A
row_after p f x = if p x then f x else x

abbrev pub map_option {ℓ κ} : {A : Type ℓ} {B : Type κ} → (A → B) → Option A → Option B
map_option f none = none
map_option f (some a) = some (f a)

abbrev pub or_else {ℓ} : {A : Type ℓ} → Option A → Option A → Option A
or_else none o = o
or_else (some a) o = some a

module _ {ℓ} {A : Type ℓ} where
  pub first-cons_hit : (p : A → Bool) (x : A) (xs : List A) → p x ≡ true → first p (x ∷ xs) ≡ some x
  unfolding first
  first-cons_hit p x xs h = rw h

  pub first-cons_miss :
      (p : A → Bool) (x : A) (xs : List A) → p x ≡ false → first p (x ∷ xs) ≡ first p xs
  unfolding first
  first-cons_miss p x xs h = rw h

  -- A row that is found meets the filter, and has what all rows have.
  pub first-All {κ} :
      (P : A → Type κ) (p : A → Bool) (xs : List A) {x : A}
      → All P xs
      → first p xs ≡ some x
      → P x × (p x ≡ true)
  unfolding first
  first-All P p [] h e = cc
  first-All P p (y ∷ xs) {x} h e = elim (Bool-cases (p y)) [
    | inl hit ↦
        subst (λ z. P z × (p z ≡ true)) (some_eq (sym (first-cons_hit p y xs hit) ∙ e)) (h.0, hit)
    | inr miss ↦ first-All P p xs h.1 (sym (first-cons_miss p y xs miss) ∙ e)
  ]

  abbrev Trivial : A → Type 0
  Trivial x = Unit

  All-Trivial : (xs : List A) → All Trivial xs
  All-Trivial [] = tt
  All-Trivial (x ∷ xs) = (tt, All-Trivial xs)

  pub first-meets : (p : A → Bool) (xs : List A) {x : A} → first p xs ≡ some x → p x ≡ true
  first-meets p xs e = (first-All Trivial p xs (All-Trivial xs) e).1

  pub update_where-All {κ μ} :
      (P : A → Type κ) (Q : A → Type μ) (p : A → Bool) (f : A → A) (xs : List A)
      → ((x : A) → P x → Q (row_after p f x))
      → All P xs
      → All Q (update_where p f xs)
  unfolding update_where
  update_where-All P Q p f [] k h = tt
  update_where-All P Q p f (x ∷ xs) k h = (k x h.0, update_where-All P Q p f xs k h.1)

  -- The same, where nothing is known of the rows before.
  pub update_where-All_new {μ} :
      (Q : A → Type μ) (p : A → Bool) (f : A → A) (xs : List A)
      → ((x : A) → Q (row_after p f x))
      → All Q (update_where p f xs)
  unfolding update_where
  update_where-All_new Q p f [] k = tt
  update_where-All_new Q p f (x ∷ xs) k = (k x, update_where-All_new Q p f xs k)

  pub delete_where-All {κ} :
      (P : A → Type κ) (p : A → Bool) (xs : List A) → All P xs → All P (delete_where p xs)
  unfolding delete_where
  delete_where-All P p [] h = tt
  delete_where-All P p (x ∷ xs) h = elim (Bool-cases (p x)) [
    | inl hit ↦ rw hit (delete_where-All P p xs h.1)
    | inr miss ↦ rw miss (h.0, delete_where-All P p xs h.1)
  ]

  -- An update that the filter `q` does not notice: the same row is found, updated.
  pub first-update_where :
      (q p : A → Bool) (f : A → A) (xs : List A)
      → ((x : A) → q (row_after p f x) ≡ q x)
      → first q (update_where p f xs) ≡ map_option (row_after p f) (first q xs)
  unfolding first update_where
  first-update_where q p f [] k = refl
  first-update_where q p f (x ∷ xs) k = elim (Bool-cases (q x)) [
    | inl hit ↦ rw (k x, hit)
    | inr miss ↦ rw (k x, miss) (first-update_where q p f xs k)
  ]

  pub first-append :
      (p : A → Bool) (xs ys : List A) → first p (xs ++ ys) ≡ or_else (first p xs) (first p ys)
  unfolding first
  first-append p [] ys = refl
  first-append p (x ∷ xs) ys = elim (Bool-cases (p x)) [
    | inl hit ↦ rw hit
    | inr miss ↦ rw miss (first-append p xs ys)
  ]

  pub first-eq-none : (p : A → Bool) (xs : List A) → All (λ x. p x ≡ false) xs → first p xs ≡ none
  unfolding first
  first-eq-none p [] h = refl
  first-eq-none p (x ∷ xs) h = rw h.0 (first-eq-none p xs h.1)

  pub All-of_first-none :
      (p : A → Bool) (xs : List A) → first p xs ≡ none → All (λ x. p x ≡ false) xs
  unfolding first
  All-of_first-none p [] e = tt
  All-of_first-none p (x ∷ xs) e = elim (Bool-cases (p x)) [
    | inl hit ↦ absurd (ground (arith, sym (first-cons_hit p x xs hit) ∙ e))
    | inr miss ↦ (miss, All-of_first-none p xs (sym (first-cons_miss p x xs miss) ∙ e))
  ]

  pub count_where-append :
      (p : A → Bool) (xs ys : List A)
      → count_where p (xs ++ ys) ≡ count_where p xs + count_where p ys
  unfolding count_where
  count_where-append p [] ys = omega arith
  count_where-append p (x ∷ xs) ys = omega (arith, count_where-append p xs ys)

  pub count_where-none :
      (p : A → Bool) (xs : List A) → All (λ x. p x ≡ false) xs → count_where p xs ≡ 0
  unfolding count_where
  count_where-none p [] h = refl
  count_where-none p (x ∷ xs) h = rw h.0 (omega (arith, count_where-none p xs h.1))

  pub All-of_count_zero :
      (p : A → Bool) (xs : List A) → count_where p xs ≡ 0 → All (λ x. p x ≡ false) xs
  unfolding count_where
  All-of_count_zero p [] h = tt
  All-of_count_zero p (x ∷ xs) h = (ground arith, All-of_count_zero p xs (ground arith))

  -- An update that only takes rows away from what `q` counts.
  pub count_where-update_le :
      (q p : A → Bool) (f : A → A) (xs : List A)
      → ((x : A) → q x ≡ false → q (row_after p f x) ≡ false)
      → count_where q (update_where p f xs) ≤ count_where q xs
  unfolding count_where update_where
  count_where-update_le q p f [] k = omega arith
  count_where-update_le q p f (x ∷ xs) k = ground (arith, k x, count_where-update_le q p f xs k)

  -- It takes the found row away if it stops to meet `q`.
  pub count_where-update_found :
      (q p r : A → Bool) (f : A → A) (xs : List A) (y : A)
      → ((x : A) → q x ≡ false → q (row_after p f x) ≡ false)
      → first r xs ≡ some y
      → q y ≡ true
      → q (row_after p f y) ≡ false
      → count_where q (update_where p f xs) + 1 ≤ count_where q xs
  unfolding count_where update_where first
  count_where-update_found q p r f [] y k e h g = cc
  count_where-update_found q p r f (x ∷ xs) y k e h g = elim (Bool-cases (r x)) [
    | inl hit ↦
        let same : x ≡ y = some_eq (sym (first-cons_hit r x xs hit) ∙ e) in
        let counted : q x ≡ true = rw same h in
        let gone : q (row_after p f x) ≡ false = rw same g in
        ground (arith, counted, gone, count_where-update_le q p f xs k)
    | inr miss ↦ ground (
      arith,
      k x,
      count_where-update_found q p r f xs y k (sym (first-cons_miss r x xs miss) ∙ e) h g,
    )
  ]

  -- An update that touches only rows which `d` deletes, and keeps them so.
  pub delete_where-update_where :
      (d p : A → Bool) (f : A → A) (xs : List A)
      → ((x : A) → p x ≡ true → (d x ≡ true) × (d (f x) ≡ true))
      → delete_where d (update_where p f xs) ≡ delete_where d xs
  unfolding delete_where update_where
  delete_where-update_where d p f [] k = refl
  delete_where-update_where d p f (x ∷ xs) k =
      ground (arith, k x, delete_where-update_where d p f xs k)

  pub count_where-found :
      (q p : A → Bool) (xs : List A) {x : A}
      → first p xs ≡ some x
      → q x ≡ true
      → 1 ≤ count_where q xs
  unfolding count_where first
  count_where-found q p [] e h = absurd (ground (arith, e))
  count_where-found q p (y ∷ xs) {x} e h = elim (Bool-cases (p y)) [
    | inl hit ↦
        let same : y ≡ x = some_eq (sym (first-cons_hit p y xs hit) ∙ e) in
        let counted : q y ≡ true = rw same h in ground (arith, counted)
    | inr miss ↦ ground (arith, count_where-found q p xs (sym (first-cons_miss p y xs miss) ∙ e) h)
  ]

  pub update_where-none :
      (p : A → Bool) (f : A → A) (xs : List A)
      → All (λ x. p x ≡ false) xs
      → update_where p f xs ≡ xs
  unfolding update_where
  update_where-none p f [] h = refl
  update_where-none p f (x ∷ xs) h = rw (h.0, update_where-none p f xs h.1)
