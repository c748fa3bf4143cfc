-- ===== src/Table.antt =====
-- A table as the list of its rows, in insertion order, and the statements that the code sends:
-- `query(...).filter(p).first()`, `update(...).where(p).values(...)`, `delete(...).where(p)`,
-- `add` and `func.count`.
pub mod Laws
use fastapi_production_api.Base.{
  ℕ, ◌+◌, Bool, Option, none, some, List, [], ◌∷◌, ◌++◌, if◌then◌else◌,
}

module _ {ℓ} {A : Type ℓ} where
  unfoldable pub first : (A → Bool) → List A → Option A
  first p [] = none
  first p (x ∷ xs) = if p x then some x else first p xs

  unfoldable pub update_where : (A → Bool) → (A → A) → List A → List A
  update_where p f [] = []
  update_where p f (x ∷ xs) = (if p x then f x else x) ∷ update_where p f xs

  unfoldable pub delete_where : (A → Bool) → List A → List A
  delete_where p [] = []
  delete_where p (x ∷ xs) = if p x then delete_where p xs else x ∷ delete_where p xs

  unfoldable pub add_row : A → List A → List A
  add_row x xs = xs ++ x ∷ []

  unfoldable pub count_where : (A → Bool) → List A → ℕ
  count_where p [] = 0
  count_where p (x ∷ xs) = (if p x then 1 else 0) + count_where p xs
