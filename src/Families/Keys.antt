-- ===== src/Families/Keys.antt =====
-- Primary keys: no two rows have one id, so a row that is found is the only one with its id.
use fastapi_production_api.Base.{
  ◌≡◌, refl, sym, ◌∙◌, subst, false, some, List, [], ◌∷◌, inl, inr, arith, All, All-map, Bool,
  Bool-cases, ◌==◌, nat_eq, some_eq, string_eq,
}
use fastapi_production_api.Table.{first}
use fastapi_production_api.Table.Laws.{first-cons_hit, first-cons_miss, first-All}
use fastapi_production_api.Models.{RefreshToken}
use fastapi_production_api.Families.{OnlyRow}

abbrev pub DistinctIds : List RefreshToken → Type 0
DistinctIds [] = Unit
DistinctIds (x ∷ xs) = All (λ y. (y.id == x.id) ≡ false) xs × DistinctIds xs

pub OnlyRow-first :
    (p : RefreshToken → Bool) (rows : List RefreshToken) {stored : RefreshToken}
    → DistinctIds rows
    → first p rows ≡ some stored
    → OnlyRow stored rows
unfolding first
OnlyRow-first p [] d e = tt
OnlyRow-first p (x ∷ xs) {stored} d e = elim (Bool-cases (p x)) [
  | inl hit ↦
      subst (λ z. OnlyRow z (x ∷ xs)) (some_eq (sym (first-cons_hit p x xs hit) ∙ e))
        ((λ h. refl), All-map xs (λ y miss h. absurd (ground arith)) d.0)
  | inr miss ↦
      let found : first p xs ≡ some stored = sym (first-cons_miss p x xs miss) ∙ e in
      let apart : (stored.id == x.id) ≡ false =
        (first-All (λ y. (y.id == x.id) ≡ false) p xs d.0 found).0 in
      ((λ h. absurd (ground arith)), OnlyRow-first p xs d.1 found)
]
