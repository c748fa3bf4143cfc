-- ===== src/Families/Dead.antt =====
-- A family with no live token never gets one again.
use fastapi_production_api.Base.{
  ◌≤◌, ◌≡◌, String, Bool, true, false, some, List, [], ◌∷◌, arith, inl, inr, Bool-cases, ◌==◌,
  nat_eq, string_eq, ==_iff, subst,
}
use fastapi_production_api.Table.{count_where, update_where, first}
use fastapi_production_api.Table.Laws.{
  count_where-none, count_where-update_le, All-of_count_zero, first-All,
}
use fastapi_production_api.Models.{RefreshToken}
use fastapi_production_api.Sessions.{revoke_values}
use fastapi_production_api.Refresh.{rotated}
use fastapi_production_api.Families.{
  TokenStep, TokenSteps, keep, revoke, rotate, insert, here, next, live_in, NoRowIn,
}
use fastapi_production_api.Families.Permanence.{Extends, TokenStep-Extends}
use fastapi_production_api.Families.Single.{count-add_row, revoke-not-live, rotate-not-live}

abbrev pub of_family : String → RefreshToken → Bool
of_family f t = t.family_id == f

-- The family has rows, and none of them is live.
pub record IsDead (f : String) (rows : List RefreshToken) : Type 0 where
  pub known : 1 ≤ count_where (of_family f) rows
  pub none_live : count_where (live_in f) rows ≡ 0

pub Extends-count :
    (f : String) (xs ys : List RefreshToken)
    → Extends xs ys
    → count_where (of_family f) xs ≤ count_where (of_family f) ys
unfolding count_where
Extends-count f [] ys h = omega arith
Extends-count f (x ∷ xs) [] h = absurd h
Extends-count f (x ∷ xs) (y ∷ ys) h =
    let same : of_family f y ≡ of_family f x = rw (h.0.same_family) in
    ground (arith, same, Extends-count f xs ys h.1)

-- No step makes a token of a dead family live.
none_live-TokenStep :
    (f : String) {xs ys : List RefreshToken}
    → TokenStep xs ys
    → IsDead f xs
    → count_where (live_in f) ys ≡ 0
none_live-TokenStep f (keep e) d = rw e d.none_live
none_live-TokenStep f {xs} (revoke p at reason live e) d = rw e (
    omega (
      arith,
      d.none_live,
      count_where-update_le (live_in f) p (revoke_values at reason) xs
          (revoke-not-live p at reason f),
    ))
none_live-TokenStep f {xs} (rotate r stored new at found live only fresh family e) d =
    let alive : live_in f stored ≡ false =
      (first-All (λ t. live_in f t ≡ false) r xs (All-of_count_zero (live_in f) xs d.none_live)
        found).0 in
    let hit : RefreshToken → Bool = λ t. t.id == stored.id in
    rw e (
      ground (
        arith,
        alive,
        d.none_live,
        count-add_row f new (update_where hit (rotated at) xs),
        count_where-update_le (live_in f) hit (rotated at) xs (rotate-not-live hit at f),
      ))
none_live-TokenStep f {xs} (insert new fresh alone e) d = elim (Bool-cases (new.family_id == f)) [
  | inl same ↦
      let none_of_f : NoRowIn f xs = subst (λ g. NoRowIn g xs) ((==_iff _ _).0 same) alone in
      absurd (omega (arith, d.known, count_where-none (of_family f) xs none_of_f))
  | inr other ↦ rw e (ground (arith, other, d.none_live, count-add_row f new xs))
]

pub TokenStep-IsDead :
    (f : String) {xs ys : List RefreshToken} → TokenStep xs ys → IsDead f xs → IsDead f ys
TokenStep-IsDead f {xs} {ys} step d = record {
  known = omega (arith, d.known, Extends-count f xs ys (TokenStep-Extends step));
  none_live = none_live-TokenStep f step d;
}

pub TokenSteps-IsDead :
    (f : String) {xs ys : List RefreshToken} → TokenSteps xs ys → IsDead f xs → IsDead f ys
TokenSteps-IsDead f here d = d
TokenSteps-IsDead f (next steps step) d = TokenStep-IsDead f step (TokenSteps-IsDead f steps d)

-- Each row of a dead family is revoked.
pub IsDead-revoked :
    (f : String) (p : RefreshToken → Bool) (rows : List RefreshToken) {t : RefreshToken}
    → IsDead f rows
    → first p rows ≡ some t
    → t.family_id ≡ f
    → t.revoked ≡ true
IsDead-revoked f p rows {t} d found same =
    let dead : live_in f t ≡ false =
      (first-All (λ t. live_in f t ≡ false) p rows (All-of_count_zero (live_in f) rows d.none_live)
        found).0 in
    let member : of_family f t ≡ true = (==_iff t.family_id f).1 same in
    ground (arith, dead, member)
