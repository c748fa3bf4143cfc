-- ===== src/Families/Permanence.antt =====
-- Rows are only added, and a revoked row is never changed again.
use fastapi_production_api.Families.{
  TokenStep, TokenSteps, keep, revoke, rotate, insert, here, next,
}
use fastapi_production_api.Base.{
  String, All-of, ◌≡◌, refl, ◌∙◌, true, false, List, [], ◌∷◌, arith, Bool, ◌==◌, nat_eq, ℕ, All,
  subst, sym, All-map,
}
use fastapi_production_api.Table.{update_where, add_row}
use fastapi_production_api.Table.Laws.{row_after}
use fastapi_production_api.Models.{RefreshToken}
use fastapi_production_api.Sessions.{revoke_values}
use fastapi_production_api.Refresh.{rotated}

-- What a row keeps: its identity, and all of it once it is revoked.
pub record Keeps (old new : RefreshToken) : Type 0 where
  pub same_id : new.id ≡ old.id
  pub same_user : new.user_id ≡ old.user_id
  pub same_family : new.family_id ≡ old.family_id
  pub same_token : new.token ≡ old.token
  pub same_expiry : new.expires_at ≡ old.expires_at
  pub frozen : old.revoked ≡ true → new ≡ old

abbrev pub Extends : List RefreshToken → List RefreshToken → Type 0
Extends [] ys = Unit
Extends (x ∷ xs) [] = ⊥
Extends (x ∷ xs) (y ∷ ys) = Keeps x y × Extends xs ys

Keeps-refl : (t : RefreshToken) → Keeps t t
Keeps-refl t = record {
  same_id = refl;
  same_user = refl;
  same_family = refl;
  same_token = refl;
  same_expiry = refl;
  frozen = λ h. refl;
}

Keeps-trans : (a b c : RefreshToken) → Keeps a b → Keeps b c → Keeps a c
Keeps-trans a b c h k = record {
  same_id = k.same_id ∙ h.same_id;
  same_user = k.same_user ∙ h.same_user;
  same_family = k.same_family ∙ h.same_family;
  same_token = k.same_token ∙ h.same_token;
  same_expiry = k.same_expiry ∙ h.same_expiry;
  frozen = λ r. k.frozen (subst (λ z. z.revoked ≡ true) (sym (h.frozen r)) r) ∙ h.frozen r;
}

pub Extends-refl : (xs : List RefreshToken) → Extends xs xs
Extends-refl [] = tt
Extends-refl (x ∷ xs) = (Keeps-refl x, Extends-refl xs)

pub Extends-trans : (xs ys zs : List RefreshToken) → Extends xs ys → Extends ys zs → Extends xs zs
Extends-trans [] ys zs h k = tt
Extends-trans (x ∷ xs) [] zs h k = absurd h
Extends-trans (x ∷ xs) (y ∷ ys) [] h k = absurd k
Extends-trans (x ∷ xs) (y ∷ ys) (z ∷ zs) h k =
    (Keeps-trans x y z h.0 k.0, Extends-trans xs ys zs h.1 k.1)

Extends-add_row :
    (xs ys : List RefreshToken) (new : RefreshToken) → Extends xs ys → Extends xs (add_row new ys)
unfolding add_row
Extends-add_row [] ys new h = tt
Extends-add_row (x ∷ xs) [] new h = absurd h
Extends-add_row (x ∷ xs) (y ∷ ys) new h = (h.0, Extends-add_row xs ys new h.1)

-- An update that leaves the revoked rows alone and the identity of all.
Extends-update_where :
    (p : RefreshToken → Bool) (f : RefreshToken → RefreshToken) (xs : List RefreshToken)
    → All (λ x. Keeps x (row_after p f x)) xs
    → Extends xs (update_where p f xs)
unfolding update_where
Extends-update_where p f [] k = tt
Extends-update_where p f (x ∷ xs) k = (k.0, Extends-update_where p f xs k.1)

revoked-Keeps :
    (p : RefreshToken → Bool) (at : ℕ) (reason : String)
    → ((t : RefreshToken) → t.revoked ≡ true → p t ≡ false)
    → (x : RefreshToken) → Keeps x (row_after p (revoke_values at reason) x)
revoked-Keeps p at reason live x = ground (arith, live x)

rotated-Keeps :
    (stored : RefreshToken) (at : ℕ)
    → stored.revoked ≡ false
    → (x : RefreshToken) → ((x.id == stored.id) ≡ true → x ≡ stored)
    → Keeps x (row_after (λ t. t.id == stored.id) (rotated at) x)
rotated-Keeps stored at live x only = ground arith

-- A step of the machine only adds rows, and changes no revoked one.
pub TokenStep-Extends : {xs ys : List RefreshToken} → TokenStep xs ys → Extends xs ys
TokenStep-Extends {xs} {ys} (keep e) = rw e (Extends-refl xs)
TokenStep-Extends {xs} {ys} (revoke p at reason live e) = rw e (
    Extends-update_where p (revoke_values at reason) xs
      (All-of (revoked-Keeps p at reason live) xs))
TokenStep-Extends {xs} {ys} (rotate r stored new at found live only fresh family e) = rw e (
    Extends-add_row xs _ new (
      Extends-update_where (λ t. t.id == stored.id) (rotated at) xs
        (All-map xs (rotated-Keeps stored at live) only)))
TokenStep-Extends {xs} {ys} (insert new fresh alone e) =
    rw e (Extends-add_row xs xs new (Extends-refl xs))

pub TokenSteps-Extends : {xs ys : List RefreshToken} → TokenSteps xs ys → Extends xs ys
TokenSteps-Extends {xs} here = Extends-refl xs
TokenSteps-Extends {xs} {ys} (next {rows' = zs} steps step) =
    Extends-trans xs zs ys (TokenSteps-Extends steps) (TokenStep-Extends step)
