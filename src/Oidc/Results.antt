-- ===== src/Oidc/Results.antt =====
-- What a chain of the client that gives a result says of its parts.
use fastapi_production_api.Oidc.Documents.{Outcome, done, failed}
use fastapi_production_api.Oidc.Cache.{◌>>=◌, Fetch, Moment}
use fastapi_production_api.Base.{◌≡◌, refl, arith}

module _ {A B : Type 0} (f : A → Fetch B) (b : B) where
  abbrev onward : Outcome A → Moment → Outcome B × Moment
  onward r t = elim r [ done a ↦ f a t | failed e ↦ (failed e, t) ]

  onward_done :
      (r : Outcome A) (t : Moment)
      → (onward r t).0 ≡ done b
      → (a : A) × (r ≡ done a) × ((f a t).0 ≡ done b) × (onward r t ≡ f a t)
  onward_done (done a) t e = (a, refl, e, refl)
  onward_done (failed x) t e = absurd (ground (arith, e))

-- A chain of the client that gives a result has a first part that does.
pub fetched_ok :
    {A B : Type 0} (m : Fetch A) (f : A → Fetch B) (t : Moment) (b : B)
    → ((m >>= f) t).0 ≡ done b
    → (a : A) × ((m t).0 ≡ done a) × ((f a (m t).1).0 ≡ done b) × ((m >>= f) t ≡ f a (m t).1)
fetched_ok m f t b e = onward_done f b (m t).0 (m t).1 e

pub done_eq : {A : Type 0} {a b : A} → done a ≡ done b → a ≡ b
done_eq h = cc
