-- ===== src/Db/Chains.antt =====
-- What a chain of actions that succeeds says of its parts.
use fastapi_production_api.World.{World}
use fastapi_production_api.Db.{◌>>=◌, Action, Result, Session, ok, err, Error, transaction_or}
use fastapi_production_api.Base.{◌≡◌, arith, refl, inl, inr, ◌⊎◌, ap, ◌≢◌}

module _ {A B : Type 0} (f : A → Action B) (b : B) where
  abbrev onward : Result A → Session → Result B × Session
  onward r s = elim r [ ok a ↦ f a s | err e ↦ (err e, s) ]

  onward_ok :
      (r : Result A) (s : Session)
      → (onward r s).0 ≡ ok b
      → (a : A) × (r ≡ ok a) × ((f a s).0 ≡ ok b) × (onward r s ≡ f a s)
  onward_ok (ok a) s e = (a, refl, e, refl)
  onward_ok (err x) s e = absurd (ground (arith, e))

-- A chain that succeeds has a first part that does.
pub bind_ok :
    {A B : Type 0} (m : Action A) (f : A → Action B) (s : Session) (b : B)
    → ((m >>= f) s).0 ≡ ok b
    → (a : A) × ((m s).0 ≡ ok a) × ((f a (m s).1).0 ≡ ok b) × ((m >>= f) s ≡ f a (m s).1)
bind_ok m f s b e = onward_ok f b (m s).0 (m s).1 e

-- What the second part of a chain leaves alone, the chain leaves as the first part does.
module _ {ℓ κ μ} {A : Type ℓ} {B : Type κ} {X : Type μ} (g : Session → X) (f : A → Action B) where
  abbrev onward_of : Result A → Session → Result B × Session
  onward_of r s = elim r [ ok a ↦ f a s | err e ↦ (err e, s) ]

  onward_frame :
      (r : Result A) (s : Session) → ((a : A) → g (f a s).1 ≡ g s) → g (onward_of r s).1 ≡ g s
  onward_frame (ok a) s k = k a
  onward_frame (err e) s k = refl

  pub bind_frame :
      (m : Action A) (s : Session)
      → ((a : A) → g (f a (m s).1).1 ≡ g (m s).1)
      → g ((m >>= f) s).1 ≡ g (m s).1
  bind_frame m s k = onward_frame (m s).0 (m s).1 k

-- A transaction that succeeds has a body that does, and stores what the body leaves.
pub transaction_or_ok :
    {A : Type 0} (w : World) (conflict : Error) (body : Action A) (s : Session) (a : A)
    → (transaction_or w conflict body s).0 ≡ ok a
    → ((body s).0 ≡ ok a)
      × ((transaction_or w conflict body s).1.committed ≡ (body s).1.view)
      × ((transaction_or w conflict body s).1.view ≡ (body s).1.view)
transaction_or_ok w conflict body s a e = ground arith

module _ {A B : Type 0} (m : Action A) (f : A → Action B) (s : Session) where
  abbrev go_on : Result A → Session → Result B × Session
  go_on r t = elim r [ ok a ↦ f a t | err e ↦ (err e, t) ]

  -- A chain goes on with the result of its first part, or stops with its error.
  pub bind_step : (a : A) → (m s).0 ≡ ok a → (m >>= f) s ≡ f a (m s).1
  bind_step a e = ap (λ r. go_on r (m s).1) e

  pub bind_stop : (x : Error) → (m s).0 ≡ err x → (m >>= f) s ≡ (err x, (m s).1)
  bind_stop x e = ap (λ r. go_on r (m s).1) e

pub Result-cases :
    {A : Type 0} (r : Result A) → ((a : A) × (r ≡ ok a)) ⊎ ((x : Error) × (r ≡ err x))
Result-cases (ok a) = inl (a, refl)
Result-cases (err x) = inr (x, refl)

pub ok≢err : {A : Type 0} {a : A} {x : Error} → ok a ≢ err x
ok≢err e = ground arith

pub ok_eq : {A : Type 0} {a b : A} → ok a ≡ ok b → a ≡ b
ok_eq h = cc
