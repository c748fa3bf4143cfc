-- ===== src/Db.antt =====
-- A request's database session (src/app/db/session.py, src/app/db/dependency.py): the committed
-- rows, the rows that the request sees, and the number of readings of the clock, the random source
-- and the id sequences so far. `get_db` closes the session at the end of the request, which
-- discards what was not committed. Every failure of the database shows at a flush or a commit.
pub mod Chains
use fastapi_production_api.Base.{
  ℕ, suc, String, Bool, true, false, Option, none, some, if◌then◌else◌,
}
use fastapi_production_api.Models.{Database}
use fastapi_production_api.World.{World}

-- An HTTPException with its status code and detail, an exception of the database, a ValueError.
pub data Error : Type 0 where
  http : ℕ → String → Error
  database : Error
  value_error : String → Error

pub data Result {ℓ} (A : Type ℓ) : Type ℓ where
  ok : A → Result A
  err : Error → Result A

pub record Session : Type 0 where
  pub committed : Database
  pub view : Database
  pub ticks : ℕ

abbrev pub Action {ℓ} : Type ℓ → Type ℓ
Action A = Session → Result A × Session

module _ {ℓ} {A : Type ℓ} where
  abbrev pub pure : A → Action A
  pure a s = (ok a, s)

  abbrev pub raise : Error → Action A
  raise e s = (err e, s)

  abbrev pub gets : (Database → A) → Action A
  gets f s = (ok (f s.view), s)

  abbrev pub or_raise : Option A → Error → Action A
  or_raise none e = raise e
  or_raise (some a) e = pure a

infixl 5 ◌>>=◌ ◌>>◌
abbrev pub ◌>>=◌ {ℓ κ} : {A : Type ℓ} {B : Type κ} → Action A → (A → Action B) → Action B
◌>>=◌ m f s = let (r, s') = m s in elim r [ ok a ↦ f a s' | err e ↦ (err e, s') ]

abbrev pub ◌>>◌ {ℓ κ} : {A : Type ℓ} {B : Type κ} → Action A → Action B → Action B
m >> k = m >>= λ _. k

abbrev pub raise_if : Bool → Error → Action (Unit {0})
raise_if true e s = (err e, s)
raise_if false e s = (ok tt, s)

abbrev pub modify : (Database → Database) → Action (Unit {0})
modify f s = (ok tt, record s { view = f s.view })

-- The next reading of an outside source.
abbrev pub reading {ℓ} : {A : Type ℓ} → (ℕ → A) → Action A
reading f s = (ok (f s.ticks), record s { ticks = suc s.ticks })

-- `db.flush()` and `db.commit()`, by whether the database takes the rows.
abbrev pub flushed : Bool → Action (Unit {0})
flushed true s = (ok tt, s)
flushed false s = (err database, s)

abbrev pub flush : World → Action (Unit {0})
flush w s = flushed (w.accepts s.view) s

abbrev pub committing : Bool → Action (Unit {0})
committing true s = (ok tt, record s { committed = s.view })
committing false s = (err database, s)

abbrev pub commit : World → Action (Unit {0})
commit w s = committing (w.accepts s.view) s

-- `db.rollback()`, and what `db.close()` leaves.
abbrev pub rollback : Session → Session
rollback s = record s { view = s.committed }

-- `db.rollback(); raise e`
abbrev pub abort_if : Bool → Error → Action (Unit {0})
abort_if true e s = (err e, rollback s)
abort_if false e s = (ok tt, s)

abbrev pub or_abort {ℓ} : {A : Type ℓ} → Option A → Error → Action A
or_abort none e s = (err e, rollback s)
or_abort (some a) e s = (ok a, s)

-- `try: body; db.commit() except Exception: db.rollback(); raise`
abbrev pub transaction {ℓ} : {A : Type ℓ} → World → Action A → Action A
transaction w body s =
    let (r, s') = (body >>= λ a. commit w >>= λ _. pure a) s in
    elim r [ ok a ↦ (ok a, s') | err e ↦ (err e, rollback s') ]

-- One request: the handler on a new session, and the close of it.
unfoldable pub request {ℓ} : {A : Type ℓ} → Action A → Session → Result A × Session
request m s = let (r, s') = m (rollback s) in (r, rollback s')

-- `except IntegrityError: db.rollback(); raise conflict`, ahead of `except Exception`.
abbrev pub translated : World → Error → Database → Error → Error
translated w conflict db (http status detail) = http status detail
translated w conflict db database = if w.integrity_error db then conflict else database
translated w conflict db (value_error text) = value_error text

abbrev pub transaction_or {ℓ} : {A : Type ℓ} → World → Error → Action A → Action A
transaction_or w conflict body s =
    let (r, s') = (body >>= λ a. commit w >>= λ _. pure a) s in
    elim r [ ok a ↦ (ok a, s') | err e ↦ (err (translated w conflict s'.view e), rollback s') ]
