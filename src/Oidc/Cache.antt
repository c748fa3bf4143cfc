-- ===== src/Oidc/Cache.antt =====
-- The cache of the provider's public documents in Redis: src/app/services/oidc_cache.py.
use fastapi_production_api.Oidc.Documents.{Document, Network, Outcome, Store, done, failed}
use Prim.Native.String.{len}
use fastapi_production_api.Base.{
  String, ℕ, zero, suc, min, ◌+◌, ◌-◌, ◌/◌, Bool, true, false, ◌||◌, ◌==◌, Option, none, some, not,
  if◌then◌else◌, ltb, is_some, nat_eq, string_eq,
}

-- The store, the number of readings and commands so far, and how long the client has slept.
pub record Moment : Type 0 where
  pub store : Store
  pub ticks : ℕ
  pub slept : ℕ

abbrev pub Fetch {ℓ} : Type ℓ → Type ℓ
Fetch A = Moment → Outcome A × Moment

module _ {ℓ} {A : Type ℓ} where
  abbrev pub pure : A → Fetch A
  pure a t = (done a, t)

  abbrev pub lift : Outcome A → Fetch A
  lift o t = (o, t)

  abbrev pub reading : (ℕ → A) → Fetch A
  reading f t = (done (f t.ticks), record t { ticks = suc t.ticks })

infixl 5 ◌>>=◌ ◌>>◌
abbrev pub ◌>>=◌ {ℓ κ} : {A : Type ℓ} {B : Type κ} → Fetch A → (A → Fetch B) → Fetch B
◌>>=◌ m f t = let (r, t') = m t in elim r [ done a ↦ f a t' | failed e ↦ (failed e, t') ]

abbrev pub ◌>>◌ {ℓ κ} : {A : Type ℓ} {B : Type κ} → Fetch A → Fetch B → Fetch B
m >> k = m >>= λ _. k

pub data CacheDocument : Type 0 where
  discovery jwks : CacheDocument

-- One command: an answer and the store after it, or none where Redis raises.
abbrev pub answered {ℓ} : {A : Type ℓ} → Bool → (Store → A × Store) → Store → Option A × Store
answered true f store = (none, store)
answered false f store = let (a, store') = f store in (some a, store')

abbrev pub command {ℓ} : {A : Type ℓ} → Network → (Store → A × Store) → Fetch (Option A)
command net f t =
    let (a, store) = answered (net.redis_fails t.ticks) f (net.others t.ticks t.store) in
    (done a, record t { store = store; ticks = suc t.ticks })

-- A command whose answer is not used.
abbrev pub silent : (Store → Store) → Store → Unit {0} × Store
silent f store = (tt, f store)

abbrev pub stored : CacheDocument → Store → Option String
stored discovery store = store.discovery
stored jwks store = store.jwks

abbrev pub put : CacheDocument → Option String → Store → Store
put discovery value store = record store { discovery = value }
put jwks value store = record store { jwks = value }

abbrev pub lock_of : CacheDocument → Store → Option String
lock_of discovery store = store.discovery_lock
lock_of jwks store = store.jwks_lock

abbrev pub put_lock : CacheDocument → Option String → Store → Store
put_lock discovery value store = record store { discovery_lock = value }
put_lock jwks value store = record store { jwks_lock = value }

pub data CacheOutcome : Type 0 where
  hit miss invalid error disabled : CacheOutcome

-- CacheRead; only a hit has a payload.
pub record CacheRead : Type 0 where
  pub payload : Option Document
  pub outcome : CacheOutcome

abbrev pub without : CacheOutcome → CacheRead
without outcome = record { payload = none; outcome = outcome }

-- `_discard_invalid`, which swallows the exceptions of Redis.
unfoldable pub discard_invalid : Network → CacheDocument → Fetch (Unit {0})
discard_invalid net document = do command net (silent (put document none)); pure tt

-- What `read` makes of the object that json.loads gives.
unfoldable pub read_object : Network → CacheDocument → Option Document → Fetch CacheRead
unfolding discard_invalid
read_object net document (some payload) = pure (record { payload = some payload; outcome = hit })
read_object net document none = do discard_invalid net document; pure (without invalid)

unfoldable pub read_value : Network → CacheDocument → Option (Option String) → Fetch CacheRead
unfolding read_object
read_value net document none = pure (without error)
read_value net document (some none) = pure (without miss)
read_value net document (some (some value)) =
    read_object net document
      (if ltb net.cache_max_document_bytes (len value) then none else net.json_object value)

unfoldable pub read : Network → CacheDocument → Fetch CacheRead
unfolding read_value
read net document =
    if net.cache_enabled
    then command net (λ store. (stored document store, store)) >>= read_value net document
    else pure (without disabled)

-- `write`; the exceptions of Redis are swallowed.
unfoldable pub write : Network → CacheDocument → Document → Fetch Bool
write net document payload =
    let value = net.json_dumps payload in
    if not net.cache_enabled || ltb net.cache_max_document_bytes (len value)
    then pure false
    else command net (silent (put document (some value))) >>= λ answer. pure (is_some answer)

-- `set(..., nx=True)`: whether it was set, and the store after.
abbrev pub set_if_absent : CacheDocument → String → Option String → Store → Bool × Store
set_if_absent document token none store = (true, put_lock document (some token) store)
set_if_absent document token (some held) store = (false, store)

abbrev pub acquired : String → Option Bool → Option String
acquired token none = none
acquired token (some taken) = if taken then some token else none

-- The token of the lock, none where it is held, or the cache is off, or Redis fails.
unfoldable pub acquire_refresh_lock : Network → CacheDocument → Fetch (Option String)
acquire_refresh_lock net document =
    if net.cache_enabled
    then (reading net.token_bytes >>= λ token.
        command net (λ store. set_if_absent document token (lock_of document store) store)
        >>= λ taken. pure (acquired token taken))
    else pure none

-- _RELEASE_LOCK_SCRIPT, which Redis runs as one command.
abbrev pub holds : String → Option String → Bool
holds token none = false
holds token (some held) = held == token

abbrev pub release_script : CacheDocument → String → Store → Store
release_script document token store =
    if holds token (lock_of document store) then put_lock document none store else store

unfoldable pub release_refresh_lock : Network → CacheDocument → String → Fetch (Unit {0})
release_refresh_lock net document token = do
  command net (silent (release_script document token))
  pure tt

-- `result.payload is not None and result.payload != different_from`
abbrev pub is_new : Network → Option Document → Option Document → Bool
is_new net none different_from = false
is_new net (some payload) none = true
is_new net (some payload) (some previous) = not (net.same_document payload previous)

abbrev pub stops : CacheOutcome → Bool
stops error = true
stops invalid = true
stops disabled = true
stops hit = false
stops miss = false

-- `time.monotonic()` in microseconds: the time slept, and all other time that has passed.
abbrev pub clock_at : Network → Moment → ℕ
clock_at net t = net.monotonic t.ticks + t.slept

abbrev pub monotonic : Network → Fetch ℕ
monotonic net t = (done (clock_at net t), record t { ticks = suc t.ticks })

-- `time.sleep`, which lasts its argument at least: what it lasts longer counts as other time.
abbrev pub sleep : ℕ → Fetch (Unit {0})
sleep duration t = (done tt, record t { ticks = suc t.ticks; slept = t.slept + duration })

-- `0.05`, in microseconds.
abbrev pub poll_interval : ℕ
poll_interval = 50000

-- `min(0.05, max(0.0, deadline - time.monotonic()))`
abbrev pub nap : ℕ → ℕ → ℕ
nap deadline at = min poll_interval (deadline - at)

-- The `while`, on fuel; none where the fuel is out.
unfoldable pub wait_until :
    ℕ → Network → CacheDocument → Option Document → ℕ → Fetch (Option CacheRead)
unfolding read
wait_until zero net document different_from deadline = pure none
wait_until (suc fuel) net document different_from deadline =
    let again = wait_until fuel net document different_from deadline in
    do
      at ← monotonic net
      if ltb at deadline
          then (monotonic net >>= λ awake. sleep (nap deadline awake) >>= λ _.
              read net document >>= λ result.
              if is_new net result.payload different_from || stops result.outcome
              then pure (some result)
              else again)
          else pure (some (without miss))

-- `wait_for_value`, with fuel for a sleep of the poll interval in each round.
unfoldable pub wait_for_value : Network → CacheDocument → Option Document → Fetch (Option CacheRead)
unfolding wait_until
wait_for_value net document different_from = do
  start ← monotonic net
  wait_until (suc (suc (net.cache_refresh_wait / poll_interval))) net document different_from
      (start + net.cache_refresh_wait)

-- `invalidate`: how many keys were deleted.
abbrev pub present : Option String → ℕ
present none = 0
present (some value) = 1

abbrev pub delete_both : Store → ℕ × Store
delete_both store =
    (present store.discovery + present store.jwks, record store { discovery = none; jwks = none })

unfoldable pub invalidate : Network → Fetch (Option ℕ)
invalidate net = if net.cache_enabled then command net delete_both else pure none
