-- ===== src/RateLimit/Tally.antt =====
-- What the limiter in Redis counts within one window.

use fastapi_production_api.RateLimit.Counting.{Call, IsWithin, occurrences}
use fastapi_production_api.RateLimit.{RateLimitDecision}
use native.Mathlib.Nat.{div-add-mod, mod-lt}
use fastapi_production_api.Base.{
  if◌then◌else◌, [], ◌∷◌, nat_eq, string_eq, ◌%◌, ◌&&◌, ◌*◌, ◌+◌, ◌/◌, ◌<◌, ◌==◌, ==_iff, ==_refl,
  All, Bool-cases, List, String, arith, false, inl, inr, true, ℕ, ◌≡◌, ◌≤◌, All-map, refl, leb,
}
use fastapi_production_api.RateLimit.Redis.{
  check as redis_check, incr, get, is_alive, has_key, Counter,
}

-- A counter of the window lives until the window ends.
abbrev pub IsLasting : ℕ → ℕ → Counter → Type 0
IsLasting window current c =
    (s : ℕ) → s / window ≡ current → (c.bucket == current) ≡ true → is_alive s c ≡ true

module _ (window current : ℕ) (positive : 1 ≤ window) where
  below_ttl : (s s' : ℕ) → s / window ≡ current → s' / window ≡ current → s' < s + window * 2
  below_ttl s s' e e' =
      let a : window * current + s % window ≡ s = rw (← e) (div-add-mod s window) in
      let a' : window * current + s' % window ≡ s' = rw (← e') (div-add-mod s' window) in
      let small : s' % window < window = mod-lt s' (omega (arith, positive)) in
      omega (arith, a, a', small)

  incr-IsLasting :
      (p : String) (s : ℕ) (cs : List Counter)
      → s / window ≡ current
      → All (IsLasting window current) cs
      → All (IsLasting window current) (incr p current s (window * 2) cs)
  unfolding incr
  incr-IsLasting p s [] e h = ((λ s' e' b. ground (arith, below_ttl s s' e e')), tt)
  incr-IsLasting p s (c ∷ cs) e h = elim (Bool-cases (has_key p current c && is_alive s c)) [
    | inl hit ↦ rw hit ((λ s' e' b. ground (arith, h.0 s' e' b)), h.1)
    | inr miss ↦ rw miss (h.0, incr-IsLasting p s cs e h.1)
  ]

  get-incr :
      (p p' : String) (s s' : ℕ) (cs : List Counter)
      → s / window ≡ current
      → s' / window ≡ current
      → All (IsLasting window current) cs
      → get p' current s' (incr p current s (window * 2) cs)
        ≡ (if p == p' then 1 else 0) + get p' current s' cs
  unfolding incr get
  get-incr p p' s s' [] e e' h = ground (arith, below_ttl s s' e e', ==_refl current)
  get-incr p p' s s' (c ∷ cs) e e' h =
      let rest = get-incr p p' s s' cs e e' h.1 in
      elim (Bool-cases (c.bucket == current)) [
        | inr off ↦ ground (arith, off, rest)
        | inl on ↦
            let alive : is_alive s c ≡ true = h.0 s e on in
            let alive' : is_alive s' c ≡ true = h.0 s' e' on in
            elim (Bool-cases (p == p')) [
              | inl same ↦
                  let own : (c.prefix == p') ≡ (c.prefix == p) = rw ((==_iff p p').0 same) in
                  simp (on, alive, alive', own, same) (ground (arith, rest, same))
              | inr apart ↦ elim (Bool-cases (c.prefix == p)) [
                | inl own ↦
                    let other : (c.prefix == p') ≡ false = rw ((==_iff c.prefix p).0 own) apart in
                    simp (on, alive, alive', own, other, apart) (omega arith)
                | inr other ↦ simp (on, alive, alive', other, apart) (ground (arith, rest, apart))
              ]
            ]
      ]

  get-none :
      (p : String) (s : ℕ) (cs : List Counter)
      → All (λ c. (c.bucket == current) ≡ false) cs
      → get p current s cs ≡ 0
  unfolding get
  get-none p s [] h = refl
  get-none p s (c ∷ cs) h = ground (arith, get-none p s cs h.1)

  none-IsLasting :
      (cs : List Counter)
      → All (λ c. (c.bucket == current) ≡ false) cs
      → All (IsLasting window current) cs
  none-IsLasting cs h = All-map cs (λ c off s e on. absurd (ground (arith, off, on))) h

-- The counters after the calls; `key` is `key_prefix`.
unfoldable pub run : (String → String) → ℕ → ℕ → List Counter → List Call → List Counter
run key limit window cs [] = cs
run key limit window cs (call ∷ calls) =
    run key limit window (redis_check limit window (key call.0) call.1.0 cs).0 calls

pub same_decision :
    {a b : RateLimitDecision} → a.allowed ≡ b.allowed → a.retry_after ≡ b.retry_after → a ≡ b
same_decision h k = ground (arith, h, k)

-- What the counters of the window say, and that they last.
record IsTally (key : String → String) (window current : ℕ) (cs : List Counter) (tally : String → ℕ)
    : Type 0 where
  lasting : All (IsLasting window current) cs
  counts :
      (client : String) (s : ℕ)
      → s / window ≡ current
      → get (key client) current s cs ≡ tally client

module _ (key : String → String) (apart : (a b : String) → (key a == key b) ≡ (a == b))
    (limit window current : ℕ) (positive : 1 ≤ window) where
  check-IsTally :
      (cs : List Counter) (call : Call) (tally : String → ℕ)
      → IsWithin window current call
      → IsTally key window current cs tally
      → IsTally key window current
          (redis_check limit window (key call.0) call.1.0 cs).0
          (λ c. (if call.0 == c then 1 else 0) + tally c)
  unfolding redis_check
  check-IsTally cs call tally within t = rw (within.0) (record {
    lasting = incr-IsLasting window current positive (key call.0) call.1.0 cs within.0 t.lasting;
    counts = λ c s e.
        rw
          (
            get-incr window current positive (key call.0) (key c) call.1.0 s cs within.0 e
                t.lasting,
            apart call.0 c,
            t.counts c s e,
          )
          refl;
  })

  run-IsTally :
      (cs : List Counter) (calls : List Call) (tally : String → ℕ)
      → All (IsWithin window current) calls
      → IsTally key window current cs tally
      → IsTally key window current
          (run key limit window cs calls)
          (λ c. occurrences c calls + tally c)
  unfolding run occurrences
  run-IsTally cs [] tally within t = record {
    lasting = t.lasting;
    counts = λ c s e. omega (arith, t.counts c s e);
  }
  run-IsTally cs (call ∷ calls) tally within t =
      let after =
        run-IsTally (redis_check limit window (key call.0) call.1.0 cs).0 calls
          (λ c. (if call.0 == c then 1 else 0) + tally c) within.1
          (check-IsTally cs call tally within.0 t) in
      record { lasting = after.lasting; counts = λ c s e. omega (arith, after.counts c s e) }

  -- Where no counter of the window is left from before, the limiter in Redis, after any calls of one
  -- window, allows a call exactly when the client's calls in the window, this one included, do not
  -- exceed the limit.
  pub redis_check_allows_limit :
      (cs : List Counter) (calls : List Call) (call : Call)
      → All (λ c. (c.bucket == current) ≡ false) cs
      → All (IsWithin window current) calls
      → IsWithin window current call
      → (redis_check limit window (key call.0) call.1.0 (run key limit window cs calls)).1.allowed
        ≡ leb (occurrences call.0 calls + 1) limit
  unfolding redis_check
  redis_check_allows_limit cs calls call fresh within now_within =
      let start : IsTally key window current cs (λ c. 0) = record {
        lasting = none-IsLasting window current positive cs fresh;
        counts = λ c s e. get-none window current positive (key c) s cs fresh;
      } in
      let before = run-IsTally cs calls (λ c. 0) within start in
      let after =
        check-IsTally (run key limit window cs calls) call (λ c. occurrences c calls + 0) now_within
          before in
      let counted = after.counts call.0 call.1.0 now_within.0 in
      ground (arith, now_within.0, counted, ==_refl call.0)
