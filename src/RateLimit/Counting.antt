-- ===== src/RateLimit/Counting.antt =====
-- What the in-memory limiter counts within one window.
use fastapi_production_api.Base.{
  if◌then◌else◌, ℕ, ◌<◌, ◌≡◌, String, true, false, List, [], ◌∷◌, arith, refl, inl, inr, All,
  Bool-cases, ◌==◌, nat_eq, string_eq, ==_refl, ==_iff, leb, some, ◌+◌, ◌/◌, ap,
}
use fastapi_production_api.RateLimit.Memory.{
  check, lookup, store, kept_from, RateLimiter, cleanup, count_in,
}

abbrev Requests : Type 0
Requests = List (String × (ℕ × ℕ))

-- Every entry is of the window or of a later one.
abbrev IsKept : ℕ → Requests → Type 0
IsKept current = All (λ e. leb current e.1.0 ≡ true)

kept_from-IsKept : (current : ℕ) (d : Requests) → IsKept current (kept_from current d)
unfolding kept_from
kept_from-IsKept current [] = tt
kept_from-IsKept current ((j, v) ∷ d) = elim (Bool-cases (leb current v.0)) [
  | inl new ↦ rw new (new, kept_from-IsKept current d)
  | inr old ↦ rw old (kept_from-IsKept current d)
]

kept_from-same : (current : ℕ) (d : Requests) → IsKept current d → kept_from current d ≡ d
unfolding kept_from
kept_from-same current [] h = refl
kept_from-same current ((j, v) ∷ d) h = ground (arith, kept_from-same current d h.1)

kept_from-old :
    (current : ℕ) (d : Requests) → All (λ e. e.1.0 < current) d → kept_from current d ≡ []
unfolding kept_from
kept_from-old current [] h = refl
kept_from-old current ((j, v) ∷ d) h = ground (arith, kept_from-old current d h.1)

store-IsKept :
    (k : String) (n current : ℕ) (d : Requests)
    → IsKept current d
    → IsKept current (store k (current, n) d)
unfolding store
store-IsKept k n current [] h = (ground arith, tt)
store-IsKept k n current ((j, v) ∷ d) h = elim (Bool-cases (j == k)) [
  | inl hit ↦ rw hit (ground arith, h.1)
  | inr miss ↦ rw miss (h.0, store-IsKept k n current d h.1)
]

lookup-store : (k : String) (v : ℕ × ℕ) (d : Requests) → lookup k (store k v d) ≡ some v
unfolding lookup store
lookup-store k v [] = rw (==_refl k)
lookup-store k v ((j, u) ∷ d) = elim (Bool-cases (j == k)) [
  | inl hit ↦ simp hit
  | inr miss ↦ simp (miss, lookup-store k v d)
]

lookup-store_other :
    (k c : String) (v : ℕ × ℕ) (d : Requests)
    → (k == c) ≡ false
    → lookup c (store k v d) ≡ lookup c d
unfolding lookup store
lookup-store_other k c v [] ne = rw ne
lookup-store_other k c v ((j, u) ∷ d) ne = elim (Bool-cases (j == k)) [
  | inl hit ↦
      let same : j ≡ k = (==_iff j k).0 hit in
      let miss : (j == c) ≡ false = rw same ne in simp (hit, miss)
  | inr miss ↦ simp (miss, lookup-store_other k c v d ne)
]

-- A call of `check`: the client, and the times at which it and its cleanup read the clock.
abbrev pub Call : Type 0
Call = String × (ℕ × ℕ)

-- How often the client has called.
unfoldable pub occurrences : String → List Call → ℕ
occurrences client [] = 0
occurrences client (call ∷ calls) = (if call.0 == client then 1 else 0) + occurrences client calls

-- The limiter after the calls.
unfoldable pub run : RateLimiter → List Call → RateLimiter
run r [] = r
run r (call ∷ calls) = run (check r call.0 call.1.0 call.1.1).0 calls

-- Both clock readings of the call fall into the window.
abbrev pub IsWithin : ℕ → ℕ → Call → Type 0
IsWithin window current call = (call.1.0 / window ≡ current) × (call.1.1 / window ≡ current)

-- The stored count of each client that a check in the window finds.
abbrev IsTally : ℕ → RateLimiter → (String → ℕ) → Type 0
IsTally current r tally =
    (client : String)
    → count_in current (lookup client (kept_from current r.requests)) ≡ tally client

check-requests :
    (r : RateLimiter) (call : Call) (current : ℕ)
    → IsWithin r.window current call
    → (check r call.0 call.1.0 call.1.1).0 ≡ record r {
      requests =
          store call.0
            (current, count_in current (lookup call.0 (kept_from current r.requests)) + 1)
            (kept_from current r.requests);
    }
unfolding check cleanup
check-requests r call current h = rw (h.0, h.1)

check-window :
    (r : RateLimiter) (call : Call) → (check r call.0 call.1.0 call.1.1).0.window ≡ r.window
unfolding check cleanup
check-window r call = refl

lookup-empty : (current : ℕ) (c : String) → count_in current (lookup c []) ≡ 0
unfolding lookup
lookup-empty current c = refl

check-IsTally :
    (r : RateLimiter) (call : Call) (current : ℕ) (tally : String → ℕ)
    → IsWithin r.window current call
    → IsTally current r tally
    → IsTally current
        (check r call.0 call.1.0 call.1.1).0
        (λ c. (if call.0 == c then 1 else 0) + tally c)
check-IsTally r call current tally within t c =
    let d = kept_from current r.requests in
    let n : ℕ = count_in current (lookup call.0 d) + 1 in
    let kept : kept_from current (store call.0 (current, n) d) ≡ store call.0 (current, n) d =
      kept_from-same current (store call.0 (current, n) d)
        (store-IsKept call.0 n current d (kept_from-IsKept current r.requests)) in
    rw (check-requests r call current within, kept)
      (elim (Bool-cases (call.0 == c)) [
        | inl hit ↦
            let same : call.0 ≡ c = (==_iff call.0 c).0 hit in
            ground (arith, lookup-store call.0 (current, n) d, t call.0, ap tally same, same)
        | inr miss ↦ ground (arith, lookup-store_other call.0 c (current, n) d miss, t c)
      ])

run-IsTally :
    (r : RateLimiter) (calls : List Call) (current : ℕ) (tally : String → ℕ)
    → All (IsWithin r.window current) calls
    → IsTally current r tally
    → IsTally current (run r calls) (λ c. occurrences c calls + tally c)
unfolding run occurrences
run-IsTally r [] current tally within t c = omega (arith, t c)
run-IsTally r (call ∷ calls) current tally within t c =
    let r' : RateLimiter = (check r call.0 call.1.0 call.1.1).0 in
    let tally' : String → ℕ = λ d. (if call.0 == d then 1 else 0) + tally d in
    let window : r'.window ≡ r.window = check-window r call in
    omega (
      arith,
      run-IsTally r' calls current tally' (rw window within.1)
          (check-IsTally r call current tally within.0 t) c,
    )

run-limit : (r : RateLimiter) (calls : List Call) → (run r calls).limit ≡ r.limit
unfolding run check cleanup
run-limit r [] = refl
run-limit r (call ∷ calls) = run-limit (check r call.0 call.1.0 call.1.1).0 calls

pub run-window : (r : RateLimiter) (calls : List Call) → (run r calls).window ≡ r.window
unfolding run check cleanup
run-window r [] = refl
run-window r (call ∷ calls) = run-window (check r call.0 call.1.0 call.1.1).0 calls

-- Whatever was stored in earlier windows, a call after any calls of one window is allowed exactly
-- when the client's calls in the window, this one included, do not exceed the limit.
pub check_allows_limit :
    (r : RateLimiter) (calls : List Call) (call : Call) (current : ℕ)
    → All (λ e. e.1.0 < current) r.requests
    → All (IsWithin r.window current) calls
    → IsWithin r.window current call
    → (check (run r calls) call.0 call.1.0 call.1.1).1.allowed
      ≡ leb (occurrences call.0 calls + 1) r.limit
unfolding check cleanup
check_allows_limit r calls call current old within now_within =
    let start : IsTally current r (λ c. 0) =
      λ c. rw (kept_from-old current r.requests old) (lookup-empty current c) in
    let tally : IsTally current (run r calls) (λ c. occurrences c calls + 0) =
      run-IsTally r calls current (λ c. 0) within start in
    rw (run-window r calls, run-limit r calls, now_within.0, now_within.1, tally call.0)
      (ap (λ n. leb n r.limit) (omega arith))
