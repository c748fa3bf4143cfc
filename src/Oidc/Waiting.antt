-- ===== src/Oidc/Waiting.antt =====
-- The wait for another client's refresh ends.

use fastapi_production_api.Oidc.Documents.{done, failed, Document, Network, Outcome}
use fastapi_production_api.Oidc.Cache.{
  ◌>>=◌, pure, Fetch, CacheDocument, Moment, discard_invalid, read, read_object, read_value,
  CacheRead, answered, command, stored, wait_until, without, disabled, is_new, stops,
  wait_for_value, miss, sleep, monotonic, clock_at, nap, poll_interval,
}
use fastapi_production_api.Base.{
  ◌≡◌, ◌≤◌, refl, ap, ◌∙◌, String, ℕ, zero, suc, ◌+◌, Bool, true, false, ◌||◌, nat_eq, string_eq,
  Option, none, some, if◌then◌else◌, ltb, arith, Bool-cases, inl, inr, subst, ◌-◌, ltb→lt, ◌*◌, ◌/◌,
  min,
}

-- The action gives a result without a sleep, at a moment that is not before this one.
abbrev Ends : {A : Type 0} → Fetch A → Moment → Type 0
Ends {A} m t =
    (a : A) × (t' : Moment) × (m t ≡ (done a, t')) × (t.ticks ≤ t'.ticks) × (t'.slept ≡ t.slept)

module _ (net : Network) (document : CacheDocument) where
  read_object-Ends : (o : Option Document) (t : Moment) → Ends (read_object net document o) t
  unfolding read_object discard_invalid
  read_object-Ends none t = (_, _, refl, omega arith, refl)
  read_object-Ends (some payload) t = (_, _, refl, omega arith, refl)

  read_value-Ends :
      (answer : Option (Option String)) (t : Moment) → Ends (read_value net document answer) t
  unfolding read_value
  read_value-Ends none t = (_, _, refl, omega arith, refl)
  read_value-Ends (some none) t = (_, _, refl, omega arith, refl)
  read_value-Ends (some (some value)) t = read_object-Ends _ t

  read_when-Ends :
      (on : Bool) (t : Moment)
      → Ends
          (if on
            then command net (λ store. (stored document store, store)) >>= read_value net document
            else pure (without disabled))
          t
  read_when-Ends false t = (_, _, refl, omega arith, refl)
  read_when-Ends true t =
      let asked = command net (λ store. (stored document store, store)) t in
      let (r, t', e, later, awake) =
        read_value-Ends
          (answered (net.redis_fails t.ticks) (λ store. (stored document store, store))
            (net.others t.ticks t.store)).0
          asked.1 in
      (r, t', e, omega (arith, later), awake)

  read-Ends : (t : Moment) → Ends (read net document) t
  unfolding read
  read-Ends t = read_when-Ends net.cache_enabled t

  -- A clock that does not go back.
  abbrev Advances : Type 0
  Advances = (n : ℕ) → net.monotonic n ≤ net.monotonic (suc n)

  abbrev past : ℕ → ℕ → ℕ
  past zero n = n
  past (suc k) n = suc (past k n)

  past-plus : (k n : ℕ) → past k n ≡ k + n
  past-plus zero n = omega arith
  past-plus (suc k) n = omega (arith, past-plus k n)

  advanced : Advances → (k n : ℕ) → net.monotonic n ≤ net.monotonic (past k n)
  advanced advances zero n = omega arith
  advanced advances (suc k) n = omega (arith, advanced advances k n, advances (past k n))

  monotonic_le : Advances → (n m : ℕ) → n ≤ m → net.monotonic n ≤ net.monotonic m
  monotonic_le advances n m h =
      let same : past (m - n) n ≡ m = past-plus (m - n) n ∙ omega (arith, h) in
      subst (λ x. net.monotonic n ≤ net.monotonic x) same (advanced advances (m - n) n)

  module _ (advances : Advances) (different_from : Option Document) (deadline : ℕ) where
    abbrev settled : CacheRead → Bool
    settled result = is_new net result.payload different_from || stops result.outcome

    abbrev stop_or_go : ℕ → CacheRead → Bool → Fetch (Option CacheRead)
    stop_or_go fuel result over =
        if over then pure (some result) else wait_until fuel net document different_from deadline

    abbrev decide_on : ℕ → CacheRead → Fetch (Option CacheRead)
    decide_on fuel result = stop_or_go fuel result (settled result)

    abbrev rested : ℕ → ℕ → Fetch (Option CacheRead)
    rested fuel awake = sleep (nap deadline awake) >>= λ _. read net document >>= decide_on fuel

    abbrev one_round : ℕ → Fetch (Option CacheRead)
    one_round fuel = monotonic net >>= rested fuel

    -- What follows the comparison of the clock with the deadline.
    abbrev next_round : ℕ → Bool → Fetch (Option CacheRead)
    next_round fuel early = if early then one_round fuel else pure (some (without miss))

    abbrev Answers : Fetch (Option CacheRead) → Moment → Type 0
    Answers m t = (r : CacheRead) × (t' : Moment) × (m t ≡ (done (some r), t'))

    decide_on-Answers :
        (fuel : ℕ) (result : CacheRead) (t : Moment)
        → (settled result ≡ false
            → Answers (wait_until fuel net document different_from deadline) t)
        → Answers (decide_on fuel result) t
    decide_on-Answers fuel result t go = elim (Bool-cases (settled result)) [
      | inl over ↦ (result, t, ap (λ b. stop_or_go fuel result b t) over)
      | inr unsettled ↦
          let (r, t', e) = go unsettled in
          (r, t', ap (λ b. stop_or_go fuel result b t) unsettled ∙ e)
    ]

    abbrev carried : ℕ → Outcome CacheRead × Moment → Outcome (Option CacheRead) × Moment
    carried fuel (r, t) = elim r [
      | done result ↦ decide_on fuel result t
      | failed x ↦ (failed x, t)
    ]

    -- A round takes the poll interval, or lasts until the deadline.
    one_round-Answers :
        (fuel : ℕ) (t : Moment)
        → ((t' : Moment)
            → min deadline (clock_at net t + poll_interval) ≤ clock_at net t'
            → Answers (wait_until fuel net document different_from deadline) t')
        → Answers (one_round fuel) t
    one_round-Answers fuel t go =
        let awake = clock_at net t in
        let slept : Moment = record t {
          ticks = suc (suc t.ticks);
          slept = t.slept + nap deadline awake;
        } in
        let (result, t', e, later, same) = read-Ends slept in
        let passed : net.monotonic t.ticks ≤ net.monotonic t'.ticks =
          monotonic_le advances t.ticks t'.ticks (omega (arith, later)) in
        let progress : min deadline (awake + poll_interval) ≤ clock_at net t' =
          omega (arith, passed, same) in
        let (r, t'', e') = decide_on-Answers fuel result t' (λ unsettled. go t' progress) in
        (r, t'', ap (carried fuel) e ∙ e')

    wait_until-Answers :
        (fuel : ℕ) (t : Moment)
        → deadline ≤ clock_at net t + fuel * poll_interval
        → Answers (wait_until (suc fuel) net document different_from deadline) t
    unfolding wait_until
    wait_until-Answers zero t enough = elim (Bool-cases (ltb (clock_at net t) deadline)) [
      | inr over ↦
          (without miss, _, ap (λ b. next_round zero b (record t { ticks = suc t.ticks })) over)
      | inl early ↦ absurd (omega (arith, ltb→lt _ _ early, enough))
    ]
    wait_until-Answers (suc fuel) t enough = elim (Bool-cases (ltb (clock_at net t) deadline)) [
      | inr over ↦ (
        without miss,
        _,
        ap (λ b. next_round (suc fuel) b (record t { ticks = suc t.ticks })) over,
      )
      | inl early ↦
          let looked = record t { ticks = suc t.ticks } in
          let (r, t', e) = one_round-Answers (suc fuel) looked (λ later progress.
            wait_until-Answers fuel later (omega (arith, enough, advances t.ticks, progress))) in
          (r, t', ap (λ b. next_round (suc fuel) b looked) early ∙ e)
    ]

-- The wait for another client's refresh ends with an answer: under a clock that does not go back, as
-- time.monotonic is documented, and sleeps that last as long as they are asked to, the loop is over
-- before its fuel is.
pub wait_for_value_ends :
    (net : Network) (document : CacheDocument) (different_from : Option Document) (t : Moment)
    → ((n : ℕ) → net.monotonic n ≤ net.monotonic (suc n))
    → (r : CacheRead) × ((wait_for_value net document different_from t).0 ≡ done (some r))
unfolding wait_for_value
wait_for_value_ends net document different_from t advances =
    let started : Moment = record t { ticks = suc t.ticks } in
    let wait = net.cache_refresh_wait in
    let (r, t', e) =
      wait_until-Answers net document advances different_from (clock_at net t + wait)
        (suc (wait / poll_interval)) started (omega (arith, advances t.ticks)) in
    (r, ap (λ x. x.0) e)
