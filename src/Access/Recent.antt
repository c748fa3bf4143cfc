-- ===== src/Access/Recent.antt =====
-- The window in which an authentication counts as recent.
use fastapi_production_api.Tokens.{now}
use fastapi_production_api.Db.Chains.{bind_ok, ok_eq, ok≢err}
use fastapi_production_api.World.{World, minutes, second, seconds}
use fastapi_production_api.Access.Guards.{
  TokenPayload, authenticated_at, contains, has_primary, out_of_range, require_recent,
  require_recent_mfa, decode_token,
}
use fastapi_production_api.Access.Laws.{IsDecoded, decode_token_ok}
use fastapi_production_api.Db.{◌>>◌, ◌>>=◌, Action, Session, or_raise, pure, raise_if, http, ok}
use fastapi_production_api.Base.{
  String, ℕ, suc, Option, none, some, ◌≡◌, ◌≤◌, ◌+◌, ◌*◌, arith, refl, ◌∙◌, Bool, true, false,
  nat_eq, string_eq, Bool-cases, inl, inr, sym, ap, subst, ◌&&◌,
}

-- Authenticated no longer than `age` ago, and no more than 30 seconds ahead of this clock.
pub record IsRecent (at now_at age : ℕ) : Type 0 where
  pub not_ahead : at ≤ now_at + seconds 30
  pub not_old : now_at ≤ at + minutes age

in_range : (at now_at age : ℕ) → out_of_range at now_at age ≡ false → IsRecent at now_at age
in_range at now_at age e = record { not_ahead = ground arith; not_old = ground arith }

module _ (w : World) (enough : Bool) (age : ℕ) (detail : String) (p : TokenPayload) where
  abbrev within : ℕ → Action TokenPayload
  within at = now w >>= λ now_at. raise_if (out_of_range at now_at age) (http 403 detail) >> pure p

  within_ok :
      (at : ℕ) (s : Session) (q : TokenPayload)
      → (within at s).0 ≡ ok q
      → (p ≡ q) × (out_of_range at (w.clock s.ticks) age ≡ false)
  within_ok at s q e = elim (Bool-cases (out_of_range at (w.clock s.ticks) age)) [
    | inl outside ↦ absurd (
        ok≢err (
          sym e
          ∙ ap
              (λ b. ((raise_if b (http 403 detail) >> pure p) (record s { ticks = suc s.ticks })).0)
              outside))
    | inr inside ↦ (
      ok_eq (
          sym (
            ap
              (λ b. ((raise_if b (http 403 detail) >> pure p) (record s { ticks = suc s.ticks })).0)
              inside)
          ∙ e),
      inside,
    )
  ]

  dated :
      (o : Option ℕ) (at : ℕ)
      → authenticated_at enough o ≡ some at
      → (t : ℕ) × (o ≡ some t) × (enough ≡ true) × (at ≡ t * second)
  dated none at e = absurd (ground (arith, e))
  dated (some t) at e = elim (Bool-cases enough) [
    | inl met ↦ (t, refl, met, ground arith)
    | inr unmet ↦ absurd (ground arith)
  ]

  or_raise_ok :
      (o : Option ℕ) (s : Session) (at : ℕ)
      → (or_raise o (http 403 detail) s).0 ≡ ok at
      → (o ≡ some at) × ((or_raise o (http 403 detail) s).1 ≡ s)
  or_raise_ok o s at e = ground arith

  pub require_recent_ok :
      (s : Session) (q : TokenPayload)
      → (require_recent w enough age detail p s).0 ≡ ok q
      → (p ≡ q)
        × (enough ≡ true)
        × ((t : ℕ) × (p.auth_time ≡ some t) × IsRecent (t * second) (w.clock s.ticks) age)
  require_recent_ok s q e =
      let step = or_raise (authenticated_at enough p.auth_time) (http 403 detail) in
      let (at, given, checked, whole) = bind_ok step within s q e in
      let (stamp, same) = or_raise_ok (authenticated_at enough p.auth_time) s at given in
      let (payload, inside) = within_ok at (step s).1 q checked in
      let (t, claimed, met, scaled) = dated p.auth_time at stamp in
      let recent = in_range at (w.clock (step s).1.ticks) age inside in
      (
        payload,
        met,
        (
          t,
          claimed,
          subst (λ a. IsRecent a (w.clock s.ticks) age) scaled
              (subst (λ (x : Session). IsRecent at (w.clock x.ticks) age) same recent),
        ),
      )

both_true : (a b : Bool) → (a && b) ≡ true → (a ≡ true) × (b ≡ true)
both_true a b e = ground arith

-- A token that passes the guard for sensitive MFA operations is accepted, names "otp" and one of
-- "pwd" and "oidc" among its methods, and was authenticated no longer ago than the configured
-- minutes and no more than 30 seconds in the future, by the clock of the guard.
pub require_recent_mfa-IsRecent :
    (w : World) (token : String) (s : Session) (p : TokenPayload)
    → (require_recent_mfa w token s).0 ≡ ok p
    → IsDecoded w token s p
      × (contains "otp" p.amr ≡ true)
      × (has_primary p.amr ≡ true)
      × ((t : ℕ) × (p.auth_time ≡ some t)
          × IsRecent (t * second) (w.clock (suc s.ticks)) w.settings.mfa_step_up_max_age_minutes)
unfolding require_recent_mfa
require_recent_mfa-IsRecent w token s p e =
    let age = w.settings.mfa_step_up_max_age_minutes in
    let detail : String = "Recent MFA authentication required" in
    let guard = λ (q : TokenPayload).
      require_recent w (contains "otp" q.amr && has_primary q.amr) age detail q in
    let (q, decoded, guarded, whole) = bind_ok (decode_token w token) guard s p e in
    let (is_decoded, after) = decode_token_ok w token s q decoded in
    let (same, enough, window) =
      require_recent_ok w (contains "otp" q.amr && has_primary q.amr) age detail q
        (decode_token w token s).1 p guarded in
    let (otp, primary) = both_true (contains "otp" q.amr) (has_primary q.amr) enough in
    let at_guard =
      subst
        (λ (x : Session).
          (t : ℕ) × (q.auth_time ≡ some t) × IsRecent (t * second) (w.clock x.ticks) age)
        after window in
    subst
      (λ (x : TokenPayload).
        IsDecoded w token s x
        × (contains "otp" x.amr ≡ true)
        × (has_primary x.amr ≡ true)
        × ((t : ℕ) × (x.auth_time ≡ some t) × IsRecent (t * second) (w.clock (suc s.ticks)) age))
      same (is_decoded, otp, primary, at_guard)
