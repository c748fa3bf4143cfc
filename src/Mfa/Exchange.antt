-- ===== src/Mfa/Exchange.antt =====
-- The factor that verify_mfa_login_challenge asks for, and what it stores behind its checks.

use fastapi_production_api.Db.Chains.{bind_ok}
use fastapi_production_api.Mfa.Counters.{
  HasPassed, matching_totp_counter-same, matching_totp_counter-HasPassed,
}
use fastapi_production_api.Table.{update_where}
use fastapi_production_api.Tokens.{create_access_token, create_refresh_token}
use fastapi_production_api.Models.{AccountActionToken, User, Database, MfaRecoveryCode}
use fastapi_production_api.Mfa.Factors.{
  consume_recovery_code, revoke_sessions, find_code, hash_recovery_code, matching_totp_counter,
}
use fastapi_production_api.World.{World}
use fastapi_production_api.Sessions.{Token, insert_refresh_token, prepare_session_tokens}
use fastapi_production_api.Db.{Session, ok, ◌>>=◌, Action, Result, transaction}
use fastapi_production_api.Base.{
  none, String, arith, ◌≡◌, ◌==◌, Option, inl, inr, refl, some, ℕ, nat_eq, string_eq, Option-cases,
  ap, sym, ◌∙◌,
}
use fastapi_production_api.ActionTokens.{consumed}
use fastapi_production_api.Mfa.Challenge.{finish_login, record_counter, recovery_factor}

module _ (w : World) (s : Session) (user : User) (code : String) (at : ℕ) where
  recovery_factor-tokens :
      (counter : Option ℕ)
      → (recovery_factor w user code at counter s).1.view.action_tokens ≡ s.view.action_tokens
  unfolding recovery_factor consume_recovery_code revoke_sessions
  recovery_factor-tokens none = ground arith
  recovery_factor-tokens (some counter) = refl

  finish_ok-tokens :
      (t : AccountActionToken) (counter : Option ℕ) (method : String) (issued : Token)
      → (transaction w (finish_login w t user counter method at) s).0 ≡ ok issued
      → (transaction w (finish_login w t user counter method at) s).1.committed.action_tokens
        ≡ update_where (λ r. r.id == t.id) (consumed at) s.view.action_tokens
  unfolding finish_login record_counter prepare_session_tokens insert_refresh_token
      create_access_token create_refresh_token
  finish_ok-tokens t none method issued e = ground arith
  finish_ok-tokens t (some counter) method issued e = ground arith

-- The part of verify_mfa_login_challenge behind its checks, in two steps.
abbrev conclude : World → AccountActionToken → User → ℕ → Option ℕ → String → Action Token
conclude w t user at counter method = transaction w (finish_login w t user counter method at)

abbrev exchange_counter : World → AccountActionToken → User → String → ℕ → Option ℕ → Action Token
exchange_counter w t user code at counter =
    recovery_factor w user code at counter >>= conclude w t user at counter

abbrev pub exchange : World → AccountActionToken → User → String → ℕ → Action Token
exchange w t user code at =
    matching_totp_counter w user code at >>= exchange_counter w t user code at

-- The factor that a code passes: the TOTP password of a newer counter, or an unused recovery code.
pub data HasFactor (w : World) (db : Database) (user : User) (code : String) (at : ℕ) : Type 0 where
  totp : (c : ℕ) → HasPassed w user code at c → HasFactor w db user code at
  recovery :
      (r : MfaRecoveryCode)
      → find_code user.id (hash_recovery_code w code) db ≡ some r
      → HasFactor w db user code at

module _ (w : World) (t : AccountActionToken) (user : User) (code : String) (at : ℕ) (s : Session)
    (issued : Token) where
  recovery_factor_ok :
      (method : String)
      → (recovery_factor w user code at none s).0 ≡ ok method
      → HasFactor w s.view user code at
  unfolding recovery_factor consume_recovery_code
  recovery_factor_ok method e =
      elim (Option-cases (find_code user.id (hash_recovery_code w code) s.view)) [
        | inl missing ↦ absurd (ground arith)
        | inr (r, found) ↦ recovery r found
      ]

  counter_ok :
      (counter : Option ℕ) (method : String)
      → (matching_totp_counter w user code at s).0 ≡ ok counter
      → (recovery_factor w user code at counter s).0 ≡ ok method
      → HasFactor w s.view user code at
  counter_ok none method e h = recovery_factor_ok method h
  counter_ok (some c) method e h = totp c (matching_totp_counter-HasPassed w user code at s c e)

  exchange_counter_ok :
      (counter : Option ℕ)
      → (matching_totp_counter w user code at s).0 ≡ ok counter
      → (exchange_counter w t user code at counter s).0 ≡ ok issued
      → HasFactor w s.view user code at
        × ((exchange_counter w t user code at counter s).1.committed.action_tokens
            ≡ update_where (λ r. r.id == t.id) (consumed at) s.view.action_tokens)
  exchange_counter_ok counter counted e =
      let recover = recovery_factor w user code at counter in
      let (method, passed, concluded, whole) =
        bind_ok recover (conclude w t user at counter) s issued e in
      let stored =
        finish_ok-tokens w (recover s).1 user code at t counter method issued concluded in
      let kept = recovery_factor-tokens w s user code at counter in
      (
        counter_ok counter method counted passed,
        ap (λ (x : Result Token × Session). x.1.committed.action_tokens) whole
            ∙ stored
            ∙ ap (update_where (λ r. r.id == t.id) (consumed at)) kept,
      )

  pub exchange_ok :
      (exchange w t user code at s).0 ≡ ok issued
      → HasFactor w s.view user code at
        × ((exchange w t user code at s).1.committed.action_tokens
            ≡ update_where (λ r. r.id == t.id) (consumed at) s.view.action_tokens)
  exchange_ok e =
      let (counter, counted, after, whole) =
        bind_ok (matching_totp_counter w user code at) (exchange_counter w t user code at) s issued
          e in
      let same = matching_totp_counter-same w user code at s in
      let next = exchange_counter w t user code at counter in
      let whole' : exchange w t user code at s ≡ next s = whole ∙ ap next same in
      let (factor, stored) =
        exchange_counter_ok counter counted (sym (ap (λ x. (next x).0) same) ∙ after) in
      (factor, ap (λ (x : Result Token × Session). x.1.committed.action_tokens) whole' ∙ stored)
