-- ===== src/Mfa/Laws.antt =====
-- What the exchange of an MFA challenge requires and stores.

use fastapi_production_api.Db.Chains.{bind_ok}
use fastapi_production_api.Mfa.Exchange.{HasFactor, exchange, exchange_ok}
use fastapi_production_api.Table.{update_where}
use fastapi_production_api.Models.{AccountActionToken, User, Database}
use fastapi_production_api.Mfa.Factors.{require_available, lock_user, invalid_challenge_detail}
use fastapi_production_api.World.{World}
use fastapi_production_api.Sessions.{Token, or_inactive, user_by_id}
use fastapi_production_api.Db.{
  Session, request, ok, ◌>>=◌, Action, Result, rollback, ◌>>◌, raise_if, http,
}
use fastapi_production_api.ActionTokens.Laws.{
  IsSpentFor, ReadsPurpose, ActionTokenSteps, ActionTokenSteps-Extends, Extends-IsSpentFor,
  IsSpentFor-update, tokens_after,
}
use fastapi_production_api.Base.{
  none, String, arith, ◌≡◌, ◌≢◌, ◌==◌, inl, inr, some, ℕ, nat_eq, string_eq, Option-cases, ap, sym,
  ◌∙◌, ◌&&◌, Bool-cases, false, is_none, not, suc, ==_refl,
}
use fastapi_production_api.ActionTokens.{find_action_token, has_mfa_purpose, consumed, is_spent}
use fastapi_production_api.Mfa.Challenge.{verify_mfa_login_challenge}

mfa_purpose-reads : ReadsPurpose has_mfa_purpose
mfa_purpose-reads a b e = rw e

module _ (w : World) (s : Session) (challenge_token code : String) where
  verify-spent :
      (issued : Token)
      → IsSpentFor (w.sha256 challenge_token) has_mfa_purpose s.committed.action_tokens
      → (request (verify_mfa_login_challenge w challenge_token code) s).0 ≢ ok issued
  unfolding request verify_mfa_login_challenge require_available
  verify-spent issued (t, found, dead) e = ground arith

  verify-missing :
      (issued : Token)
      → find_action_token (w.sha256 challenge_token) has_mfa_purpose s.committed ≡ none
      → (request (verify_mfa_login_challenge w challenge_token code) s).0 ≢ ok issued
  unfolding request verify_mfa_login_challenge require_available
  verify-missing issued missing e = ground arith

-- The same from the lock of the account on.
abbrev enrolled_only : World → AccountActionToken → String → ℕ → User → Action Token
enrolled_only w t code at user =
    raise_if (is_none user.mfa_enabled_at) (http 400 invalid_challenge_detail)
    >> exchange w t user code at

abbrev from_lock : World → AccountActionToken → String → ℕ → Action Token
from_lock w t code at = lock_user t.user_id >>= enrolled_only w t code at

lock_user_ok :
    (user_id : ℕ) (s : Session) (user : User)
    → (lock_user user_id s).0 ≡ ok user
    → (or_inactive (user_by_id user_id s.view) ≡ some user) × ((lock_user user_id s).1 ≡ s)
unfolding lock_user
lock_user_ok user_id s user e = ground arith

enrolled_ok :
    (w : World) (t : AccountActionToken) (code : String) (at : ℕ) (user : User) (s : Session)
    (issued : Token)
    → (enrolled_only w t code at user s).0 ≡ ok issued
    → (is_none user.mfa_enabled_at ≡ false)
      × (enrolled_only w t code at user s ≡ exchange w t user code at s)
enrolled_ok w t code at user s issued e = elim (Bool-cases (is_none user.mfa_enabled_at)) [
  | inl plain ↦ absurd (ground arith)
  | inr enrolled ↦ (enrolled, simp enrolled)
]

-- What an exchange that succeeds has found and stored.
pub record HasVerified (w : World) (s : Session) (t : AccountActionToken) (code : String) (at : ℕ)
    (after : Database) : Type 0 where
  pub user : User
  pub owner : or_inactive (user_by_id t.user_id s.view) ≡ some user
  pub enrolled : is_none user.mfa_enabled_at ≡ false
  pub factor : HasFactor w s.view user code at
  pub tokens_set :
      after.action_tokens ≡ update_where (λ r. r.id == t.id) (consumed at) s.view.action_tokens

from_lock_ok :
    (w : World) (t : AccountActionToken) (code : String) (at : ℕ) (s : Session) (issued : Token)
    → (from_lock w t code at s).0 ≡ ok issued
    → HasVerified w s t code at (from_lock w t code at s).1.committed
from_lock_ok w t code at s issued e =
    let (user, locked, e1, whole) =
      bind_ok (lock_user t.user_id) (enrolled_only w t code at) s issued e in
    let (owner, same) = lock_user_ok t.user_id s user locked in
    let next = enrolled_only w t code at user in
    let e2 = sym (ap (λ x. (next x).0) same) ∙ e1 in
    let (enrolled, exchanged) = enrolled_ok w t code at user s issued e2 in
    let all : from_lock w t code at s ≡ exchange w t user code at s =
      whole ∙ ap next same ∙ exchanged in
    let done =
      exchange_ok w t user code at s issued
        (sym (ap (λ (x : Result Token × Session). x.0) exchanged) ∙ e2) in
    record {
      user = user;
      owner = owner;
      enrolled = enrolled;
      factor = done.0;
      tokens_set = ap (λ (x : Result Token × Session). x.1.committed.action_tokens) all ∙ done.1;
    }

module _ (w : World) (s : Session) (challenge_token code : String) (issued : Token) where
  -- A challenge that is exchanged for tokens was unspent and belongs to an active account with a
  -- second factor, the code passed a factor of it, and the challenge is consumed.
  pub verify_mfa_login_challenge_effect :
      (request (verify_mfa_login_challenge w challenge_token code) s).0 ≡ ok issued
      → (t : AccountActionToken) × (find_action_token
            (w.sha256 challenge_token)
            has_mfa_purpose
            s.committed
          ≡ some t)
        × (is_spent t (w.clock s.ticks) ≡ false)
        × HasVerified w
            (rollback s)
            t
            code
            (w.clock s.ticks)
            (request (verify_mfa_login_challenge w challenge_token code) s).1.committed
  unfolding request verify_mfa_login_challenge require_available
  verify_mfa_login_challenge_effect e =
      elim (Bool-cases (not (w.settings.mfa_enabled && w.mfa_key_valid))) [
        | inl off ↦ absurd (ground arith)
        | inr on ↦
            elim (Option-cases
              (find_action_token (w.sha256 challenge_token) has_mfa_purpose s.committed)) [
                | inl missing ↦ absurd (verify-missing w s challenge_token code issued missing e)
                | inr (t, found) ↦ elim (Bool-cases (is_spent t (w.clock s.ticks))) [
                  | inl spent ↦ absurd (ground arith)
                  | inr unspent ↦
                      let s' : Session = record (rollback s) { ticks = suc s.ticks } in
                      let e' : (from_lock w t code (w.clock s.ticks) s').0 ≡ ok issued =
                        simp (on, found, unspent) at e in
                      let done = from_lock_ok w t code (w.clock s.ticks) s' issued e' in
                      (
                        t,
                        found,
                        unspent,
                        record {
                          user = done.user;
                          owner = done.owner;
                          enrolled = done.enrolled;
                          factor = done.factor;
                          tokens_set = simp (on, found, unspent) (done.tokens_set);
                        },
                      )
                ]
              ]
      ]

-- A challenge that was exchanged once is refused from then on, with any code and whatever steps the
-- table of account tokens takes in between.
pub verify_mfa_login_challenge_once :
    (w : World) (s later : Session) (challenge_token code another : String) (issued issued' : Token)
    → (request (verify_mfa_login_challenge w challenge_token code) s).0 ≡ ok issued
    → ActionTokenSteps
        (tokens_after (request (verify_mfa_login_challenge w challenge_token code) s))
        later.committed.action_tokens
    → (request (verify_mfa_login_challenge w challenge_token another) later).0 ≢ ok issued'
verify_mfa_login_challenge_once w s later challenge_token code another issued issued' e steps =
    let (t, found, unspent, done) =
      verify_mfa_login_challenge_effect w s challenge_token code issued e in
    let spent : IsSpentFor (w.sha256 challenge_token) has_mfa_purpose
        (tokens_after (request (verify_mfa_login_challenge w challenge_token code) s)) =
      rw done.tokens_set (
        IsSpentFor-update (w.sha256 challenge_token) has_mfa_purpose (λ r. r.id == t.id)
          (w.clock s.ticks) s.committed.action_tokens mfa_purpose-reads found (==_refl t.id)) in
    verify-spent w later challenge_token another issued' (
      Extends-IsSpentFor (w.sha256 challenge_token) has_mfa_purpose _ later.committed.action_tokens
        mfa_purpose-reads (ActionTokenSteps-Extends steps) spent)
