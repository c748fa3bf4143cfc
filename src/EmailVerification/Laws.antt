-- ===== src/EmailVerification/Laws.antt =====
-- The behaviour of EmailVerification.
use fastapi_production_api.Table.{update_where}
use fastapi_production_api.Base.{
  String, ◌≡◌, ◌≢◌, none, some, arith, inl, inr, Option-cases, ◌==◌, nat_eq, string_eq, ==_refl,
}
use fastapi_production_api.Models.{AccountActionToken}
use fastapi_production_api.World.{World}
use fastapi_production_api.Db.{Session, ok, request}
use fastapi_production_api.ActionTokens.{
  email_verification_purpose, has_purpose, find_action_token, consumed,
}
use fastapi_production_api.EmailVerification.{confirm_email_verification}
use fastapi_production_api.ActionTokens.Laws.{
  ActionTokenSteps, ActionTokenSteps-Extends, IsSpentFor, Extends-IsSpentFor, IsSpentFor-update,
  ReadsPurpose, tokens_after,
}

verification_purpose-reads : ReadsPurpose (has_purpose email_verification_purpose)
verification_purpose-reads a b e = rw e

module _ (w : World) where
  confirm-spent :
      (s : Session) (token : String)
      → IsSpentFor
          (w.sha256 token)
          (has_purpose email_verification_purpose)
          s.committed.action_tokens
      → (request (confirm_email_verification w token) s).0 ≢ ok tt
  unfolding request confirm_email_verification
  confirm-spent s token (t, found, dead) e = ground arith

  -- What a confirmation that succeeds has stored.
  confirm_ok-tokens :
      (s : Session) (token : String) (t : AccountActionToken)
      → find_action_token (w.sha256 token) (has_purpose email_verification_purpose) s.committed
        ≡ some t
      → (request (confirm_email_verification w token) s).0 ≡ ok tt
      → tokens_after (request (confirm_email_verification w token) s)
        ≡ update_where (λ r. r.id == t.id) (consumed (w.clock s.ticks)) s.committed.action_tokens
  unfolding request confirm_email_verification
  confirm_ok-tokens s token t found e = ground arith

  confirm-missing :
      (s : Session) (token : String)
      → find_action_token (w.sha256 token) (has_purpose email_verification_purpose) s.committed
        ≡ none
      → (request (confirm_email_verification w token) s).0 ≢ ok tt
  unfolding request confirm_email_verification
  confirm-missing s token missing e = ground arith

  confirm_ok-IsSpentFor :
      (s : Session) (token : String)
      → (request (confirm_email_verification w token) s).0 ≡ ok tt
      → IsSpentFor
          (w.sha256 token)
          (has_purpose email_verification_purpose)
          (tokens_after (request (confirm_email_verification w token) s))
  confirm_ok-IsSpentFor s token e =
      elim (Option-cases
        (find_action_token (w.sha256 token) (has_purpose email_verification_purpose) s.committed)) [
          | inl missing ↦ absurd (confirm-missing s token missing e)
          | inr (t, found) ↦ rw (confirm_ok-tokens s token t found e) (
              IsSpentFor-update (w.sha256 token) (has_purpose email_verification_purpose)
                (λ r. r.id == t.id) (w.clock s.ticks) s.committed.action_tokens
                verification_purpose-reads found (==_refl t.id))
        ]

  -- A verification token that was accepted once is refused from then on, whatever steps the table
  -- of account tokens takes in between.
  pub confirm_email_verification_once :
      (s later : Session) (token : String)
      → (request (confirm_email_verification w token) s).0 ≡ ok tt
      → ActionTokenSteps
          (tokens_after (request (confirm_email_verification w token) s))
          later.committed.action_tokens
      → (request (confirm_email_verification w token) later).0 ≢ ok tt
  confirm_email_verification_once s later token e steps = confirm-spent later token (
      Extends-IsSpentFor (w.sha256 token) (has_purpose email_verification_purpose) _
        later.committed.action_tokens verification_purpose-reads (ActionTokenSteps-Extends steps)
        (confirm_ok-IsSpentFor s token e))
