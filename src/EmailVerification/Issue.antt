-- ===== src/EmailVerification/Issue.antt =====
-- What the issue of a verification token stores.
use fastapi_production_api.Base.{
  ℕ, suc, ◌+◌, String, ◌≡◌, true, none, some, List, arith, inl, inr, ◌⊎◌, ◌==◌, nat_eq, string_eq,
  ==_refl,
}
use fastapi_production_api.Table.{add_row, update_where, count_where}
use fastapi_production_api.Models.{User, AccountActionToken, OutboxMessage}
use fastapi_production_api.World.{World, minutes}
use fastapi_production_api.Db.{Session, ok, err, database, request}
use fastapi_production_api.ActionTokens.{
  email_verification_purpose, has_purpose, open_for, consumed, user_by_email,
}
use fastapi_production_api.Outbox.{email_verification_message, new_message, enqueue_email_delivery}
use fastapi_production_api.EmailVerification.{issue_email_verification_token, awaits_verification}
use fastapi_production_api.ActionTokens.Laws.{count-open-replace}

-- The token row, by the number of the first reading.
abbrev pub issued_token : World → ℕ → User → String → AccountActionToken
issued_token w n user email = record {
  id = w.row_id (suc (suc n));
  user_id = user.id;
  purpose = email_verification_purpose;
  token_hash = w.sha256 (w.random (suc n));
  target = email;
  expires_at = w.clock n + minutes w.settings.email_verification_token_expire_minutes;
  consumed_at = none;
  created_at = w.clock (suc (suc (suc n)));
}

-- The message that asks for its delivery.
abbrev pub issued_message : World → ℕ → User → String → OutboxMessage
issued_message w n user email =
    new_message w (suc (suc (suc (suc n)))) email_verification_message
      (record {
        action_url = w.settings.email_verification_url;
        recipient = email;
        token = w.random (suc n);
      })
      (w.sha256 (w.random (suc n))) (issued_token w n user email).expires_at

module _ (w : World) (s : Session) (email : String) (user : User)
    (eligible : awaits_verification (user_by_email email s.committed) ≡ some user) where
  pub swept : List AccountActionToken
  swept =
      update_where (open_for user.id (has_purpose email_verification_purpose))
        (consumed (w.clock s.ticks)) s.committed.action_tokens

  issue_tokens :
      let (r, s') = request (issue_email_verification_token w email) s in
      ((r ≡ ok (some (email, w.random (suc s.ticks))))
        × (s'.committed.action_tokens ≡ add_row (issued_token w s.ticks user email) swept))
      ⊎ ((r ≡ err database) × (s'.committed ≡ s.committed))
  unfolding request issue_email_verification_token swept enqueue_email_delivery
  issue_tokens = ground arith

  -- For an eligible account, the issue of a token leaves one open token of the user for the purpose;
  -- or it reports the failure of the database, and nothing changes.
  pub verification_issue_leaves_one :
      let (r, s') = request (issue_email_verification_token w email) s in
      ((r ≡ ok (some (email, w.random (suc s.ticks))))
        × (count_where
              (open_for user.id (has_purpose email_verification_purpose))
              s'.committed.action_tokens
            ≡ 1))
      ⊎ ((r ≡ err database) × (s'.committed ≡ s.committed))
  unfolding swept
  verification_issue_leaves_one = elim issue_tokens [
    | inl done ↦ inl (
      done.0,
      rw done.1 (
          count-open-replace user.id (has_purpose email_verification_purpose) (w.clock s.ticks)
            (issued_token w s.ticks user email) s.committed.action_tokens (rw (==_refl user.id))
            (λ a b e. rw e)),
    )
    | inr failed ↦ inr failed
  ]

  -- In outbox mode and for an eligible account, the token and the message that carries it are
  -- committed together or not at all.
  pub verification_issue_is_atomic :
      (w.settings.email_delivery_mode == "outbox") ≡ true
      → let (r, s') = request (issue_email_verification_token w email) s in
        ((s'.committed.action_tokens ≡ add_row (issued_token w s.ticks user email) swept)
          × (s'.committed.outbox
              ≡ add_row (issued_message w s.ticks user email) s.committed.outbox))
        ⊎ (s'.committed ≡ s.committed)
  unfolding request issue_email_verification_token swept enqueue_email_delivery
  verification_issue_is_atomic mode = ground arith
