-- ===== src/Examples/Accounts.antt =====
-- Runs of the account tokens and of the TOTP check.
use fastapi_production_api.Routes.Answers.{IsRefused, request_password_reset_answers}
use fastapi_production_api.Routes.{request_password_reset, reset_accepted}
use fastapi_production_api.Mfa.Challenge.{verify_mfa_login_challenge}
use fastapi_production_api.Mfa.Laws.{
  HasVerified, verify_mfa_login_challenge_effect, verify_mfa_login_challenge_once,
}
use fastapi_production_api.EmailVerification.Issue.{
  verification_issue_is_atomic, verification_issue_leaves_one,
}
use fastapi_production_api.World.{second}
use fastapi_production_api.PasswordReset.Issue.{reset_issue_is_atomic, reset_issue_leaves_one}
use fastapi_production_api.Mfa.Factors.{matching_totp_counter, match_counter}
use fastapi_production_api.Sessions.{Token}
use fastapi_production_api.ActionTokens.{
  find_action_token, has_purpose, password_reset_purpose, user_by_email, has_mfa_purpose, is_spent,
}
use fastapi_production_api.PasswordReset.{
  confirm_password_reset, issue_password_reset_token, may_reset,
}
use fastapi_production_api.EmailVerification.Laws.{confirm_email_verification_once}
use fastapi_production_api.Examples.Data.{
  alice, bob, sample_session, sample_world, reset_token, sample_database,
}
use fastapi_production_api.Table.{add_row, first, update_where}
use fastapi_production_api.Db.{Session, request, ok, err, database}
use fastapi_production_api.PasswordReset.Laws.{
  HasReset, confirm_password_reset_effect, confirm_password_reset_once,
}
use fastapi_production_api.Mfa.Counters.{HasPassed, matching_totp_counter-HasPassed}
use fastapi_production_api.Models.{AccountActionToken, User, Database}
use fastapi_production_api.Base.{refl, ◌*◌, false, some, ◌≡◌, ◌≢◌, ◌⊎◌, [], ◌∷◌}
use fastapi_production_api.ActionTokens.Laws.{here}
use fastapi_production_api.EmailVerification.{
  issue_email_verification_token, confirm_email_verification, awaits_verification,
}

abbrev confirmed : Session
confirmed = (request (confirm_email_verification sample_world "verify me") sample_session).1

abbrev was_reset : Session
was_reset =
    (request (confirm_password_reset sample_world "reset me" "new password") sample_session).1

confirm_email_verification_once_example :
    (request (confirm_email_verification sample_world "verify me") confirmed).0 ≢ ok tt
unfolding request confirm_email_verification first
confirm_email_verification_once_example =
    confirm_email_verification_once sample_world sample_session confirmed "verify me" refl here

confirm_password_reset_once_example :
    (request (confirm_password_reset sample_world "reset me" "another") was_reset).0 ≢ ok tt
unfolding request confirm_password_reset first
confirm_password_reset_once_example =
    confirm_password_reset_once sample_world sample_session was_reset "reset me" "new password"
      "another" refl here

confirm_password_reset_effect_example :
    (t : AccountActionToken) × (u : User) × (find_action_token "reset me"
        (has_purpose password_reset_purpose)
        sample_session.committed
      ≡ some t)
    × HasReset sample_world sample_session "reset me" "new password" t u was_reset.committed
unfolding request confirm_password_reset first
confirm_password_reset_effect_example =
    confirm_password_reset_effect sample_world sample_session "reset me" "new password" refl

bob_awaits :
    awaits_verification (user_by_email "bob@example.com" sample_session.committed) ≡ some bob
unfolding first
bob_awaits = refl

alice_may : may_reset (user_by_email "alice@example.com" sample_session.committed) ≡ some alice
unfolding first
alice_may = refl

verification_issue_is_atomic_example :
    let (r, s') =
      request (issue_email_verification_token sample_world "bob@example.com") sample_session in
    ((s'.committed.action_tokens
        ≡ add_row
            (fastapi_production_api.EmailVerification.Issue.issued_token sample_world 0 bob
              "bob@example.com")
            (fastapi_production_api.EmailVerification.Issue.swept sample_world sample_session
              "bob@example.com" bob bob_awaits))
      × (s'.committed.outbox
          ≡ add_row
              (fastapi_production_api.EmailVerification.Issue.issued_message sample_world 0 bob
                "bob@example.com")
              sample_session.committed.outbox))
    ⊎ (s'.committed ≡ sample_session.committed)
unfolding first
verification_issue_is_atomic_example =
    verification_issue_is_atomic sample_world sample_session "bob@example.com" bob bob_awaits refl

reset_issue_is_atomic_example :
    let (r, s') =
      request (issue_password_reset_token sample_world "alice@example.com") sample_session in
    ((s'.committed.action_tokens
        ≡ add_row
            (fastapi_production_api.PasswordReset.Issue.issued_token sample_world 0 alice
              "alice@example.com")
            (fastapi_production_api.PasswordReset.Issue.swept sample_world sample_session
              "alice@example.com" alice alice_may))
      × (s'.committed.outbox
          ≡ add_row
              (fastapi_production_api.PasswordReset.Issue.issued_message sample_world 0 alice
                "alice@example.com")
              sample_session.committed.outbox))
    ⊎ (s'.committed ≡ sample_session.committed)
unfolding first
reset_issue_is_atomic_example =
    reset_issue_is_atomic sample_world sample_session "alice@example.com" alice alice_may refl

matching_totp_counter-HasPassed_example : HasPassed sample_world alice "123456" (1000 * second) 33
unfolding matching_totp_counter match_counter
matching_totp_counter-HasPassed_example =
    matching_totp_counter-HasPassed sample_world alice "123456" (1000 * second) sample_session 33
      refl

-- An account with a second factor, in the middle of a login.
abbrev carol : User
carol = record alice { id = 3; username = "carol"; mfa_enabled_at = some 5 }

abbrev login_challenge : AccountActionToken
login_challenge = record reset_token {
  id = 22;
  user_id = 3;
  purpose = "mfa_login";
  token_hash = "challenge";
  target = "phone";
}

abbrev mfa_database : Database
mfa_database = record sample_database { users = carol ∷ []; action_tokens = login_challenge ∷ [] }

abbrev mfa_session : Session
mfa_session = record { committed = mfa_database; view = mfa_database; ticks = 0 }

abbrev exchanged : Session
exchanged = (request (verify_mfa_login_challenge sample_world "challenge" "123456") mfa_session).1

abbrev issued_tokens : Token
issued_tokens = record { access_token = "carol"; refresh_token = "draw"; token_type = "bearer" }

verify_mfa_login_challenge_effect_example :
    (t : AccountActionToken) × (find_action_token "challenge" has_mfa_purpose mfa_database ≡ some t)
    × (is_spent t (1000 * second) ≡ false)
    × HasVerified sample_world mfa_session t "123456" (1000 * second) exchanged.committed
unfolding request verify_mfa_login_challenge first match_counter update_where
verify_mfa_login_challenge_effect_example =
    verify_mfa_login_challenge_effect sample_world mfa_session "challenge" "123456" issued_tokens
      refl

verify_mfa_login_challenge_once_example :
    (request (verify_mfa_login_challenge sample_world "challenge" "123456") exchanged).0
    ≢ ok issued_tokens
unfolding request verify_mfa_login_challenge first match_counter update_where
verify_mfa_login_challenge_once_example =
    verify_mfa_login_challenge_once sample_world mfa_session exchanged "challenge" "123456" "123456"
      issued_tokens issued_tokens refl here

request_password_reset_answers_example :
    let answer =
      (request (request_password_reset sample_world false "alice@example.com") sample_session).0 in
    (answer ≡ ok reset_accepted)
    ⊎ ((answer ≡ err database)
        × (user : User) × (may_reset (user_by_email "alice@example.com" sample_session.committed)
            ≡ some user)
        × IsRefused sample_world sample_session)
request_password_reset_answers_example =
    request_password_reset_answers sample_world false "alice@example.com" sample_session
