-- ===== src/Routes/Answers.antt =====
-- What the routes for lost passwords and unverified addresses tell a caller.
use fastapi_production_api.Routes.{
  cannot_send, request_password_reset, reset_accepted, send_quietly,
}
use fastapi_production_api.Db.Chains.{bind_step, bind_stop}
use fastapi_production_api.ActionTokens.{insert_action_token, user_by_email}
use fastapi_production_api.Outbox.{enqueue_email_delivery}
use fastapi_production_api.World.{World}
use fastapi_production_api.Models.{Database, User}
use fastapi_production_api.PasswordReset.{
  issue_for, store_reset_token, issue_password_reset_token, may_reset,
}
use fastapi_production_api.Db.{
  ok, err, database, Session, pure, ◌>>=◌, ◌>>◌, Action, request, rollback,
}
use fastapi_production_api.Base.{
  ◌≡◌, ◌⊎◌, inl, inr, refl, arith, String, Bool, true, false, Option, none, some, ap, ◌∙◌,
  Bool-cases, Option-cases, suc, if◌then◌else◌,
}

-- The database has refused the tables that the request leads to.
abbrev pub IsRefused : World → Session → Type 0
IsRefused w s = (db : Database) × (db.users ≡ s.committed.users) × (w.accepts db ≡ false)

issue_for-some :
    (w : World) (user : User) (email : String) (s : Session)
    → s.view ≡ s.committed
    → ((issue_for w (some user) email s).0 ≡ ok (some (email, w.random (suc s.ticks))))
      ⊎ (((issue_for w (some user) email s).0 ≡ err database) × IsRefused w s)
unfolding issue_for store_reset_token insert_action_token enqueue_email_delivery
issue_for-some w user email s same =
    let stored =
      store_reset_token w user email (w.clock s.ticks) (w.random (suc s.ticks))
        (record s { ticks = suc (suc s.ticks) }) in
    elim (Bool-cases (w.accepts stored.1.view)) [
      | inl taken ↦ inl (ground arith)
      | inr refused ↦ inr (ground arith, (stored.1.view, ground arith, refused))
    ]

abbrev accepting : World → Bool → String → Option (String × String) → Action String
accepting w has_sender url delivery = send_quietly w has_sender url delivery >> pure reset_accepted

accepting-reset_accepted :
    (w : World) (has_sender : Bool) (url : String) (delivery : Option (String × String))
    (s : Session)
    → (accepting w has_sender url delivery s).0 ≡ ok reset_accepted
accepting-reset_accepted w has_sender url none s = refl
accepting-reset_accepted w false url (some delivery) s = refl
accepting-reset_accepted w true url (some delivery) s = refl

-- A request to reset a password gets the same answer whatever address it names, whether an account
-- has the address or not and whether the mail can be sent. Only where an account with the address
-- may reset its password can it be another: the failure of the database, which has then refused
-- tables with the users as they were.
pub request_password_reset_answers :
    (w : World) (has_sender : Bool) (email : String) (s : Session)
    → let answer = (request (request_password_reset w has_sender email) s).0 in
      (answer ≡ ok reset_accepted)
      ⊎ ((answer ≡ err database)
          × (user : User) × (may_reset (user_by_email email s.committed) ≡ some user)
          × IsRefused w s)
unfolding request request_password_reset issue_password_reset_token
request_password_reset_answers w has_sender email s = elim (Bool-cases (cannot_send w has_sender)) [
  | inl mute ↦ inl (ap (λ b. ((if b then pure reset_accepted else issued) began).0) mute)
  | inr able ↦
      let chosen = ap (λ b. ((if b then pure reset_accepted else issued) began).0) able in
      elim (Option-cases (may_reset (user_by_email email s.committed))) [
        | inl nobody ↦ inl (
            chosen
            ∙ ap (λ x. x.0) (bind_step issue go_on began none (of_user nobody))
            ∙ accepting-reset_accepted w has_sender w.settings.password_reset_url none
                (issue began).1)
        | inr (user, eligible) ↦ elim (issue_for-some w user email began refl) [
          | inl given ↦
              let delivery = some (email, w.random (suc s.ticks)) in
              inl (
                chosen
                ∙ ap (λ x. x.0) (bind_step issue go_on began delivery (of_user eligible ∙ given))
                ∙ accepting-reset_accepted w has_sender w.settings.password_reset_url delivery
                    (issue began).1)
          | inr (failed, refused) ↦ inr (
            chosen
                ∙ ap (λ x. x.0) (bind_stop issue go_on began database (of_user eligible ∙ failed)),
            user,
            eligible,
            refused,
          )
        ]
      ]
]
  where
    began : Session
    began = rollback s

    issue : Action (Option (String × String))
    issue = issue_password_reset_token w email

    of_user :
        {o : Option User}
        → may_reset (user_by_email email s.committed) ≡ o
        → (issue began).0 ≡ (issue_for w o email began).0
    of_user e = ap (λ u. (issue_for w u email began).0) e

    go_on : Option (String × String) → Action String
    go_on = accepting w has_sender w.settings.password_reset_url

    issued : Action String
    issued = issue >>= go_on
