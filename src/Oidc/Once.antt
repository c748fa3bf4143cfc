-- ===== src/Oidc/Once.antt =====
-- A transaction of the table oidc_transactions is good for one callback.

use fastapi_production_api.Oidc.Exchange.{HasClaims, exchange_claims_ok}
use fastapi_production_api.Oidc.Frames.{settle-transactions}
use fastapi_production_api.Oidc.Identities.{invalid_transaction}
use fastapi_production_api.Oidc.Begin.{hash_secret, require_oidc_available}
use fastapi_production_api.Db.Chains.{bind_ok, transaction_or_ok}
use fastapi_production_api.World.{World}
use fastapi_production_api.Oidc.Complete.{
  OidcCallbackResult, bound_subject, complete_oidc_authorization, consume_transaction,
  exchange_claims, find_transaction, is_unusable, settle, usable_binding,
}
use fastapi_production_api.Oidc.Interface.{IdClaims, OidcMetadata, Provider}
use fastapi_production_api.Models.{Database, OidcTransaction}
use fastapi_production_api.Db.{
  ◌>>=◌, Action, Result, Session, or_abort, request, rollback, transaction_or, ok, http,
}
use fastapi_production_api.Base.{
  String, ℕ, suc, Option, some, ◌≡◌, arith, ◌∙◌, false, nat_eq, string_eq, Option-cases, Bool-cases,
  inl, inr, ap, sym, subst,
}

-- What a successful callback has found, checked and stored.
pub record HasCompleted (w : World) (provider : Provider) (s : Session) (state code : String)
    (browser_binding : Option String) (r : OidcCallbackResult) (t : OidcTransaction)
    (after : Database) : Type 0 where
  pub found : find_transaction (w.sha256 state) s.committed ≡ some t
  pub binding : String
  pub presented : usable_binding state code browser_binding ≡ some binding
  pub usable : is_unusable w t (w.clock s.ticks) (w.sha256 binding) ≡ false
  pub metadata : OidcMetadata
  pub claims : IdClaims
  pub answered : HasClaims w provider t code metadata claims
  pub subject : String
  pub bound : bound_subject w t claims.sub claims.nonce ≡ some subject
  pub began : Session
  pub unchanged : began.view ≡ s.committed
  pub settled : (settle w t metadata.issuer subject claims (w.clock s.ticks) began).0 ≡ ok r
  pub committed : after ≡ (settle w t metadata.issuer subject claims (w.clock s.ticks) began).1.view
  pub stored :
      after.oidc_transactions
      ≡ (consume_transaction t (w.clock s.ticks) s.committed).oidc_transactions

module _ (w : World) (t : OidcTransaction) (at : ℕ) where
  abbrev redeem_subject : OidcMetadata → IdClaims → String → Action OidcCallbackResult
  redeem_subject metadata claims subject =
      transaction_or w (http 409 "External identity could not be linked")
        (settle w t metadata.issuer subject claims at)

  abbrev redeem : OidcMetadata × IdClaims → Action OidcCallbackResult
  redeem (metadata, claims) =
      or_abort (bound_subject w t claims.sub claims.nonce) (http 400 invalid_transaction)
      >>= redeem_subject metadata claims

  -- What is settled of a subject, and the tables after it.
  pub record HasSettled (metadata : OidcMetadata) (claims : IdClaims) (s : Session)
      (r : OidcCallbackResult) (after : Database) : Type 0 where
    pub subject : String
    pub bound : bound_subject w t claims.sub claims.nonce ≡ some subject
    pub settled : (settle w t metadata.issuer subject claims at s).0 ≡ ok r
    pub committed : after ≡ (settle w t metadata.issuer subject claims at s).1.view

  redeem_ok :
      (metadata : OidcMetadata) (claims : IdClaims) (s : Session) (r : OidcCallbackResult)
      → (redeem (metadata, claims) s).0 ≡ ok r
      → HasSettled metadata claims s r (redeem (metadata, claims) s).1.committed
  redeem_ok metadata claims s r e =
      elim (Option-cases (bound_subject w t claims.sub claims.nonce)) [
        | inl unbound ↦ absurd (ground arith)
        | inr (subject, bound) ↦
            let (done, stored, seen) =
              transaction_or_ok w (http 409 "External identity could not be linked")
                (settle w t metadata.issuer subject claims at) s r (simp bound at e) in
            record {
              subject = subject;
              bound = bound;
              settled = done;
              committed = simp bound stored;
            }
      ]

  exchanged_ok :
      (provider : Provider) (code : String) (s : Session) (r : OidcCallbackResult)
      → ((exchange_claims w provider t code >>= redeem) s).0 ≡ ok r
      → (metadata : OidcMetadata) × (claims : IdClaims) × (began : Session) × HasClaims w provider t
          code metadata claims
        × (began.view ≡ s.view)
        × HasSettled metadata claims began r
            ((exchange_claims w provider t code >>= redeem) s).1.committed
  exchanged_ok provider code s r e =
      let exchange = exchange_claims w provider t code in
      let (got, exchanged, redeemed, whole) = bind_ok exchange redeem s r e in
      let (answered, same) = exchange_claims_ok w provider t code s got.0 got.1 exchanged in
      (
        got.0,
        got.1,
        (exchange s).1,
        answered,
        same,
        subst
            (λ (x : Result OidcCallbackResult × Session).
              HasSettled got.0 got.1 (exchange s).1 r x.1.committed)
            (sym whole) (redeem_ok got.0 got.1 (exchange s).1 r redeemed),
      )

settled-transactions :
    (w : World) (t : OidcTransaction) (at : ℕ) (db : Database) (metadata : OidcMetadata)
    (claims : IdClaims) (began : Session) (subject : String) (after : Database)
    → began.view ≡ db
    → after ≡ (settle w t metadata.issuer subject claims at began).1.view
    → after.oidc_transactions ≡ (consume_transaction t at db).oidc_transactions
settled-transactions w t at db metadata claims began subject after same committed =
    ap (λ d. d.oidc_transactions) committed
    ∙ settle-transactions w t metadata.issuer subject claims at began
    ∙ ap (λ d. (consume_transaction t at d).oidc_transactions) same

module _ (w : World) (provider : Provider) (state code : String)
    (browser_binding : Option String) where
  -- A callback that succeeds has presented a state, a code and the binding of the browser that
  -- began; the state's transaction was unused, unexpired, of the configured issuer and redirect
  -- URI and bound to that browser; the provider's metadata, the exchange of this code with the
  -- transaction's verifier, and the validation of the ID token that the exchange gave all
  -- succeeded; the nonce of that token is the transaction's and its subject is neither empty nor too
  -- long; the result and the stored tables are what the settlement of that issuer, subject and
  -- claims gives; and the transaction is marked as used, its table being as before otherwise.
  pub callback_effect :
      (s : Session) (r : OidcCallbackResult)
      → (request (complete_oidc_authorization w provider state code browser_binding) s).0 ≡ ok r
      → (t : OidcTransaction) × HasCompleted w provider s state code browser_binding r t
          (request
            (complete_oidc_authorization w provider state code browser_binding)
            s).1.committed
  unfolding request complete_oidc_authorization require_oidc_available hash_secret
  callback_effect s r e = elim (Bool-cases w.settings.oidc_enabled) [
    | inr off ↦ absurd (ground arith)
    | inl on ↦ elim (Bool-cases w.oidc_key_valid) [
      | inr keyless ↦ absurd (ground arith)
      | inl keyed ↦ elim (Option-cases (usable_binding state code browser_binding)) [
        | inl empty ↦ absurd (ground arith)
        | inr (binding, presented) ↦
            elim (Option-cases (find_transaction (w.sha256 state) s.committed)) [
              | inl missing ↦ absurd (ground arith)
              | inr (t, found) ↦
                  elim (Bool-cases (is_unusable w t (w.clock s.ticks) (w.sha256 binding))) [
                    | inl unusable ↦ absurd (ground arith)
                    | inr usable ↦
                        let start = record (rollback s) { ticks = suc s.ticks } in
                        let (metadata, claims, began, answered, same, end) =
                          exchanged_ok w t (w.clock s.ticks) provider code start r
                            (simp (on, keyed, presented, found, usable) at e) in
                        (
                          t,
                          record {
                            found = found;
                            binding = binding;
                            presented = presented;
                            usable = usable;
                            metadata = metadata;
                            claims = claims;
                            answered = answered;
                            subject = end.subject;
                            bound = end.bound;
                            began = began;
                            unchanged = same;
                            settled = end.settled;
                            committed = simp (on, keyed, presented, found, usable) end.committed;
                            stored =
                                simp (on, keyed, presented, found, usable)
                                  (settled-transactions w t (w.clock s.ticks) s.committed metadata
                                    claims began end.subject _ same end.committed);
                          },
                        )
                  ]
            ]
      ]
    ]
  ]
