-- ===== src/Oidc/Exchange.antt =====
-- The exchange of a code for the claims of an ID token, when it succeeds.
use fastapi_production_api.World.{World}
use fastapi_production_api.Oidc.Complete.{decrypt_code_verifier, exchange_claims}
use fastapi_production_api.Oidc.Interface.{IdClaims, OidcMetadata, Provider}
use fastapi_production_api.Models.{OidcTransaction}
use fastapi_production_api.Db.{Session, ok}
use fastapi_production_api.Base.{
  String, ℕ, suc, some, ◌≡◌, arith, nat_eq, string_eq, Option-cases, inl, inr, ap, sym, ◌∙◌,
}

-- The answers of the provider from which the claims come: the code is exchanged with the verifier of
-- the transaction, and the ID token of that exchange is validated. The readings are numbered.
pub record HasClaims (w : World) (provider : Provider) (t : OidcTransaction) (code : String)
    (metadata : OidcMetadata) (claims : IdClaims) : Type 0 where
  pub discovered_at : ℕ
  pub discovered : provider.discover discovered_at ≡ some metadata
  pub verifier : String
  pub decrypted : w.decrypt_verifier t.code_verifier_encrypted ≡ some verifier
  pub exchanged_at : ℕ
  pub id_token : String
  pub exchanged :
      provider.exchange_code exchanged_at metadata code verifier t.redirect_uri ≡ some id_token
  pub validated_at : ℕ
  pub validated : provider.validate_id_token validated_at metadata id_token ≡ some claims

pub exchange_claims_ok :
    (w : World) (provider : Provider) (t : OidcTransaction) (code : String) (s : Session)
    (metadata : OidcMetadata) (claims : IdClaims)
    → (exchange_claims w provider t code s).0 ≡ ok (metadata, claims)
    → HasClaims w provider t code metadata claims
      × ((exchange_claims w provider t code s).1.view ≡ s.view)
unfolding exchange_claims decrypt_code_verifier
exchange_claims_ok w provider t code s metadata claims e =
    elim (Option-cases (provider.discover s.ticks)) [
      | inl lost ↦ absurd (ground arith)
      | inr (m, discovered) ↦ elim (Option-cases (w.decrypt_verifier t.code_verifier_encrypted)) [
        | inl garbled ↦ absurd (ground arith)
        | inr (verifier, decrypted) ↦
            elim (Option-cases
              (provider.exchange_code (suc s.ticks) m code verifier t.redirect_uri)) [
                | inl refused ↦ absurd (ground arith)
                | inr (id_token, exchanged) ↦
                    elim (Option-cases
                      (provider.validate_id_token (suc (suc s.ticks)) m id_token)) [
                        | inl invalid ↦ absurd (ground arith)
                        | inr (c, validated) ↦
                            let kept : (exchange_claims w provider t code s).1.view ≡ s.view =
                              ground arith in
                            let is_m : m ≡ metadata = ground arith in
                            let is_c : c ≡ claims = ground arith in
                            (
                              record {
                                discovered_at = s.ticks;
                                discovered = discovered ∙ ap some is_m;
                                verifier = verifier;
                                decrypted = decrypted;
                                exchanged_at = suc s.ticks;
                                id_token = id_token;
                                exchanged =
                                    ap
                                      (λ x.
                                        provider.exchange_code (suc s.ticks) x code verifier
                                          t.redirect_uri)
                                      (sym is_m)
                                    ∙ exchanged;
                                validated_at = suc (suc s.ticks);
                                validated =
                                    ap
                                      (λ x.
                                        provider.validate_id_token (suc (suc s.ticks)) x id_token)
                                      (sym is_m)
                                    ∙ validated
                                    ∙ ap some is_c;
                              },
                              kept,
                            )
                      ]
              ]
      ]
    ]
