-- ===== src/Examples/Oidc.antt =====
-- Runs of the OpenID Connect service.
use fastapi_production_api.Oidc.Links.{unlink_external_identity}
use fastapi_production_api.World.{second}
use fastapi_production_api.Oidc.FreeNames.{new_username_is_found}
use fastapi_production_api.Oidc.Usernames.{is_taken, new_username}
use fastapi_production_api.Oidc.Identities.{identity_for_login}
use fastapi_production_api.Table.{count_where, first, add_row, update_where}
use fastapi_production_api.Oidc.Reuse.{callback_once, here}
use fastapi_production_api.Examples.Data.{alice, sample_database, sample_world}
use fastapi_production_api.Oidc.Accounts.{SignsIn, identity_for_login-SignsIn}
use fastapi_production_api.Db.{Result, Session, request, ok}
use fastapi_production_api.Oidc.Complete.{
  OidcCallbackResult, complete_oidc_authorization, tokens, settle_login, oidc_session,
}
use fastapi_production_api.Oidc.Interface.{IdClaims, OidcMetadata, Provider}
use fastapi_production_api.Oidc.Once.{HasCompleted, callback_effect}
use fastapi_production_api.Models.{Database, ExternalIdentity, OidcTransaction, User}
use fastapi_production_api.Oidc.SignIn.{CanSignIn, IsKeyed, unlink_keeps_sign_in}
use fastapi_production_api.Base.{
  String, none, some, ◌≡◌, ◌≢◌, ◌*◌, refl, true, false, nat_eq, string_eq, [], ◌∷◌, arith, inr,
}

abbrev sample_metadata : OidcMetadata
sample_metadata = record {
  issuer = "https://issuer";
  authorization_endpoint = "https://issuer/authorize";
  token_endpoint = "https://issuer/token";
  jwks_uri = "https://issuer/jwks";
}

abbrev pub sample_claims : IdClaims
sample_claims = record {
  sub = some "subject";
  nonce = some "draw";
  email = some "dave@example.com";
  email_verified = true;
}

abbrev sample_provider : Provider
sample_provider = record {
  discover = λ n. some sample_metadata;
  exchange_code = λ n m code verifier uri. some "id token";
  validate_id_token = λ n m t. some sample_claims;
}

abbrev open_transaction : OidcTransaction
open_transaction = record {
  id = 40;
  state_hash = "state";
  browser_binding_hash = "binding";
  nonce_hash = "draw";
  code_verifier_encrypted = "verifier";
  intent = "login";
  user_id = none;
  issuer = "https://issuer";
  redirect_uri = "https://app/callback";
  device_name = "laptop";
  expires_at = 9000 * second;
  consumed_at = none;
  created_at = 3;
}

abbrev waiting_database : Database
waiting_database = record sample_database { oidc_transactions = open_transaction ∷ [] }

abbrev waiting_session : Session
waiting_session = record { committed = waiting_database; view = waiting_database; ticks = 0 }

abbrev called_back : Result OidcCallbackResult × Session
called_back =
    request
      (complete_oidc_authorization sample_world sample_provider "state" "code" (some "binding"))
      waiting_session

abbrev dave_tokens : OidcCallbackResult
dave_tokens =
    tokens
      (record { access_token = "dave-https://issu"; refresh_token = "draw"; token_type = "bearer" })

callback_effect_example :
    (t : OidcTransaction) × HasCompleted sample_world sample_provider waiting_session "state" "code"
      (some "binding")
      dave_tokens
      t
      called_back.1.committed
unfolding request complete_oidc_authorization first settle_login oidc_session add_row update_where
callback_effect_example =
    callback_effect sample_world sample_provider "state" "code" (some "binding") waiting_session
      dave_tokens refl

callback_once_example :
    (request
      (complete_oidc_authorization sample_world sample_provider "state" "another" (some "binding"))
      called_back.1).0
    ≢ ok dave_tokens
unfolding request complete_oidc_authorization first settle_login oidc_session add_row update_where
callback_once_example =
    callback_once sample_world sample_provider "state" "code" "another" (some "binding")
      (some "binding") waiting_session called_back.1 dave_tokens dave_tokens refl here

-- A user whose name is the first that the search tries.
abbrev dave : User
dave = record alice {
  id = 4;
  username = "dave-https://issu";
  email = none;
  password_login_enabled = false;
}

new_username_is_found_example :
    (name : String) × (new_username sample_world "dave@example.com" "https://issuer" "subject"
        (alice ∷ dave ∷ [])
      ≡ some name)
    × (is_taken (alice ∷ dave ∷ []) name ≡ false)
new_username_is_found_example =
    new_username_is_found sample_world "dave@example.com" "https://issuer" "subject"
      (alice ∷ dave ∷ [])

abbrev dave_identity : ExternalIdentity
dave_identity = record {
  id = 50;
  user_id = 4;
  issuer = "https://issuer";
  subject = "subject";
  email = some "dave@example.com";
  created_at = 3;
  last_login_at = none;
}

abbrev linked_database : Database
linked_database = record sample_database {
  users = alice ∷ dave ∷ [];
  external_identities = dave_identity ∷ [];
}

abbrev linked_session : Session
linked_session = record { committed = linked_database; view = linked_database; ticks = 0 }

identity_for_login-SignsIn_example :
    SignsIn sample_world "https://issuer" "subject" sample_claims linked_database dave_identity dave
unfolding identity_for_login first
identity_for_login-SignsIn_example =
    identity_for_login-SignsIn sample_world "https://issuer" "subject" sample_claims linked_session
      dave_identity dave refl

keyed : IsKeyed linked_database.external_identities
unfolding count_where
keyed k = ground arith

unlink_keeps_sign_in_example :
    CanSignIn 4 (request (unlink_external_identity sample_world 50 4) linked_session).1.committed
unfolding count_where
unlink_keeps_sign_in_example =
    unlink_keeps_sign_in sample_world 50 4 linked_session keyed (inr (omega arith))
