-- ===== src/Access/Register.antt =====
-- The route of src/app/auth/register.py.
use fastapi_production_api.Table.{add_row}
use fastapi_production_api.World.{World}
use fastapi_production_api.Models.{User}
use fastapi_production_api.Db.{Action, modify, pure, reading, transaction_or, ◌>>=◌, ◌>>◌, http}
use fastapi_production_api.Base.{true, none, Option, String, ℕ}

-- `User(username=..., password=..., email=...)` with the defaults of the model.
abbrev pub new_user : ℕ → String → String → Option String → User
new_user id username password email = record {
  id = id;
  username = username;
  password = password;
  password_login_enabled = true;
  role = "user";
  email = email;
  email_verified_at = none;
  mfa_secret_encrypted = none;
  mfa_enrollment_created_at = none;
  mfa_enabled_at = none;
  mfa_last_counter = none;
  is_active = true;
}

unfoldable pub register : World → String → String → Option String → Action User
register w username password email = do
  hashed_password ← reading (λ n. w.hash_password n password)
  id ← reading w.row_id
  let db_user = new_user id username hashed_password email
  transaction_or w (http 409 "Username or email is already registered")
      (modify (λ db. record db { users = add_row db_user db.users }))
  pure db_user
