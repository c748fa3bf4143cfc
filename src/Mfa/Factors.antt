-- ===== src/Mfa/Factors.antt =====
-- The checks and the helpers of src/app/services/mfa.py: availability, the locked user, the TOTP
-- counter, recovery codes, revocation.
use Prim.Native.String.{count}
use fastapi_production_api.Base.{
  ℕ, zero, suc, ◌/◌, String, Bool, true, false, not, ◌&&◌, Option, none, some, List, [], ◌∷◌, ◌==◌,
  nat_eq, string_eq, if◌then◌else◌, leb, is_none,
}
use fastapi_production_api.Table.{first, update_where, delete_where, add_row}
use fastapi_production_api.Models.{User, MfaRecoveryCode, Database}
use fastapi_production_api.World.{World, second}
use fastapi_production_api.Db.{
  Action, http, value_error, pure, raise, raise_if, gets, modify, or_raise, reading, ◌>>=◌, ◌>>◌,
}
use fastapi_production_api.Tokens.{now}
use fastapi_production_api.Sessions.{
  user_by_id, or_inactive, update_tokens, live_of_user, revoke_values,
}

abbrev pub invalid_factor_detail : String
invalid_factor_detail = "Invalid MFA credential"

abbrev pub invalid_challenge_detail : String
invalid_challenge_detail = "Invalid or expired MFA challenge"

-- `_require_available`
unfoldable pub require_available : World → Action (Unit {0})
require_available w =
    raise_if (not (w.settings.mfa_enabled && w.mfa_key_valid)) (http 503 "MFA is not available")

unfoldable pub encrypt_secret : World → String → Action String
unfolding require_available
encrypt_secret w secret = do require_available w; reading (λ n. w.encrypt_secret n secret)

unfoldable pub decrypt_secret : World → String → Action String
unfolding require_available
decrypt_secret w encrypted = do
  require_available w
  or_raise (w.decrypt_secret encrypted) (http 503 "MFA is not available")

-- `_lock_user`
unfoldable pub lock_user : ℕ → Action User
lock_user user_id = do
  or_raise (or_inactive (← gets (user_by_id user_id))) (http 401 invalid_factor_detail)

-- `_verify_current_password`
unfoldable pub verify_current_password : World → User → String → Action (Unit {0})
verify_current_password w user password =
    raise_if (not (w.verify_password password user.password)) (http 401 invalid_factor_detail)

-- The loop over the offsets: the first counter whose password is the code decides.
unfoldable pub match_counter :
    (String → String → Bool) → (ℕ → String) → String → Option ℕ → List ℕ → Option ℕ
match_counter strings_equal otp code last [] = none
match_counter strings_equal otp code last (counter ∷ counters) =
    if strings_equal (otp counter) code
    then elim last [ none ↦ some counter | some l ↦ if leb counter l then none else some counter ]
    else match_counter strings_equal otp code last counters

-- The three counters about the present one. pyotp refuses a negative counter with a ValueError.
abbrev pub counters_around : ℕ → Action (List ℕ)
counters_around zero = raise (value_error "input must be positive integer")
counters_around (suc c) = pure (c ∷ suc c ∷ suc (suc c) ∷ [])

-- `not user.mfa_secret_encrypted`: none, or the empty text.
abbrev pub stored_secret : User → Option String
stored_secret u = elim u.mfa_secret_encrypted [
  | none ↦ none
  | some t ↦ if t == "" then none else some t
]

-- `code.isdigit() and len(code) == 6`
abbrev pub is_totp_code : World → String → Bool
is_totp_code w code = w.isdigit code && count code == 6

unfoldable pub match_secret : World → Option String → User → String → ℕ → Action (Option ℕ)
unfolding decrypt_secret
match_secret w none user code at = pure none
match_secret w (some encrypted) user code at = do
  secret ← decrypt_secret w encrypted
  counters ← counters_around ((at / second) / 30)
  pure (match_counter w.strings_equal (w.generate_otp secret) code user.mfa_last_counter counters)

-- `_matching_totp_counter`
unfoldable pub matching_totp_counter : World → User → String → ℕ → Action (Option ℕ)
unfolding match_secret
matching_totp_counter w user code at =
    match_secret w (if is_totp_code w code then stored_secret user else none) user code at

-- `_hash_recovery_code`; a code that does not encode as ASCII raises UnicodeEncodeError.
abbrev pub hash_recovery_code : World → String → Option String
hash_recovery_code w code =
    let normalized = w.normalize_recovery_code code in
    if w.is_ascii normalized then some (w.sha256 normalized) else none

-- `_new_recovery_codes`
unfoldable pub new_recovery_codes : World → ℕ → Action (List String)
new_recovery_codes w zero = pure []
new_recovery_codes w (suc n) = do
  code ← reading w.new_recovery_code
  codes ← new_recovery_codes w n
  pure (code ∷ codes)

abbrev pub code_row : World → ℕ → String → ℕ → ℕ → MfaRecoveryCode
code_row w user_id code id at = record {
  id = id;
  user_id = user_id;
  code_hash = w.sha256 (w.normalize_recovery_code code);
  created_at = at;
  used_at = none;
}

unfoldable pub add_recovery_codes : World → ℕ → List String → Action (Unit {0})
add_recovery_codes w user_id [] = pure tt
add_recovery_codes w user_id (code ∷ codes) = do
  id ← reading w.row_id
  at ← now w
  modify
      λ db. record db { recovery_codes = add_row (code_row w user_id code id at) db.recovery_codes }
  add_recovery_codes w user_id codes

abbrev pub delete_recovery_codes : ℕ → Database → Database
delete_recovery_codes user_id db = record db {
  recovery_codes = delete_where (λ c. c.user_id == user_id) db.recovery_codes;
}

-- `_replace_recovery_codes`
unfoldable pub replace_recovery_codes : World → ℕ → Action (List String)
replace_recovery_codes w user_id = do
  codes ← new_recovery_codes w w.settings.mfa_recovery_code_count
  modify (delete_recovery_codes user_id)
  add_recovery_codes w user_id codes
  pure codes

abbrev pub unused_code : ℕ → String → MfaRecoveryCode → Bool
unused_code user_id code_hash c =
    c.user_id == user_id && (c.code_hash == code_hash && is_none c.used_at)

abbrev pub use_code : ℕ → ℕ → Database → Database
use_code id at db = record db {
  recovery_codes =
      update_where (λ c. c.id == id) (λ c. record c { used_at = some at }) db.recovery_codes;
}

abbrev pub mark_used : Option MfaRecoveryCode → ℕ → Action Bool
mark_used none at = pure false
mark_used (some recovery) at = do modify (use_code recovery.id at); pure true

-- The query by the hash, if there is one.
abbrev pub find_code : ℕ → Option String → Database → Option MfaRecoveryCode
find_code user_id none db = none
find_code user_id (some code_hash) db = first (unused_code user_id code_hash) db.recovery_codes

-- `_consume_recovery_code`
unfoldable pub consume_recovery_code : World → ℕ → String → ℕ → Action Bool
consume_recovery_code w user_id code at = do
  recovery ← gets (find_code user_id (hash_recovery_code w code))
  mark_used recovery at

-- `_revoke_sessions`
unfoldable pub revoke_sessions : ℕ → ℕ → String → Action (Unit {0})
revoke_sessions user_id at reason =
    modify (update_tokens (live_of_user user_id) (revoke_values at reason))
