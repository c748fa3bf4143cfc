-- ===== src/Mfa/Counters.antt =====
-- Which TOTP counter is accepted: one in the window whose password is the code, as pyotp compares the
-- two, and newer than the last one accepted.
use fastapi_production_api.Db.{Session, ok}
use fastapi_production_api.Mfa.Factors.{
  is_totp_code, match_counter, match_secret, matching_totp_counter, stored_secret,
}
use fastapi_production_api.World.{World, second}
use fastapi_production_api.Models.{User}
use fastapi_production_api.Base.{
  Bool, ℕ, suc, ◌+◌, ◌≤◌, ◌<◌, ◌≡◌, String, true, none, some, List, [], ◌∷◌, arith, inl, inr, ◌⊎◌,
  ◌/◌, Bool-cases, Option, leb, sym, nat_eq, string_eq, Option-cases, ℕ-cases, ◌≢◌,
}

abbrev pub IsNewer : Option ℕ → ℕ → Type 0
IsNewer none c = Unit
IsNewer (some l) c = l < c

abbrev pub IsIn : ℕ → List ℕ → Type 0
IsIn c [] = ⊥
IsIn c (x ∷ xs) = (c ≡ x) ⊎ IsIn c xs

-- What an accepted counter satisfies.
pub record IsAccepted (same : String → String → Bool) (otp : ℕ → String) (code : String)
    (last : Option ℕ) (c : ℕ) : Type 0 where
  pub matches : same (otp c) code ≡ true
  pub newer : IsNewer last c

match_counter-IsAccepted :
    (equal : String → String → Bool) (otp : ℕ → String) (code : String) (last : Option ℕ)
    (cs : List ℕ) (c : ℕ)
    → match_counter equal otp code last cs ≡ some c
    → IsAccepted equal otp code last c × IsIn c cs
unfolding match_counter
match_counter-IsAccepted equal otp code last [] c e = absurd (ground (arith, e))
match_counter-IsAccepted equal otp code none (x ∷ xs) c e = elim (Bool-cases (equal (otp x) code)) [
  | inl hit ↦
      let same : x ≡ c = ground (arith, hit) in
      (record { matches = rw (← same) hit; newer = tt }, inl (sym same))
  | inr miss ↦
      let (accepted, place) = match_counter-IsAccepted equal otp code none xs c (rw miss at e) in
      (accepted, inr place)
]
match_counter-IsAccepted equal otp code (some l) (x ∷ xs) c e =
    elim (Bool-cases (equal (otp x) code)) [
      | inl hit ↦ elim (Bool-cases (leb x l)) [
        | inl old ↦ absurd (ground (arith, hit, old))
        | inr new ↦
            let same : x ≡ c = ground (arith, hit, new) in
            (
              record { matches = rw (← same) hit; newer = ground (arith, new, same) },
              inl (sym same),
            )
      ]
      | inr miss ↦
          let (accepted, place) =
            match_counter-IsAccepted equal otp code (some l) xs c (rw miss at e) in
          (accepted, inr place)
    ]

-- The present counter, `int(now.timestamp()) // 30`.
abbrev pub counter_at : ℕ → ℕ
counter_at at = (at / second) / 30

-- What an accepted code says of the user's secret and of the time.
pub record HasPassed (w : World) (user : User) (code : String) (at c : ℕ) : Type 0 where
  pub encrypted : String
  pub secret : String
  pub well_formed : is_totp_code w code ≡ true
  pub stored : stored_secret user ≡ some encrypted
  pub opened : w.decrypt_secret encrypted ≡ some secret
  pub matches : w.strings_equal (w.generate_otp secret c) code ≡ true
  pub near_below : counter_at at ≤ c + 1
  pub near_above : c ≤ counter_at at + 1
  pub newer : IsNewer user.mfa_last_counter c

window-near :
    (cur c : ℕ)
    → IsIn c (cur ∷ suc cur ∷ suc (suc cur) ∷ [])
    → (suc cur ≤ c + 1) × (c ≤ suc cur + 1)
window-near cur c h = ground arith

module _ (w : World) (user : User) (code : String) (at : ℕ) (s : Session) where
  -- The check reads only.
  pub matching_totp_counter-same : (matching_totp_counter w user code at s).1 ≡ s
  unfolding matching_totp_counter
  matching_totp_counter-same = ground arith

  secret_counter :
      (encrypted : String) (c : ℕ)
      → (match_secret w (some encrypted) user code at s).0 ≡ ok (some c)
      → (secret : String) × (w.decrypt_secret encrypted ≡ some secret)
        × (cur : ℕ) × (counter_at at ≡ suc cur)
        × (match_counter w.strings_equal
              (w.generate_otp secret)
              code
              user.mfa_last_counter
              (cur ∷ suc cur ∷ suc (suc cur) ∷ [])
            ≡ some c)
  unfolding match_secret
  secret_counter encrypted c e = elim (Option-cases (w.decrypt_secret encrypted)) [
    | inl garbled ↦ absurd (ground arith)
    | inr (secret, opened) ↦ elim (ℕ-cases (counter_at at)) [
      | inl epoch ↦ absurd (ground arith)
      | inr (cur, now_is) ↦ (secret, opened, cur, now_is, ground arith)
    ]
  ]

  no_secret : (c : ℕ) → (match_secret w none user code at s).0 ≢ ok (some c)
  unfolding match_secret
  no_secret c e = ground arith

  -- A counter that the TOTP check accepts stands within one step of the present time, has a password
  -- under the user's secret that pyotp takes as equal to the code, which has six digits, and is newer
  -- than the last counter accepted.
  pub matching_totp_counter-HasPassed :
      (c : ℕ)
      → (matching_totp_counter w user code at s).0 ≡ ok (some c)
      → HasPassed w user code at c
  unfolding matching_totp_counter
  matching_totp_counter-HasPassed c e = elim (Bool-cases (is_totp_code w code)) [
    | inr malformed ↦ absurd (no_secret c (simp malformed at e))
    | inl formed ↦ elim (Option-cases (stored_secret user)) [
      | inl missing ↦ absurd (no_secret c (simp (formed, missing) at e))
      | inr (encrypted, stored) ↦
          let (secret, opened, cur, now_is, matched) =
            secret_counter encrypted c (simp (formed, stored) at e) in
          let (accepted, place) =
            match_counter-IsAccepted w.strings_equal (w.generate_otp secret) code
              user.mfa_last_counter (cur ∷ suc cur ∷ suc (suc cur) ∷ []) c matched in
          let near : (suc cur ≤ c + 1) × (c ≤ suc cur + 1) = window-near cur c place in
          record {
            encrypted = encrypted;
            secret = secret;
            well_formed = formed;
            stored = stored;
            opened = opened;
            matches = accepted.matches;
            near_below = omega (arith, now_is, near);
            near_above = omega (arith, now_is, near);
            newer = accepted.newer;
          }
    ]
  ]
