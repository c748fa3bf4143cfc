-- ===== src/Oidc/Decimals.antt =====
-- A text with a hyphen and a decimal behind it reads as that number.

use fastapi_production_api.Oidc.Usernames.{suffixed}
use Prim.Native.String.append.{nil, cons}
use fastapi_production_api.Oidc.Texts.{decimal, decimal_onto, digit, text_take_less}
use Prim.Native.Char.{char, code}
use Prim.Native.String.{String, [], ◌∷◌, ◌++◌, count}
use fastapi_production_api.Base.{
  ◌≡◌, refl, ◌==◌, nat_eq, string_eq, ℕ, zero, suc, ◌+◌, ◌*◌, ◌-◌, ◌<◌, arith, ◌%◌, ◌/◌, Bool-cases,
  ap, inl, inr, ltb, ltb→lt, ◌∙◌, if◌then◌else◌,
}

digit-code : (n : ℕ) → n < 10 → code (digit n) ≡ 48 + n
digit-code zero h = refl
digit-code (suc zero) h = refl
digit-code (suc (suc zero)) h = refl
digit-code (suc (suc (suc zero))) h = refl
digit-code (suc (suc (suc (suc zero)))) h = refl
digit-code (suc (suc (suc (suc (suc zero))))) h = refl
digit-code (suc (suc (suc (suc (suc (suc zero)))))) h = refl
digit-code (suc (suc (suc (suc (suc (suc (suc zero))))))) h = refl
digit-code (suc (suc (suc (suc (suc (suc (suc (suc zero)))))))) h = refl
digit-code (suc (suc (suc (suc (suc (suc (suc (suc (suc n))))))))) h = ground arith

-- The number that a text's digits behind its last hyphen stand for.
abbrev pub read_on : ℕ → String → ℕ
read_on v [] = v
read_on v (c ∷ s) = if code c == 45 then read_on 0 s else read_on (v * 10 + (code c - 48)) s

read_digit : (v n : ℕ) (s : String) → n < 10 → read_on v (digit n ∷ s) ≡ read_on (v * 10 + n) s
read_digit v n s h = ground (arith, digit-code n h)

read_first : (n : ℕ) (s : String) → n < 10 → read_on 0 (digit n ∷ s) ≡ read_on n s
read_first n s h = read_digit 0 n s h ∙ ap (λ m. read_on m s) (omega arith)

decimal_onto-read :
    (fuel n : ℕ) (s : String) → n < suc fuel → read_on 0 (decimal_onto fuel n s) ≡ read_on n s
unfolding decimal_onto
decimal_onto-read zero n s h = read_first n s (omega arith)
decimal_onto-read (suc fuel) n s h = elim (Bool-cases (ltb n 10)) [
  | inl small ↦ rw small (read_first n s (ltb→lt n 10 small))
  | inr big ↦ rw big (
      decimal_onto-read fuel (n / 10) (digit (n % 10) ∷ s) (ground arith)
      ∙ read_digit (n / 10) (n % 10) s (omega arith)
      ∙ ap (λ m. read_on m s) (omega arith))
]

hyphen-cons : (t : String) → "-" ++ t ≡ char 45 tt ∷ t
hyphen-cons t = cons (char 45 tt) [] t ∙ ap (λ u. char 45 tt ∷ u) (nil t)

hyphen-read : (v n : ℕ) (s : String) → read_on v (s ++ "-" ++ decimal n) ≡ n
unfolding decimal
hyphen-read v n [] = simp (nil, hyphen-cons (decimal n)) (decimal_onto-read n n [] (omega arith))
hyphen-read v n (c ∷ s) = elim (Bool-cases (code c == 45)) [
  | inl hyphen ↦ simp (cons, hyphen) (hyphen-read 0 n s)
  | inr other ↦ simp (cons, other) (hyphen-read (v * 10 + (code c - 48)) n s)
]

pub suffixed-read : (base : String) (n : ℕ) → read_on 0 (suffixed base n) ≡ n
unfolding suffixed
suffixed-read base n = hyphen-read 0 n (text_take_less 50 (count ("-" ++ decimal n)) base)
