-- ===== src/Oidc/Texts.antt =====
-- The Python texts that src/app/services/oidc.py works on: slices, strip, rstrip, split, the test
-- `in` and the decimal of an f-string.
use Prim.Native.Char.{Char, char, code, nul}
use Prim.Native.String.{String, [], ◌∷◌, ◌++◌, count}
use fastapi_production_api.Base.{
  Bool, false, ◌&&◌, ◌||◌, ◌==◌, nat_eq, string_eq, leb, ltb, ℕ, zero, suc, ◌-◌, ◌/◌, ◌%◌,
  if◌then◌else◌,
}

-- `s[:n]`, for n at least 0 and for any other n = a - b
unfoldable pub text_take : ℕ → String → String
text_take zero s = []
text_take (suc n) [] = []
text_take (suc n) (c ∷ s) = c ∷ text_take n s

unfoldable pub text_take_less : ℕ → ℕ → String → String
unfolding text_take
text_take_less a b s = if leb b a then text_take (a - b) s else text_take (count s - (b - a)) s

-- `s.lstrip(chars)`, `s.rstrip(chars)` and `s.strip(chars)`, the set of characters as a test
unfoldable pub lstrip : (Char → Bool) → String → String
lstrip p [] = []
lstrip p (c ∷ s) = let rest = lstrip p s in if p c then rest else c ∷ s

unfoldable pub rstrip : (Char → Bool) → String → String
rstrip p [] = []
rstrip p (c ∷ s) = let rest = rstrip p s in if rest == "" && p c then [] else c ∷ rest

unfoldable pub strip : (Char → Bool) → String → String
unfolding lstrip rstrip
strip p s = rstrip p (lstrip p s)

abbrev pub is_slash : Char → Bool
is_slash c = code c == 47

-- the characters of "-._"
abbrev pub is_separator : Char → Bool
is_separator c = code c == 45 || code c == 46 || code c == 95

-- `s.split("@", 1)[0]`
unfoldable pub before_at : String → String
before_at [] = []
before_at (c ∷ s) = let rest = before_at s in if code c == 64 then [] else c ∷ rest

-- `"?" in s`
unfoldable pub has_question_mark : String → Bool
has_question_mark [] = false
has_question_mark (c ∷ s) = code c == 63 || has_question_mark s

-- the class [a-z0-9_.-]
abbrev pub is_slug : Char → Bool
is_slug c =
    (leb 97 (code c) && leb (code c) 122) || (leb 48 (code c) && leb (code c) 57) || is_separator c

-- `re.sub(r"[^a-z0-9_.-]", "-", s)`
unfoldable pub slug : String → String
slug [] = []
slug (c ∷ s) = (if is_slug c then c else char 45 tt) ∷ slug s

-- `text or default`
unfoldable pub or_default : String → String → String
or_default s default = if s == "" then default else s

abbrev pub digit : ℕ → Char
digit zero = char 48 tt
digit (suc zero) = char 49 tt
digit (suc (suc zero)) = char 50 tt
digit (suc (suc (suc zero))) = char 51 tt
digit (suc (suc (suc (suc zero)))) = char 52 tt
digit (suc (suc (suc (suc (suc zero))))) = char 53 tt
digit (suc (suc (suc (suc (suc (suc zero)))))) = char 54 tt
digit (suc (suc (suc (suc (suc (suc (suc zero))))))) = char 55 tt
digit (suc (suc (suc (suc (suc (suc (suc (suc zero)))))))) = char 56 tt
digit (suc (suc (suc (suc (suc (suc (suc (suc (suc _))))))))) = char 57 tt

-- The decimal of n in front of a text; n is fuel enough, since a tenth of a number is less than it.
unfoldable pub decimal_onto : ℕ → ℕ → String → String
decimal_onto zero n rest = digit n ∷ rest
decimal_onto (suc fuel) n rest =
    let more = decimal_onto fuel (n / 10) (digit (n % 10) ∷ rest) in
    if ltb n 10 then digit n ∷ rest else more

unfoldable pub decimal : ℕ → String
unfolding decimal_onto
decimal n = decimal_onto n n []

-- `f"{issuer}\0{subject}"`
abbrev pub joined_by_nul : String → String → String
joined_by_nul a b = a ++ (nul ∷ b)
