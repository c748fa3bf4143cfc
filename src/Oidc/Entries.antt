-- ===== src/Oidc/Entries.antt =====
-- The lists that settings hold as texts: `[value.strip() for value in s.split(",") if value.strip()]`.
use Prim.Native.Char.{Char, code}
use Prim.Native.String.{String, [], ◌∷◌}
use mathlib.Core.List.{List, [] as no_entry, ◌∷◌ as entry}
use fastapi_production_api.Oidc.Texts.{strip}
use fastapi_production_api.Base.{Bool, ◌||◌, ◌&&◌, ◌==◌, nat_eq, string_eq, leb, if◌then◌else◌}

-- What str.isspace accepts.
abbrev pub is_space : Char → Bool
is_space c =
    (leb 9 (code c) && leb (code c) 13)
    || (leb 28 (code c) && leb (code c) 32)
    || code c == 133
    || code c == 160
    || code c == 5760
    || (leb 8192 (code c) && leb (code c) 8202)
    || code c == 8232
    || code c == 8233
    || code c == 8239
    || code c == 8287
    || code c == 12288

-- A character in front of the first entry.
abbrev pub put_first : Char → List String → List String
put_first c no_entry = entry (c ∷ []) no_entry
put_first c (entry s rest) = entry (c ∷ s) rest

-- `s.split(",")`
unfoldable pub split_commas : String → List String
split_commas [] = entry [] no_entry
split_commas (c ∷ s) =
    let rest = split_commas s in if code c == 44 then entry [] rest else put_first c rest

unfoldable pub stripped_entries : List String → List String
unfolding strip
stripped_entries no_entry = no_entry
stripped_entries (entry s rest) =
    let others = stripped_entries rest in
    let stripped = strip is_space s in if stripped == "" then others else entry stripped others

-- `s.split()`
unfoldable pub split_spaces : String → List String
split_spaces [] = entry [] no_entry
split_spaces (c ∷ s) =
    let rest = split_spaces s in if is_space c then entry [] rest else put_first c rest

unfoldable pub without_empty : List String → List String
without_empty no_entry = no_entry
without_empty (entry s rest) =
    let others = without_empty rest in if s == "" then others else entry s others

unfoldable pub words : String → List String
unfolding split_spaces without_empty
words s = without_empty (split_spaces s)
