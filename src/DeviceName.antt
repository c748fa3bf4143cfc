-- ===== src/DeviceName.antt =====
-- The name of a device: `normalize_device_name` of src/app/auth/refresh_token.py.
use fastapi_production_api.Oidc.Texts.{or_default, strip, text_take}
use fastapi_production_api.Oidc.Entries.{is_space, words}
use Prim.Native.Char.{Char, char}
use Prim.Native.String.{String, [], ◌∷◌, ◌++◌}
use mathlib.Core.List.{List, [] as no_entry, ◌∷◌ as entry}
use fastapi_production_api.Base.{Bool, Option, none, some, if◌then◌else◌}

-- `device_name or user_agent or ...`
abbrev pub filled_or : Option String → String → String
filled_or none rest = rest
filled_or (some name) rest = or_default name rest

-- Characters that str.isprintable refuses become spaces.
unfoldable pub printable : (Char → Bool) → String → String
printable is_printable [] = []
printable is_printable (c ∷ s) =
    (if is_printable c then c else char 32 tt) ∷ printable is_printable s

-- `" ".join(...)`
unfoldable pub joined_by_space : List String → String
joined_by_space no_entry = []
joined_by_space (entry s no_entry) = s
joined_by_space (entry s (entry t rest)) = s ++ " " ++ joined_by_space (entry t rest)

unfoldable pub normalize_device_name : (Char → Bool) → Option String → Option String → String
unfolding printable joined_by_space words strip or_default text_take
normalize_device_name is_printable device_name user_agent =
    let candidate = filled_or device_name (filled_or user_agent "Unknown device") in
    let normalized = strip is_space (joined_by_space (words (printable is_printable candidate))) in
    text_take 100 (or_default normalized "Unknown device")
