-- ===== src/Oidc/Usernames.antt =====
-- The username of an account that a first OIDC login creates: `_new_username` of
-- src/app/services/oidc.py.
use fastapi_production_api.Table.{first}
use fastapi_production_api.Oidc.Texts.{
  before_at, decimal, is_separator, joined_by_nul, or_default, slug, strip, text_take,
  text_take_less,
}
use fastapi_production_api.World.{World}
use fastapi_production_api.Models.{User}
use Prim.Native.String.{◌++◌, count}
use fastapi_production_api.Base.{
  Bool, ◌==◌, string_eq, ℕ, zero, suc, Option, none, some, List, String, is_some, length, nat_eq,
  if◌then◌else◌,
}

unfoldable pub username_base : World → String → String → String → String
unfolding slug strip text_take or_default before_at
username_base w email issuer subject =
    let local = slug (w.casefold (before_at email)) in
    let local' = or_default (text_take 30 (strip is_separator local)) "oidc-user" in
    let digest = text_take 12 (w.sha256 (joined_by_nul issuer subject)) in
    text_take 50 (local' ++ "-" ++ digest)

unfoldable pub suffixed : String → ℕ → String
unfolding text_take_less decimal
suffixed base suffix =
    let suffix_text = "-" ++ decimal suffix in
    text_take_less 50 (count suffix_text) base ++ suffix_text

-- `db.query(User.id).filter(User.username == candidate).first() is not None`
abbrev pub is_taken : List User → String → Bool
is_taken users candidate = is_some (first (λ u. u.username == candidate) users)

-- The `while`, on fuel.
unfoldable pub free_name : ℕ → List User → String → String → ℕ → Option String
unfolding suffixed
free_name zero users base candidate suffix =
    if is_taken users candidate then none else some candidate
free_name (suc fuel) users base candidate suffix =
    let rest = free_name fuel users base (suffixed base suffix) (suc suffix) in
    if is_taken users candidate then rest else some candidate

unfoldable pub new_username : World → String → String → String → List User → Option String
unfolding username_base free_name
new_username w email issuer subject users =
    let base = username_base w email issuer subject in
    free_name (suc (length users)) users base base 1
