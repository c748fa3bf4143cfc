-- ===== src/ActionTokens/Laws.antt =====
-- What a request may do to the table `account_action_tokens`: consume rows, and add one after that.
-- A consumed token stays consumed, so it is spent for every later request.
use fastapi_production_api.Base.{
  ◌⊎◌, ℕ, String, ◌≡◌, sym, ◌∙◌, Bool, true, ◌&&◌, some, List, [], ◌∷◌, arith, inl, inr, Bool-cases,
  ◌==◌, nat_eq, string_eq, is_some, All, refl, some_eq,
}
use fastapi_production_api.Table.{count_where, first, update_where, add_row}
use fastapi_production_api.Table.Laws.{
  count_where-none, count_where-append, first-cons_hit, first-cons_miss, first-update_where,
  update_where-All_new,
}
use fastapi_production_api.Models.{AccountActionToken}
use fastapi_production_api.Db.{Session}
use fastapi_production_api.ActionTokens.{false, open_for, consumed, matching}

-- The committed tokens after a request.
abbrev pub tokens_after {ℓ} : {A : Type ℓ} → A × Session → List AccountActionToken
tokens_after (_, s) = s.committed.action_tokens

-- What a row keeps.
pub record Keeps (old new : AccountActionToken) : Type 0 where
  pub same_user : new.user_id ≡ old.user_id
  pub same_purpose : new.purpose ≡ old.purpose
  pub same_hash : new.token_hash ≡ old.token_hash
  pub same_expiry : new.expires_at ≡ old.expires_at
  pub still_consumed : is_some old.consumed_at ≡ true → is_some new.consumed_at ≡ true

abbrev pub Extends : List AccountActionToken → List AccountActionToken → Type 0
Extends [] ys = Unit
Extends (x ∷ xs) [] = ⊥
Extends (x ∷ xs) (y ∷ ys) = Keeps x y × Extends xs ys

pub data ActionTokenStep (rows rows' : List AccountActionToken) : Type 0 where
  keep : rows' ≡ rows → ActionTokenStep rows rows'
  consume :
      (p : AccountActionToken → Bool) (at : ℕ)
      → rows' ≡ update_where p (consumed at) rows
      → ActionTokenStep rows rows'
  replace :
      (p : AccountActionToken → Bool) (at : ℕ) (new : AccountActionToken)
      → rows' ≡ add_row new (update_where p (consumed at) rows)
      → ActionTokenStep rows rows'

pub data ActionTokenSteps (rows : List AccountActionToken) : List AccountActionToken → Type 0 where
  here : ActionTokenSteps rows rows
  next :
      {rows' rows'' : List AccountActionToken}
      → ActionTokenSteps rows rows'
      → ActionTokenStep rows' rows''
      → ActionTokenSteps rows rows''

Extends-refl : (xs : List AccountActionToken) → Extends xs xs
Extends-refl [] = tt
Extends-refl (x ∷ xs) = (ground arith, Extends-refl xs)

Extends-trans : (xs ys zs : List AccountActionToken) → Extends xs ys → Extends ys zs → Extends xs zs
Extends-trans [] ys zs h k = tt
Extends-trans (x ∷ xs) [] zs h k = absurd h
Extends-trans (x ∷ xs) (y ∷ ys) [] h k = absurd k
Extends-trans (x ∷ xs) (y ∷ ys) (z ∷ zs) h k = (ground arith, Extends-trans xs ys zs h.1 k.1)

Extends-update :
    (p : AccountActionToken → Bool) (at : ℕ) (xs : List AccountActionToken)
    → Extends xs (update_where p (consumed at) xs)
unfolding update_where
Extends-update p at [] = tt
Extends-update p at (x ∷ xs) = (ground arith, Extends-update p at xs)

Extends-add_row :
    (xs ys : List AccountActionToken) (new : AccountActionToken)
    → Extends xs ys
    → Extends xs (add_row new ys)
unfolding add_row
Extends-add_row [] ys new h = tt
Extends-add_row (x ∷ xs) [] new h = absurd h
Extends-add_row (x ∷ xs) (y ∷ ys) new h = (h.0, Extends-add_row xs ys new h.1)

ActionTokenStep-Extends : {xs ys : List AccountActionToken} → ActionTokenStep xs ys → Extends xs ys
ActionTokenStep-Extends {xs} (keep e) = rw e (Extends-refl xs)
ActionTokenStep-Extends {xs} (consume p at e) = rw e (Extends-update p at xs)
ActionTokenStep-Extends {xs} (replace p at new e) =
    rw e (Extends-add_row xs (update_where p (consumed at) xs) new (Extends-update p at xs))

pub ActionTokenSteps-Extends :
    {xs ys : List AccountActionToken} → ActionTokenSteps xs ys → Extends xs ys
ActionTokenSteps-Extends {xs} here = Extends-refl xs
ActionTokenSteps-Extends {xs} {ys} (next {rows' = zs} steps step) =
    Extends-trans xs zs ys (ActionTokenSteps-Extends steps) (ActionTokenStep-Extends step)

-- The lookup by the hash finds a consumed row, if any.
abbrev pub IsSpentFor : String → (AccountActionToken → Bool) → List AccountActionToken → Type 0
IsSpentFor token_hash purpose rows =
    (t : AccountActionToken) × (first (matching token_hash purpose) rows ≡ some t)
    × (is_some t.consumed_at ≡ true)

-- A filter that reads the purpose alone.
abbrev pub ReadsPurpose : (AccountActionToken → Bool) → Type 0
ReadsPurpose purpose = (a b : AccountActionToken) → a.purpose ≡ b.purpose → purpose a ≡ purpose b

pub Extends-IsSpentFor :
    (token_hash : String) (purpose : AccountActionToken → Bool) (xs ys : List AccountActionToken)
    → ReadsPurpose purpose
    → Extends xs ys
    → IsSpentFor token_hash purpose xs
    → IsSpentFor token_hash purpose ys
unfolding first
Extends-IsSpentFor h purpose [] ys reads k (t, e, d) = absurd (ground (arith, e))
Extends-IsSpentFor h purpose (x ∷ xs) [] reads k s = absurd k
Extends-IsSpentFor h purpose (x ∷ xs) (y ∷ ys) reads k (t, e, d) =
    elim (Bool-cases (x.token_hash == h && purpose x)) [
      | inl hit ↦
          let same : x ≡ t = some_eq (sym (first-cons_hit (matching h purpose) x xs hit) ∙ e) in
          (
            y,
            first-cons_hit (matching h purpose) y ys (matches ∙ hit),
            k.0.still_consumed (rw same d),
          )
      | inr miss ↦
          let (t', e', d') =
            Extends-IsSpentFor h purpose xs ys reads k.1
              (t, sym (first-cons_miss (matching h purpose) x xs miss) ∙ e, d) in
          (t', first-cons_miss (matching h purpose) y ys (matches ∙ miss) ∙ e', d')
    ]
  where
    matches : (y.token_hash == h && purpose y) ≡ (x.token_hash == h && purpose x)
    matches = cc (k.0.same_hash, reads y x k.0.same_purpose)

module _ {rows rows' : List AccountActionToken} where
  pub consume_or_keep :
      (p : AccountActionToken → Bool) (at : ℕ)
      → (rows' ≡ rows) ⊎ (rows' ≡ update_where p (consumed at) rows)
      → ActionTokenStep rows rows'
  consume_or_keep p at (inl e) = keep e
  consume_or_keep p at (inr e) = consume p at e

  pub replace_or_keep :
      (p : AccountActionToken → Bool) (at : ℕ) (new : AccountActionToken)
      → (rows' ≡ rows) ⊎ (rows' ≡ add_row new (update_where p (consumed at) rows))
      → ActionTokenStep rows rows'
  replace_or_keep p at new (inl e) = keep e
  replace_or_keep p at new (inr e) = replace p at new e

-- The update has consumed the row that was found.
pub IsSpentFor-update :
    (token_hash : String) (purpose p : AccountActionToken → Bool) (at : ℕ)
    (rows : List AccountActionToken) {t : AccountActionToken}
    → ReadsPurpose purpose
    → first (matching token_hash purpose) rows ≡ some t
    → p t ≡ true
    → IsSpentFor token_hash purpose (update_where p (consumed at) rows)
IsSpentFor-update h purpose p at rows {t} reads found hit = (
  consumed at t,
  first-update_where (matching h purpose) p (consumed at) rows (λ x. elim (Bool-cases (p x)) [
    | inl yes_p ↦ rw yes_p (cc (reads (consumed at x) x refl))
    | inr no_p ↦ rw no_p
  ])
      ∙ rw (found, hit),
  refl,
)

-- A swept table holds exactly the row that is added after, of those that are open.
pub count-open-replace :
    (user_id : ℕ) (purpose : AccountActionToken → Bool) (at : ℕ) (new : AccountActionToken)
    (rows : List AccountActionToken)
    → open_for user_id purpose new ≡ true
    → ReadsPurpose purpose
    → count_where
        (open_for user_id purpose)
        (add_row new (update_where (open_for user_id purpose) (consumed at) rows))
      ≡ 1
unfolding add_row count_where
count-open-replace user_id purpose at new rows h reads =
    let swept : List AccountActionToken =
      update_where (open_for user_id purpose) (consumed at) rows in
    let closed : All (λ t. open_for user_id purpose t ≡ false) swept =
      update_where-All_new (λ t. open_for user_id purpose t ≡ false) (open_for user_id purpose)
        (consumed at) rows (λ t. ground (arith, reads (consumed at t) t refl)) in
    ground (
      arith,
      h,
      count_where-append (open_for user_id purpose) swept (new ∷ []),
      count_where-none (open_for user_id purpose) swept closed,
    )
