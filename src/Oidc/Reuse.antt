-- ===== src/Oidc/Reuse.antt =====
-- A state that has been used is refused from then on.
use fastapi_production_api.Table.Laws.{first-append, first-update_where, map_option, row_after}
use fastapi_production_api.Oidc.Once.{callback_effect}
use fastapi_production_api.Table.{add_row, first, update_where}
use fastapi_production_api.World.{World}
use fastapi_production_api.Db.{Session, request, ok}
use fastapi_production_api.Oidc.Interface.{Provider}
use fastapi_production_api.Models.{OidcTransaction}
use fastapi_production_api.Oidc.Complete.{
  OidcCallbackResult, complete_oidc_authorization, has_state, is_unusable, used_at,
}
use fastapi_production_api.Base.{
  String, ℕ, Option, none, some, ◌≡◌, ◌≢◌, arith, refl, ◌∙◌, Bool, true, false, ◌==◌, nat_eq,
  string_eq, sym, ap, List, ==_refl, is_some, [], some_eq, ◌∷◌,
}

-- What the requests of the API do to the table: the start of an authorization adds a row that is not
-- used, a callback marks rows as used.
pub data TransactionSteps (rows : List OidcTransaction) : List OidcTransaction → Type 0 where
  here : TransactionSteps rows rows
  began :
      {rows' : List OidcTransaction} (new : OidcTransaction)
      → new.consumed_at ≡ none
      → TransactionSteps rows rows'
      → TransactionSteps rows (add_row new rows')
  used :
      {rows' : List OidcTransaction} (p : OidcTransaction → Bool) (at : ℕ)
      → TransactionSteps rows rows'
      → TransactionSteps rows (update_where p (used_at at) rows')

-- The row that a state hash finds is used.
abbrev pub IsUsed : String → List OidcTransaction → Type 0
IsUsed h rows =
    (t : OidcTransaction) × (first (has_state h) rows ≡ some t) × (is_some t.consumed_at ≡ true)

add_row-IsUsed :
    (h : String) (new : OidcTransaction) (rows : List OidcTransaction)
    → IsUsed h rows
    → IsUsed h (add_row new rows)
unfolding add_row
add_row-IsUsed h new rows (t, found, dead) =
    (t, first-append (has_state h) rows (new ∷ []) ∙ rw found, dead)

update-IsUsed :
    (h : String) (p : OidcTransaction → Bool) (at : ℕ) (rows : List OidcTransaction)
    → IsUsed h rows
    → IsUsed h (update_where p (used_at at) rows)
update-IsUsed h p at rows (t, found, dead) = (
  row_after p (used_at at) t,
  first-update_where (has_state h) p (used_at at) rows (λ x. ground arith) ∙ rw found,
  ground arith,
)

TransactionSteps-IsUsed :
    (h : String) {rows rows' : List OidcTransaction}
    → TransactionSteps rows rows'
    → IsUsed h rows
    → IsUsed h rows'
TransactionSteps-IsUsed h here u = u
TransactionSteps-IsUsed h (began {rows'} new fresh steps) u =
    add_row-IsUsed h new rows' (TransactionSteps-IsUsed h steps u)
TransactionSteps-IsUsed h (used {rows'} p at steps) u =
    update-IsUsed h p at rows' (TransactionSteps-IsUsed h steps u)

module _ (w : World) (provider : Provider) (state code : String)
    (browser_binding : Option String) where
  callback-used :
      (s : Session) (r : OidcCallbackResult)
      → IsUsed (w.sha256 state) s.committed.oidc_transactions
      → (request (complete_oidc_authorization w provider state code browser_binding) s).0 ≢ ok r
  callback-used s r (t, found, dead) e =
      let (t', done) = callback_effect w provider state code browser_binding s r e in
      let same : t' ≡ t = some_eq (sym done.found ∙ found) in
      let live : is_unusable w t (w.clock s.ticks) (w.sha256 done.binding) ≡ false =
        rw (sym same) done.usable in
      ground arith

  callback-IsUsed :
      (s : Session) (r : OidcCallbackResult)
      → (request (complete_oidc_authorization w provider state code browser_binding) s).0 ≡ ok r
      → IsUsed
          (w.sha256 state)
          (request
            (complete_oidc_authorization w provider state code browser_binding)
            s).1.committed.oidc_transactions
  callback-IsUsed s r e =
      let (t, done) = callback_effect w provider state code browser_binding s r e in
      let at = w.clock s.ticks in
      let mark : OidcTransaction → Bool = λ x. x.id == t.id in
      let moved =
        first-update_where (has_state (w.sha256 state)) mark (used_at at)
          s.committed.oidc_transactions (λ x. ground arith)
        ∙ ap (map_option (row_after mark (used_at at))) done.found in
      (
        row_after mark (used_at at) t,
        ap (first (has_state (w.sha256 state))) done.stored ∙ moved,
        rw (==_refl t.id) refl,
      )

-- Once a callback with a state has succeeded, no callback with that state succeeds again: not with
-- another code or another browser, at no later time, whatever authorizations begin and complete in
-- between.
pub callback_once :
    (w : World) (provider : Provider) (state code code' : String) (browser browser' : Option String)
    (s later : Session) (r r' : OidcCallbackResult)
    → (request (complete_oidc_authorization w provider state code browser) s).0 ≡ ok r
    → TransactionSteps
        (request
          (complete_oidc_authorization w provider state code browser)
          s).1.committed.oidc_transactions
        later.committed.oidc_transactions
    → (request (complete_oidc_authorization w provider state code' browser') later).0 ≢ ok r'
callback_once w provider state code code' browser browser' s later r r' e steps =
    callback-used w provider state code' browser' later r' (
      TransactionSteps-IsUsed (w.sha256 state) steps
        (callback-IsUsed w provider state code browser s r e))
