-- ===== src/Repository/Common.antt =====
-- How the repositories of internal/repository treat the result of a query.
pub mod Laws
use go_auth_refresh_template.Base.{String, true, false, Option, none, some}
use go_auth_refresh_template.Errors.{Error, wrap, errors_is, is_no_rows}
use go_auth_refresh_template.World.{Outcome, ok, err, panics, Action}

-- `errors.Is(err, sql.ErrNoRows)` gives `nil, nil`; `text` is the context of any other error.
abbrev pub optional_row : {A : Type 0} → String → Outcome A → Outcome (Option A)
optional_row text (ok a) = ok (some a)
optional_row text (err e) = elim (errors_is is_no_rows e) [
  | true ↦ ok none
  | false ↦ err (wrap text e)
]
optional_row text (panics s) = panics s

abbrev pub optional : {A : Type 0} → String → Action A → Action (Option A)
optional text m w = let (r, w') = m w in (optional_row text r, w')

abbrev pub map_error : {A : Type 0} → (Error → Error) → Action A → Action A
map_error f m w =
    let (r, w') = m w in
    elim r [ ok a ↦ (ok a, w') | err e ↦ (err (f e), w') | panics s ↦ (panics s, w') ]
