-- ===== src/Repository/User.antt =====
-- internal/repository/user.go
pub mod Laws
use go_auth_refresh_template.Base.{String, Bool, true, false, Option, none, some, ◌==◌, text_key}
use go_auth_refresh_template.Domain
use go_auth_refresh_template.Domain.{Uuid}
use go_auth_refresh_template.Errors.{
  Error, sentinel, wrap, join, cons, one, errors_as, errors_is, pick_pq, email_already_registered,
}
use go_auth_refresh_template.Database.Users
use go_auth_refresh_template.World.{Env, Action, wrap_error, query}
use go_auth_refresh_template.Repository.Common.{optional, map_error}

-- `errors.As(err, &pgErr) && pgErr.Code == "23505"`
abbrev pub is_unique_violation : Error → Bool
is_unique_violation e = elim (errors_as pick_pq e) [ none ↦ false | some code ↦ code == "23505" ]

abbrev pub save_error : Error → Error
save_error e = elim (is_unique_violation e) [
  | true ↦ wrap "saving user" (join (cons (sentinel email_already_registered) (one e)))
  | false ↦ wrap "saving user" e
]

module _ (env : Env) where
  unfoldable pub save : Domain.User → Action (Unit {0})
  unfolding errors_as
  save user = map_error save_error (query env (λ _. Users.save_user user))

  unfoldable pub get_by_id : Uuid → Action (Option Domain.User)
  unfolding errors_is
  get_by_id id = optional "getting user by ID" (query env (λ _. Users.get_user_by_id id))

  unfoldable pub get_by_email : String → Action (Option Domain.User)
  unfolding errors_is
  get_by_email email = optional "getting user by email" (query env (λ _. Users.get_by_email email))

  unfoldable pub update_password : Uuid → String → Action (Unit {0})
  update_password user_id password =
      wrap_error "updating user password"
        (query env (λ _. Users.update_user_password user_id password))
