-- ===== src/Service/User.antt =====
-- internal/service/user.go
use go_auth_refresh_template.Base.{String, Option, none, some}
use go_auth_refresh_template.Domain
use go_auth_refresh_template.Errors.{
  sentinel, one, new_invalid_input_error, new_resource_not_found_error, invalid_user_id,
  user_not_found,
}
use go_auth_refresh_template.World.{Env, Action, pure, raise, ◌>>=◌, wrap_error}
use go_auth_refresh_template.Repository

abbrev pub or_not_found : Option Domain.User → Action Domain.User
or_not_found none =
    raise (new_resource_not_found_error "user not found" (one (sentinel user_not_found)))
or_not_found (some user) = pure user

module _ (env : Env) where
  unfoldable pub get_profile : String → Action Domain.User
  get_profile id = elim (env.uuid_parse id) [
    | none ↦ raise (new_invalid_input_error "invalid user id" (one (sentinel invalid_user_id)))
    | some uuid ↦ do
      user ← wrap_error "fetching user from repository by ID" (Repository.User.get_by_id env uuid)
      or_not_found user
  ]
