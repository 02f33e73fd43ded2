-- ===== src/Objects/Service/User.antt =====
-- `userService` of internal/service/user.go.
use go_auth_refresh_template.Base.{String, Option, none, some}
use go_auth_refresh_template.Domain.{Uuid, User}
use go_auth_refresh_template.Errors.{sentinel, one, new_invalid_input_error, invalid_user_id}
use go_auth_refresh_template.World.{Env, Action, raise, ◌>>=◌, wrap_error}
use go_auth_refresh_template.Service.User.{or_not_found}

pub record UserByIdFinder : Type 0 where
  pub get_by_id : Uuid → Action (Option User)

pub record UserService : Type 0 where
  pub get_profile : String → Action User

pub record UserServiceStruct : Type 0 where
  pub user_finder : UserByIdFinder

module _ (env : Env) where
  unfoldable pub get_profile : UserServiceStruct → String → Action User
  get_profile s id = elim (env.uuid_parse id) [
    | none ↦ raise (new_invalid_input_error "invalid user id" (one (sentinel invalid_user_id)))
    | some uuid ↦ do
      user ← wrap_error "fetching user from repository by ID" (s.user_finder.get_by_id uuid)
      or_not_found user
  ]

  abbrev pub new_user_service : UserByIdFinder → UserService
  new_user_service user_finder = record {
    get_profile = get_profile (record { user_finder = user_finder });
  }
