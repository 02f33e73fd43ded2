-- ===== src/Objects/Sqlc/User.antt =====
-- `SqlcUserRepository` of internal/repository/user.go.
use go_auth_refresh_template.Base.{String, Option}
use go_auth_refresh_template.Domain.{Uuid, User}
use go_auth_refresh_template.Errors.{errors_is, errors_as}
use go_auth_refresh_template.World.{Action, wrap_error}
use go_auth_refresh_template.Repository.Common.{optional, map_error}
use go_auth_refresh_template.Repository.User.{save_error}
use go_auth_refresh_template.Objects.Queries.{Querier}

pub record SqlcUserRepository : Type 0 where
  pub querier : Querier

abbrev pub new_sqlc_user_repository : Querier → SqlcUserRepository
new_sqlc_user_repository querier = record { querier = querier }

module _ (r : SqlcUserRepository) where
  unfoldable pub save : User → Action (Unit {0})
  unfolding errors_as
  save user = map_error save_error (r.querier.save_user user)

  unfoldable pub get_by_id : Uuid → Action (Option User)
  unfolding errors_is
  get_by_id id = optional "getting user by ID" (r.querier.get_user_by_id id)

  unfoldable pub get_by_email : String → Action (Option User)
  unfolding errors_is
  get_by_email email = optional "getting user by email" (r.querier.get_by_email email)

  unfoldable pub update_password : Uuid → String → Action (Unit {0})
  update_password user_id password =
      wrap_error "updating user password" (r.querier.update_user_password user_id password)
