-- ===== src/Objects/Service/Jwt.antt =====
-- `JwtService` of internal/service/jwt.go, whose methods are those of Service.Jwt.
use go_auth_refresh_template.Base.{String}
use go_auth_refresh_template.Domain.{Uuid, JwtOptions}
use go_auth_refresh_template.World.{Env, Action, RegisteredClaims}
use go_auth_refresh_template.Service.Jwt

pub record JwtService : Type 0 where
  pub generate_access_token : Uuid → Action String
  pub validate_access_token : String → Action RegisteredClaims

-- `jwtService`, with its options, as a `JwtService`.
abbrev pub new_jwt_service : Env → JwtOptions → JwtService
new_jwt_service env jwt_options = record {
  generate_access_token = Jwt.generate_access_token env jwt_options;
  validate_access_token = Jwt.validate_access_token env jwt_options;
}
