-- ===== src/Web/Profile.antt =====
-- A login, and the profile that its access token opens: internal/web/middleware/auth.go in front of
-- `GetProfile` of internal/web/handler/user.go.
use Prim.Native.String.{◌++◌}
use go_auth_refresh_template.Base.{
  ◌+◌, ◌<◌, String, some, none, ◌≡◌, arith, find, Distinct, ◌==◌, ==_self, text_key, id_key,
}
use go_auth_refresh_template.Domain
use go_auth_refresh_template.Domain.{Uuid, Config}
use go_auth_refresh_template.Database.Users.{clashes}
use go_auth_refresh_template.Database.Users
use go_auth_refresh_template.Database.Users.Laws.{find-id}
use go_auth_refresh_template.World.{Env, World, ok, next_draw}
use go_auth_refresh_template.Repository
use go_auth_refresh_template.Service.Jwt.{bearer}
use go_auth_refresh_template.Service.Jwt.RoundTrip.{
  claims_of, ReadsSigned, validate_access_token-signed,
}
use go_auth_refresh_template.Service
use go_auth_refresh_template.Service.Auth.Login.{login_opens_session}
use go_auth_refresh_template.Web.Http.{Request, handle_json, get_profile}
use go_auth_refresh_template.Web.Payload.{Codecs}
use go_auth_refresh_template.Web.Handler.{get_user_profile}
use go_auth_refresh_template.Web.Middleware.{authorize, authenticate}

module _ (env : Env) (codecs : Codecs) (config : Config) where
  get_user_profile-found :
      (r : Request) (w : World) {id : Uuid} {user : Domain.User}
      → env.uuid_parse r.path_id ≡ some id
      → find (λ u. u.id == id) w.db.users ≡ some user
      → env.db_fault w.draws ≡ none
      → get_user_profile env codecs config r w
        ≡ (ok (handle_json 200 (get_profile user.email user.username)), next_draw w)
  unfolding get_user_profile Service.User.get_profile Repository.User.get_by_id Users.get_user_by_id
  get_user_profile-found r w parsed found f = ground arith

  -- After a login that succeeds, the answered access token opens the profile of the user: a request for
  -- it with the token behind "Bearer " is answered with status 200 and the email and the username, while
  -- the users are as they were left, before the token expires, and where the statement has no fault.
  -- It is supposed that no two users clash, that uuid.Parse decodes what String returns, and that the
  -- JWT library reads what it signed.
  pub login_opens_profile :
      (email password : String) (r : Request) (w w₂ : World) {user : Domain.User}
      {access refresh : String} {w' : World}
      → ReadsSigned env
      → ((id : Uuid) → env.uuid_parse (env.uuid_string id) ≡ some id)
      → Distinct clashes w.db.users
      → find (λ u. u.email == email) w.db.users ≡ some user
      → Service.Auth.login env config email password w ≡ (ok (access, refresh), w')
      → w₂.db.users ≡ w'.db.users
      → env.now w₂.draws < env.jwt_numeric_date (env.now (w.draws + 2) + config.jwt.duration)
      → env.db_fault (w₂.draws + 1) ≡ none
      → r.authorization ≡ bearer ++ access
      → r.path_id ≡ env.uuid_string user.id
      → authenticate env config (get_user_profile env codecs config) r w₂
        ≡ (ok (handle_json 200 (get_profile user.email user.username)), next_draw (next_draw w₂))
  unfolding authenticate authorize
  login_opens_profile email password r w w₂ {user} {access} {refresh} {w'} jwt decodes distinct
        known h same before f carries of_user =
      let (found, found_is, right, signed, named, new, opened, rest) =
        login_opens_session env config email password w 0 0 {access = access} {refresh = refresh}
          {w' = w'} h in
      let is : found ≡ user = ground arith in
      let accepted =
        validate_access_token-signed env config.jwt (claims_of env config.jwt user.id (w.draws + 1))
          w₂ {access = access} jwt (rw is at signed) (ground arith) in
      let id_known : find (λ u. u.id == user.id) w₂.db.users ≡ some user =
        rw (same, rest) (find-id email w.db.users {u = user} distinct known) in
      let answered =
        get_user_profile-found r (next_draw w₂) {id = user.id} {user = user}
          (rw of_user (decodes user.id)) id_known f in
      ground (arith, ==_self r.path_id)
