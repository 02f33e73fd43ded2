-- ===== src/Web/Login.antt =====
-- What the login and the registration of internal/web/handler/auth.go tell about who is registered.
use go_auth_refresh_template.Base.{
  String, true, false, some, none, [], ◌≡◌, ◌+◌, arith, find, any, any_narrower, inl, inr,
  Bool-cases, ◌==◌, text_key, id_key, ◌||◌,
}
use go_auth_refresh_template.Domain.{User, Config}
use go_auth_refresh_template.Errors.{errors_as, errors_is}
use go_auth_refresh_template.Database.Users
use go_auth_refresh_template.Database.Users.{clashes, fits_varchar}
use go_auth_refresh_template.World.{Env, World, ok}
use go_auth_refresh_template.Secure.{hash_password, check_password}
use go_auth_refresh_template.Repository
use go_auth_refresh_template.Service
use go_auth_refresh_template.Web.Http.{Request, handle_json, client_err}
use go_auth_refresh_template.Web.Errors.{handle_error, new_client_error_from_domain_error}
use go_auth_refresh_template.Web.Payload.{Codecs, LoginPayload, RegisterUserPayload, receive}
use go_auth_refresh_template.Web.Handler.{login, register_user}

module _ (env : Env) (codecs : Codecs) (config : Config) where
  -- A login for an unknown email and one with a wrong password are answered alike, with status 401
  -- and a message that names neither, and change no table, where the database has no fault.
  pub login_uniform :
      (r : Request) (w w₂ : World) {payload : LoginPayload} {user : User}
      → receive codecs.login r.body ≡ ok payload
      → find (λ u. u.email == payload.email) w.db.users ≡ none
      → env.db_fault w.draws ≡ none
      → find (λ u. u.email == payload.email) w₂.db.users ≡ some user
      → env.db_fault w₂.draws ≡ none
      → env.bcrypt_compare user.password payload.password ≡ false
      → ((login env codecs config r w).0
          ≡ ok (handle_json 401 (client_err "invalid email or password" 401 [])))
        × ((login env codecs config r w₂).0 ≡ (login env codecs config r w).0)
        × ((login env codecs config r w).1.db ≡ w.db)
        × ((login env codecs config r w₂).1.db ≡ w₂.db)
  unfolding login Service.Auth.login Repository.User.get_by_email Users.get_by_email check_password
      handle_error errors_as errors_is new_client_error_from_domain_error
  login_uniform r w w₂ received unknown f known f₂ wrong = ground arith

  -- A registration with an email or a username that is taken is answered with status 409 and changes
  -- no table, where bcrypt hashes the password, the columns fit and the database has no fault. In both cases the
  -- message says that the email is registered.
  pub register_user_taken :
      (r : Request) (w : World) {payload : RegisterUserPayload} {hashed : String}
      → receive codecs.register_user r.body ≡ ok payload
      → env.bcrypt_generate (w.draws + 1) payload.password ≡ ok hashed
      → env.db_fault (w.draws + 1 + 1) ≡ none
      → fits_varchar payload.email ≡ true
      → fits_varchar hashed ≡ true
      → any (λ u. u.email == payload.email || u.username == payload.username) w.db.users ≡ true
      → ((register_user env codecs config r w).0
          ≡ ok (handle_json 409 (client_err "user email is already registered" 409 [])))
        × ((register_user env codecs config r w).1.db ≡ w.db)
  unfolding register_user Service.Auth.register_user Repository.User.save Users.save_user
      hash_password handle_error errors_as errors_is new_client_error_from_domain_error
  register_user_taken r w {payload} {hashed} received made f fits fits₂ taken =
      let row : User = record {
        id = env.uuid_new w.draws;
        email = payload.email;
        password = hashed;
        username = payload.username;
      } in
      let narrow =
        any_narrower (λ u. u.email == payload.email || u.username == payload.username) (clashes row)
          w.db.users (λ u h. ground arith) in
      let clash : any (clashes row) w.db.users ≡ true =
        elim (Bool-cases (any (clashes row) w.db.users)) [
          | inl e ↦ e
          | inr e ↦ ground (arith, narrow e)
        ] in
      ground arith
