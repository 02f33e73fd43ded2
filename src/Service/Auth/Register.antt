-- ===== src/Service/Auth/Register.antt =====
-- `RegisterUser` and `Login` of internal/service/auth.go.
use go_auth_refresh_template.Base.{
  ℕ, ◌+◌, String, true, false, none, ◌∷◌, ◌≡◌, inl, inr, arith, any, text_key, ==_self,
}
use go_auth_refresh_template.Domain
use go_auth_refresh_template.Domain.{Config}
use go_auth_refresh_template.Database.Users
use go_auth_refresh_template.Database.Users.{clashes}
use go_auth_refresh_template.World.{Env, World, ok, next_draw}
use go_auth_refresh_template.World.Laws.{outcome-cases}
use go_auth_refresh_template.Secure.{hash_password, check_password}
use go_auth_refresh_template.Repository
use go_auth_refresh_template.Service.Auth.{register_user, login, issue_tokens}

module _ (env : Env) (config : Config) where
  -- The row that a registration adds.
  abbrev pub registered : Domain.User → String → World → Domain.User
  registered user hashed w = record user { id = env.uuid_new w.draws; password = hashed }

  register_user-ok :
      (user : Domain.User) (w : World) {w' : World}
      → register_user env config user w ≡ (ok tt, w')
      → (hashed : String) × (env.bcrypt_generate (w.draws + 1) user.password ≡ ok hashed)
        × (any (clashes (registered user hashed w)) w.db.users ≡ false)
        × (w'.db ≡ record (w.db) { users = registered user hashed w ∷ w.db.users })
  unfolding register_user hash_password Repository.User.save Users.save_user
  register_user-ok user w {w'} h =
      elim (outcome-cases (env.bcrypt_generate (w.draws + 1) user.password)) [
        | inl (hashed, e) ↦ (hashed, e, ground arith, ground arith)
        | inr (inl (x, e)) ↦ ground arith
        | inr (inr (x, e)) ↦ ground arith
      ]

  -- Where bcrypt accepts a password for each hash that it makes of it: a registration that succeeds
  -- adds one user, under a new id, whose id, email and username no other user has; and a login with
  -- the email and the password, while the users are as they were left and the database has no fault,
  -- passes every check and issues the tokens of that user.
  pub registered_user_logs_in :
      (user : Domain.User) (w w₂ : World) {w' : World}
      → ((n : ℕ) (password hashed : String)
          → env.bcrypt_generate n password ≡ ok hashed
          → env.bcrypt_compare hashed password ≡ true)
      → register_user env config user w ≡ (ok tt, w')
      → w₂.db.users ≡ w'.db.users
      → env.db_fault w₂.draws ≡ none
      → (hashed : String) × (any (clashes (registered user hashed w)) w.db.users ≡ false)
        × (w'.db ≡ record (w.db) { users = registered user hashed w ∷ w.db.users })
        × (login env config user.email user.password w₂
            ≡ issue_tokens env config (env.uuid_new w.draws) (next_draw w₂))
  unfolding login Repository.User.get_by_email Users.get_by_email check_password
  registered_user_logs_in user w w₂ bcrypt h same f =
      let (hashed, made, new, is) = register_user-ok user w h in
      let accepted = bcrypt (w.draws + 1) user.password hashed made in
      let own = ==_self user.email in (hashed, new, is, ground arith)
